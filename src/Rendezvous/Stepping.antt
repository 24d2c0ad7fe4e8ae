-- ===== src/Rendezvous/Stepping.antt =====
-- Each step of a rank in csrc/runtime/Rendezvous.cpp keeps the invariant.
use mccl.Base.{
  ℕ, suc, ◌+◌, ◌≤◌, ◌<◌, ◌≡◌, ◌≢◌, refl, sym, ap, ◌∙◌, subst, Bool, true, false, Bool-cases,
  Option-cases, inl, inr, none, List, [], ◌∷◌, ◌++◌, arith, ltb, ◌==◌,
}
use mccl.Rendezvous.{
  Text, Store, Phase, entering, waiting, passed, timed_out, Member, got_answer, loop_round,
  step_phase, Group, moved, step,
}
use mccl.Rendezvous.Invariant.{
  entered_of, entered, values, Seen, StoredBy, Inv, after, moved-Inv, kept,
}

module _ (st : Store) (n : ℕ) (key value : ℕ → ℕ → Text) where
  open st use {State, empty, put, lookup, lookup_empty, lookup_put, lookup_put_ne}

  module _ (apart : (call r call' r' : ℕ) → key call r ≡ key call' r' → (call ≡ call') × (r ≡ r'))
      (g : Group st n key value) (rank : ℕ) (inv : Inv st n key value g) where
    own : ℕ
    own = (g.members rank).call

    put_here :
        (g.members rank).phase ≡ entering
        → StoredBy st n key value
            (put (key own rank) (value own rank) g.store)
            (after st n key value g rank (record { call = own; phase = waiting 0 [] }) g.store inv)
    unfolding after own
    put_here enters call r v e =
        let before = ap (entered_of (g.members rank).call) enters in
        let m : Member = record { call = own; phase = waiting 0 [] } in
        let older = λ (other : key own rank ≢ key call r).
          kept st n key value g rank m g.store inv (omega arith) call r v
            (sym (lookup_put_ne (key own rank) (key call r) (value own rank) g.store other) ∙ e) in
        let set_now = lookup_put (key own rank) (value own rank) g.store in
        elim (Bool-cases (r == rank)) [
          | inl same_rank ↦ elim (Bool-cases (call == own)) [
            | inl same_call ↦
                let r_eq : r ≡ rank = ground arith in
                let call_eq : call ≡ own = ground arith in rw same_rank (omega arith, cc)
            | inr other ↦ older (λ k. let same = (apart own rank call r k).0 in ground arith)
          ]
          | inr other ↦ older (λ k. let same = (apart own rank call r k).1 in ground arith)
        ]

    round_moves :
        (p p' : Phase)
        → (g.members rank).phase ≡ p
        → entered_of own p ≤ entered_of own p'
        → Seen st n key value g.members own p'
        → Inv st n key value
            (moved st n key value g rank (record { call = own; phase = p' }, g.store))
    unfolding own
    round_moves p p' e grows sees =
        let before = ap (entered_of (g.members rank).call) e in
        let m : Member = record { call = own; phase = p' } in
        moved-Inv st n key value g rank m g.store inv (omega arith)
          (kept st n key value g rank m g.store inv (omega arith)) sees (λ q h. inv.level rank q h)

    SeenRound : ℕ → List Text → Type 0
    SeenRound q got = Seen st n key value g.members own (waiting q got)

    next_seen :
        (q : ℕ) (got : List Text) (v : Text)
        → q < n
        → SeenRound q got
        → own < entered (g.members q)
        → v ≡ value own q
        → SeenRound (suc q) (got ++ (v ∷ []))
    unfolding SeenRound
    next_seen q got v below sees inside same = (
      omega arith,
      λ r h. elim (Bool-cases (r == q)) [
        | inl last ↦ let e : r ≡ q = ground arith in rw e inside
        | inr other ↦ sees.1 r (ground arith)
      ],
      cc (sees.2, same),
    )

    not_there :
        (q : ℕ) (got : List Text) (gives_up : Bool)
        → (g.members rank).phase ≡ waiting q got
        → SeenRound q got
        → Inv st n key value (
            moved st n key value g rank
              (record { call = own; phase = got_answer q got gives_up none }, g.store))
    unfolding SeenRound
    not_there q got true e sees = round_moves _ (timed_out q) e (omega arith) tt
    not_there q got false e sees = round_moves _ (waiting q got) e (omega arith) sees

    loop_round-Inv :
        (q : ℕ) (got : List Text) (gives_up : Bool)
        → (g.members rank).phase ≡ waiting q got
        → Inv st n key value (
            moved st n key value g rank (
              record {
                call = own;
                phase = loop_round st n key value own rank q got gives_up g.store;
              },
              g.store,
            ))
    unfolding loop_round own SeenRound
    loop_round-Inv q got gives_up e =
        let sees : Seen st n key value g.members own (waiting q got) =
          subst (Seen st n key value g.members own) e (inv.seen rank) in
        let before = ap (entered_of (g.members rank).call) e in
        elim (Bool-cases (ltb q n)) [
          | inr done ↦
              let full : q ≡ n = ground (arith, sees.0) in
              rw done (
                round_moves _ (passed got) e (omega arith)
                  (λ r h. sees.1 r (omega arith), sees.2 ∙ ap (values st n key value own) full))
          | inl more ↦ elim (Bool-cases (q == rank)) [
            | inl self ↦
                let mine : q ≡ rank = ground arith in
                rw (more, self)
                  (round_moves _ (waiting (suc q) (got ++ (value own rank ∷ []))) e (omega arith) (
                    next_seen q got (value own rank) (ground arith) sees (rw mine (omega arith))
                      (ap (value own) (sym mine))))
            | inr peer ↦
                rw (more, peer)
                  (elim (Option-cases (lookup (key own q) g.store)) [
                    | inr (v, there) ↦
                        let (inside, same) = inv.stored own q v there in
                        rw there (
                          round_moves _ (waiting (suc q) (got ++ (v ∷ []))) e (omega arith)
                            (next_seen q got v (ground arith) sees inside same))
                    | inl missing ↦ rw missing (not_there q got gives_up e sees)
                  ])
          ]
        ]

    step_phase-Inv :
        (p : Phase) (gives_up : Bool)
        → (g.members rank).phase ≡ p
        → Inv st n key value
            (moved st n key value g rank (step_phase st n key value own rank gives_up p g.store))
    unfolding step_phase own after
    step_phase-Inv entering gives_up e =
        let before = ap (entered_of (g.members rank).call) e in
        moved-Inv st n key value g rank (record { call = own; phase = waiting 0 [] }) _ inv
          (omega arith) (put_here e) (omega arith, (λ r h. absurd (omega arith)), refl)
          (λ q h. inv.level rank q h)
    step_phase-Inv (waiting q got) gives_up e = loop_round-Inv q got gives_up e
    step_phase-Inv (passed got) gives_up e =
        let before = ap (entered_of (g.members rank).call) e in
        let sees : Seen st n key value g.members own (passed got) =
          subst (Seen st n key value g.members own) e (inv.seen rank) in
        moved-Inv st n key value g rank (record { call = own + 1; phase = entering }) g.store inv
          (omega arith)
          (kept st n key value g rank (record { call = own + 1; phase = entering }) g.store inv
            (omega arith))
          tt (λ q h. omega (arith, sees.0 q h))
    step_phase-Inv (timed_out q) gives_up e =
        let before = ap (entered_of (g.members rank).call) e in
        moved-Inv st n key value g rank (record { call = own; phase = timed_out q }) g.store inv
          (omega arith)
          (kept st n key value g rank (record { call = own; phase = timed_out q }) g.store inv
            (omega arith))
          tt (λ q' h. inv.level rank q' h)

    pub step-Inv : (gives_up : Bool) → Inv st n key value (step st n key value (rank, gives_up) g)
    unfolding step own
    step-Inv gives_up = step_phase-Inv (g.members rank).phase gives_up refl
