-- ===== src/Rendezvous/Finishing.antt =====
-- A rank of csrc/runtime/Rendezvous.cpp that all others have joined comes through.
use mccl.Base.{
  ℕ, suc, ◌-◌, ◌≤◌, ◌<◌, ◌≡◌, refl, sym, ap, ap₂, ◌∙◌, subst, Bool, Bool-cases, inl, inr, some,
  List, [], ◌∷◌, ◌++◌, arith, ltb, ◌==◌, ==_self, if◌then◌else◌, map, length,
}
use mccl.Rendezvous.{
  Text, Store, Phase, entering, waiting, passed, timed_out, Member, loop_round, step_phase, Group,
  moved, step, run, start,
}
use mccl.Rendezvous.Invariant.{entered_of, entered, come_through_of, come_through, Seen, start-Inv}
use mccl.Rendezvous.Safety.{AreApart, run-Inv}

-- Steps of one rank, with whether a `wait` of it gives up.
abbrev pub own_steps : ℕ → List Bool → List (ℕ × Bool)
own_steps r = map (λ gives_up. (r, gives_up))

module _ (st : Store) (n : ℕ) (key value : ℕ → ℕ → Text) (apart : AreApart key) where
  open st use {State, empty, put, lookup, lookup_put, lookup_put_ne}

  -- What a rank has set in the calls that it has entered is there.
  abbrev Present : Group st n key value → Type 0
  Present g =
      (call r : ℕ)
      → call < entered (g.members r)
      → lookup (key call r) g.store ≡ some (value call r)

  still_there :
      (s : State) (call r c q : ℕ)
      → lookup (key call r) s ≡ some (value call r)
      → lookup (key call r) (put (key c q) (value c q) s) ≡ some (value call r)
  still_there s call r c q e =
      let new = lookup_put (key c q) (value c q) s in
      let old = lookup_put_ne (key c q) (key call r) (value c q) s in
      elim (Bool-cases (c == call)) [
        | inl same_call ↦ elim (Bool-cases (q == r)) [
          | inl same_rank ↦
              let call_eq : c ≡ call = ground arith in let rank_eq : q ≡ r = ground arith in cc
          | inr other ↦ old (λ k. let same = (apart c q call r k).1 in ground arith) ∙ e
        ]
        | inr other ↦ old (λ k. let same = (apart c q call r k).0 in ground arith) ∙ e
      ]

  module _ (g : Group st n key value) (rank : ℕ) (h : Present g) where
    same_store :
        (m : Member)
        → entered m ≤ entered (g.members rank)
        → Present (moved st n key value g rank (m, g.store))
    same_store m less call r inside = elim (Bool-cases (r == rank)) [
      | inl same ↦
          let e : r ≡ rank = ground arith in
          let was : call < entered m =
            subst (λ b. call < entered (if b then m else g.members r)) same inside in
          h call r (rw e (omega arith))
      | inr other ↦
          h call r (subst (λ b. call < entered (if b then m else g.members r)) other inside)
    ]

    set_key :
        (g.members rank).phase ≡ entering
        → Present (
            moved st n key value g rank (
              record { call = (g.members rank).call; phase = waiting 0 [] },
              put (key (g.members rank).call rank) (value (g.members rank).call rank) g.store,
            ))
    set_key e call r inside =
        let own : ℕ = (g.members rank).call in
        let m : Member = record { call = own; phase = waiting 0 [] } in
        let before = ap (entered_of own) e in
        elim (Bool-cases (r == rank)) [
          | inl same ↦
              let rank_eq : r ≡ rank = ground arith in
              let was : call < entered m =
                subst (λ b. call < entered (if b then m else g.members r)) same inside in
              elim (Bool-cases (call == own)) [
                | inl now ↦
                    let call_eq : call ≡ own = ground arith in
                    let new = lookup_put (key own rank) (value own rank) g.store in cc
                | inr earlier ↦
                    still_there g.store call r own rank (h call r (rw rank_eq (ground arith)))
              ]
          | inr other ↦
              still_there g.store call r own rank
                (h call r (subst (λ b. call < entered (if b then m else g.members r)) other inside))
        ]

    entered_of-le : (call : ℕ) (p : Phase) → entered_of call p ≤ suc call
    entered_of-le call entering = omega arith
    entered_of-le call (waiting q got) = omega arith
    entered_of-le call (passed got) = omega arith
    entered_of-le call (timed_out q) = omega arith

    step_phase-Present :
        (gives_up : Bool) (p : Phase)
        → (g.members rank).phase ≡ p
        → Present (
            moved st n key value g rank
              (step_phase st n key value (g.members rank).call rank gives_up p g.store))
    unfolding step_phase
    step_phase-Present gives_up entering e = set_key e
    step_phase-Present gives_up (waiting q got) e =
        let before = ap (entered_of (g.members rank).call) e in
        same_store _ (
          omega (
            arith,
            entered_of-le (g.members rank).call
                (loop_round st n key value (g.members rank).call rank q got gives_up g.store),
          ))
    step_phase-Present gives_up (passed got) e =
        let before = ap (entered_of (g.members rank).call) e in same_store _ (omega arith)
    step_phase-Present gives_up (timed_out q) e =
        let before = ap (entered_of (g.members rank).call) e in same_store _ (omega arith)

  run-Present :
      (schedule : List (ℕ × Bool)) (g : Group st n key value)
      → Present g
      → Present (run st n key value schedule g)
  unfolding run step
  run-Present [] g h = h
  run-Present ((rank, gives_up) ∷ schedule) g h =
      run-Present schedule (step st n key value (rank, gives_up) g)
        (step_phase-Present g rank h gives_up (g.members rank).phase refl)

  -- The value of every rank in a call is there.
  abbrev AllThere : ℕ → State → Type 0
  AllThere call s = (q : ℕ) → q < n → lookup (key call q) s ≡ some (value call q)

  round_there :
      (call r q : ℕ) (got : List Text) (gives_up : Bool) (s : State)
      → q < n
      → AllThere call s
      → (got' : List Text) × (loop_round st n key value call r q got gives_up s
          ≡ waiting (suc q) got')
  unfolding loop_round
  round_there call r q got gives_up s below there = elim (Bool-cases (q == r)) [
    | inl self ↦ (got ++ (value call r ∷ []), ground arith)
    | inr peer ↦ (got ++ (value call q ∷ []), ground (arith, there q below))
  ]

  length_zero : (flags : List Bool) → length flags ≡ 0 → flags ≡ []
  length_zero [] e = refl
  length_zero (f ∷ flags) e = absurd (omega arith)

  own_round :
      (r call q : ℕ) (got : List Text) (flag : Bool) (g : Group st n key value)
      → (g.members r).call ≡ call
      → (g.members r).phase ≡ waiting q got
      → let g' = step st n key value (r, flag) g in
        (g'.members r
          ≡ record { call = call; phase = loop_round st n key value call r q got flag g.store })
        × (g'.store ≡ g.store)
  unfolding step step_phase
  own_round r call q got flag g c e =
      let both : step_phase st n key value (g.members r).call r flag (g.members r).phase g.store
          ≡ step_phase st n key value call r flag (waiting q got) g.store =
        ap₂ (λ c' p. step_phase st n key value c' r flag p g.store) c e in
      (rw (==_self r) (ap (λ x. x.0) both), ap (λ x. x.1) both)

  spin :
      (r call : ℕ) (flags : List Bool) (q : ℕ) (got : List Text) (g : Group st n key value)
      → (g.members r).call ≡ call
      → (g.members r).phase ≡ waiting q got
      → AllThere call g.store
      → q ≤ n
      → length flags ≡ suc (n - q)
      → come_through ((run st n key value (own_steps r flags) g).members r) ≡ suc call
  unfolding run loop_round
  spin r call [] q got g c e there within enough = absurd (omega arith)
  spin r call (flag ∷ flags) q got g c e there within enough =
      let (now, kept) = own_round r call q got flag g c e in
      let g' = step st n key value (r, flag) g in
      elim (Bool-cases (ltb q n)) [
        | inl more ↦
            let (got', next) = round_there call r q got flag g.store (ground arith) there in
            spin r call flags (suc q) got' g' (ap (λ m. m.call) now) (ap (λ m. m.phase) now ∙ next)
              (subst (AllThere call) (sym kept) there) (ground arith) (ground arith)
        | inr done ↦
            let none_left : length flags ≡ 0 = ground arith in
            let passes : loop_round st n key value call r q got flag g.store ≡ passed got =
              rw done refl in
            rw (length_zero flags none_left)
              (ap (λ m. come_through_of m.call m.phase) now ∙ ap (come_through_of call) passes)
      ]

  -- From the start, after any schedule: a rank that waits in a call that all ranks of the group have
  -- entered comes through with one step for each rank that it has not yet looked at and one more,
  -- whatever its flags.
  pub comes_through :
      (schedule : List (ℕ × Bool)) (r q : ℕ) (got : List Text) (flags : List Bool)
      → let g = run st n key value schedule (start st n key value) in
        (g.members r).phase ≡ waiting q got
        → ((p : ℕ) → p < n → (g.members r).call < entered (g.members p))
        → length flags ≡ suc (n - q)
        → come_through ((run st n key value (own_steps r flags) g).members r)
          ≡ suc (g.members r).call
  comes_through schedule r q got flags e joined enough =
      let g = run st n key value schedule (start st n key value) in
      let there = run-Present schedule (start st n key value) (λ call p h. absurd (omega arith)) in
      let inv =
        run-Inv st n key value apart schedule (start st n key value) (start-Inv st n key value) in
      let sees : Seen st n key value g.members (g.members r).call (waiting q got) =
        subst (Seen st n key value g.members (g.members r).call) e (inv.seen r) in
      spin r (g.members r).call flags q got g refl e
        (λ p h. there (g.members r).call p (joined p h)) sees.0 enough
