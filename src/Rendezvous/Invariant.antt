-- ===== src/Rendezvous/Invariant.antt =====
-- What holds of the ranks that call csrc/runtime/Rendezvous.cpp, and what a step of one has to show.
use mccl.Base.{
  ℕ, zero, suc, ◌≤◌, ◌<◌, ◌≡◌, Bool-cases, inl, inr, some, List, [], ◌∷◌, ◌++◌, arith, ◌==◌,
}
use mccl.Rendezvous.{
  Text, Store, Phase, entering, waiting, passed, timed_out, Member, Group, with_member, moved,
  start,
}

abbrev pub entered_of : ℕ → Phase → ℕ
entered_of call entering = call
entered_of call (waiting q got) = suc call
entered_of call (passed got) = suc call
entered_of call (timed_out q) = suc call

-- The number of calls that a rank has entered.
abbrev pub entered : Member → ℕ
entered m = entered_of m.call m.phase

abbrev pub come_through_of : ℕ → Phase → ℕ
come_through_of call (passed got) = suc call
come_through_of call entering = call
come_through_of call (waiting q got) = call
come_through_of call (timed_out q) = call

-- The number of calls that a rank has come through.
abbrev pub come_through : Member → ℕ
come_through m = come_through_of m.call m.phase

module _ (st : Store) (n : ℕ) (key value : ℕ → ℕ → Text) where
  open st use {State, empty, put, lookup, lookup_empty, lookup_put, lookup_put_ne}

  -- The values of the ranks below `q` in a call, in order.
  abbrev pub values : ℕ → ℕ → List Text
  values call zero = []
  values call (suc q) = values call q ++ (value call q ∷ [])

  abbrev pub Seen : (ℕ → Member) → ℕ → Phase → Type 0
  Seen members call entering = Unit
  Seen members call (waiting q got) =
      (q ≤ n) × ((r : ℕ) → r < q → call < entered (members r)) × (got ≡ values call q)
  Seen members call (passed got) =
      ((r : ℕ) → r < n → call < entered (members r)) × (got ≡ values call n)
  Seen members call (timed_out q) = Unit

  abbrev pub StoredBy : State → (ℕ → Member) → Type 0
  StoredBy s members =
      (call r : ℕ) (v : Text)
      → lookup (key call r) s ≡ some v
      → (call < entered (members r)) × (v ≡ value call r)

  pub record Inv (g : Group st n key value) : Type 0 where
    pub stored : StoredBy g.store g.members
    pub seen : (r : ℕ) → Seen g.members (g.members r).call (g.members r).phase
    pub level : (r q : ℕ) → q < n → (g.members r).call ≤ entered (g.members q)

  pub start-Inv : Inv (start st n key value)
  start-Inv = record {
    stored = λ call r v e. let gone = lookup_empty (key call r) in cc;
    seen = λ r. tt;
    level = λ r q h. omega arith;
  }

  Seen-mono :
      (members members' : ℕ → Member) (call : ℕ) (p : Phase)
      → ((r : ℕ) → entered (members r) ≤ entered (members' r))
      → Seen members call p
      → Seen members' call p
  Seen-mono members members' call entering up s = tt
  Seen-mono members members' call (waiting q got) up s =
      (s.0, λ r h. omega (arith, up r, s.1 r h), s.2)
  Seen-mono members members' call (passed got) up s = (λ r h. omega (arith, up r, s.0 r h), s.1)
  Seen-mono members members' call (timed_out q) up s = tt

  module _ (g : Group st n key value) (rank : ℕ) (m : Member) (s : State) (inv : Inv g) where
    unfoldable pub after : ℕ → Member
    after = with_member st n key value g.members rank m

    up : entered (g.members rank) ≤ entered m → (r : ℕ) → entered (g.members r) ≤ entered (after r)
    unfolding after
    up grows r = elim (Bool-cases (r == rank)) [
      | inl same ↦ let e : r ≡ rank = ground arith in rw same (rw e grows)
      | inr other ↦ rw other (omega arith)
    ]

    -- What a step of one rank has to show.
    pub moved-Inv :
        entered (g.members rank) ≤ entered m
        → StoredBy s after
        → Seen g.members m.call m.phase
        → ((q : ℕ) → q < n → m.call ≤ entered (g.members q))
        → Inv (moved st n key value g rank (m, s))
    unfolding after
    moved-Inv grows there sees lev = record {
      stored = there;
      seen = λ r. elim (Bool-cases (r == rank)) [
        | inl same ↦ rw same (Seen-mono g.members after m.call m.phase (up grows) sees)
        | inr other ↦ rw other (
            Seen-mono g.members after (g.members r).call (g.members r).phase (up grows)
              (inv.seen r))
      ];
      level = λ r q h. elim (Bool-cases (r == rank)) [
        | inl same ↦ rw same (omega (arith, lev q h, up grows q))
        | inr other ↦ rw other (omega (arith, inv.level r q h, up grows q))
      ];
    }

    pub kept : entered (g.members rank) ≤ entered m → StoredBy g.store after
    unfolding after
    kept grows call r v e =
        let (h, same) = inv.stored call r v e in (omega (arith, up grows r), same)
