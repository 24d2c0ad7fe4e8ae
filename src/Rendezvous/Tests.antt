-- ===== src/Rendezvous/Tests.antt =====
-- The theorems on csrc/runtime/Rendezvous.cpp at two ranks, with a store that is a function.
use mccl.Base.{
  ℕ, zero, suc, ◌≤◌, ◌<◌, ◌≡◌, ◌≢◌, refl, ap, Bool, true, false, Bool-cases, inl, inr, Option, none,
  some, List, [], ◌∷◌, arith, if◌then◌else◌, All,
}
use mccl.Mesh.Interfaces.{same_text}
use mccl.Rendezvous.{Text, Store, waiting, passed, run, start}
use mccl.Rendezvous.Invariant.{entered, come_through, values}
use mccl.Rendezvous.Finishing.{own_steps}
use mccl.Rendezvous.Keys.{Printer, slash, group_key, group_value}
use mccl.Rendezvous.Barriers.{barrier_lem, barrier_returns}

same_text_self : (s : Text) → same_text s s ≡ true
unfolding same_text
same_text_self [] = refl
same_text_self (c ∷ s) = ground (arith, same_text_self s)

same_text-eq : (s t : Text) → same_text s t ≡ true → s ≡ t
unfolding same_text
same_text-eq [] [] e = refl
same_text-eq [] (d ∷ t) e = cc
same_text-eq (c ∷ s) [] e = cc
same_text-eq (c ∷ s) (d ∷ t) e = ground (arith, same_text-eq s t)

abbrev put_text : Text → Text → (Text → Option Text) → Text → Option Text
unfolding same_text
put_text k v s j = if same_text k j then some v else s j

put_text_self : (k v : Text) (s : Text → Option Text) → put_text k v s k ≡ some v
unfolding put_text
put_text_self k v s = rw (same_text_self k) refl

put_text_ne : (k j v : Text) (s : Text → Option Text) → k ≢ j → put_text k v s j ≡ s j
unfolding put_text
put_text_ne k j v s h = elim (Bool-cases (same_text k j)) [
  | inl same ↦ absurd (h (same_text-eq k j same))
  | inr other ↦ rw other refl
]

abbrev texts : Store
texts = record {
  State = Text → Option Text;
  empty = λ k. none;
  put = put_text;
  lookup = λ k s. s k;
  lookup_empty = λ k. refl;
  lookup_put = put_text_self;
  lookup_put_ne = put_text_ne;
}

abbrev tally : ℕ → Text
tally zero = []
tally (suc n) = b'1' ∷ tally n

tally_inj : (a b : ℕ) → tally a ≡ tally b → a ≡ b
tally_inj zero zero e = refl
tally_inj zero (suc b) e = cc
tally_inj (suc a) zero e = cc
tally_inj (suc a) (suc b) e = ap suc (tally_inj a b (cc))

tally_no_slash : (a : ℕ) → All (λ c. c ≢ slash) (tally a)
tally_no_slash zero = tt
tally_no_slash (suc a) = (λ e. absurd (omega arith), tally_no_slash a)

abbrev printer : Printer
printer = record { to_string = tally; to_string_inj = tally_inj; no_slash = tally_no_slash }

abbrev endpoints : ℕ → Text
endpoints r = r ∷ []

-- Rank 0 enters and looks at itself, then rank 1 enters and comes through.
abbrev schedule : List (ℕ × Bool)
schedule = (0, false) ∷ ((0, false) ∷ ((1, false) ∷ ((1, true) ∷ ((1, true) ∷ ((1, true) ∷ [])))))

barrier_lem_example :
    let g =
      run texts 2
        (group_key printer)
        (group_value endpoints)
        schedule
        (start texts 2 (group_key printer) (group_value endpoints)) in
    (come_through (g.members 1) ≤ entered (g.members 0))
    × ((got : List Text)
        → (g.members 1).phase ≡ passed got
        → got ≡ values texts 2 (group_key printer) (group_value endpoints) (g.members 1).call 2)
barrier_lem_example = barrier_lem texts printer 2 endpoints schedule 1 0 (omega arith)

passed_both :
    (run texts 2
        (group_key printer)
        (group_value endpoints)
        schedule
        (start texts 2 (group_key printer) (group_value endpoints))).members
      1
    ≡ record { call = 0; phase = passed ((0 ∷ []) ∷ ((1 ∷ []) ∷ [])) }
unfolding run group_key group_value put_text
passed_both = refl

-- Rank 0 has entered and waits at itself, and rank 1 has entered.
abbrev joined : List (ℕ × Bool)
joined = (0, false) ∷ ((1, false) ∷ [])

both_joined :
    (p : ℕ)
    → p < 2
    → 0
      < entered (
          (run texts 2
              (group_key printer)
              (group_value endpoints)
              joined
              (start texts 2 (group_key printer) (group_value endpoints))).members
            p)
unfolding run
both_joined zero h = omega arith
both_joined (suc zero) h = omega arith
both_joined (suc (suc p)) h = absurd (omega arith)

waits_at_first :
    ((run texts 2
        (group_key printer)
        (group_value endpoints)
        joined
        (start texts 2 (group_key printer) (group_value endpoints))).members
      0).phase
    ≡ waiting 0 []
unfolding run
waits_at_first = refl

barrier_returns_example :
    let g =
      run texts 2
        (group_key printer)
        (group_value endpoints)
        joined
        (start texts 2 (group_key printer) (group_value endpoints)) in
    come_through (
      (run texts 2
          (group_key printer)
          (group_value endpoints)
          (own_steps 0 (true ∷ (true ∷ (true ∷ []))))
          g).members
        0)
    ≡ suc (g.members 0).call
unfolding run group_key group_value
barrier_returns_example =
    barrier_returns texts printer 2 endpoints joined 0 0 [] (true ∷ (true ∷ (true ∷ [])))
      waits_at_first both_joined (omega arith)
