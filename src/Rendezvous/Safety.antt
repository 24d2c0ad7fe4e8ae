-- ===== src/Rendezvous/Safety.antt =====
-- No rank leaves a barrier or an exchange of csrc/runtime/Rendezvous.cpp before all have entered it.
use mccl.Base.{ℕ, ◌≤◌, ◌<◌, ◌≡◌, subst, Bool, List, [], ◌∷◌}
use mccl.Rendezvous.{
  Text, Store, Phase, entering, waiting, passed, timed_out, Member, Group, step, run, start,
}
use mccl.Rendezvous.Invariant.{entered, come_through_of, come_through, values, Seen, Inv, start-Inv}
use mccl.Rendezvous.Stepping.{step-Inv}

-- Keys of different calls or ranks are different.
abbrev pub AreApart : (ℕ → ℕ → Text) → Type 0
AreApart key = (call r call' r' : ℕ) → key call r ≡ key call' r' → (call ≡ call') × (r ≡ r')

module _ (st : Store) (n : ℕ) (key value : ℕ → ℕ → Text) (apart : AreApart key) where
  pub run-Inv :
      (schedule : List (ℕ × Bool)) (g : Group st n key value)
      → Inv st n key value g
      → Inv st n key value (run st n key value schedule g)
  unfolding run
  run-Inv [] g inv = inv
  run-Inv ((rank, gives_up) ∷ schedule) g inv =
      run-Inv schedule (step st n key value (rank, gives_up) g)
        (step-Inv st n key value apart g rank inv gives_up)

  through :
      (members : ℕ → Member) (call q : ℕ) (p : Phase)
      → q < n
      → Seen st n key value members call p
      → call ≤ entered (members q)
      → come_through_of call p ≤ entered (members q)
  through members call q entering below sees lev = lev
  through members call q (waiting r got) below sees lev = lev
  through members call q (passed got) below sees lev = sees.0 q below
  through members call q (timed_out r) below sees lev = lev

  -- Take the ranks through any schedule of their steps, in which a `wait` may give up whenever its key is
  -- not there, from a store without their keys. A rank of the group has entered at least as many
  -- calls as any rank has come through, and a rank that has come through its present call has got the
  -- values that the ranks of the group have set in this call, in the order of the ranks.
  pub run_lem :
      (schedule : List (ℕ × Bool)) (r q : ℕ)
      → q < n
      → let g = run st n key value schedule (start st n key value) in
        (come_through (g.members r) ≤ entered (g.members q))
        × ((got : List Text)
            → (g.members r).phase ≡ passed got
            → got ≡ values st n key value (g.members r).call n)
  run_lem schedule r q below =
      let g = run st n key value schedule (start st n key value) in
      let inv = run-Inv schedule (start st n key value) (start-Inv st n key value) in
      (
        through g.members (g.members r).call q (g.members r).phase below (inv.seen r)
            (inv.level r q below),
        λ got e. (subst (Seen st n key value g.members (g.members r).call) e (inv.seen r)).1,
      )
