-- ===== src/Rendezvous/Barriers.antt =====
-- The exchange of csrc/backend/PeerMesh.cpp and the barriers of csrc/backend/ProcessGroupMCCL.cpp, by the
-- keys that they set.
use mccl.Base.{ℕ, suc, ◌-◌, ◌≤◌, ◌<◌, ◌≡◌, Bool, List, length}
use mccl.Rendezvous.{Text, Store, waiting, passed, run, start}
use mccl.Rendezvous.Invariant.{entered, come_through, values}
use mccl.Rendezvous.Safety.{run_lem}
use mccl.Rendezvous.Finishing.{own_steps, comes_through}
use mccl.Rendezvous.Keys.{Printer, group_key, group_value, group_key-AreApart}

module _ (st : Store) (pr : Printer) (n : ℕ) (endpoint : ℕ → Text) where
  -- Take the ranks of a process group through any schedule of the steps of its exchange of endpoints and
  -- its barriers, in which a `wait` may give up whenever its key is not there, from a store without their
  -- keys. Each of the `n` ranks has entered at least as many of these calls as any rank has come
  -- through, so none is a whole call ahead; and a rank that has come through its present call has got
  -- what the `n` ranks have set in it, in the order of the ranks.
  pub barrier_lem :
      (schedule : List (ℕ × Bool)) (r q : ℕ)
      → q < n
      → let g =
          run st n
            (group_key pr)
            (group_value endpoint)
            schedule
            (start st n (group_key pr) (group_value endpoint)) in
        (come_through (g.members r) ≤ entered (g.members q))
        × ((got : List Text)
            → (g.members r).phase ≡ passed got
            → got ≡ values st n (group_key pr) (group_value endpoint) (g.members r).call n)
  barrier_lem = run_lem st n (group_key pr) (group_value endpoint) (group_key-AreApart pr)

  -- After any such schedule, a rank that waits in a call that all `n` ranks have entered comes through it
  -- in one own step for each rank that it has not yet looked at and one more, whatever its flags.
  pub barrier_returns :
      (schedule : List (ℕ × Bool)) (r q : ℕ) (got : List Text) (flags : List Bool)
      → let g =
          run st n
            (group_key pr)
            (group_value endpoint)
            schedule
            (start st n (group_key pr) (group_value endpoint)) in
        (g.members r).phase ≡ waiting q got
        → ((p : ℕ) → p < n → (g.members r).call < entered (g.members p))
        → length flags ≡ suc (n - q)
        → come_through
            ((run st n (group_key pr) (group_value endpoint) (own_steps r flags) g).members r)
          ≡ suc (g.members r).call
  barrier_returns = comes_through st n (group_key pr) (group_value endpoint) (group_key-AreApart pr)
