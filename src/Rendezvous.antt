-- ===== src/Rendezvous.antt =====
-- csrc/runtime/Rendezvous.cpp, the barrier of csrc/backend/ProcessGroupMCCL.cpp and the exchange of
-- endpoints in csrc/backend/PeerMesh.cpp. The store that the ranks share is a parameter, and so is the
-- text of a number.
pub mod Invariant
pub mod Stepping
pub mod Safety
pub mod Finishing
pub mod Keys
pub mod Barriers
mod Tests
use mccl.Base.{
  ℕ, zero, suc, ◌+◌, ◌<◌, ◌≡◌, ◌≢◌, Bool, true, false, Option, none, some, List, [], ◌∷◌, ◌++◌, ltb,
  ◌==◌, if◌then◌else◌,
}

abbrev pub Text : Type 0
Text = List ℕ

-- What is relied on of the store: a key gives what was last set for it, and a key that was never set is
-- not there. A `wait` returns once the key is there, or throws.
pub record Store : Type 1 where
  pub State : Type 0
  pub empty : State
  pub put : Text → Text → State → State
  pub lookup : Text → State → Option Text
  pub lookup_empty : (k : Text) → lookup k empty ≡ none
  pub lookup_put : (k v : Text) (s : State) → lookup k (put k v s) ≡ some v
  pub lookup_put_ne : (k j v : Text) (s : State) → k ≢ j → lookup j (put k v s) ≡ lookup j s

-- Where a rank stands in a call of `exchange_endpoints` or `barrier`: before the `set`, in the loop at the
-- rank `r` with the values got so far, past the loop, or out with the exception for the rank `r`.
pub data Phase : Type 0 where
  entering : Phase
  waiting : (r : ℕ) (got : List Text) → Phase
  passed : (got : List Text) → Phase
  timed_out : (r : ℕ) → Phase

-- A rank is in its call number `call`.
pub record Member : Type 0 where
  pub call : ℕ
  pub phase : Phase

-- `wait` and `get` of the value of the rank `q`; `gives_up` says whether a `wait` ends without the key.
abbrev pub got_answer : ℕ → List Text → Bool → Option Text → Phase
got_answer q got gives_up (some v) = waiting (suc q) (got ++ (v ∷ []))
got_answer q got true none = timed_out q
got_answer q got false none = waiting q got

module _ (st : Store) (n : ℕ) (key value : ℕ → ℕ → Text) where
  open st use {State, empty, put, lookup}

  unfoldable pub loop_round : (call rank q : ℕ) (got : List Text) (gives_up : Bool) → State → Phase
  loop_round call rank q got gives_up s =
      if ltb q n
      then (if q == rank
          then waiting (suc q) (got ++ (value call rank ∷ []))
          else got_answer q got gives_up (lookup (key call q) s))
      else passed got

  -- One step of a rank. After a call comes the next one; an exception ends the rank.
  unfoldable pub step_phase : (call rank : ℕ) (gives_up : Bool) → Phase → State → Member × State
  unfolding loop_round
  step_phase call rank gives_up entering s =
      (record { call = call; phase = waiting 0 [] }, put (key call rank) (value call rank) s)
  step_phase call rank gives_up (waiting q got) s =
      (record { call = call; phase = loop_round call rank q got gives_up s }, s)
  step_phase call rank gives_up (passed got) s = (record { call = call + 1; phase = entering }, s)
  step_phase call rank gives_up (timed_out q) s = (record { call = call; phase = timed_out q }, s)

  pub record Group : Type 0 where
    pub store : State
    pub members : ℕ → Member

  abbrev pub with_member : (ℕ → Member) → ℕ → Member → ℕ → Member
  with_member members rank m r = if r == rank then m else members r

  abbrev pub moved : Group → ℕ → Member × State → Group
  moved g rank (m, s) = record { store = s; members = with_member g.members rank m }

  -- A step of the rank.
  unfoldable pub step : ℕ × Bool → Group → Group
  unfolding step_phase
  step (rank, gives_up) g =
      moved g rank (step_phase (g.members rank).call rank gives_up (g.members rank).phase g.store)

  -- A schedule: the ranks that step, each with whether a `wait` of it gives up.
  unfoldable pub run : List (ℕ × Bool) → Group → Group
  unfolding step
  run [] g = g
  run (e ∷ schedule) g = run schedule (step e g)

  abbrev pub start : Group
  start = record { store = empty; members = λ r. record { call = 0; phase = entering } }
