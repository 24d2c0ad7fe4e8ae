-- ===== src/Scheduler/Jobs/Lifecycle.antt =====
-- The places of the jobs of csrc/runtime/Scheduler.cpp: the queue and the active list.
use mccl.Base.{
  ℕ, ◌+◌, ◌^◌, ◌≤◌, ◌<◌, ◌≡◌, refl, ◌⊎◌, inl, inr, Bool, true, false, none, some, List, [], ◌∷◌,
  ◌++◌, arith, ◌==◌, if◌then◌else◌, Option-cases,
}
use mccl.Scheduler.Types.{Job, pending, failed, completed, Scheduler, Config, occurs}
use mccl.Scheduler.Jobs.{init, submit, find_job, erase_job, charge, cancel, complete}

-- Whether the job waits or runs, and in how many places.
abbrev pub places : ℕ → Scheduler → ℕ
places i s = occurs i s.queue + occurs i s.active

pub record IsValid (s : Scheduler) : Type 0 where
  pub once : (i : ℕ) → places i s ≤ 1
  pub fresh : (i : ℕ) → s.next_job_id ≤ i → places i s ≡ 0

pub occurs-append : (i : ℕ) (xs ys : List Job) → occurs i (xs ++ ys) ≡ occurs i xs + occurs i ys
occurs-append i [] ys = omega arith
occurs-append i (x ∷ xs) ys = omega (arith, occurs-append i xs ys)

pub occurs-erase_job :
    (i id : ℕ) (js : List Job) {j : Job}
    → find_job id js ≡ some j
    → (occurs i js ≡ (if id == i then 1 else 0) + occurs i (erase_job id js)) × (j.job_id ≡ id)
unfolding find_job erase_job
occurs-erase_job i id [] h = cc
occurs-erase_job i id (x ∷ js) {j} h = ground (arith, occurs-erase_job i id js {j = j})

pub find_job-none : (id : ℕ) (js : List Job) → find_job id js ≡ none → occurs id js ≡ 0
unfolding find_job
find_job-none id [] h = refl
find_job-none id (x ∷ js) h = ground (arith, find_job-none id js)

-- A scheduler starts with no job.
init-IsValid : (c : Config) → IsValid (init c)
unfolding init
init-IsValid c = record { once = λ i. omega arith; fresh = λ i h. omega arith }

-- A submitted job gets an identifier that no waiting or running job has, waits in one place under it,
-- and moves no other job; the scheduler stays valid. The condition is that the 64-bit counter of
-- identifiers does not wrap.
pub submit-IsValid :
    (now : ℕ) (job : Job) (s : Scheduler)
    → s.next_job_id + 1 < 2 ^ 64
    → IsValid s
    → let (s', id) = submit now job s in
      IsValid s'
      × (places id s ≡ 0)
      × ((i : ℕ) → places i s' ≡ places i s + (if id == i then 1 else 0))
unfolding submit
submit-IsValid now job s small v = (
  record {
    once = λ i. ground (arith, placed i, v.once i, v.fresh i);
    fresh = λ i h. ground (arith, placed i, v.fresh i);
  },
  v.fresh s.next_job_id (omega arith),
  placed,
)
  where
    placed :
        (i : ℕ) → places i (submit now job s).0 ≡ places i s + (if s.next_job_id == i then 1 else 0)
    placed i = ground (
      arith,
      occurs-append i s.queue
          (record job { job_id = s.next_job_id; status = pending; submitted_at_us = now } ∷ []),
    )

-- The ways in which `cancel` ends.
abbrev taken : Bool → ℕ → ℕ → ℕ
taken done id i = if done then (if id == i then 1 else 0) else 0

cancel-places :
    (now id : ℕ) (s : Scheduler)
    → ((i : ℕ) → places i (cancel now id s).0 + taken (cancel now id s).1 id i ≡ places i s)
      × ((cancel now id s).1 ≡ false → places id s ≡ 0)
      × ((cancel now id s).0.next_job_id ≡ s.next_job_id)
unfolding cancel
cancel-places now id s = elim (Option-cases (find_job id s.queue)) [
  | inl q ↦ elim (Option-cases (find_job id s.active)) [
    | inl a ↦ (
      λ i. ground (arith, q, a),
      λ h. omega (arith, find_job-none id s.queue q, find_job-none id s.active a),
      ground (arith, q, a),
    )
    | inr (j, a) ↦ (
      λ i. ground (arith, q, a, occurs-erase_job i id s.active a),
      ground (arith, q, a),
      ground (arith, q, a),
    )
  ]
  | inr (j, q) ↦ (
    λ i. ground (arith, q, occurs-erase_job i id s.queue q),
    ground (arith, q),
    ground (arith, q),
  )
]

-- What it means that a call took the job `id` off its place, if it says so, and moved no other job.
pub record Removes (id : ℕ) (s s' : Scheduler) (done : Bool) : Type 0 where
  pub valid : IsValid s'
  pub found : places id s ≡ (if done then 1 else 0)
  pub left : (i : ℕ) → places i s' ≡ (if id == i then 0 else places i s)

Removes-of_places :
    (id : ℕ) (s s' : Scheduler) (done : Bool)
    → IsValid s
    → ((i : ℕ) → places i s' + taken done id i ≡ places i s)
    → (done ≡ false → places id s ≡ 0)
    → s'.next_job_id ≡ s.next_job_id
    → Removes id s s' done
Removes-of_places id s s' true v count missing e = record {
  valid = record {
    once = λ i. omega (arith, count i, v.once i);
    fresh = λ i h. omega (arith, count i, v.fresh i (omega arith));
  };
  found = ground (arith, count id, v.once id);
  left = λ i. ground (arith, count i, v.once i);
}
Removes-of_places id s s' false v count missing e = record {
  valid = record {
    once = λ i. omega (arith, count i, v.once i);
    fresh = λ i h. omega (arith, count i, v.fresh i (omega arith));
  };
  found = missing refl;
  left = λ i. ground (arith, count i, missing refl);
}

-- `cancel` returns true exactly when the job waits or runs; afterwards the job has no place, every
-- other job is where it was, and the scheduler is valid, as it is taken to be before.
pub cancel-Removes :
    (now id : ℕ) (s : Scheduler) → IsValid s → Removes id s (cancel now id s).0 (cancel now id s).1
cancel-Removes now id s v =
    let p = cancel-places now id s in
    Removes-of_places id s (cancel now id s).0 (cancel now id s).1 v p.0 p.1 p.2

-- `complete` fails on a job that does not run, and changes nothing then. A running job leaves the
-- active list for the end of the history, as completed or failed and with the time of the call; no
-- waiting job and no other running job is moved.
pub complete_lem :
    (now id : ℕ) (success : Bool) (s : Scheduler)
    → ((occurs id s.active ≡ 0) × (complete now id success s ≡ (s, false)))
      ⊎ ((j : Job) × (j.job_id ≡ id)
          × ((complete now id success s).1 ≡ true)
          × ((complete now id success s).0.queue ≡ s.queue)
          × ((complete now id success s).0.history
              ≡ s.history
                ++ (record j {
                  status = if success then completed else failed;
                  completed_at_us = now;
                }
                    ∷ []))
          × ((i : ℕ)
              → occurs i s.active
                ≡ (if id == i then 1 else 0) + occurs i (complete now id success s).0.active))
unfolding complete charge
complete_lem now id success s = elim (Option-cases (find_job id s.active)) [
  | inl a ↦ inl (find_job-none id s.active a, ground (arith, a))
  | inr (j, a) ↦ inr (
    j,
    (occurs-erase_job 0 id s.active a).1,
    ground (arith, a),
    ground (arith, a),
    ground (arith, a),
    λ i. ground (arith, a, occurs-erase_job i id s.active a),
  )
]
