-- ===== src/Scheduler/Tick/Preemption.antt =====
-- The preemption of `schedule_tick` in csrc/runtime/Scheduler.cpp.
use mccl.Base.{
  ℕ, ◌≡◌, refl, inl, inr, Bool, true, false, not, ◌&&◌, ◌||◌, none, some, List, [], ◌∷◌, arith, leb,
  Bool-cases, keep_if, All,
}
use mccl.Scheduler.Types.{Job, high, rank, rescheduling, NodeLoad}
use mccl.Scheduler.Allocation.{can_allocate}
use mccl.Scheduler.Tick.{
  Round, no_job, has_nodes, is_victim, find_victim, preempt_job, preempt_loop,
}

abbrev pub any_job : (Job → Bool) → List Job → Bool
any_job p [] = false
any_job p (j ∷ js) = p j || any_job p js

abbrev pub HaveNodes : List Job → Type 0
HaveNodes = All (λ j. has_nodes j ≡ true)

keep_if_all : (js : List Job) → HaveNodes js → keep_if has_nodes js ≡ js
keep_if_all [] h = refl
keep_if_all (j ∷ js) h = ground (arith, keep_if_all js h.1)

find_victim-any :
    (n : ℕ) (js : List Job) → any_job (is_victim n) js ≡ false → find_victim n js ≡ none
unfolding find_victim
find_victim-any n [] h = refl
find_victim-any n (j ∷ js) h = ground (arith, find_victim-any n js)

find_victim-some :
    (n : ℕ) (js : List Job)
    → any_job (is_victim n) js ≡ true
    → (v : Job) × (rest : List Job) × (find_victim n js ≡ some (v, rest))
unfolding find_victim
find_victim-some n [] h = cc
find_victim-some n (j ∷ js) h = elim (Bool-cases (is_victim n j)) [
  | inl e ↦ (j, no_job ∷ js, ground (arith, e))
  | inr e ↦
      let (v, rest, f) = find_victim-some n js (ground (arith, e)) in
      (v, j ∷ rest, ground (arith, e, f))
]

module _ (cap : ℕ) (online : List ℕ) (clock : ℕ → ℕ) where
  -- Whether a waiting job would evict one of the active jobs: it is of high priority at least, the nodes
  -- have no room for it, and a job of low priority has as many nodes as it requests.
  abbrev pub preempts : List Job → List NodeLoad → Job → Bool
  preempts active loads j =
      leb (rank high) (rank j.priority)
      && not (can_allocate cap j online loads)
      && any_job (is_victim j.requested_nodes) active

  preempt_job_idle :
      (j : Job) (r : Round)
      → HaveNodes r.active
      → preempts r.active r.loads j ≡ false
      → r.queue ≡ []
      → preempt_job cap online clock j r ≡ (j, r)
  unfolding preempt_job
  preempt_job_idle j r h e empty =
      let same = keep_if_all r.active h in
      ground (arith, same, find_victim-any j.requested_nodes r.active)

  preempt_job_pushes :
      (j : Job) (r : Round)
      → preempts r.active r.loads j ≡ true
      → (v : Job) × (vs : List Job) × ((preempt_job cap online clock j r).1.queue ≡ v ∷ vs)
  unfolding preempt_job
  preempt_job_pushes j r e =
      let (v, rest, f) = find_victim-some j.requested_nodes r.active (ground (arith, e)) in
      (record v { status = rescheduling }, r.queue, ground (arith, e, f))

  -- As long as no job preempts, the loop leaves the jobs and the state as they are.
  pub preempt_loop_idle :
      (js : List Job) (r : Round)
      → HaveNodes r.active
      → r.queue ≡ []
      → any_job (preempts r.active r.loads) js ≡ false
      → preempt_loop cap online clock js r ≡ some (js, r)
  unfolding preempt_loop
  preempt_loop_idle [] r h empty e = refl
  preempt_loop_idle (j ∷ js) r h empty e =
      let here = preempt_job_idle j r h (ground (arith, e)) empty in
      let rest = preempt_loop_idle js r h empty (ground (arith, e)) in
      ground (arith, here, empty, rest)

  -- The first job that preempts makes the loop undefined.
  pub preempt_loop_undefined :
      (js : List Job) (r : Round)
      → HaveNodes r.active
      → r.queue ≡ []
      → any_job (preempts r.active r.loads) js ≡ true
      → preempt_loop cap online clock js r ≡ none
  unfolding preempt_loop
  preempt_loop_undefined [] r h empty e = cc
  preempt_loop_undefined (j ∷ js) r h empty e = elim (Bool-cases (preempts r.active r.loads j)) [
    | inl now ↦ let (v, vs, pushed) = preempt_job_pushes j r now in ground (arith, pushed)
    | inr not_yet ↦
        let here = preempt_job_idle j r h not_yet empty in
        let rest = preempt_loop_undefined js r h empty (ground (arith, e, not_yet)) in
        ground (arith, here, empty, rest)
  ]
