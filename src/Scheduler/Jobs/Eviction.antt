-- ===== src/Scheduler/Jobs/Eviction.antt =====
-- `evict_node` of csrc/runtime/Scheduler.cpp.
use mccl.Base.{
  ℕ, ◌+◌, ◌≡◌, refl, Bool, false, not, List, [], ◌∷◌, arith, if◌then◌else◌, keep_if, All,
}
use mccl.Scheduler.Types.{Job, running, failed, Scheduler, occurs}
use mccl.Scheduler.Jobs.{contains, evict_job, evict_loop, stays_active, evict_node}
use mccl.Scheduler.Jobs.Lifecycle.{occurs-append}

abbrev pub Running : List Job → Type 0
Running = All (λ j. j.status ≡ running)

-- Whether the job runs on the node.
abbrev pub uses_node : ℕ → Job → Bool
uses_node node j = contains node j.assigned_nodes

evict_job_lem :
    (now node i : ℕ) (j : Job) (queue history : List Job)
    → j.status ≡ running
    → let (j', queue', history') = evict_job now node j queue history in
      (stays_active j' ≡ not (uses_node node j))
      × (uses_node node j ≡ false → j' ≡ j)
      × (occurs i queue' + occurs i history'
          ≡ occurs i queue + occurs i history + (if uses_node node j then occurs i (j ∷ []) else 0))
unfolding evict_job
evict_job_lem now node i j queue history h = ground (
  arith,
  occurs-append i history
      (record j { assigned_nodes = []; status = failed; completed_at_us = now } ∷ []),
)

evict_loop_lem :
    (now node i : ℕ) (js queue history : List Job)
    → Running js
    → let (js', queue', history') = evict_loop now node js queue history in
      (keep_if stays_active js' ≡ keep_if (λ j. not (uses_node node j)) js)
      × (occurs i (keep_if stays_active js') + (occurs i queue' + occurs i history')
          ≡ occurs i js + (occurs i queue + occurs i history))
unfolding evict_loop
evict_loop_lem now node i [] queue history r = (refl, refl)
evict_loop_lem now node i (j ∷ js) queue history r =
    let one = evict_job now node j queue history in
    let here = evict_job_lem now node i j queue history r.0 in
    let rest = evict_loop_lem now node i js one.1 one.2 r.1 in ground (arith, here, rest)

-- The failed node's jobs leave the active list, each for the queue or for the history; the jobs that
-- keep running are those that did not use the node, unchanged and in their order. No job is lost or
-- doubled. The condition is that the jobs of the active list have the status of running jobs.
pub evict_node_lem :
    (now node : ℕ) (s : Scheduler)
    → Running s.active
    → let s' = evict_node now node s in
      (s'.active ≡ keep_if (λ j. not (uses_node node j)) s.active)
      × ((i : ℕ)
          → occurs i s'.active + (occurs i s'.queue + occurs i s'.history)
            ≡ occurs i s.active + (occurs i s.queue + occurs i s.history))
unfolding evict_node
evict_node_lem now node s r = (
  (evict_loop_lem now node 0 s.active s.queue s.history r).0,
  λ i. (evict_loop_lem now node i s.active s.queue s.history r).1,
)
