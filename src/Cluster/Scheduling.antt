-- ===== src/Cluster/Scheduling.antt =====
-- The scheduler's rounds in csrc/runtime/ClusterManager.cpp.
use mathlib.Core.List.{Perm}
use Prim.Native.String.{String}
use mccl.Base.{
  inl, inr, ℕ, ◌+◌, ◌^◌, ◌<◌, ◌≡◌, refl, ap, ◌∙◌, Bool, true, false, some, List, [], ◌∷◌, ◌++◌,
  arith, ◌==◌, ==_self,
}
use mccl.Scheduler.Jobs.{find_job, erase_job}
use mccl.Scheduler.Jobs
use mccl.Scheduler.Jobs.Lifecycle.{IsValid}
use mccl.Scheduler.Types.{Scheduler, Job, JobPriority, pending, occurs}
use mccl.Scheduler.Tick.Preemption.{HaveNodes}
use mccl.Scheduler.Tick.Conservation.{Wants, preempts_in_tick, schedule_tick-conserves}
use mccl.Cluster.{ClusterManager, online_nodes}
use mccl.Cluster.Services.{node_loads, no_loads, scheduler_round, described, submit_job, cancel_job}
use mccl.Cluster.Leader.{online_from-Distinct}

-- A round of the scheduler in which no waiting job preempts another loses and doubles no job, whatever the
-- nodes' states: the conditions are that the sort permutes its list, that every waiting job requests a
-- node and that every active job has one, which holds again after the round.
pub scheduler_round-conserves :
    (sort : List Job → List Job) (below_share : ℕ → ℕ → ℕ → Bool) (clock : ℕ → ℕ)
    (c : ClusterManager)
    → ((xs : List Job) → Perm (sort xs) xs)
    → Wants c.scheduler.queue
    → HaveNodes c.scheduler.active
    → (let up = online_nodes c in
        preempts_in_tick sort below_share clock up (node_loads c up no_loads) c.scheduler ≡ false)
    → (c' : ClusterManager) × (scheduler_round sort below_share clock c ≡ some c')
      × ((i : ℕ)
          → occurs i c'.scheduler.queue + occurs i c'.scheduler.active
            ≡ occurs i c.scheduler.queue + occurs i c.scheduler.active)
      × HaveNodes c'.scheduler.active
unfolding scheduler_round online_nodes
scheduler_round-conserves sort below_share clock c permutes w h calm =
    let up = online_nodes c in
    elim (schedule_tick-conserves sort below_share clock up (node_loads c up no_loads) c.scheduler
      permutes (online_from-Distinct c.state.nodes 0) w h) [
        | inl (stormy, _) ↦ absurd (cc)
        | inr (_, (s, loads, started, e, kept, have)) ↦
            (record c { scheduler = s }, ground (arith, e), kept, have)
      ]

find_job-last :
    (i : ℕ) (j : Job) (js : List Job)
    → (j.job_id == i) ≡ true
    → occurs i js ≡ 0
    → (find_job i (js ++ (j ∷ [])) ≡ some j) × (erase_job i (js ++ (j ∷ [])) ≡ js)
unfolding find_job erase_job
find_job-last i j [] h e = ground (arith, h)
find_job-last i j (x ∷ js) h e =
    let rest = find_job-last i j js h (ground (arith, e)) in
    let other : (x.job_id == i) ≡ false = ground (arith, e) in
    rw other (rest.0, ap (λ ys. x ∷ ys) rest.1)

cancel-queued :
    (now id : ℕ) (j : Job) (s : Scheduler)
    → find_job id s.queue ≡ some j
    → Jobs.cancel now id s ≡ (record s { queue = erase_job id s.queue }, true)
unfolding Jobs.cancel
cancel-queued now id j s h = rw (Jobs.cancel, h) refl

-- A job that is submitted through the manager and cancelled at once leaves the scheduler's queue, its
-- active jobs and its history as they were, and the cancellation succeeds. The conditions are that the
-- scheduler is valid and that its counter of identifiers does not wrap.
pub cancel_job-submit_job :
    (now later : ℕ) (name owner : String) (nodes memory_per_node : ℕ) (priority : JobPriority)
    (c : ClusterManager)
    → IsValid c.scheduler
    → c.scheduler.next_job_id + 1 < 2 ^ 64
    → let (c', id) = submit_job now name owner nodes memory_per_node priority c in
      let (c'', ok) = cancel_job later id c' in
      (ok ≡ true)
      × (c''.scheduler.queue ≡ c.scheduler.queue)
      × (c''.scheduler.active ≡ c.scheduler.active)
      × (c''.scheduler.history ≡ c.scheduler.history)
unfolding submit_job cancel_job Jobs.submit
cancel_job-submit_job now later name owner nodes memory_per_node priority c v fits =
    let id = c.scheduler.next_job_id in
    let free : occurs id c.scheduler.queue ≡ 0 = omega (arith, v.fresh id (omega arith)) in
    let job : Job = record (described name owner nodes memory_per_node priority) {
      job_id = id;
      status = pending;
      submitted_at_us = now;
    } in
    let (found, erased) = find_job-last id job c.scheduler.queue (==_self id) free in
    let e =
      cancel-queued later id job
        (submit_job now name owner nodes memory_per_node priority c).0.scheduler found in
    (
      ap (λ p. p.1) e,
      ap (λ p. p.0.queue) e ∙ erased,
      ap (λ p. p.0.active) e,
      ap (λ p. p.0.history) e,
    )
