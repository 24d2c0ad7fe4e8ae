-- ===== src/Scheduler/Tests.antt =====
-- Runs of csrc/runtime/Scheduler.cpp.
use mathlib.Core.List.Perm
use mccl.Base.{
  ℕ, ◌+◌, ◌≡◌, ◌↔◌, ◌⊎◌, refl, true, false, none, not, List, [], ◌∷◌, arith, length, get_elem?,
  take, keep_if, All,
}
use mccl.Scheduler.Types.{Job, low, normal, high, running, NodeLoad, Scheduler, occurs}
use mccl.Scheduler.Jobs.{evict_node}
use mccl.Scheduler.Jobs.Lifecycle.{IsValid}
use mccl.Scheduler.Jobs.Eviction.{uses_node, evict_node_lem}
use mccl.Scheduler.Allocation.{node_has_room, available, can_allocate, allocate}
use mccl.Scheduler.Allocation.Capacity.{Within}
use mccl.Scheduler.Allocation.Exact.{roomy, load_after, allocate_lem, can_allocate_exact}
use mccl.Scheduler.Tick.{start_loop, boost, boost_all, schedule_tick}
use mccl.Scheduler.Tick.Starting.{start_loop_lem}
use mccl.Scheduler.Tick.Conservation.{preempts_in_tick, KeepsJobs, schedule_tick-conserves}

abbrev waiting_job : Job
waiting_job = record {
  job_id = 1;
  name = "train";
  owner = "a";
  requested_nodes = 2;
  memory_per_node = 40;
  priority = high;
  status = running;
  assigned_nodes = [];
  submitted_at_us = 5;
  started_at_us = 0;
  completed_at_us = 0;
}

abbrev running_job : Job
running_job = record waiting_job {
  job_id = 2;
  requested_nodes = 1;
  priority = normal;
  assigned_nodes = 0 ∷ 1 ∷ [];
  started_at_us = 7;
}

abbrev scheduler : Scheduler
scheduler = record {
  config = record { total_nodes = 3; memory_per_node = 100; preemption_enabled = true };
  next_job_id = 3;
  queue = waiting_job ∷ [];
  active = running_job ∷ [];
  history = [];
  tenant_stats = ("a", 10) ∷ [];
  running = true;
}

scheduler-IsValid : IsValid scheduler
scheduler-IsValid = record { once = λ i. ground arith; fresh = λ i h. ground arith }

evict_node_lem_example :
    let s' = evict_node 9 0 scheduler in
    (s'.active ≡ keep_if (λ j. not (uses_node 0 j)) scheduler.active)
    × ((i : ℕ)
        → occurs i s'.active + (occurs i s'.queue + occurs i s'.history)
          ≡ occurs i scheduler.active + (occurs i scheduler.queue + occurs i scheduler.history))
evict_node_lem_example = evict_node_lem 9 0 scheduler (refl, tt)

abbrev idle : NodeLoad
idle = record { memory_used = 10; active_jobs = 0 }

abbrev loads : List NodeLoad
loads = idle ∷ record { memory_used = 90; active_jobs = 2 } ∷ idle ∷ []

abbrev online : List ℕ
online = 0 ∷ 1 ∷ 2 ∷ []

allocate_lem_example :
    let (job', loads') = allocate 100 waiting_job online loads in
    (job'.assigned_nodes ≡ take 2 (roomy 100 40 loads online))
    × ((m : ℕ) → get_elem? loads' m ≡ load_after 40 job'.assigned_nodes loads m)
allocate_lem_example = allocate_lem 100 waiting_job online loads (ground arith)

can_allocate_exact_example :
    (can_allocate 100 waiting_job online loads ≡ true)
    ↔ (length (allocate 100 waiting_job online loads).0.assigned_nodes ≡ 2)
can_allocate_exact_example = can_allocate_exact 100 waiting_job online loads (ground arith)

start_loop_lem_example :
    let r = start_loop 100 online (λ k. k) (waiting_job ∷ waiting_job ∷ []) [] loads 0 in
    Within 100 r.loads × All (λ j. can_allocate 100 j online r.loads ≡ false) r.queue
start_loop_lem_example =
    start_loop_lem 100 online (λ k. k) (waiting_job ∷ waiting_job ∷ []) [] loads 0 (ground arith)
      (ground arith)

-- A job of high priority that finds no room, and an active job of low priority with as many nodes.
abbrev crowded : Scheduler
crowded = record scheduler {
  queue = record waiting_job { memory_per_node = 99 } ∷ [];
  active = record running_job { priority = low } ∷ [];
}

crowded_preempts :
    preempts_in_tick (λ js. js) (λ t total n. false) (λ k. k) online loads crowded ≡ true
unfolding start_loop can_allocate available node_has_room boost_all boost
crowded_preempts = refl

schedule_tick-conserves_example :
    ((preempts_in_tick (λ js. js) (λ t total n. false) (λ k. k) online loads crowded ≡ true)
      × (schedule_tick (λ js. js) (λ t total n. false) (λ k. k) online loads crowded ≡ none))
    ⊎ ((preempts_in_tick (λ js. js) (λ t total n. false) (λ k. k) online loads crowded ≡ false)
        × KeepsJobs crowded
            (schedule_tick (λ js. js) (λ t total n. false) (λ k. k) online loads crowded))
schedule_tick-conserves_example =
    schedule_tick-conserves (λ js. js) (λ t total n. false) (λ k. k) online loads crowded
      (λ xs. Perm.refl xs) (ground arith) (ground arith) (ground arith)

-- A tick that does not preempt.
scheduler_calm :
    preempts_in_tick (λ js. js) (λ t total n. false) (λ k. k) online loads scheduler ≡ false
unfolding start_loop can_allocate available node_has_room boost_all boost
scheduler_calm = refl
