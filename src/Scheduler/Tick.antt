-- ===== src/Scheduler/Tick.antt =====
-- `schedule_tick` of csrc/runtime/Scheduler.cpp. `std::sort`, the comparison of doubles in the fair
-- share and the clock are parameters: `sort` is `std::sort` with the comparator of the queue,
-- `below_share t total n` is `double(t) / total < 1.0 / n`, and `clock k` is what `now_us()` returns
-- when `k` jobs have been started in this tick.
pub mod Order
pub mod Starting
pub mod Preemption
pub mod Conservation
use Prim.Native.String.{String}
use mccl.Base.{
  ℕ, ◌+◌, ◌<◌, Bool, true, false, Option, none, some, List, [], ◌∷◌, ◌++◌, length, keep_if, max,
  ltb, leb, if◌then◌else◌,
}
use mccl.Scheduler.Types.{
  Job, JobPriority, low, normal, high, rank, JobStatus, pending, running, rescheduling, NodeLoad,
  Scheduler, add64, tenant_find,
}
use mccl.Scheduler.Allocation.{can_allocate, allocate}

-- The comparator of the queue: priority descending, then submission time ascending.
unfoldable pub goes_before : Job → Job → Bool
goes_before a b =
    if ltb (rank b.priority) (rank a.priority)
    then true
    else if ltb (rank a.priority) (rank b.priority)
    then false
    else ltb a.submitted_at_us b.submitted_at_us

total_node_seconds : List (String × ℕ) → ℕ
total_node_seconds [] = 0
total_node_seconds ((o, n) ∷ ts) = add64 n (total_node_seconds ts)

-- The states between the phases of a tick.
pub record Round : Type 0 where
  pub queue : List Job
  pub active : List Job
  pub loads : List NodeLoad
  pub started : ℕ

-- `JobDescriptor{}`
abbrev no_job : Job
no_job = record {
  job_id = 0;
  name = "";
  owner = "";
  requested_nodes = 0;
  memory_per_node = 0;
  priority = normal;
  status = pending;
  assigned_nodes = [];
  submitted_at_us = 0;
  started_at_us = 0;
  completed_at_us = 0;
}

abbrev has_nodes : Job → Bool
has_nodes j = elim j.assigned_nodes [ [] ↦ false | _ ↦ true ]

-- Whether the preemption may evict `a` for a job that requests so many nodes.
abbrev is_victim : ℕ → Job → Bool
is_victim requested a = elim a.priority [
  | low ↦ leb requested (length a.assigned_nodes)
  | _ ↦ false
]

-- The first victim, and the active jobs with a blank in its place.
find_victim : ℕ → List Job → Option (Job × List Job)
find_victim requested [] = none
find_victim requested (a ∷ as') = elim (is_victim requested a) [
  | true ↦ some (a, no_job ∷ as')
  | false ↦ elim (find_victim requested as') [ none ↦ none | some (v, rest) ↦ some (v, a ∷ rest) ]
]

module _ (below_share : ℕ → ℕ → ℕ → Bool) where
  -- The fair-share boost of one job.
  unfoldable pub boost : List (String × ℕ) → Job → Job
  unfolding total_node_seconds tenant_find
  boost tenants j =
      let total = total_node_seconds tenants in
      if ltb 0 total
      then elim (tenant_find j.owner tenants) [
        | none ↦ j
        | some t ↦
            if below_share t total (length tenants)
            then elim j.priority [ low ↦ record j { priority = normal } | _ ↦ j ]
            else j
      ]
      else j

  unfoldable pub boost_all : List (String × ℕ) → List Job → List Job
  boost_all tenants [] = []
  boost_all tenants (j ∷ js) = boost tenants j ∷ boost_all tenants js

module _ (cap : ℕ) (online : List ℕ) (clock : ℕ → ℕ) where
  -- A job that gets its nodes.
  abbrev started_job : Job → ℕ → Job
  started_job j n = record j { status = running; started_at_us = clock n }

  -- The loop that attempts to start each job of the queue.
  unfoldable pub start_loop : List Job → List Job → List NodeLoad → ℕ → Round
  start_loop [] active loads started = record {
    queue = [];
    active = active;
    loads = loads;
    started = started;
  }
  start_loop (j ∷ js) active loads started =
      let (j', loads') = allocate cap j online loads in
      let go = start_loop js (active ++ (started_job j' started ∷ [])) loads' (started + 1) in
      let skip = start_loop js active loads started in
      if can_allocate cap j online loads then go else record skip { queue = j ∷ skip.queue }

  -- What follows the choice of a victim: the job, the active jobs, the loads and the count.
  pub try_again : Job → List Job → List NodeLoad → ℕ → Job × Round
  try_again j active loads started =
      let (j', loads') = allocate cap j online loads in
      let run = started_job j' started in
      if can_allocate cap j online loads
      then (
        run,
        record { queue = []; active = active ++ (run ∷ []); loads = loads'; started = started + 1 },
      )
      else (j, record { queue = []; active = active; loads = loads; started = started })

  -- One round of the preemption: the job as it is then, and the state, whose queue holds the jobs
  -- that were pushed to the front.
  pub preempt_job : Job → Round → Job × Round
  unfolding find_victim try_again
  preempt_job j r =
      if ltb (rank j.priority) (rank high)
      then (j, r)
      else if can_allocate cap j online r.loads
      then (j, r)
      else elim (find_victim j.requested_nodes r.active) [
        | none ↦ (j, record r { active = keep_if has_nodes r.active })
        | some (v, rest) ↦
            let (j', r') = try_again j rest r.loads r.started in
            (
              j',
              record r' {
                queue = record v { status = rescheduling } ∷ r.queue;
                active = keep_if has_nodes r'.active;
              },
            )
      ]

  -- The loop over the queue. A round that pushes to the front of the deque invalidates the iterators of
  -- the loop, which goes on with them: that is undefined in C++, and none here.
  pub preempt_loop : List Job → Round → Option (List Job × Round)
  unfolding preempt_job
  preempt_loop [] r = some ([], r)
  preempt_loop (j ∷ js) r =
      let (j', r') = preempt_job j r in
      elim r'.queue [
        | [] ↦ elim (preempt_loop js r') [ none ↦ none | some (js', r'') ↦ some (j' ∷ js', r'') ]
        | _ ↦ none
      ]

-- The new scheduler, the loads and the number of jobs started; none where the tick is undefined.
pub schedule_tick :
    (List Job → List Job)
    → (ℕ → ℕ → ℕ → Bool)
    → (ℕ → ℕ)
    → List ℕ
    → List NodeLoad
    → Scheduler
    → Option (Scheduler × List NodeLoad × ℕ)
unfolding boost_all start_loop preempt_loop
schedule_tick sort below_share clock online loads s =
    let cap = s.config.memory_per_node in
    let queue = boost_all below_share s.tenant_stats (sort s.queue) in
    let r = start_loop cap online clock queue s.active loads 0 in
    if s.config.preemption_enabled
    then elim (preempt_loop cap online clock r.queue (record r { queue = [] })) [
      | none ↦ none
      | some (left, p) ↦ some (record s { queue = left; active = p.active }, p.loads, p.started)
    ]
    else some (record s { queue = r.queue; active = r.active }, r.loads, r.started)
