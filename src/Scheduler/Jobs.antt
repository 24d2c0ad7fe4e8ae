-- ===== src/Scheduler/Jobs.antt =====
-- Submission, cancellation, completion and the loss of a node: csrc/runtime/Scheduler.cpp. `now` is
-- what `now_us()` returns in the call.
pub mod Lifecycle
pub mod Eviction
use mccl.Base.{
  ℕ, zero, suc, ◌+◌, ◌-◌, ◌*◌, ◌/◌, ◌%◌, ◌^◌, ◌<◌, min, Bool, true, false, ◌&&◌, ◌||◌, Option, none,
  some, List, [], ◌∷◌, ◌++◌, length, drop, keep_if, ltb, ◌==◌, if◌then◌else◌,
}
use mccl.Scheduler.Types.{
  Job, JobStatus, pending, completed, failed, rescheduling, Config, Scheduler, add64, sub64,
  tenant_add,
}

unfoldable pub init : Config → Scheduler
init c = record {
  config = c;
  next_job_id = 1;
  queue = [];
  active = [];
  history = [];
  tenant_stats = [];
  running = false;
}

abbrev pub start : Scheduler → Scheduler
start s = record s { running = true }

abbrev pub shutdown : Scheduler → Scheduler
shutdown s = record s { running = false }

unfoldable pub submit : ℕ → Job → Scheduler → Scheduler × ℕ
submit now job s =
    let queued : Job = record job {
      job_id = s.next_job_id;
      status = pending;
      submitted_at_us = now;
    } in
    (
      record s { next_job_id = add64 s.next_job_id 1; queue = s.queue ++ (queued ∷ []) },
      s.next_job_id,
    )

-- `std::find_if` by the id.
unfoldable pub find_job : ℕ → List Job → Option Job
find_job id [] = none
find_job id (j ∷ js) = if j.job_id == id then some j else find_job id js

-- `erase` of what `find_if` found.
unfoldable pub erase_job : ℕ → List Job → List Job
erase_job id [] = []
erase_job id (j ∷ js) = if j.job_id == id then js else j ∷ erase_job id js

unfoldable pub cancel : ℕ → ℕ → Scheduler → Scheduler × Bool
unfolding find_job erase_job
cancel now id s = elim (find_job id s.queue) [
  | some _ ↦ (record s { queue = erase_job id s.queue }, true)
  | none ↦ elim (find_job id s.active) [
    | some j ↦ (
      record s {
        active = erase_job id s.active;
        history = s.history ++ (record j { status = failed; completed_at_us = now } ∷ []);
      },
      true,
    )
    | none ↦ (s, false)
  ]
]

-- The node-seconds that a finished job is charged, if it was ever started.
charge : ℕ → Job → Scheduler → Scheduler
charge now j s =
    if ltb 0 j.started_at_us
    then record s {
      tenant_stats =
          tenant_add j.owner (sub64 now j.started_at_us / 1_000_000 * length j.assigned_nodes)
            s.tenant_stats;
    }
    else s

unfoldable pub complete : ℕ → ℕ → Bool → Scheduler → Scheduler × Bool
unfolding find_job erase_job charge
complete now id success s = elim (find_job id s.active) [
  | none ↦ (s, false)
  | some j ↦
      let done : Job = record j {
        status = if success then completed else failed;
        completed_at_us = now;
      } in
      let s' = charge now j s in
      (record s' { active = erase_job id s.active; history = s.history ++ (done ∷ []) }, true)
]

-- `std::find` in, and `erase` from, the assigned nodes.
unfoldable pub contains : ℕ → List ℕ → Bool
contains n [] = false
contains n (m ∷ ms) = m == n || contains n ms

unfoldable pub erase_first : ℕ → List ℕ → List ℕ
erase_first n [] = []
erase_first n (m ∷ ms) = if m == n then ms else m ∷ erase_first n ms

-- One round of the loop of `evict_node`: the active job as it is then, the queue and the history.
evict_job : ℕ → ℕ → Job → List Job → List Job → Job × List Job × List Job
unfolding contains erase_first
evict_job now node job queue history =
    if contains node job.assigned_nodes
    then elim (erase_first node job.assigned_nodes) [
      | [] ↦
          let j : Job = record job {
            assigned_nodes = [];
            status = failed;
            completed_at_us = now;
          } in
          (j, queue, history ++ (j ∷ []))
      | n ∷ ns ↦
          let j : Job = record job { assigned_nodes = n ∷ ns; status = rescheduling } in
          (j, j ∷ queue, history)
    ]
    else (job, queue, history)

evict_loop : ℕ → ℕ → List Job → List Job → List Job → List Job × List Job × List Job
evict_loop now node [] queue history = ([], queue, history)
evict_loop now node (j ∷ js) queue history =
    let (j', queue', history') = evict_job now node j queue history in
    let (js', queue'', history'') = evict_loop now node js queue' history' in
    (j' ∷ js', queue'', history'')

-- The jobs that the final `remove_if` keeps.
abbrev stays_active : Job → Bool
stays_active j = elim j.status [ failed ↦ false | rescheduling ↦ false | _ ↦ true ]

unfoldable pub evict_node : ℕ → ℕ → Scheduler → Scheduler
unfolding evict_job evict_loop
evict_node now node s =
    let (jobs, queue, history) = evict_loop now node s.active s.queue s.history in
    record s { queue = queue; active = keep_if stays_active jobs; history = history }

abbrev pub pending_jobs : Scheduler → List Job
pending_jobs s = s.queue

abbrev pub active_jobs : Scheduler → List Job
active_jobs s = s.active

abbrev pub queue_depth : Scheduler → ℕ
queue_depth s = length s.queue

abbrev pub active_count : Scheduler → ℕ
active_count s = length s.active

-- The last `limit` jobs of the history, for a limit that is not negative.
abbrev pub recent_history : ℕ → Scheduler → List Job
recent_history limit s = drop (length s.history - min limit (length s.history)) s.history
