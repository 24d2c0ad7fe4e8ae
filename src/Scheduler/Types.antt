-- ===== src/Scheduler/Types.antt =====
-- The data of csrc/runtime/Scheduler.hpp. `estimated_duration_s`, `compute_utilization`,
-- `tick_interval_ms` and `last_scheduled_us` are left out: the scheduler neither reads nor writes them.
use Prim.Native.String.{String}
use text.Mathlib.Text.{◌==◌ as str_eq}
use mccl.Base.{ℕ, ◌+◌, ◌-◌, ◌%◌, ◌^◌, Bool, Option, none, some, List, [], ◌∷◌, if◌then◌else◌, ◌==◌}

pub data JobPriority : Type 0 where
  low normal high critical : JobPriority

-- `static_cast<int>(priority)`
abbrev pub rank : JobPriority → ℕ
rank low = 0
rank normal = 1
rank high = 2
rank critical = 3

pub data JobStatus : Type 0 where
  pending running completed failed rescheduling : JobStatus

pub record Job : Type 0 where
  pub job_id : ℕ
  pub name : String
  pub owner : String
  pub requested_nodes : ℕ
  pub memory_per_node : ℕ
  pub priority : JobPriority
  pub status : JobStatus
  pub assigned_nodes : List ℕ
  pub submitted_at_us : ℕ
  pub started_at_us : ℕ
  pub completed_at_us : ℕ

pub record NodeLoad : Type 0 where
  pub memory_used : ℕ
  pub active_jobs : ℕ

pub record Config : Type 0 where
  pub total_nodes : ℕ
  pub memory_per_node : ℕ
  pub preemption_enabled : Bool

-- The entries of `tenant_stats_`, an `unordered_map` by owner, are `total_node_seconds`.
pub record Scheduler : Type 0 where
  pub config : Config
  pub next_job_id : ℕ
  pub queue : List Job
  pub active : List Job
  pub history : List Job
  pub tenant_stats : List (String × ℕ)
  pub running : Bool

-- `uint64_t` addition and subtraction
abbrev pub add64 : ℕ → ℕ → ℕ
add64 a b = (a + b) % 2 ^ 64

abbrev pub sub64 : ℕ → ℕ → ℕ
sub64 a b = (a + 2 ^ 64 - b) % 2 ^ 64

unfoldable pub tenant_find : String → List (String × ℕ) → Option ℕ
tenant_find o [] = none
tenant_find o ((p, n) ∷ ts) = if str_eq p o then some n else tenant_find o ts

-- `tenant_stats_[owner].total_node_seconds += n`
unfoldable pub tenant_add : String → ℕ → List (String × ℕ) → List (String × ℕ)
tenant_add o n [] = (o, n % 2 ^ 64) ∷ []
tenant_add o n ((p, m) ∷ ts) =
    if str_eq p o then (p, add64 m n) ∷ ts else (p, m) ∷ tenant_add o n ts

-- How many jobs of the list have this id.
abbrev pub occurs : ℕ → List Job → ℕ
occurs i [] = 0
occurs i (j ∷ js) = (if j.job_id == i then 1 else 0) + occurs i js
