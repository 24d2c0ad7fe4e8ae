-- ===== src/Progress/Tests.antt =====
-- Runs of csrc/backend/WorkMCCL.cpp, csrc/backend/Progress.cpp and csrc/runtime/ProgressEngine.cpp.
use mccl.Base.{ℕ, ◌≡◌, refl, true, false, none, [], arith, Steps, stay, go}
use mccl.Progress.Work.{Work, make_work}
use mccl.Progress.Queue
use mccl.Progress.Queue.{Task, Progress, Phase, testing, dozing, asleep, exited, initial, push}
use mccl.Progress.Queue.Invariant.{AreCompleted}
use mccl.Progress.Queue.Drain.{Drains, IsStuck, drain_lem, leave_lem, shutdown_lost}
use mccl.Progress.Engine
use mccl.Progress.Engine.{
  EngineOp, ProgressEngine, started, request_stop, fall_asleep, take_number, push_back,
}
use mccl.Progress.Engine.Invariant.{Inv, Steps-Inv}
use mccl.Progress.Engine.Stopping.{Finishes, stop_lem}

abbrev works : ℕ → Work
works i = make_work none

abbrev task : Task
task = record { work = 4; body = none }

-- The worker finds nothing to do, sleeps, and a task is submitted.
abbrev found_idle : Progress
found_idle = record (initial works) { phase = dozing }

abbrev sleeping : Progress
sleeping = record found_idle { phase = asleep }

to_task : Steps Queue.Step (initial works) (push task sleeping)
to_task = go _ found_idle _ (Queue.find_idle refl refl refl) (
    go found_idle sleeping _ (Queue.fall_asleep refl)
      (go sleeping _ _ (Queue.submit task tt) (stay _)))

drain_lem_example : Drains (push task sleeping)
unfolding push
drain_lem_example = drain_lem works (push task sleeping) to_task (λ e. cc)

-- A shutdown of a worker that is about to test.
abbrev stopped : Progress
stopped = record (initial works) { stop = true; closing = Queue.flagged }

leave_lem_example :
    ((record stopped { phase = exited }).ran ≡ (record stopped { phase = exited }).submitted)
    × AreCompleted works []
leave_lem_example =
    leave_lem works stopped (record stopped { phase = exited })
      (go _ stopped stopped (Queue.set_stop refl) (stay stopped)) (Queue.leave refl refl refl)
      (λ e. cc) refl

shutdown_lost_example :
    (u : Progress) × Steps Queue.Step found_idle u
    × (u.stop ≡ true)
    × (u.phase ≡ asleep)
    × IsStuck u
shutdown_lost_example = shutdown_lost found_idle refl refl refl

abbrev op : EngineOp
op = record {
  seq_num = 0;
  has_complete = true;
  has_error = true;
  execute_throws = false;
  complete_throws = true;
}

-- The worker sleeps, an operation is accepted, and then a stop is requested; nobody has notified yet.
abbrev numbered : ProgressEngine
numbered = take_number op (fall_asleep (started 2))

abbrev accepted : ProgressEngine
accepted = push_back [] op [] numbered

to_stop : Steps Engine.Step (started 2) (request_stop accepted)
unfolding take_number push_back request_stop fall_asleep
to_stop = go _ (fall_asleep (started 2)) _ (Engine.doze refl refl refl) (
    go _ numbered _ (Engine.number op refl) (
      go numbered accepted _ (Engine.push [] op [] refl (omega arith) refl)
        (go accepted (request_stop accepted) _ (Engine.stop refl) (stay _))))

Steps-Inv_example : Inv (request_stop accepted)
Steps-Inv_example = Steps-Inv 2 (request_stop accepted) to_stop

stop_lem_example : Finishes (request_stop accepted)
unfolding request_stop
stop_lem_example = stop_lem 2 (request_stop accepted) to_stop refl
