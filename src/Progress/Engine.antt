-- ===== src/Progress/Engine.antt =====
-- `ProgressEngine` of csrc/runtime/ProgressEngine.cpp as steps of its threads. Each critical section
-- under the mutex is one step, and so are each notification of a condition variable and the work of an
-- operation. A thread that waits on a condition variable goes on only after a notification; there are no
-- spurious wakeups. The recording of metrics is left out.
pub mod Invariant
pub mod Waking
pub mod Stopping
use mccl.Base.{
  ℕ, zero, suc, ◌+◌, ◌%◌, ◌^◌, ◌<◌, ◌≤◌, ◌≡◌, Bool, true, false, ◌&&◌, List, [], ◌∷◌, ◌++◌, length,
  if◌then◌else◌,
}

-- An operation: its number, whether it has the two callbacks, and which of the calls throw.
pub record EngineOp : Type 0 where
  pub seq_num : ℕ
  pub has_complete : Bool
  pub has_error : Bool
  pub execute_throws : Bool
  pub complete_throws : Bool

pub data Call : Type 0 where
  execute : ℕ → Call
  on_complete : ℕ → Call
  on_error : ℕ → Call

abbrev pub call_if : Bool → Call → List Call
call_if true c = c ∷ []
call_if false c = []

-- The calls that the worker makes for an operation. What `on_error` throws is swallowed.
unfoldable pub run_op : EngineOp → List Call
run_op op =
    execute op.seq_num
    ∷ (if op.execute_throws
        then call_if op.has_error (on_error op.seq_num)
        else call_if op.has_complete (on_complete op.seq_num)
          ++ call_if (op.has_complete && op.complete_throws && op.has_error) (on_error op.seq_num))

-- `idle` is about to test the condition of `not_empty_`, `asleep` waits on it, and `popped` has taken an
-- operation and has not notified `not_full_` yet.
pub data Worker : Type 0 where
  idle : Worker
  asleep : Worker
  popped : EngineOp → Worker
  executing : EngineOp → Worker
  exited : Worker

-- What `not_empty_.notify_one()` does to the worker.
abbrev pub wake : Worker → Worker
wake idle = idle
wake asleep = idle
wake (popped op) = popped op
wake (executing op) = executing op
wake exited = exited

-- `submitting` are the operations of the threads in `submit` that have a number, are not in the queue yet
-- and do not wait; those of the threads that wait on `not_full_` are `waiting`. `pushed` counts the threads
-- that have pushed and not notified yet; `flagged`, `half_notified` and `joining` those in `stop` that have
-- set the flag, have notified `not_empty_`, and have notified `not_full_` too. `accepted` and `finished` are
-- the operations pushed and worked off so far, and stand for no state of the source, nor does `calls`.
pub record ProgressEngine : Type 0 where
  pub max_depth : ℕ
  pub running : Bool
  pub stop_requested : Bool
  pub seq_counter : ℕ
  pub queue : List EngineOp
  pub worker : Worker
  pub submitting : List EngineOp
  pub waiting : List EngineOp
  pub pushed : ℕ
  pub flagged : ℕ
  pub half_notified : ℕ
  pub joining : ℕ
  pub accepted : List EngineOp
  pub finished : List EngineOp
  pub calls : List Call

-- After `start`, of an engine that is new.
abbrev pub started : ℕ → ProgressEngine
started depth = record {
  max_depth = depth;
  running = true;
  stop_requested = false;
  seq_counter = 0;
  queue = [];
  worker = idle;
  submitting = [];
  waiting = [];
  pushed = 0;
  flagged = 0;
  half_notified = 0;
  joining = 0;
  accepted = [];
  finished = [];
  calls = [];
}

-- The beginning of `submit`: the number, a `uint32_t` that wraps around.
unfoldable pub take_number : EngineOp → ProgressEngine → ProgressEngine
take_number op s = record s {
  seq_counter = (s.seq_counter + 1) % 2 ^ 32;
  submitting = record op { seq_num = s.seq_counter } ∷ s.submitting;
}

-- A submitting thread finds the queue full and waits on `not_full_`.
unfoldable pub wait_room :
    List EngineOp → EngineOp → List EngineOp → ProgressEngine → ProgressEngine
wait_room front op back s = record s { submitting = front ++ back; waiting = op ∷ s.waiting }

-- The critical section of `submit`, of one of the submitting threads.
unfoldable pub push_back :
    List EngineOp → EngineOp → List EngineOp → ProgressEngine → ProgressEngine
push_back front op back s = record s {
  submitting = front ++ back;
  queue = s.queue ++ (op ∷ []);
  pushed = suc s.pushed;
  accepted = s.accepted ++ (op ∷ []);
}

-- `not_empty_.notify_one()` of a thread that has pushed; `n` others have not notified yet.
unfoldable pub notify_pushed : ℕ → ProgressEngine → ProgressEngine
notify_pushed n s = record s { pushed = n; worker = wake s.worker }

-- `submit` throws.
unfoldable pub refuse : List EngineOp → List EngineOp → ProgressEngine → ProgressEngine
refuse front back s = record s { submitting = front ++ back }

-- The critical section of `stop`.
unfoldable pub request_stop : ProgressEngine → ProgressEngine
request_stop s = record s { stop_requested = true; flagged = suc s.flagged }

-- `not_empty_.notify_one()` in `stop`.
unfoldable pub notify_worker : ℕ → ProgressEngine → ProgressEngine
notify_worker n s = record s {
  flagged = n;
  half_notified = suc s.half_notified;
  worker = wake s.worker;
}

-- `not_full_.notify_all()` in `stop`.
unfoldable pub notify_submitters : ℕ → ProgressEngine → ProgressEngine
notify_submitters n s = record s {
  half_notified = n;
  joining = suc s.joining;
  submitting = s.waiting ++ s.submitting;
  waiting = [];
}

-- The worker waits on `not_empty_`.
unfoldable pub fall_asleep : ProgressEngine → ProgressEngine
fall_asleep s = record s { worker = asleep }

unfoldable pub pop_front : EngineOp → List EngineOp → ProgressEngine → ProgressEngine
pop_front op rest s = record s { worker = popped op; queue = rest }

-- `not_full_.notify_one()` of the worker when nobody waits, and when the thread with `w` is woken.
unfoldable pub notify_nobody : EngineOp → ProgressEngine → ProgressEngine
notify_nobody op s = record s { worker = executing op }

unfoldable pub notify_waiter :
    EngineOp → List EngineOp → EngineOp → List EngineOp → ProgressEngine → ProgressEngine
notify_waiter op front w back s = record s {
  worker = executing op;
  waiting = front ++ back;
  submitting = w ∷ s.submitting;
}

unfoldable pub finish_op : EngineOp → ProgressEngine → ProgressEngine
unfolding run_op
finish_op op s = record s {
  worker = idle;
  finished = s.finished ++ (op ∷ []);
  calls = s.calls ++ run_op op;
}

unfoldable pub leave_loop : ProgressEngine → ProgressEngine
leave_loop s = record s { worker = exited }

-- The end of `stop`, after it has joined the worker.
unfoldable pub end_run : ℕ → ProgressEngine → ProgressEngine
end_run n s = record s { running = false; joining = n }

pub data Step (s : ProgressEngine) : ProgressEngine → Type 0 where
  number : (op : EngineOp) → s.running ≡ true → Step s (take_number op s)
  block :
      (front : List EngineOp) (op : EngineOp) (back : List EngineOp)
      → s.submitting ≡ front ++ (op ∷ back)
      → s.max_depth ≤ length s.queue
      → s.stop_requested ≡ false
      → Step s (wait_room front op back s)
  push :
      (front : List EngineOp) (op : EngineOp) (back : List EngineOp)
      → s.submitting ≡ front ++ (op ∷ back)
      → length s.queue < s.max_depth
      → s.stop_requested ≡ false
      → Step s (push_back front op back s)
  call : (n : ℕ) → s.pushed ≡ suc n → Step s (notify_pushed n s)
  reject :
      (front : List EngineOp) (op : EngineOp) (back : List EngineOp)
      → s.submitting ≡ front ++ (op ∷ back)
      → s.stop_requested ≡ true
      → Step s (refuse front back s)
  stop : s.running ≡ true → Step s (request_stop s)
  stop_worker : (n : ℕ) → s.flagged ≡ suc n → Step s (notify_worker n s)
  stop_submitters : (n : ℕ) → s.half_notified ≡ suc n → Step s (notify_submitters n s)
  doze : s.worker ≡ idle → s.queue ≡ [] → s.stop_requested ≡ false → Step s (fall_asleep s)
  pop :
      (op : EngineOp) (rest : List EngineOp)
      → s.worker ≡ idle
      → s.queue ≡ op ∷ rest
      → Step s (pop_front op rest s)
  signal : (op : EngineOp) → s.worker ≡ popped op → s.waiting ≡ [] → Step s (notify_nobody op s)
  signal_one :
      (op : EngineOp) (front : List EngineOp) (w : EngineOp) (back : List EngineOp)
      → s.worker ≡ popped op
      → s.waiting ≡ front ++ (w ∷ back)
      → Step s (notify_waiter op front w back s)
  work : (op : EngineOp) → s.worker ≡ executing op → Step s (finish_op op s)
  leave : s.worker ≡ idle → s.stop_requested ≡ true → s.queue ≡ [] → Step s (leave_loop s)
  join : (n : ℕ) → s.joining ≡ suc n → s.worker ≡ exited → Step s (end_run n s)
