-- ===== src/Progress/Engine/Invariant.antt =====
-- What every step of the engine of csrc/runtime/ProgressEngine.cpp keeps.
use mathlib.Core.List.{append_assoc, append-nil}
use mccl.Base.{
  ℕ, suc, ◌≤◌, ◌≡◌, refl, sym, ◌∙◌, ap, subst, Bool, true, false, List, [], ◌∷◌, ◌++◌, arith,
  length, length-append, Steps, Steps-keep,
}
use mccl.Progress.Engine.{
  EngineOp, Call, run_op, Worker, idle, asleep, popped, executing, exited, wake, ProgressEngine,
  started, take_number, wait_room, push_back, notify_pushed, refuse, request_stop, notify_worker,
  notify_submitters, fall_asleep, pop_front, notify_nobody, notify_waiter, finish_op, leave_loop,
  end_run, Step, number, block, push, call, reject, stop, stop_worker, stop_submitters, doze, pop,
  signal, signal_one, work, leave, join,
}

abbrev pub in_hand : Worker → List EngineOp
in_hand idle = []
in_hand asleep = []
in_hand (popped op) = op ∷ []
in_hand (executing op) = op ∷ []
in_hand exited = []

-- The calls for a sequence of operations.
abbrev pub calls_of : List EngineOp → List Call
calls_of [] = []
calls_of (op ∷ ops) = run_op op ++ calls_of ops

-- What an exited worker leaves behind.
abbrev pub IsClosed : Worker → Bool → List EngineOp → Type 0
IsClosed idle stopped queue = Unit
IsClosed asleep stopped queue = Unit
IsClosed (popped op) stopped queue = Unit
IsClosed (executing op) stopped queue = Unit
IsClosed exited stopped queue = (stopped ≡ true) × (queue ≡ [])

pub record Inv (s : ProgressEngine) : Type 0 where
  pub fifo : s.accepted ≡ s.finished ++ (in_hand s.worker ++ s.queue)
  pub bounded : length s.queue ≤ s.max_depth
  pub called : s.calls ≡ calls_of s.finished
  pub closed : IsClosed s.worker s.stop_requested s.queue

started-Inv : (depth : ℕ) → Inv (started depth)
started-Inv depth = record { fifo = refl; bounded = omega arith; called = refl; closed = tt }

pub fifo_in :
    (s : ProgressEngine) (w : Worker)
    → s.worker ≡ w
    → Inv s
    → s.accepted ≡ s.finished ++ (in_hand w ++ s.queue)
fifo_in s w e inv = subst (λ v. s.accepted ≡ s.finished ++ (in_hand v ++ s.queue)) e inv.fifo

calls_of-append :
    (xs : List EngineOp) (op : EngineOp) → calls_of (xs ++ (op ∷ [])) ≡ calls_of xs ++ run_op op
calls_of-append [] op = append-nil (run_op op)
calls_of-append (x ∷ xs) op =
    ap (λ l. run_op x ++ l) (calls_of-append xs op)
    ∙ sym (append_assoc (run_op x) (calls_of xs) (run_op op))

push-IsClosed : (w : Worker) (q r : List EngineOp) → IsClosed w false q → IsClosed w false r
push-IsClosed idle q r h = tt
push-IsClosed asleep q r h = tt
push-IsClosed (popped op) q r h = tt
push-IsClosed (executing op) q r h = tt
push-IsClosed exited q r (off, empty) = cc

stop-IsClosed : (w : Worker) (b : Bool) (q : List EngineOp) → IsClosed w b q → IsClosed w true q
stop-IsClosed idle b q h = tt
stop-IsClosed asleep b q h = tt
stop-IsClosed (popped op) b q h = tt
stop-IsClosed (executing op) b q h = tt
stop-IsClosed exited b q (off, empty) = (refl, empty)

wake-in_hand : (w : Worker) → in_hand (wake w) ≡ in_hand w
wake-in_hand idle = refl
wake-in_hand asleep = refl
wake-in_hand (popped op) = refl
wake-in_hand (executing op) = refl
wake-in_hand exited = refl

wake-IsClosed : (w : Worker) (b : Bool) (q : List EngineOp) → IsClosed w b q → IsClosed (wake w) b q
wake-IsClosed idle b q h = tt
wake-IsClosed asleep b q h = tt
wake-IsClosed (popped op) b q h = tt
wake-IsClosed (executing op) b q h = tt
wake-IsClosed exited b q h = h

-- Steps that leave what the invariant reads, and those that wake the worker.
wake-fifo :
    (s : ProgressEngine) → Inv s → s.accepted ≡ s.finished ++ (in_hand (wake s.worker) ++ s.queue)
wake-fifo s inv = inv.fifo ∙ ap (λ l. s.finished ++ (l ++ s.queue)) (sym (wake-in_hand s.worker))

pub Step-Inv : (s u : ProgressEngine) → Step s u → Inv s → Inv u
unfolding take_number wait_room push_back notify_pushed refuse request_stop notify_worker
    notify_submitters fall_asleep pop_front notify_nobody notify_waiter finish_op leave_loop end_run
Step-Inv s u (number op on) inv = record {
  fifo = inv.fifo;
  bounded = inv.bounded;
  called = inv.called;
  closed = inv.closed;
}
Step-Inv s u (block front op back e full on) inv = record {
  fifo = inv.fifo;
  bounded = inv.bounded;
  called = inv.called;
  closed = inv.closed;
}
Step-Inv s u (call n e) inv = record {
  fifo = wake-fifo s inv;
  bounded = inv.bounded;
  called = inv.called;
  closed = wake-IsClosed s.worker s.stop_requested s.queue inv.closed;
}
Step-Inv s u (push front op back e room on) inv = record {
  fifo =
      ap (λ l. l ++ (op ∷ [])) inv.fifo
      ∙ append_assoc s.finished (in_hand s.worker ++ s.queue) (op ∷ [])
      ∙ ap (λ l. s.finished ++ l) (append_assoc (in_hand s.worker) s.queue (op ∷ []));
  bounded = omega (arith, length-append s.queue (op ∷ []));
  called = inv.called;
  closed =
      subst (λ b. IsClosed s.worker b (s.queue ++ (op ∷ []))) (sym on)
        (push-IsClosed s.worker s.queue _ (subst (λ b. IsClosed s.worker b s.queue) on inv.closed));
}
Step-Inv s u (reject front op back e off) inv = record {
  fifo = inv.fifo;
  bounded = inv.bounded;
  called = inv.called;
  closed = inv.closed;
}
Step-Inv s u (stop on) inv = record {
  fifo = inv.fifo;
  bounded = inv.bounded;
  called = inv.called;
  closed = stop-IsClosed s.worker s.stop_requested s.queue inv.closed;
}
Step-Inv s u (stop_worker n e) inv = record {
  fifo = wake-fifo s inv;
  bounded = inv.bounded;
  called = inv.called;
  closed = wake-IsClosed s.worker s.stop_requested s.queue inv.closed;
}
Step-Inv s u (stop_submitters n e) inv = record {
  fifo = inv.fifo;
  bounded = inv.bounded;
  called = inv.called;
  closed = inv.closed;
}
Step-Inv s u (doze e empty on) inv = record {
  fifo = fifo_in s idle e inv;
  bounded = inv.bounded;
  called = inv.called;
  closed = tt;
}
Step-Inv s u (signal op e nobody) inv = record {
  fifo = fifo_in s (popped op) e inv;
  bounded = inv.bounded;
  called = inv.called;
  closed = tt;
}
Step-Inv s u (signal_one op front w back e some_wait) inv = record {
  fifo = fifo_in s (popped op) e inv;
  bounded = inv.bounded;
  called = inv.called;
  closed = tt;
}
Step-Inv s u (pop op rest e front) inv = record {
  fifo = fifo_in s idle e inv ∙ ap (λ l. s.finished ++ l) front;
  bounded =
      let before : length s.queue ≤ s.max_depth = inv.bounded in
      let one_more : length s.queue ≡ suc (length rest) = ap length front in omega arith;
  called = inv.called;
  closed = tt;
}
Step-Inv s u (work op e) inv = record {
  fifo = fifo_in s (executing op) e inv ∙ sym (append_assoc s.finished (op ∷ []) s.queue);
  bounded = inv.bounded;
  called = ap (λ l. l ++ run_op op) inv.called ∙ sym (calls_of-append s.finished op);
  closed = tt;
}
Step-Inv s u (leave e off empty) inv = record {
  fifo = fifo_in s idle e inv;
  bounded = inv.bounded;
  called = inv.called;
  closed = (off, empty);
}
Step-Inv s u (join n off out) inv = record {
  fifo = inv.fifo;
  bounded = inv.bounded;
  called = inv.called;
  closed = inv.closed;
}

-- Whatever the threads do after `start`, the operations accepted are those finished, the one that the
-- worker executes and those in the queue, in this order; the queue is never longer than `max_depth`;
-- the calls made are those of the finished operations, one operation after the other; and a worker
-- that has exited was told to stop and left the queue empty.
pub Steps-Inv : (depth : ℕ) (s : ProgressEngine) → Steps Step (started depth) s → Inv s
Steps-Inv depth s steps = Steps-keep Step Inv Step-Inv (started depth) s steps (started-Inv depth)
