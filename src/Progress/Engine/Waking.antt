-- ===== src/Progress/Engine/Waking.antt =====
-- The notifications of csrc/runtime/ProgressEngine.cpp: a thread that waits although its condition holds
-- has a notification to come.
use mccl.Base.{
  ℕ, ◌+◌, ◌<◌, ◌≡◌, ◌⊎◌, inl, inr, refl, subst, Bool, false, List, [], ◌∷◌, ◌++◌, arith, Steps,
  Steps-keep,
}
use mccl.Progress.Engine.{
  EngineOp, Worker, idle, asleep, popped, executing, exited, wake, ProgressEngine, started,
  take_number, wait_room, push_back, notify_pushed, refuse, request_stop, notify_worker,
  notify_submitters, fall_asleep, pop_front, notify_nobody, notify_waiter, finish_op, leave_loop,
  end_run, Step, number, block, push, call, reject, stop, stop_worker, stop_submitters, doze, pop,
  signal, signal_one, work, leave, join,
}

-- A worker that sleeps has nothing to do, or a notification of `not_empty_` is to come.
abbrev pub IsWorkerCalled : Worker → List EngineOp → Bool → ℕ → Type 0
IsWorkerCalled idle queue stopped owed = Unit
IsWorkerCalled asleep queue stopped owed = ((queue ≡ []) × (stopped ≡ false)) ⊎ (0 < owed)
IsWorkerCalled (popped op) queue stopped owed = Unit
IsWorkerCalled (executing op) queue stopped owed = Unit
IsWorkerCalled exited queue stopped owed = Unit

-- No submitter waits, or no stop is requested, or the notification of all is to come.
abbrev pub AreReleased : List EngineOp → Bool → ℕ → Type 0
AreReleased waiting stopped owed = (waiting ≡ []) ⊎ ((stopped ≡ false) ⊎ (0 < owed))

pub record IsNotified (s : ProgressEngine) : Type 0 where
  pub worker : IsWorkerCalled s.worker s.queue s.stop_requested (s.pushed + s.flagged)
  pub submitters : AreReleased s.waiting s.stop_requested (s.flagged + s.half_notified)

called_more :
    (w : Worker) (q r : List EngineOp) (b c : Bool) (n m : ℕ)
    → IsWorkerCalled w q b n
    → 0 < m
    → IsWorkerCalled w r c m
called_more idle q r b c n m h k = tt
called_more asleep q r b c n m h k = inr k
called_more (popped op) q r b c n m h k = tt
called_more (executing op) q r b c n m h k = tt
called_more exited q r b c n m h k = tt

woken : (w : Worker) (q : List EngineOp) (b : Bool) (n : ℕ) → IsWorkerCalled (wake w) q b n
woken idle q b n = tt
woken asleep q b n = tt
woken (popped op) q b n = tt
woken (executing op) q b n = tt
woken exited q b n = tt

-- One waits less, or one more while no stop is requested.
fewer_wait :
    (front back : List EngineOp) (w : EngineOp) (ws : List EngineOp) (b : Bool) (n : ℕ)
    → ws ≡ front ++ (w ∷ back)
    → AreReleased ws b n
    → AreReleased (front ++ back) b n
fewer_wait [] back w ws b n e (inl empty) = absurd (cc)
fewer_wait (x ∷ front) back w ws b n e (inl empty) = absurd (cc)
fewer_wait front back w ws b n e (inr h) = inr h

all_still : (w : List EngineOp) (b : Bool) (n m : ℕ) → n ≡ m → AreReleased w b n → AreReleased w b m
all_still w b n m e h = subst (AreReleased w b) e h

pub Step-IsNotified : (s u : ProgressEngine) → Step s u → IsNotified s → IsNotified u
unfolding take_number wait_room push_back notify_pushed refuse request_stop notify_worker
    notify_submitters fall_asleep pop_front notify_nobody notify_waiter finish_op leave_loop end_run
Step-IsNotified s u (number op on) h = record { worker = h.worker; submitters = h.submitters }
Step-IsNotified s u (block front op back e full on) h = record {
  worker = h.worker;
  submitters = inr (inl on);
}
Step-IsNotified s u (push front op back e room on) h = record {
  worker =
      called_more s.worker s.queue _ s.stop_requested _ (s.pushed + s.flagged) _ h.worker
        (omega arith);
  submitters = h.submitters;
}
Step-IsNotified s u (call n e) h = record {
  worker = woken s.worker s.queue s.stop_requested _;
  submitters = h.submitters;
}
Step-IsNotified s u (reject front op back e off) h = record {
  worker = h.worker;
  submitters = h.submitters;
}
Step-IsNotified s u (stop on) h = record {
  worker =
      called_more s.worker s.queue _ s.stop_requested _ (s.pushed + s.flagged) _ h.worker
        (omega arith);
  submitters = inr (inr (omega arith));
}
Step-IsNotified s u (stop_worker n e) h = record {
  worker = woken s.worker s.queue s.stop_requested _;
  submitters =
      all_still s.waiting s.stop_requested (s.flagged + s.half_notified) _ (omega (arith, e))
        h.submitters;
}
Step-IsNotified s u (stop_submitters n e) h = record { worker = h.worker; submitters = inl refl }
Step-IsNotified s u (doze e empty on) h = record {
  worker = inl (empty, on);
  submitters = h.submitters;
}
Step-IsNotified s u (pop op rest e front) h = record { worker = tt; submitters = h.submitters }
Step-IsNotified s u (signal op e nobody) h = record { worker = tt; submitters = h.submitters }
Step-IsNotified s u (signal_one op front w back e some_wait) h = record {
  worker = tt;
  submitters =
      fewer_wait front back w s.waiting s.stop_requested (s.flagged + s.half_notified) some_wait
        h.submitters;
}
Step-IsNotified s u (work op e) h = record { worker = tt; submitters = h.submitters }
Step-IsNotified s u (leave e off empty) h = record { worker = tt; submitters = h.submitters }
Step-IsNotified s u (join n off out) h = record { worker = h.worker; submitters = h.submitters }

-- Whatever the threads do after `start`, a worker that sleeps has an empty queue and no stop requested, or
-- a notification of `not_empty_` is to come; and if submitters wait after a stop is requested, the
-- notification of all of them is to come.
pub Steps-IsNotified :
    (depth : ℕ) (s : ProgressEngine) → Steps Step (started depth) s → IsNotified s
Steps-IsNotified depth s steps =
    Steps-keep Step IsNotified Step-IsNotified (started depth) s steps
      (record { worker = tt; submitters = inl refl })
