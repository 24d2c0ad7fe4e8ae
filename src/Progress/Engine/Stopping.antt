-- ===== src/Progress/Engine/Stopping.antt =====
-- `ProgressEngine::stop` of csrc/runtime/ProgressEngine.cpp: the worker empties the queue and ends, and no
-- submitter stays blocked.
use mathlib.Core.List.{append-nil}
use mccl.Base.{
  ℕ, zero, suc, ◌+◌, ◌<◌, ◌≡◌, inl, inr, refl, sym, ◌∙◌, ap, ap₂, subst, true, List, [], ◌∷◌, ◌++◌,
  arith, Steps, stay, go, Steps-append, Steps-keep,
}
use mccl.Progress.Engine.{
  EngineOp, Worker, idle, asleep, popped, executing, exited, wake, ProgressEngine, started,
  take_number, wait_room, push_back, notify_pushed, refuse, request_stop, notify_worker,
  notify_submitters, fall_asleep, pop_front, notify_nobody, notify_waiter, finish_op, leave_loop,
  end_run, Step, number, block, push, call, reject, stop, stop_worker, stop_submitters, doze, pop,
  signal, signal_one, work, leave, join,
}
use mccl.Progress.Engine.Invariant.{in_hand, calls_of, IsClosed, Inv, Step-Inv, Steps-Inv}
use mccl.Progress.Engine.Waking.{
  IsWorkerCalled, AreReleased, IsNotified, Step-IsNotified, Steps-IsNotified,
}

-- A state after a stop is requested; `ops` are the operations accepted.
pub record IsStopping (ops : List EngineOp) (s : ProgressEngine) : Type 0 where
  pub off : s.stop_requested ≡ true
  pub same : s.accepted ≡ ops
  pub inv : Inv s
  pub notified : IsNotified s

stop_kept :
    (s u : ProgressEngine)
    → Step s u
    → s.stop_requested ≡ true
    → (u.stop_requested ≡ true) × (u.accepted ≡ s.accepted)
unfolding take_number wait_room push_back notify_pushed refuse request_stop notify_worker
    notify_submitters fall_asleep pop_front notify_nobody notify_waiter finish_op leave_loop end_run
stop_kept s u (number op on) off = (off, refl)
stop_kept s u (block front op back e full on) off = (off, refl)
stop_kept s u (push front op back e room on) off = cc
stop_kept s u (call n e) off = (off, refl)
stop_kept s u (reject front op back e _) off = (off, refl)
stop_kept s u (stop on) off = (refl, refl)
stop_kept s u (stop_worker n e) off = (off, refl)
stop_kept s u (stop_submitters n e) off = (off, refl)
stop_kept s u (doze e empty on) off = (off, refl)
stop_kept s u (pop op rest e front) off = (off, refl)
stop_kept s u (signal op e nobody) off = (off, refl)
stop_kept s u (signal_one op front w back e some_wait) off = (off, refl)
stop_kept s u (work op e) off = (off, refl)
stop_kept s u (leave e _ empty) off = (off, refl)
stop_kept s u (join n e out) off = (off, refl)

module _ (ops : List EngineOp) where
  Step-IsStopping : (s u : ProgressEngine) → Step s u → IsStopping ops s → IsStopping ops u
  Step-IsStopping s u step h =
      let (off, same) = stop_kept s u step h.off in
      record {
        off = off;
        same = same ∙ h.same;
        inv = Step-Inv s u step h.inv;
        notified = Step-IsNotified s u step h.notified;
      }

  Steps-IsStopping : (s u : ProgressEngine) → Steps Step s u → IsStopping ops s → IsStopping ops u
  Steps-IsStopping s u steps h = Steps-keep Step (IsStopping ops) Step-IsStopping s u steps h

  -- From the state the threads can go on to one with the property.
  abbrev Reaches : (ProgressEngine → Type 0) → ProgressEngine → Type 0
  Reaches P s = (u : ProgressEngine) × Steps Step s u × P u

  abbrev HasExited : ProgressEngine → Type 0
  HasExited s = s.worker ≡ exited

  after :
      (P : ProgressEngine → Type 0) (s t : ProgressEngine) → Step s t → Reaches P t → Reaches P s
  after P s t step (u, steps, p) = (u, go s t u step steps, p)

  -- A worker that has popped an operation comes to its execution, whoever waits.
  signals :
      (ws : List EngineOp) (op : EngineOp) (s : ProgressEngine)
      → s.waiting ≡ ws
      → s.worker ≡ popped op
      → (t : ProgressEngine) × Step s t
        × (t.worker ≡ executing op)
        × (t.queue ≡ s.queue)
        × (t.stop_requested ≡ s.stop_requested)
  unfolding notify_nobody notify_waiter
  signals [] op s nobody e = (notify_nobody op s, signal op e nobody, refl, refl, refl)
  signals (w ∷ ws) op s some_wait e =
      (notify_waiter op [] w ws s, signal_one op [] w ws e some_wait, refl, refl, refl)

  -- An idle worker runs the operations of the queue and leaves.
  exits-idle :
      (q : List EngineOp) (s : ProgressEngine)
      → s.queue ≡ q
      → s.worker ≡ idle
      → s.stop_requested ≡ true
      → Reaches HasExited s
  unfolding pop_front finish_op leave_loop
  exits-idle [] s empty e off = (leave_loop s, go s _ _ (leave e off empty) (stay _), refl)
  exits-idle (op ∷ q) s front e off =
      let busy : ProgressEngine = pop_front op q s in
      let (t, step, at_work, queue, still) = signals s.waiting op busy refl refl in
      let (u, steps, out) = exits-idle q (finish_op op t) queue refl (still ∙ off) in
      (u, go s busy u (pop op q e front) (go busy t u step (go t _ u (work op at_work) steps)), out)

  exits-executing :
      (op : EngineOp) (s : ProgressEngine)
      → s.worker ≡ executing op
      → s.stop_requested ≡ true
      → Reaches HasExited s
  unfolding finish_op
  exits-executing op s e off =
      after HasExited s (finish_op op s) (work op e)
        (exits-idle s.queue (finish_op op s) refl refl off)

  -- The notifications that are to come wake a worker that sleeps.
  exits-asleep :
      (n m : ℕ) (s : ProgressEngine)
      → s.pushed ≡ n
      → s.flagged ≡ m
      → 0 < n + m
      → s.worker ≡ asleep
      → s.stop_requested ≡ true
      → Reaches HasExited s
  unfolding notify_pushed notify_worker
  exits-asleep zero zero s p f owed e off = absurd (omega arith)
  exits-asleep (suc n) m s p f owed e off =
      after HasExited s (notify_pushed n s) (call n p)
        (exits-idle s.queue (notify_pushed n s) refl (ap wake e) off)
  exits-asleep zero (suc m) s p f owed e off =
      after HasExited s (notify_worker m s) (stop_worker m f)
        (exits-idle s.queue (notify_worker m s) refl (ap wake e) off)

  is_called : (q : List EngineOp) (n : ℕ) → IsWorkerCalled asleep q true n → 0 < n
  is_called q n (inl (empty, on)) = absurd (cc)
  is_called q n (inr owed) = owed

  exits : (w : Worker) (s : ProgressEngine) → s.worker ≡ w → IsStopping ops s → Reaches HasExited s
  exits idle s e h = exits-idle s.queue s refl e h.off
  exits asleep s e h =
      let called =
        subst (λ w. IsWorkerCalled w s.queue s.stop_requested (s.pushed + s.flagged)) e
          h.notified.worker in
      let owed =
        is_called s.queue _
          (subst (λ b. IsWorkerCalled asleep s.queue b (s.pushed + s.flagged)) h.off called) in
      exits-asleep s.pushed s.flagged s refl refl owed e h.off
  exits (popped op) s e h =
      let (t, step, at_work, queue, still) = signals s.waiting op s refl e in
      after HasExited s t step (exits-executing op t at_work (still ∙ h.off))
  exits (executing op) s e h = exits-executing op s e h.off
  exits exited s e h = (s, stay s, e)

  -- The worker has exited and no submitter waits.
  abbrev NobodyWaits : ProgressEngine → Type 0
  NobodyWaits s = (s.worker ≡ exited) × (s.waiting ≡ [])

  releases-half :
      (n : ℕ) (s : ProgressEngine)
      → s.half_notified ≡ suc n
      → s.worker ≡ exited
      → Reaches NobodyWaits s
  unfolding notify_submitters
  releases-half n s e out =
      (notify_submitters n s, go s _ _ (stop_submitters n e) (stay _), (out, refl))

  releases-owed :
      (n m : ℕ) (s : ProgressEngine)
      → s.flagged ≡ n
      → s.half_notified ≡ m
      → 0 < n + m
      → s.worker ≡ exited
      → Reaches NobodyWaits s
  unfolding notify_worker
  releases-owed zero zero s f e owed out = absurd (omega arith)
  releases-owed zero (suc m) s f e owed out = releases-half m s e out
  releases-owed (suc n) m s f e owed out =
      after NobodyWaits s (notify_worker n s) (stop_worker n f)
        (releases-half s.half_notified (notify_worker n s) refl (ap wake out))

  releases :
      (s : ProgressEngine)
      → AreReleased s.waiting true (s.flagged + s.half_notified)
      → s.worker ≡ exited
      → Reaches NobodyWaits s
  releases s (inl nobody) out = (s, stay s, (out, nobody))
  releases s (inr (inl on)) out = absurd (cc)
  releases s (inr (inr owed)) out = releases-owed s.flagged s.half_notified s refl refl owed out

  -- No submitter is left.
  abbrev IsOver : ProgressEngine → Type 0
  IsOver s = (s.worker ≡ exited) × (s.waiting ≡ []) × (s.submitting ≡ [])

  refuses :
      (subs : List EngineOp) (s : ProgressEngine)
      → s.submitting ≡ subs
      → s.stop_requested ≡ true
      → NobodyWaits s
      → Reaches IsOver s
  unfolding refuse
  refuses [] s empty off h = (s, stay s, (h.0, h.1, empty))
  refuses (op ∷ subs) s some_left off h =
      after IsOver s (refuse [] subs s) (reject [] op subs some_left off)
        (refuses subs (refuse [] subs s) refl off h)

finished_all :
    (ops : List EngineOp) (s : ProgressEngine)
    → IsStopping ops s
    → s.worker ≡ exited
    → s.calls ≡ calls_of ops
finished_all ops s h out =
    let (stopped, empty) = subst (λ w. IsClosed w s.stop_requested s.queue) out h.inv.closed in
    let all : s.accepted ≡ s.finished =
      h.inv.fifo ∙ ap₂ (λ w l. s.finished ++ (in_hand w ++ l)) out empty ∙ append-nil s.finished in
    h.inv.called ∙ ap calls_of (sym all ∙ h.same)

-- A continuation in which the worker has exited after all operations accepted so far, and no thread is left
-- in `submit`.
abbrev pub Finishes : ProgressEngine → Type 0
Finishes s =
    (u : ProgressEngine) × Steps Step s u
    × (u.worker ≡ exited)
    × (u.waiting ≡ [])
    × (u.submitting ≡ [])
    × (u.accepted ≡ s.accepted)
    × (u.calls ≡ calls_of s.accepted)

-- Once a stop is requested, the threads can go on from every state that they can reach, also from one in
-- which the worker sleeps or submitters wait for room, until the worker has exited, no submitter is
-- blocked, and the calls for all operations accepted have been made.
pub stop_lem :
    (depth : ℕ) (s : ProgressEngine)
    → Steps Step (started depth) s
    → s.stop_requested ≡ true
    → Finishes s
stop_lem depth s steps off =
    let ops = s.accepted in
    let h : IsStopping ops s = record {
      off = off;
      same = refl;
      inv = Steps-Inv depth s steps;
      notified = Steps-IsNotified depth s steps;
    } in
    let (t, to_t, out) = exits ops s.worker s refl h in
    let h_t = Steps-IsStopping ops s t to_t h in
    let (v, to_v, alone) =
      releases ops t
        (subst (λ b. AreReleased t.waiting b (t.flagged + t.half_notified)) h_t.off
          h_t.notified.submitters)
        out in
    let h_v = Steps-IsStopping ops t v to_v h_t in
    let (u, to_u, over) = refuses ops v.submitting v refl h_v.off alone in
    let h_u = Steps-IsStopping ops v u to_u h_v in
    (
      u,
      Steps-append Step s t u to_t (Steps-append Step t v u to_v to_u),
      over.0,
      over.1,
      over.2,
      h_u.same,
      finished_all ops u h_u over.0,
    )
