-- ===== src/Progress/Queue/Drain.antt =====
-- What the queue of csrc/backend/Progress.cpp comes to: tasks that wait, and a shutdown.
use mathlib.Core.List.{append-nil}
use mccl.Base.{
  ℕ, zero, suc, ◌≤◌, ◌≡◌, ◌≢◌, refl, sym, ◌∙◌, ap, subst, true, List, [], ◌∷◌, ◌++◌, arith, length,
  Steps, stay, go,
}
use mccl.Progress.Work.{Work}
use mccl.Progress.Queue.{
  Task, Phase, testing, dozing, asleep, working, exited, unclosed, flagged, notified, Progress,
  initial, wake, push, run, Step, submit, notify_one, set_stop, notify_all, find_idle, fall_asleep,
  take, perform, leave,
}
use mccl.Progress.Queue.Invariant.{
  current, IsAwaited, AreCompleted, Inv, fifo_in, Step-Inv, Steps-Inv,
}

-- A continuation in which all tasks that have been submitted have run.
abbrev pub Drains : Progress → Type 0
Drains s =
    (u : Progress) × Steps Step s u
    × (u.submitted ≡ s.submitted)
    × (u.ran ≡ s.submitted)
    × AreCompleted u.works s.submitted

ran_all :
    (s : Progress) (p : Phase)
    → s.phase ≡ p
    → current p ≡ []
    → s.queue ≡ []
    → Inv s
    → s.ran ≡ s.submitted
ran_all s p e idle empty inv = sym (
    fifo_in s p e inv
    ∙ ap (λ l. s.ran ++ (l ++ s.queue)) idle
    ∙ ap (λ l. s.ran ++ l) empty
    ∙ append-nil s.ran)

nothing_left :
    (s : Progress) (p : Phase) → s.phase ≡ p → current p ≡ [] → s.queue ≡ [] → Inv s → Drains s
nothing_left s p e idle empty inv =
    let all : s.ran ≡ s.submitted = ran_all s p e idle empty inv in
    (s, stay s, refl, all, subst (AreCompleted s.works) all inv.settled)

drain_testing : (q : List Task) (s : Progress) → s.queue ≡ q → s.phase ≡ testing → Inv s → Drains s
unfolding push run
drain_testing [] s empty e inv = nothing_left s testing e refl empty inv
drain_testing (t ∷ q) s front e inv =
    let taken : Progress = record s { phase = working t; queue = q } in
    let first : Step s taken = take t q e front in
    let second : Step taken (run t taken) = perform t refl in
    let kept : Inv (run t taken) = Step-Inv taken _ second (Step-Inv s taken first inv) in
    let (u, steps, same, all, settled) = drain_testing q (run t taken) refl refl kept in
    (u, go s taken u first (go taken (run t taken) u second steps), same, all, settled)

length_zero : (q : List Task) → length q ≡ 0 → q ≡ []
length_zero [] h = refl
length_zero (t ∷ q) h = absurd (omega arith)

drain_asleep :
    (q : List Task) (owed : ℕ) (s : Progress)
    → s.queue ≡ q
    → s.owed ≡ owed
    → s.phase ≡ asleep
    → Inv s
    → Drains s
drain_asleep [] owed s empty count e inv = nothing_left s asleep e refl empty inv
drain_asleep (t ∷ q) zero s front count e inv =
    let awaited : length s.queue ≤ s.owed =
      subst (λ p. IsAwaited p (length s.queue) s.owed) e inv.awaited in
    let some_left : length s.queue ≡ suc (length q) = ap length front in absurd (omega arith)
drain_asleep (t ∷ q) (suc n) s front count e inv =
    let woken : Progress = record s { owed = n; phase = wake s.phase } in
    let first : Step s woken = notify_one n count in
    let (u, steps, same, all, settled) =
      drain_testing (t ∷ q) woken front (ap wake e) (Step-Inv s woken first inv) in
    (u, go s woken u first steps, same, all, settled)

drain_in : (p : Phase) (s : Progress) → s.phase ≡ p → p ≢ exited → Inv s → Drains s
unfolding run
drain_in testing s e h inv = drain_testing s.queue s refl e inv
drain_in dozing s e h inv =
    let none_left : length s.queue ≡ 0 =
      subst (λ p. IsAwaited p (length s.queue) s.owed) e inv.awaited in
    nothing_left s dozing e refl (length_zero s.queue none_left) inv
drain_in asleep s e h inv = drain_asleep s.queue s.owed s refl refl e inv
drain_in (working t) s e h inv =
    let first : Step s (run t s) = perform t e in
    let (u, steps, same, all, settled) =
      drain_testing s.queue (run t s) refl refl (Step-Inv s _ first inv) in
    (u, go s (run t s) u first steps, same, all, settled)
drain_in exited s e h inv = absurd (h refl)

-- No task that is submitted is forgotten: from every state that the threads can reach and in which the
-- worker has not left, they can go on so that all tasks submitted so far have run, and the work of
-- each is complete.
pub drain_lem :
    (works : ℕ → Work) (s : Progress) → Steps Step (initial works) s → s.phase ≢ exited → Drains s
drain_lem works s steps h = drain_in s.phase s refl h (Steps-Inv works s steps)

wake_exited : (p : Phase) → wake p ≡ exited → p ≡ exited
wake_exited testing e = cc
wake_exited dozing e = cc
wake_exited asleep e = cc
wake_exited (working t) e = cc
wake_exited exited e = refl

leave_in :
    (s u : Progress)
    → Step s u
    → Inv s
    → s.phase ≢ exited
    → u.phase ≡ exited
    → (u.ran ≡ u.submitted) × AreCompleted u.works u.submitted
unfolding push run
leave_in s u (submit t free) inv h out = absurd (h out)
leave_in s u (notify_one n e) inv h out = absurd (h (wake_exited s.phase out))
leave_in s u (set_stop e) inv h out = absurd (h out)
leave_in s u (notify_all e) inv h out = absurd (h (wake_exited s.phase out))
leave_in s u (find_idle e unstopped empty) inv h out = cc
leave_in s u (fall_asleep e) inv h out = cc
leave_in s u (take t rest e front) inv h out = cc
leave_in s u (perform t e) inv h out = cc
leave_in s u (leave e stopped empty) inv h out =
    let all : s.ran ≡ s.submitted = ran_all s testing e refl empty inv in
    (all, subst (AreCompleted s.works) all inv.settled)

-- The worker leaves only after it has run all tasks submitted so far, in the order of their
-- submission and each one once, and all of their works are complete.
pub leave_lem :
    (works : ℕ → Work) (s u : Progress)
    → Steps Step (initial works) s
    → Step s u
    → s.phase ≢ exited
    → u.phase ≡ exited
    → (u.ran ≡ u.submitted) × AreCompleted u.works u.submitted
leave_lem works s u steps st h out = leave_in s u st (Steps-Inv works s steps) h out

-- A state that only a later submission gets out of.
abbrev pub IsStuck : Progress → Type 0
IsStuck s = (u : Progress) → Step s u → (t : Task) × (u ≡ push t s)

sleeping-IsStuck : (s : Progress) → s.phase ≡ asleep → s.closing ≡ notified → s.owed ≡ 0 → IsStuck s
sleeping-IsStuck s e late quiet u (submit t free) = (t, refl)
sleeping-IsStuck s e late quiet u (notify_one n owes) = absurd (omega arith)
sleeping-IsStuck s e late quiet u (set_stop before) = cc
sleeping-IsStuck s e late quiet u (notify_all before) = cc
sleeping-IsStuck s e late quiet u (find_idle at unstopped empty) = cc
sleeping-IsStuck s e late quiet u (fall_asleep at) = cc
sleeping-IsStuck s e late quiet u (take t rest at front) = cc
sleeping-IsStuck s e late quiet u (perform t at) = cc
sleeping-IsStuck s e late quiet u (leave at stopped empty) = cc

-- If `shutdown` is called when the worker has found nothing to do and does not sleep yet, and no
-- notification is to come, its own may be lost: the worker can fall asleep after it and sleeps for
-- ever, though `stop` is set, while `shutdown` waits for it.
pub shutdown_lost :
    (s : Progress)
    → s.phase ≡ dozing
    → s.closing ≡ unclosed
    → s.owed ≡ 0
    → (u : Progress) × Steps Step s u × (u.stop ≡ true) × (u.phase ≡ asleep) × IsStuck u
shutdown_lost s e before quiet =
    let flag : Progress = record s { stop = true; closing = flagged } in
    let note : Progress = record flag { closing = notified; phase = wake flag.phase } in
    let sleep : Progress = record note { phase = asleep } in
    let steps : Steps Step s sleep = go s flag sleep (set_stop before) (
      go flag note sleep (notify_all refl)
        (go note sleep sleep (fall_asleep (ap wake e)) (stay sleep))) in
    (sleep, steps, refl, refl, sleeping-IsStuck sleep refl refl quiet)
