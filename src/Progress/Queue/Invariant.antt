-- ===== src/Progress/Queue/Invariant.antt =====
-- What every step of the queue of csrc/backend/Progress.cpp keeps.
use mathlib.Core.List.{append_assoc}
use mccl.Base.{
  ℕ, suc, ◌+◌, ◌≤◌, ◌≡◌, refl, sym, ◌∙◌, ap, subst, true, List, [], ◌∷◌, ◌++◌, arith, length,
  length-append, All, All-append, ◌==◌, if◌then◌else◌, Steps, Steps-keep,
}
use mccl.Progress.Work.{Work, run_task, run_task-completed}
use mccl.Progress.Queue.{
  Task, Phase, testing, dozing, asleep, working, exited, Progress, initial, IsFree, wake, push, run,
  Step, submit, notify_one, set_stop, notify_all, find_idle, fall_asleep, take, perform, leave,
}

abbrev pub current : Phase → List Task
current testing = []
current dozing = []
current asleep = []
current (working t) = t ∷ []
current exited = []

-- While the worker is about to sleep there is nothing in the queue, and while it sleeps there is a
-- notification to come for each task.
abbrev pub IsAwaited : Phase → ℕ → ℕ → Type 0
IsAwaited testing tasks owed = Unit
IsAwaited dozing tasks owed = tasks ≡ 0
IsAwaited asleep tasks owed = tasks ≤ owed
IsAwaited (working t) tasks owed = Unit
IsAwaited exited tasks owed = Unit

abbrev pub AreCompleted : (ℕ → Work) → List Task → Type 0
AreCompleted works = All (λ t. (works t.work).completed ≡ true)

pub record Inv (s : Progress) : Type 0 where
  pub fifo : s.submitted ≡ s.ran ++ (current s.phase ++ s.queue)
  pub awaited : IsAwaited s.phase (length s.queue) s.owed
  pub settled : AreCompleted s.works s.ran

initial-Inv : (works : ℕ → Work) → Inv (initial works)
initial-Inv works = record { fifo = refl; awaited = tt; settled = tt }

pub fifo_in :
    (s : Progress) (p : Phase) → s.phase ≡ p → Inv s → s.submitted ≡ s.ran ++ (current p ++ s.queue)
fifo_in s p e inv = subst (λ q. s.submitted ≡ s.ran ++ (current q ++ s.queue)) e inv.fifo

current-wake : (p : Phase) → current (wake p) ≡ current p
current-wake testing = refl
current-wake dozing = refl
current-wake asleep = refl
current-wake (working t) = refl
current-wake exited = refl

wake-IsAwaited : (p : Phase) (n m k : ℕ) → IsAwaited p n m → IsAwaited (wake p) n k
wake-IsAwaited testing n m k h = tt
wake-IsAwaited dozing n m k h = h
wake-IsAwaited asleep n m k h = tt
wake-IsAwaited (working t) n m k h = tt
wake-IsAwaited exited n m k h = tt

push-IsAwaited : (p : Phase) (n m : ℕ) → IsFree p → IsAwaited p n m → IsAwaited p (n + 1) (suc m)
push-IsAwaited testing n m free h = tt
push-IsAwaited dozing n m free h = absurd free
push-IsAwaited asleep n m free h = omega arith
push-IsAwaited (working t) n m free h = tt
push-IsAwaited exited n m free h = tt

run-AreCompleted :
    (works : ℕ → Work) (t : Task) (ts : List Task)
    → AreCompleted works ts
    → AreCompleted (λ i. if i == t.work then run_task t.body (works i) else works i) ts
run-AreCompleted works t [] h = tt
run-AreCompleted works t (u ∷ ts) (here, h) =
    (ground (arith, run_task-completed t.body (works u.work)), run-AreCompleted works t ts h)

pub Step-Inv : (s u : Progress) → Step s u → Inv s → Inv u
unfolding push run
Step-Inv s u (submit t free) inv = record {
  fifo =
      ap (λ l. l ++ (t ∷ [])) inv.fifo
      ∙ append_assoc s.ran (current s.phase ++ s.queue) (t ∷ [])
      ∙ ap (λ l. s.ran ++ l) (append_assoc (current s.phase) s.queue (t ∷ []));
  awaited =
      subst (λ n. IsAwaited s.phase n (suc s.owed)) (sym (length-append s.queue (t ∷ [])))
        (push-IsAwaited s.phase (length s.queue) s.owed free inv.awaited);
  settled = inv.settled;
}
Step-Inv s u (notify_one n e) inv = record {
  fifo = inv.fifo ∙ ap (λ l. s.ran ++ (l ++ s.queue)) (sym (current-wake s.phase));
  awaited = wake-IsAwaited s.phase (length s.queue) s.owed n inv.awaited;
  settled = inv.settled;
}
Step-Inv s u (set_stop e) inv = record {
  fifo = inv.fifo;
  awaited = inv.awaited;
  settled = inv.settled;
}
Step-Inv s u (notify_all e) inv = record {
  fifo = inv.fifo ∙ ap (λ l. s.ran ++ (l ++ s.queue)) (sym (current-wake s.phase));
  awaited = wake-IsAwaited s.phase (length s.queue) s.owed s.owed inv.awaited;
  settled = inv.settled;
}
Step-Inv s u (find_idle e unstopped empty) inv = record {
  fifo = fifo_in s testing e inv;
  awaited = ap length empty;
  settled = inv.settled;
}
Step-Inv s u (fall_asleep e) inv = record {
  fifo = fifo_in s dozing e inv;
  awaited =
      let none_left : length s.queue ≡ 0 =
        subst (λ p. IsAwaited p (length s.queue) s.owed) e inv.awaited in
      omega arith;
  settled = inv.settled;
}
Step-Inv s u (take t rest e front) inv = record {
  fifo = fifo_in s testing e inv ∙ ap (λ l. s.ran ++ l) front;
  awaited = tt;
  settled = inv.settled;
}
Step-Inv s u (perform t e) inv = record {
  fifo = fifo_in s (working t) e inv ∙ sym (append_assoc s.ran (t ∷ []) s.queue);
  awaited = tt;
  settled =
      All-append (λ v. (u.works v.work).completed ≡ true) s.ran (t ∷ [])
        (run-AreCompleted s.works t s.ran inv.settled)
        (ground (arith, run_task-completed t.body (s.works t.work)), tt);
}
Step-Inv s u (leave e stopped empty) inv = record {
  fifo = fifo_in s testing e inv;
  awaited = tt;
  settled = inv.settled;
}

pub Steps-Inv : (works : ℕ → Work) (s : Progress) → Steps Step (initial works) s → Inv s
Steps-Inv works s steps = Steps-keep Step Inv Step-Inv (initial works) s steps (initial-Inv works)
