-- ===== src/Progress/Queue.antt =====
-- `Progress` of csrc/backend/Progress.cpp as steps of its threads. The worker holds the mutex while it
-- tests the condition and until it sleeps; a submitter pushes under the mutex and notifies afterwards;
-- `shutdown` sets the flag and notifies without the mutex. A worker that is woken or has run a task
-- takes the mutex again as its next move. There are no spurious wakeups.
pub mod Invariant
pub mod Drain
use mccl.Base.{
  ℕ, zero, suc, ◌≡◌, ◌≢◌, Bool, true, false, Option, List, [], ◌∷◌, ◌++◌, ◌==◌, if◌then◌else◌,
}
use mccl.Progress.Work.{Work, run_task}

-- The work object that a task completes, and what its operation throws.
pub record Task : Type 0 where
  pub work : ℕ
  pub body : Option ℕ

pub data Phase : Type 0 where
  testing : Phase
  dozing : Phase
  asleep : Phase
  working : Task → Phase
  exited : Phase

pub data Closing : Type 0 where
  unclosed : Closing
  flagged : Closing
  notified : Closing

-- `owed` counts the submitters that have pushed and not yet notified; `submitted` and `ran` are the
-- tasks pushed and run so far, and stand for no state of the source.
pub record Progress : Type 0 where
  pub stop : Bool
  pub queue : List Task
  pub phase : Phase
  pub owed : ℕ
  pub closing : Closing
  pub works : ℕ → Work
  pub submitted : List Task
  pub ran : List Task

abbrev pub initial : (ℕ → Work) → Progress
initial works = record {
  stop = false;
  queue = [];
  phase = testing;
  owed = 0;
  closing = unclosed;
  works = works;
  submitted = [];
  ran = [];
}

-- Whether the mutex is free.
abbrev pub IsFree : Phase → Type 0
IsFree testing = ⊥
IsFree dozing = ⊥
IsFree asleep = Unit
IsFree (working t) = Unit
IsFree exited = Unit

-- A notification.
abbrev pub wake : Phase → Phase
wake testing = testing
wake dozing = dozing
wake asleep = testing
wake (working t) = working t
wake exited = exited

-- The body of `submit` that holds the mutex.
unfoldable pub push : Task → Progress → Progress
push t s = record s {
  queue = s.queue ++ (t ∷ []);
  owed = suc s.owed;
  submitted = s.submitted ++ (t ∷ []);
}

-- The task at the front runs: `task()`.
unfoldable pub run : Task → Progress → Progress
run t s = record s {
  phase = testing;
  works = λ i. if i == t.work then run_task t.body (s.works i) else s.works i;
  ran = s.ran ++ (t ∷ []);
}

pub data Step (s : Progress) : Progress → Type 0 where
  submit : (t : Task) → IsFree s.phase → Step s (push t s)
  notify_one : (n : ℕ) → s.owed ≡ suc n → Step s (record s { owed = n; phase = wake s.phase })
  set_stop : s.closing ≡ unclosed → Step s (record s { stop = true; closing = flagged })
  notify_all : s.closing ≡ flagged → Step s (record s { closing = notified; phase = wake s.phase })
  find_idle :
      s.phase ≡ testing → s.stop ≡ false → s.queue ≡ [] → Step s (record s { phase = dozing })
  fall_asleep : s.phase ≡ dozing → Step s (record s { phase = asleep })
  take :
      (t : Task) (rest : List Task)
      → s.phase ≡ testing
      → s.queue ≡ t ∷ rest
      → Step s (record s { phase = working t; queue = rest })
  perform : (t : Task) → s.phase ≡ working t → Step s (run t s)
  leave : s.phase ≡ testing → s.stop ≡ true → s.queue ≡ [] → Step s (record s { phase = exited })
