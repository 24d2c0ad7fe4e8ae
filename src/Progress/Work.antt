-- ===== src/Progress/Work.antt =====
-- `WorkMCCL` of csrc/backend/WorkMCCL.cpp, and what the task that `async_submit_` of
-- csrc/backend/ProcessGroupMCCL.cpp makes does with it. The mutex makes each call one step; an
-- exception is a number. Torch's future is complete with its value or with an error.
use mccl.Base.{ℕ, ◌≡◌, refl, Bool, true, false, ◌&&◌, Option, none, some, arith, if◌then◌else◌}

pub data Future : Type 0 where
  pending : Future
  marked : Future
  error : ℕ → Future

-- `sync_cb`: none if there is none, or what it throws.
pub record Work : Type 0 where
  pub completed : Bool
  pub exception : Option ℕ
  pub future : Future
  pub sync_cb : Option (Option ℕ)

abbrev pub make_work : Option (Option ℕ) → Work
make_work cb = record { completed = false; exception = none; future = pending; sync_cb = cb }

-- `if (!future_->completed())`
abbrev pub settle : Future → Future → Future
settle pending f = f
settle marked f = marked
settle (error e) f = error e

unfoldable pub finish_with_exception : ℕ → Work → Work
finish_with_exception e w =
    if w.completed
    then w
    else record w { completed = true; exception = some e; future = settle w.future (error e) }

abbrev pub after_callback : Option (Option ℕ) → Work → Work
after_callback (some (some e)) w = finish_with_exception e w
after_callback (some none) w =
    if w.completed then w else record w { completed = true; future = settle w.future marked }
after_callback none w =
    if w.completed then w else record w { completed = true; future = settle w.future marked }

unfoldable pub finish : Work → Work
unfolding finish_with_exception
finish w = after_callback w.sync_cb w

unfoldable pub is_success : Work → Bool
is_success w = w.completed && elim w.exception [ none ↦ true | some e ↦ false ]

pub data Waited : Type 0 where
  waits : Waited
  returned : Waited
  rethrown : ℕ → Waited

abbrev pub outcome : Option ℕ → Waited
outcome none = returned
outcome (some e) = rethrown e

-- `wait`; with a timeout, `waits` is the answer `false`.
unfoldable pub wait : Work → Waited
wait w = if w.completed then outcome w.exception else waits

-- The task: `body` is what the operation throws, if it throws.
unfoldable pub run_task : Option ℕ → Work → Work
unfolding finish finish_with_exception
run_task none w = finish w
run_task (some e) w = finish_with_exception e w

-- What the operation or else the callback throws.
abbrev pub first_thrown : Option ℕ → Option (Option ℕ) → Option ℕ
first_thrown (some e) cb = some e
first_thrown none (some cb) = cb
first_thrown none none = none

abbrev pub marked_by : Option ℕ → Future
marked_by none = marked
marked_by (some e) = error e

-- A task completes the work that it was made with: a wait returns if neither the operation nor the
-- callback throws, and otherwise rethrows the first exception; the future says the same.
pub run_task_lem :
    (body : Option ℕ) (cb : Option (Option ℕ))
    → let w = run_task body (make_work cb) in
      let thrown = first_thrown body cb in
      (wait w ≡ outcome thrown) × (w.future ≡ marked_by thrown) × (w.completed ≡ true)
unfolding run_task finish finish_with_exception wait
run_task_lem (some e) cb = (refl, refl, refl)
run_task_lem none (some (some e)) = (refl, refl, refl)
run_task_lem none (some none) = (refl, refl, refl)
run_task_lem none none = (refl, refl, refl)

callback_once : (cb : Option (Option ℕ)) (w : Work) → w.completed ≡ true → after_callback cb w ≡ w
unfolding finish_with_exception
callback_once none w h = ground arith
callback_once (some none) w h = ground arith
callback_once (some (some e)) w h = ground arith

callback_completed : (cb : Option (Option ℕ)) (w : Work) → (after_callback cb w).completed ≡ true
unfolding finish_with_exception
callback_completed none w = ground arith
callback_completed (some none) w = ground arith
callback_completed (some (some e)) w = ground arith

-- A work object that is complete keeps its outcome whatever task runs on it.
pub run_task_once : (body : Option ℕ) (w : Work) → w.completed ≡ true → run_task body w ≡ w
unfolding run_task finish finish_with_exception
run_task_once (some e) w h = ground arith
run_task_once none w h = callback_once w.sync_cb w h

pub run_task-completed : (body : Option ℕ) (w : Work) → (run_task body w).completed ≡ true
unfolding run_task finish finish_with_exception
run_task-completed (some e) w = ground arith
run_task-completed none w = callback_completed w.sync_cb w
