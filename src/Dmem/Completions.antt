-- ===== src/Dmem/Completions.antt =====
-- The completion queue of csrc/dmem/DistributedMemoryManager.cpp: `poll_completion` and
-- `drain_pending`. What the queue answers is a parameter, a list of polls; its end is the deadline. The
-- poller's thread takes no completions meanwhile.
use mccl.Base.{
  ℕ, zero, suc, ◌≤◌, ◌<◌, ◌≡◌, refl, sym, ◌∙◌, ap, Bool, true, false, Option, none, some, List, [],
  ◌∷◌, ◌++◌, arith, leb, ◌==◌, if◌then◌else◌,
}

pub record Completion : Type 0 where
  pub wr_id : ℕ
  pub success : Bool

-- `poll_cq` fails, or gives some completions.
pub data Poll : Type 0 where
  failed : Poll
  batch : List Completion → Poll

-- The loop over one batch: the status of the request if it is there; the others are discarded.
unfoldable pub find_completion : ℕ → List Completion → Option Bool
find_completion w [] = none
find_completion w (c ∷ cs) =
    let rest = find_completion w cs in if c.wr_id == w then some c.success else rest

abbrev pub answer_or : Option Bool → Bool → Bool
answer_or none b = b
answer_or (some a) b = a

unfoldable pub poll_completion : ℕ → List Poll → Bool
unfolding find_completion
poll_completion w [] = false
poll_completion w (failed ∷ polls) = false
poll_completion w (batch cs ∷ polls) =
    let rest = poll_completion w polls in answer_or (find_completion w cs) rest

-- `pending_ops_.back()`, if there is one.
unfoldable pub last_pending : List ℕ → Option ℕ
last_pending [] = none
last_pending (w ∷ []) = some w
last_pending (w ∷ (v ∷ ws)) = last_pending (v ∷ ws)

-- The loop that takes requests off the front.
unfoldable pub pop_through : ℕ → List ℕ → List ℕ
pop_through last [] = []
pop_through last (w ∷ ws) = let rest = pop_through last ws in if leb w last then rest else w ∷ ws

-- `drain_pending`, where `completes w` is what polling for `w` returns; each round takes at least the
-- last request off, or the loop ends, so that the length is enough fuel.
abbrev pub drain_round : (ℕ → Bool) → (List ℕ → List ℕ) → List ℕ → Option ℕ → List ℕ
drain_round completes next pending none = pending
drain_round completes next pending (some last) =
    if last == 0
    then pending
    else if completes last
    then next (pop_through last pending)
    else pending

unfoldable pub drain_pending : (ℕ → Bool) → ℕ → List ℕ → List ℕ
unfolding last_pending pop_through
drain_pending completes zero pending = pending
drain_pending completes (suc fuel) pending =
    drain_round completes (drain_pending completes fuel) pending (last_pending pending)

-- Requests in the order of their numbers, which begin at 1.
abbrev pub Ordered : ℕ → List ℕ → Type 0
Ordered low [] = Unit
Ordered low (w ∷ ws) = (low < w) × Ordered w ws

-- The last request, and what is left once it has completed.
abbrev Drained : ℕ → ℕ → List ℕ → Type 0
Drained low w ws =
    (last : ℕ) × (last_pending (w ∷ ws) ≡ some last)
    × (low < last)
    × (w ≤ last)
    × (pop_through last (w ∷ ws) ≡ [])

Ordered-Drained : (low w : ℕ) (ws : List ℕ) → Ordered low (w ∷ ws) → Drained low w ws
unfolding last_pending pop_through
Ordered-Drained low w [] h =
    let self : leb w w ≡ true = ground arith in (w, refl, h.0, omega arith, rw self refl)
Ordered-Drained low w (v ∷ ws) h =
    let (last, e, above, past, gone) = Ordered-Drained w v ws h.1 in
    let within : leb w last ≡ true = ground arith in
    (last, e, omega (arith, h.0), omega arith, rw within gone)

drain_pending_nil : (completes : ℕ → Bool) (fuel : ℕ) → drain_pending completes fuel [] ≡ []
unfolding drain_pending last_pending
drain_pending_nil completes zero = refl
drain_pending_nil completes (suc fuel) = refl

-- If there are requests in the order of their numbers, from 1 on, draining polls for the last one and
-- ends after that: nothing is pending if it completes, and otherwise all that was. Any fuel is enough
-- for it but none.
pub drain_pending_lem :
    (completes : ℕ → Bool) (fuel w : ℕ) (ws : List ℕ)
    → Ordered 0 (w ∷ ws)
    → (last : ℕ) × (last_pending (w ∷ ws) ≡ some last)
      × (drain_pending completes (suc fuel) (w ∷ ws) ≡ (if completes last then [] else w ∷ ws))
unfolding drain_pending
drain_pending_lem completes fuel w ws h =
    let (last, e, above, past, gone) = Ordered-Drained 0 w ws h in
    let real : (last == 0) ≡ false = ground arith in
    (last, e, rw e (rw real (rw gone (rw (drain_pending_nil completes fuel) refl))))

find_completion-append :
    (w : ℕ) (cs ds : List Completion)
    → find_completion w (cs ++ ds)
      ≡ elim (find_completion w cs) [ none ↦ find_completion w ds | some a ↦ some a ]
unfolding find_completion
find_completion-append w [] ds = refl
find_completion-append w (c ∷ cs) ds = ground (arith, find_completion-append w cs ds)

abbrev pub batches : List (List Completion) → List Poll
batches [] = []
batches (cs ∷ rest) = batch cs ∷ batches rest

abbrev pub all_of : List (List Completion) → List Completion
all_of [] = []
all_of (cs ∷ rest) = cs ++ all_of rest

answer_once :
    (a b : Option Bool)
    → answer_or (elim a [ none ↦ b | some x ↦ some x ]) false ≡ answer_or a (answer_or b false)
answer_once none b = refl
answer_once (some x) b = refl

-- While the queue does not fail, polling in batches answers what the first completion of the request
-- says among all that arrive before the deadline, and false if there is none.
pub poll_completion-batches :
    (w : ℕ) (polls : List (List Completion))
    → poll_completion w (batches polls) ≡ answer_or (find_completion w (all_of polls)) false
unfolding poll_completion find_completion
poll_completion-batches w [] = refl
poll_completion-batches w (cs ∷ rest) =
    ap (answer_or (find_completion w cs)) (poll_completion-batches w rest)
    ∙ sym (answer_once (find_completion w cs) (find_completion w (all_of rest)))
    ∙ ap (λ o. answer_or o false) (sym (find_completion-append w cs (all_of rest)))
