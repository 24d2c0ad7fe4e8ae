-- ===== src/Scheduler/Tick/Conservation.antt =====
-- Where a tick of csrc/runtime/Scheduler.cpp moves the jobs.
use mathlib.Core.HLevel.{×_prop}
use mathlib.Core.Logic.{∥∥₁_elim}
use mathlib.Core.List.{Perm, Permᴰ}
use mathlib.Core.List.Perm
use native.Mathlib.Nat.{ℕ_set}
use native.Mathlib.Bridge.{le_prop}
use Prim.Native.String.{String}
use mccl.Base.{
  ℕ, ◌+◌, ◌<◌, ◌≡◌, refl, ◌∙◌, ◌⊎◌, inl, inr, Bool, true, false, ◌&&◌, Option, none, some, List, [],
  ◌∷◌, ◌++◌, arith, Bool-cases, All, Distinct, All-append,
}
use mccl.Scheduler.Types.{Job, running, NodeLoad, Scheduler, occurs}
use mccl.Scheduler.Jobs.Lifecycle.{occurs-append}
use mccl.Scheduler.Allocation.{can_allocate, allocate}
use mccl.Scheduler.Allocation.Exact.{can_allocate_exact}
use mccl.Scheduler.Tick.Preemption.{
  any_job, HaveNodes, preempts, preempt_loop_idle, preempt_loop_undefined,
}
use mccl.Scheduler.Tick.{Round, has_nodes, boost, boost_all, start_loop, schedule_tick}

abbrev pub Wants : List Job → Type 0
Wants = All (λ j. 0 < j.requested_nodes)

occurs-permᴰ : (i : ℕ) {xs ys : List Job} → Permᴰ xs ys → occurs i xs ≡ occurs i ys
occurs-permᴰ i Permᴰ.nil = refl
occurs-permᴰ i (Permᴰ.cons e p) = ground (arith, occurs-permᴰ i p)
occurs-permᴰ i (Permᴰ.swap e f) = ground arith
occurs-permᴰ i (Permᴰ.trans p q) = occurs-permᴰ i p ∙ occurs-permᴰ i q

occurs-perm : (i : ℕ) {xs ys : List Job} → Perm xs ys → occurs i xs ≡ occurs i ys
occurs-perm i p = ∥∥₁_elim p (ℕ_set _ _) (occurs-permᴰ i)

Wants-prop : (js : List Job) → IsProp (Wants js)
Wants-prop [] = λ x y. refl
Wants-prop (j ∷ js) = ×_prop le_prop (Wants-prop js)

Wants-permᴰ : {xs ys : List Job} → Permᴰ xs ys → Wants xs → Wants ys
Wants-permᴰ Permᴰ.nil w = w
Wants-permᴰ (Permᴰ.cons e p) w = (rw (← e) w.0, Wants-permᴰ p w.1)
Wants-permᴰ (Permᴰ.swap e f) w = (rw (← f) w.1.0, (rw (← e) w.0, w.1.1))
Wants-permᴰ (Permᴰ.trans p q) w = Wants-permᴰ q (Wants-permᴰ p w)

Wants-perm : {xs ys : List Job} → Perm xs ys → Wants xs → Wants ys
Wants-perm {xs} {ys} p w = ∥∥₁_elim p (Wants-prop ys) (λ q. Wants-permᴰ q w)

module _ (below_share : ℕ → ℕ → ℕ → Bool) (tenants : List (String × ℕ)) where
  boost_kept :
      (j : Job)
      → ((boost below_share tenants j).job_id ≡ j.job_id)
        × ((boost below_share tenants j).requested_nodes ≡ j.requested_nodes)
  unfolding boost
  boost_kept j = ground arith

  boost_all_kept :
      (i : ℕ) (js : List Job)
      → Wants js
      → (occurs i (boost_all below_share tenants js) ≡ occurs i js)
        × Wants (boost_all below_share tenants js)
  unfolding boost_all
  boost_all_kept i [] w = (refl, tt)
  boost_all_kept i (j ∷ js) w = ground (arith, boost_kept j, boost_all_kept i js w.1)

module _ (cap : ℕ) (online : List ℕ) (clock : ℕ → ℕ) where
  started_has_nodes :
      (j : Job) (loads : List NodeLoad)
      → Distinct online
      → 0 < j.requested_nodes
      → can_allocate cap j online loads ≡ true
      → has_nodes (allocate cap j online loads).0 ≡ true
  started_has_nodes j loads d w h =
      let count = (can_allocate_exact cap j online loads d).0 h in ground (arith, count)

  start_loop_conserves :
      (i : ℕ) (js active : List Job) (loads : List NodeLoad) (started : ℕ)
      → Distinct online
      → Wants js
      → HaveNodes active
      → let r = start_loop cap online clock js active loads started in
        (occurs i r.queue + occurs i r.active ≡ occurs i js + occurs i active) × HaveNodes r.active
  unfolding start_loop allocate
  start_loop_conserves i [] active loads started d w h = (refl, h)
  start_loop_conserves i (j ∷ js) active loads started d w h =
      let r = allocate cap j online loads in
      let run : Job = record r.0 { status = running; started_at_us = clock started } in
      let kept = start_loop_conserves i js active loads started d w.1 h in
      elim (Bool-cases (can_allocate cap j online loads)) [
        | inl e ↦
            let went =
              start_loop_conserves i js (active ++ (run ∷ [])) r.1 (started + 1) d w.1
                (All-append _ active (run ∷ []) h (started_has_nodes j loads d w.0 e, tt)) in
            rw e (ground (arith, went.0, occurs-append i active (run ∷ [])), went.1)
        | inr e ↦ rw e (ground (arith, kept.0), kept.1)
      ]

-- What the loop that starts jobs leaves to the preemption of a tick.
abbrev pub after_start :
    (List Job → List Job)
    → (ℕ → ℕ → ℕ → Bool)
    → (ℕ → ℕ)
    → List ℕ
    → List NodeLoad
    → Scheduler
    → Round
after_start sort below_share clock online loads s =
    start_loop s.config.memory_per_node online clock
      (boost_all below_share s.tenant_stats (sort s.queue)) s.active loads 0

-- Whether a job that is left in the queue would evict an active job in this tick.
abbrev pub preempts_in_tick :
    (List Job → List Job) → (ℕ → ℕ → ℕ → Bool) → (ℕ → ℕ) → List ℕ → List NodeLoad → Scheduler → Bool
preempts_in_tick sort below_share clock online loads s =
    let r = after_start sort below_share clock online loads s in
    s.config.preemption_enabled
    && any_job (preempts s.config.memory_per_node online clock r.active r.loads) r.queue

-- What a tick that is defined does with the jobs.
abbrev pub KeepsJobs : Scheduler → Option (Scheduler × List NodeLoad × ℕ) → Type 0
KeepsJobs s result =
    (s' : Scheduler) × (loads' : List NodeLoad) × (started : ℕ) × (result
      ≡ some (s', loads', started))
    × ((i : ℕ) → occurs i s'.queue + occurs i s'.active ≡ occurs i s.queue + occurs i s.active)
    × HaveNodes s'.active

-- A tick is undefined exactly if preemption is enabled and, after the loop that starts jobs, a job of
-- high priority at least is left for which the nodes have no room and an active job of low priority has
-- as many nodes as it requests. Otherwise it moves jobs from the queue to the active list, loses and
-- doubles none, and every job that is active afterwards has a node. The conditions are that the sort
-- permutes its list, that the online nodes are distinct, that every waiting job requests a node and that
-- every active job has one.
pub schedule_tick-conserves :
    (sort : List Job → List Job) (below_share : ℕ → ℕ → ℕ → Bool) (clock : ℕ → ℕ) (online : List ℕ)
    (loads : List NodeLoad) (s : Scheduler)
    → ((xs : List Job) → Perm (sort xs) xs)
    → Distinct online
    → Wants s.queue
    → HaveNodes s.active
    → ((preempts_in_tick sort below_share clock online loads s ≡ true)
        × (schedule_tick sort below_share clock online loads s ≡ none))
      ⊎ ((preempts_in_tick sort below_share clock online loads s ≡ false)
          × KeepsJobs s (schedule_tick sort below_share clock online loads s))
unfolding schedule_tick
schedule_tick-conserves sort below_share clock online loads s permutes d w h =
    let cap = s.config.memory_per_node in
    let wants = Wants-perm (Perm.symm (permutes s.queue)) w in
    let queue = boost_all below_share s.tenant_stats (sort s.queue) in
    let r = start_loop cap online clock queue s.active loads 0 in
    let boosted = λ (i : ℕ). boost_all_kept below_share s.tenant_stats i (sort s.queue) wants in
    let begun =
      λ (i : ℕ). start_loop_conserves cap online clock i queue s.active loads 0 d (boosted 0).1 h in
    let round : Round = record r { queue = [] } in
    let ended : Scheduler = record s { queue = r.queue; active = r.active } in
    elim (Bool-cases (preempts_in_tick sort below_share clock online loads s)) [
      | inl e ↦
          let stuck =
            preempt_loop_undefined cap online clock r.queue round (begun 0).1 refl
              (ground (arith, e)) in
          inl (e, ground (arith, e, stuck))
      | inr e ↦
          let ran : schedule_tick sort below_share clock online loads s
              ≡ some (ended, r.loads, r.started) =
            elim (Bool-cases s.config.preemption_enabled) [
              | inl enabled ↦
                  let idle =
                    preempt_loop_idle cap online clock r.queue round (begun 0).1 refl
                      (ground (arith, e, enabled)) in
                  ground (arith, enabled, idle)
              | inr disabled ↦ ground (arith, disabled)
            ] in
          inr (
            e,
            (
              ended,
              r.loads,
              r.started,
              ran,
              λ i. ground (arith, occurs-perm i (permutes s.queue), (boosted i).0, (begun i).0),
              (begun 0).1,
            ),
          )
    ]
