-- ===== src/Allreduce/Ring/Schedule.antt =====
-- Who sends what to whom in the rounds of `allreduce_ring`.
use native.Mathlib.Nat.{mod-eq_of_lt, mod-eq-sub-mod}
use native.Mathlib.Decide.{dec_lt}
use mccl.Base.{ℕ, suc, ◌+◌, ◌-◌, ◌%◌, ◌<◌, ◌≡◌, ◌≢◌, ◌↔◌, arith, leb, ltb, if◌then◌else◌}
use mccl.Allreduce.Ring.{prev_rank, next_rank, reduce_send, reduce_recv, gather_send, gather_recv}

-- A remainder of what is less than twice the divisor, and of what is at most twice.
mod_once : (x w : ℕ) → x < w + w → x % w ≡ (if ltb x w then x else x - w)
mod_once x w h = elim (dec_lt x w) [
  | yes p ↦ ground (arith, mod-eq_of_lt p)
  | no p ↦ ground (
    arith,
    mod-eq-sub-mod {n = x} {m = w} (omega arith),
    mod-eq_of_lt {n = x - w} {m = w} (omega arith),
  )
]

-- How many steps back along the ring the rank `c` lies from `r`.
unfoldable pub steps_back : ℕ → ℕ → ℕ → ℕ
steps_back w r c = if leb c r then r - c else r + w - c

pub prev_rank_lem : (w r : ℕ) → r < w → prev_rank w r ≡ (if ltb 0 r then r - 1 else w - 1)
unfolding prev_rank
prev_rank_lem w r h = ground (arith, mod_once (r + w - 1) w (omega arith))

pub prev_rank-lt : (w r : ℕ) → r < w → prev_rank w r < w
prev_rank-lt w r h = ground (arith, prev_rank_lem w r h)

pub reduce_send_lem :
    (w r k : ℕ) → r < w → k < w → reduce_send w r k ≡ (if leb k r then r - k else r + w - k)
unfolding reduce_send
reduce_send_lem w r k h hk = ground (arith, mod_once (r + w - k) w)

pub reduce_recv_lem :
    (w r k : ℕ)
    → r < w
    → suc k < w
    → reduce_recv w r k ≡ (if ltb k r then r - k - 1 else r + w - k - 1)
unfolding reduce_recv
reduce_recv_lem w r k h hk = ground (arith, mod_once (r + w - k - 1) w (omega arith))

pub gather_recv_lem :
    (w r k : ℕ) → r < w → k < w → gather_recv w r k ≡ (if leb k r then r - k else r + w - k)
unfolding gather_recv
gather_recv_lem w r k h hk = ground (arith, mod_once (r + w - k) w)

pub gather_send_lem :
    (w r k : ℕ)
    → r < w
    → suc k < w
    → gather_send w r k ≡ (
        if leb w (r + 1 - k)
        then r + 1 - k - w
        else if leb k (r + 1)
        then r + 1 - k
        else r + 1 + w - k)
unfolding gather_send
gather_send_lem w r k h hk = elim (dec_lt (r + 1 + w - k) (w + w)) [
  | yes p ↦ ground (arith, mod_once (r + 1 + w - k) w p)
  | no p ↦ ground (
    arith,
    mod-eq-sub-mod {n = r + 1 + w - k} {m = w} (omega arith),
    mod_once (r + 1 + w - k - w) w (omega arith),
  )
]

-- In every round of both phases, the chunk that a rank receives is the chunk that its predecessor
-- sends, the predecessor sends to that rank, and a rank does not send the chunk that it receives.
pub rounds_match :
    (w r k : ℕ)
    → r < w
    → suc k < w
    → (reduce_recv w r k ≡ reduce_send w (prev_rank w r) k)
      × (gather_recv w r k ≡ gather_send w (prev_rank w r) k)
      × (next_rank w (prev_rank w r) ≡ r)
      × (reduce_send w r k ≢ reduce_recv w r k)
      × (gather_send w r k ≢ gather_recv w r k)
unfolding next_rank
rounds_match w r k h hk =
    let p = prev_rank w r in
    let below = prev_rank-lt w r h in
    let before = prev_rank_lem w r h in
    (
      ground (arith, before, reduce_recv_lem w r k h hk, reduce_send_lem w p k below),
      ground (arith, before, gather_recv_lem w r k h, gather_send_lem w p k below hk),
      ground (arith, before, mod_once (p + 1) w (omega arith)),
      ground (arith, reduce_recv_lem w r k h hk, reduce_send_lem w r k h),
      ground (arith, gather_recv_lem w r k h, gather_send_lem w r k h hk),
    )

-- A rank receives in round `k` the chunk of the rank that lies `k + 1`, or `k`, steps back.
pub reduce_recv-steps_back :
    (w r c k : ℕ) → r < w → c < w → suc k < w → (c ≡ reduce_recv w r k) ↔ (steps_back w r c ≡ suc k)
unfolding steps_back
reduce_recv-steps_back w r c k h hc hk =
    (ground (arith, reduce_recv_lem w r k h hk), ground (arith, reduce_recv_lem w r k h hk))

pub gather_recv-steps_back :
    (w r c k : ℕ) → r < w → c < w → suc k < w → (c ≡ gather_recv w r k) ↔ (steps_back w r c ≡ k)
unfolding steps_back
gather_recv-steps_back w r c k h hc hk =
    (ground (arith, gather_recv_lem w r k h), ground (arith, gather_recv_lem w r k h))

pub steps_back-prev :
    (w r c : ℕ)
    → r < w
    → c < w
    → steps_back w (prev_rank w r) c
      ≡ (if ltb 0 (steps_back w r c) then steps_back w r c - 1 else w - 1)
unfolding steps_back
steps_back-prev w r c h hc = ground (arith, prev_rank_lem w r h)

pub steps_back-lt : (w r c : ℕ) → r < w → c < w → steps_back w r c < w
unfolding steps_back
steps_back-lt w r c h hc = ground arith
