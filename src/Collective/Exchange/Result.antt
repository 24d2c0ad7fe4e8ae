-- ===== src/Collective/Exchange/Result.antt =====
-- What `_allgather_base` and `alltoall_base` leave.
use mccl.Base.{
  ℕ, zero, suc, ◌+◌, ◌*◌, ◌≤◌, ◌<◌, ◌≡◌, ◌≢◌, ◌⊎◌, Bool-cases, refl, sym, ◌∙◌, ap, subst, true, inl,
  inr, some, arith, Memory, ◌==◌,
}
use mccl.Allreduce.Tree.{every_rank}
use mccl.Allreduce.Tree.Rounds.{every_rank-intro}
use mccl.Collective.Exchange.{
  offset, Sends, receive_parts, gets_past, all_pass, parts_match, exchange, allgather_base,
}
use mccl.Collective.Exchange.Segments.{receive_parts_at}

-- Of any two ranks one sends the other no more than the socket buffers hold.
abbrev pub Fit : (ℕ → ℕ → ℕ) → ℕ → (ℕ → ℕ → ℕ) → Type 0
Fit room world sent =
    (r p : ℕ) → r < world → p < world → r ≢ p → (sent r p ≤ room r p) ⊎ (sent p r ≤ room p r)

pub Fit-all_pass :
    (room : ℕ → ℕ → ℕ) (world : ℕ) (sent : ℕ → ℕ → ℕ)
    → Fit room world sent
    → all_pass world room sent ≡ true
Fit-all_pass room world sent fit =
    every_rank-intro (λ r. every_rank (gets_past room sent r) world) world
      (λ r hr. every_rank-intro (gets_past room sent r) world (λ p hp. elim (Bool-cases (r == p)) [
        | inl same ↦ rw same refl
        | inr other ↦ elim (fit r p hr hp (λ e. ground arith)) [
          | inl here ↦ ground arith
          | inr there ↦ ground arith
        ]
      ]))

exchange_lem :
    (room : ℕ → ℕ → ℕ) (world : ℕ) (sends : Sends) (sizes : ℕ → ℕ → ℕ)
    → ((r p : ℕ) → r < world → p < world → sizes r p ≡ sends.sent p r)
    → Fit room world sends.sent
    → (out : ℕ → Memory) × (exchange room world sends sizes ≡ some out)
      × ((r p i : ℕ)
          → r < world
          → p < world
          → i < sizes r p
          → out r (offset (sizes r) p + i) ≡ sends.input p (sends.from p r + i))
unfolding exchange
exchange_lem room world sends sizes agree fit =
    let matched : every_rank (parts_match world sends sizes) world ≡ true =
      every_rank-intro (parts_match world sends sizes) world (λ r hr.
        every_rank-intro (λ p. sizes r p == sends.sent p r) world
          (λ p hp. let same : sizes r p ≡ sends.sent p r = agree r p hr hp in ground arith)) in
    let through = Fit-all_pass room world sends.sent fit in
    rw (matched, through)
      ((
        (λ r. receive_parts sends (sizes r) r world (λ i. 0)),
        refl,
        (λ r p i hr hp hi. receive_parts_at sends (sizes r) r world p i (λ i. 0) hp hi),
      ))

offset_even : (n p : ℕ) → offset (λ q. n) p ≡ p * n
unfolding offset
offset_even n zero = omega arith
offset_even n (suc p) =
    let below : offset (λ q. n) p ≡ p * n = offset_even n p in
    let grow : suc p * n ≡ p * n + n = omega arith in omega arith

-- Where every rank's output has `world` times the size of every rank's input, `_allgather_base` leaves
-- at every rank the inputs of all ranks, one behind the other. The other condition is that of any two
-- ranks one sends the other no more than the socket buffers hold.
pub allgather_base_lem :
    (room : ℕ → ℕ → ℕ) (world size : ℕ) (chunk total : ℕ → ℕ) (input : ℕ → Memory)
    → ((r : ℕ) → r < world → chunk r ≡ size)
    → ((r : ℕ) → r < world → total r ≡ size * world)
    → Fit room world (λ p r. chunk p)
    → (out : ℕ → Memory) × (allgather_base room world chunk total input ≡ some out)
      × ((r p i : ℕ) → r < world → p < world → i < size → out r (p * size + i) ≡ input p i)
unfolding allgather_base
allgather_base_lem room world size chunk total input h_chunk h_total fit =
    let checked : every_rank (λ r. total r == chunk r * world) world ≡ true =
      every_rank-intro (λ r. total r == chunk r * world) world
        (λ r hr.
          let same : total r ≡ chunk r * world =
            h_total r hr ∙ ap (λ n. n * world) (sym (h_chunk r hr)) in
          ground arith) in
    let sends : Sends = record { input = input; from = λ p r. 0; sent = λ p r. chunk p } in
    let (out, e, all) =
      exchange_lem room world sends (λ r p. chunk r)
        (λ r p hr hp. h_chunk r hr ∙ sym (h_chunk p hp)) fit in
    rw checked (
      (
        out,
        e,
        λ r p i hr hp hi.
            let place : offset (λ q. chunk r) p ≡ p * size =
              offset_even (chunk r) p ∙ ap (λ n. p * n) (h_chunk r hr) in
            ap (λ o. out r (o + i)) (sym place)
            ∙ all r p i hr hp (subst (λ n. i < n) (sym (h_chunk r hr)) hi)
            ∙ ap (input p) (omega arith),
      ))
