-- ===== src/Collective/Exchange/Segments.antt =====
-- Parts of a buffer that lie one behind the other.
use mccl.Base.{
  ℕ, zero, suc, ◌+◌, ◌-◌, ◌≤◌, ◌<◌, ◌≡◌, sym, subst, ◌∙◌, ap, true, ◌&&◌, inl, inr, ◌⊎◌, arith,
  Memory, ltb, leb,
}
use mccl.Collective.Exchange.{copy_range, offset, Sends, receive_parts}

pub last_or_before : (p n : ℕ) → p < suc n → (p ≡ n) ⊎ (p < n)
last_or_before p n h = ground arith

copy_range_inside :
    (dst : Memory) (off : ℕ) (src : Memory) (from len i : ℕ)
    → i < len
    → copy_range dst off src from len (off + i) ≡ src (from + i)
unfolding copy_range
copy_range_inside dst off src from len i h =
    let index : from + (off + i - off) ≡ from + i = omega arith in
    let inside : (leb off (off + i) && ltb (off + i) (off + len)) ≡ true = ground arith in
    rw inside (ap src index)

copy_range_below :
    (dst : Memory) (off : ℕ) (src : Memory) (from len i : ℕ)
    → i < off
    → copy_range dst off src from len i ≡ dst i
unfolding copy_range
copy_range_below dst off src from len i h = ground arith

offset-Monotone : (sizes : ℕ → ℕ) (p n : ℕ) → p < n → offset sizes p + sizes p ≤ offset sizes n
unfolding offset
offset-Monotone sizes p zero h = absurd (omega arith)
offset-Monotone sizes p (suc n) h = elim (last_or_before p n h) [
  | inl last ↦
      let same : offset sizes p + sizes p ≡ offset sizes n + sizes n =
        ap (λ q. offset sizes q + sizes q) last in
      omega arith
  | inr before ↦ omega (arith, offset-Monotone sizes p n before)
]

pub receive_parts_at :
    (sends : Sends) (sizes : ℕ → ℕ) (rank n p i : ℕ) (dst : Memory)
    → p < n
    → i < sizes p
    → receive_parts sends sizes rank n dst (offset sizes p + i)
      ≡ sends.input p (sends.from p rank + i)
unfolding receive_parts copy_range
receive_parts_at sends sizes rank zero p i dst h hi = absurd (omega arith)
receive_parts_at sends sizes rank (suc n) p i dst h hi = elim (last_or_before p n h) [
  | inl last ↦
      subst
        (λ q.
          copy_range (receive_parts sends sizes rank n dst) (offset sizes n) (sends.input n)
            (sends.from n rank) (sizes n) (offset sizes q + i)
          ≡ sends.input q (sends.from q rank + i))
        (sym last)
        (copy_range_inside (receive_parts sends sizes rank n dst) (offset sizes n) (sends.input n)
          (sends.from n rank) (sizes n) i (subst (λ q. i < sizes q) last hi))
  | inr before ↦
      let below : offset sizes p + sizes p ≤ offset sizes n = offset-Monotone sizes p n before in
      copy_range_below (receive_parts sends sizes rank n dst) (offset sizes n) (sends.input n)
        (sends.from n rank) (sizes n) (offset sizes p + i) (omega arith)
      ∙ receive_parts_at sends sizes rank n p i dst before hi
]
