-- ===== src/Scheduler/Tick/Order.antt =====
-- The comparator that csrc/runtime/Scheduler.cpp hands to `std::sort`.
use mccl.Base.{ℕ, ◌≡◌, Bool, true, false, arith, if◌then◌else◌, ltb}
use mccl.Scheduler.Types.{Job, rank}
use mccl.Scheduler.Tick.{goes_before}

-- The comparator on the ranks and the submission times.
before : ℕ → ℕ → ℕ → ℕ → Bool
before p s q t = if ltb q p then true else if ltb p q then false else ltb s t

before_irrefl : (p s : ℕ) → before p s p s ≡ false
unfolding before
before_irrefl p s = ground arith

before_trans :
    (p s q t r u : ℕ) → before p s q t ≡ true → before q t r u ≡ true → before p s r u ≡ true
unfolding before
before_trans p s q t r u h k = ground arith

incomparable_trans :
    (p s q t r u : ℕ)
    → before p s q t ≡ false
    → before q t p s ≡ false
    → before q t r u ≡ false
    → before r u q t ≡ false
    → (before p s r u ≡ false) × (before r u p s ≡ false)
unfolding before
incomparable_trans p s q t r u h k l m = (ground arith, ground arith)

-- What `std::sort` demands of a comparator.
pub record IsStrictWeakOrder (lt : Job → Job → Bool) : Type 0 where
  pub irrefl : (a : Job) → lt a a ≡ false
  pub trans : (a b c : Job) → lt a b ≡ true → lt b c ≡ true → lt a c ≡ true
  pub incomparable :
      (a b c : Job)
      → lt a b ≡ false
      → lt b a ≡ false
      → lt b c ≡ false
      → lt c b ≡ false
      → (lt a c ≡ false) × (lt c a ≡ false)

-- The comparator of the queue is the strict weak order that `std::sort` demands: no job goes before
-- itself, the order is transitive, and so is being incomparable.
pub goes_before-IsStrictWeakOrder : IsStrictWeakOrder goes_before
unfolding goes_before before
goes_before-IsStrictWeakOrder = record {
  irrefl = λ a. before_irrefl (rank a.priority) a.submitted_at_us;
  trans = λ a b c.
      before_trans (rank a.priority) a.submitted_at_us (rank b.priority) b.submitted_at_us
        (rank c.priority) c.submitted_at_us;
  incomparable = λ a b c.
      incomparable_trans (rank a.priority) a.submitted_at_us (rank b.priority) b.submitted_at_us
        (rank c.priority) c.submitted_at_us;
}
