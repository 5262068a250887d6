-- ===== src/Payments/Bounds.antt =====
-- Bounds of payments.utils.ts: the retry dates.
use fit.Common.{ℕ, ◌+◌, ◌/◌, ◌≤◌, inl, inr, arith, leb, Bool-cases}
use fit.Payments.Utils.{min_of, max_of, backoff_delay, create_exponential_backoff_date}

min_of-le : (a b : ℕ) → min_of a b ≤ b
min_of-le a b = elim (Bool-cases (leb a b)) [
  | inl e ↦ rw e (ground arith)
  | inr e ↦ rw e (omega arith)
]

max_of-le : (a b : ℕ) → max_of a b ≤ a + b
max_of-le a b = elim (Bool-cases (leb a b)) [
  | inl e ↦ rw e (omega arith)
  | inr e ↦ rw e (omega arith)
]

backoff_delay-le : (retry_count base max : ℕ) → backoff_delay retry_count base max ≤ max
unfolding backoff_delay
backoff_delay-le retry_count base max = min_of-le _ max

-- If `random n` is at most `n`, a retry is due no sooner than its delay from now, and no later
-- than the greatest delay, a tenth of it and 250 milliseconds from now.
pub create_exponential_backoff_date-Bounds :
    (random : ℕ → ℕ) (now retry_count base max : ℕ)
    → ((n : ℕ) → random n ≤ n)
    → (now + backoff_delay retry_count base max
        ≤ create_exponential_backoff_date random now retry_count base max)
      × (create_exponential_backoff_date random now retry_count base max
          ≤ now + max + (250 + max / 10))
unfolding create_exponential_backoff_date
create_exponential_backoff_date-Bounds random now retry_count base max bound =
    let delay : ℕ = backoff_delay retry_count base max in
    (
      omega arith,
      omega (
        arith,
        backoff_delay-le retry_count base max,
        bound (max_of 250 (delay / 10)),
        max_of-le 250 (delay / 10),
      ),
    )
