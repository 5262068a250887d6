-- ===== src/Payments/Utils.antt =====
-- backend/src/app/features/payments/payments.utils.ts. Amounts are in cents, and where the source computes
-- with numbers of floating point, so does the model: each operation gives the double nearest to the
-- exact result, of two the one with the even mantissa.
use fit.Common.{ℕ, zero, suc, ◌+◌, ◌*◌, ◌/◌, ◌%◌, Option, ltb, leb, if◌then◌else◌, or_else}
use Prim.Native.Nat.{◌^◌}

-- The key that is given, or a new one.
abbrev pub create_payment_idempotency_key : Option ℕ → (uuid : ℕ) → ℕ
create_payment_idempotency_key provided uuid = or_else provided uuid

-- A double that is not negative, as a fraction whose denominator is a power of two.
pub record Double : Type 0 where
  pub numerator : ℕ
  pub denominator : ℕ

-- The least `s` from `k` on with `2 ^ 52 ≤ n / d * 2 ^ s`, as far as the fuel goes.
scale_up : (fuel k n d : ℕ) → ℕ
scale_up zero k n d = k
scale_up (suc fuel) k n d =
    let rest : ℕ = scale_up fuel (k + 1) n d in if leb (d * 2 ^ 52) (n * 2 ^ k) then k else rest

-- The least `u` from `k` on with `n / d < 2 ^ (53 + u)`, as far as the fuel goes.
scale_down : (fuel k n d : ℕ) → ℕ
scale_down zero k n d = k
scale_down (suc fuel) k n d =
    let rest : ℕ = scale_down fuel (k + 1) n d in if ltb n (d * 2 ^ (53 + k)) then k else rest

-- `a / b` to the nearest whole number, a half to the even one.
abbrev half_even : (a b : ℕ) → ℕ
half_even a b =
    let q : ℕ = a / b in
    let r : ℕ = a % b in if ltb (r + r) b then q else if ltb b (r + r) then q + 1 else q + q % 2

-- The double nearest to `n / d`: 53 bits of mantissa; amounts and shares of 18 digits need no smaller or
-- greater scale than the fuel gives.
unfoldable pub nearest : (n d : ℕ) → Double
unfolding scale_up scale_down
nearest n d =
    let s : ℕ = scale_up 80 0 n d in
    let u : ℕ = scale_down 40 0 n d in
    record { numerator = half_even (n * 2 ^ s) (d * 2 ^ u) * 2 ^ u; denominator = 2 ^ s }

-- `a * b`
unfoldable pub times : Double → Double → Double
unfolding nearest
times a b = nearest (a.numerator * b.numerator) (a.denominator * b.denominator)

-- `a + b`
unfoldable pub plus : Double → Double → Double
unfolding nearest
plus a b =
    nearest (a.numerator * b.denominator + b.numerator * a.denominator)
      (a.denominator * b.denominator)

-- `Math.round(a * 100)`, a half up
unfoldable pub cents_of : Double → ℕ
unfolding times nearest
cents_of a =
    let b : Double = times a (nearest 100 1) in
    (b.numerator + b.numerator + b.denominator) / (b.denominator + b.denominator)

-- The number of an amount in cents, and of basis points
unfoldable pub number_of : (amount : ℕ) → Double
unfolding nearest
number_of amount = nearest amount 100

-- `Math.round(amount * (bps / 10_000) * 100) / 100`
unfoldable pub share_of : (amount bps : ℕ) → ℕ
unfolding number_of times nearest cents_of
share_of amount bps = cents_of (times (number_of amount) (nearest bps 10_000))

-- `Math.round((a + b) * 100) / 100`
unfoldable pub sum_of : (a b : ℕ) → ℕ
unfolding number_of plus cents_of
sum_of a b = cents_of (plus (number_of a) (number_of b))

unfoldable pub calculate_platform_fee_amount : (total_amount fee_bps : ℕ) → ℕ
unfolding share_of
calculate_platform_fee_amount total_amount fee_bps = share_of total_amount fee_bps

abbrev pub min_of : ℕ → ℕ → ℕ
min_of a b = if leb a b then a else b

abbrev pub max_of : ℕ → ℕ → ℕ
max_of a b = if leb a b then b else a

-- `Math.min(baseDelayMs * 2 ** Math.min(retryCount, 8), maxDelayMs)`
unfoldable pub backoff_delay : (retry_count base_delay_ms max_delay_ms : ℕ) → ℕ
backoff_delay retry_count base_delay_ms max_delay_ms =
    min_of (base_delay_ms * 2 ^ min_of retry_count 8) max_delay_ms

-- `random n` is `Math.floor(Math.random() * n)`.
unfoldable pub create_exponential_backoff_date :
    (random : ℕ → ℕ) (now retry_count base_delay_ms max_delay_ms : ℕ) → ℕ
unfolding backoff_delay
create_exponential_backoff_date random now retry_count base_delay_ms max_delay_ms =
    let delay : ℕ = backoff_delay retry_count base_delay_ms max_delay_ms in
    now + delay + random (max_of 250 (delay / 10))
