-- ===== src/Base.antt =====
-- backend/src/app/features/base/base.repository.ts: every query and every transaction of a repository
-- runs again after a failure that may pass. Logging is left out.
pub mod Retry
pub mod Once
mod Tests
use fit.Common.{
  ℕ, zero, suc, ◌+◌, ◌*◌, Bool, true, false, not, ◌||◌, Option, none, some, List, [], ◌∷◌, leb,
  ◌==◌, if◌then◌else◌, any,
}
use fit.Runtime.{Error, Turn, Visit, M, visit, throw, catch, ◌>>=◌}
use fit.Runtime.Transaction.{query}
use Prim.Native.Nat.{◌^◌}

-- Times in milliseconds. The code `P1001` of the database is the number 1001.
pub record RetryOptions : Type 0 where
  pub backoff_multiplier : ℕ
  pub deadline_ms : ℕ
  pub initial_delay_ms : ℕ
  pub jitter_ms : ℕ
  pub max_delay_ms : ℕ
  pub max_retries : ℕ
  pub retryable_codes : List ℕ

abbrev pub default_retry_options : RetryOptions
default_retry_options = record {
  backoff_multiplier = 2;
  deadline_ms = 10_000;
  initial_delay_ms = 100;
  jitter_ms = 50;
  max_delay_ms = 2_000;
  max_retries = 3;
  retryable_codes = 1001 ∷ 1002 ∷ 1008 ∷ 1017 ∷ 2024 ∷ 2034 ∷ [];
}

-- `error.name`; the four names are those of TRANSIENT_ERROR_NAMES.
pub data ErrorName : Type 0 where
  abort_error client_initialization_error client_rust_panic_error : ErrorName
  client_unknown_request_error another_name : ErrorName

-- `error.code`; the seven codes are those of TRANSIENT_NODE_ERROR_CODES.
pub data NodeCode : Type 0 where
  econnreset econnrefused etimedout epipe ehostunreach enetunreach : NodeCode
  protocol_connection_lost another_code : NodeCode

-- What the tests of `isTransientError` see of an error: the class of the database's client, or the name
-- and the code of any other value that is thrown.
pub data Failure : Type 0 where
  known_request : (code : ℕ) → Failure
  initialization rust_panic unknown_request : Failure
  other : ErrorName → Option NodeCode → Failure

abbrev pub is_transient_name : ErrorName → Bool
is_transient_name another_name = false
is_transient_name _ = true

abbrev pub is_transient_code : Option NodeCode → Bool
is_transient_code none = false
is_transient_code (some another_code) = false
is_transient_code (some _) = true

unfoldable pub is_transient_error : Failure → RetryOptions → Bool
is_transient_error (known_request code) options = any (λ c. c == code) options.retryable_codes
is_transient_error initialization options = true
is_transient_error rust_panic options = true
is_transient_error unknown_request options = true
is_transient_error (other name code) options = is_transient_name name || is_transient_code code

unfoldable pub exponential_delay : (attempt : ℕ) → RetryOptions → ℕ
exponential_delay attempt options =
    let delay : ℕ = options.initial_delay_ms * options.backoff_multiplier ^ attempt in
    if leb delay options.max_delay_ms then delay else options.max_delay_ms

-- `random n` is `Math.floor(Math.random() * n)`.
unfoldable pub calculate_delay : (random : ℕ → ℕ) → (attempt : ℕ) → RetryOptions → ℕ
unfolding exponential_delay
calculate_delay random attempt options =
    exponential_delay attempt options + random options.jitter_ms

abbrev pub has_reached_deadline : (now started_at : ℕ) → RetryOptions → Bool
has_reached_deadline now started_at options = leb (started_at + options.deadline_ms) now

abbrev pub will_exceed_deadline : (now started_at next_delay_ms : ℕ) → RetryOptions → Bool
will_exceed_deadline now started_at next_delay_ms options =
    leb (started_at + options.deadline_ms) (now + next_delay_ms)

-- The conditions of the two `throw error` but the count of attempts.
abbrev pub gives_up : Failure → (attempt started_at : ℕ) → RetryOptions → Turn → Bool
gives_up failure attempt started_at options t =
    not (is_transient_error failure options)
    || has_reached_deadline t.now started_at options
    || will_exceed_deadline t.later started_at (calculate_delay t.random attempt options) options

-- `failure_of` reads an error.
module _ {A : Type 0} (failure_of : Error → Failure) (options : RetryOptions)
    (operation : M A) where
  -- The loop with `left` more tries than this one; the sleep is the time until the next visit.
  unfoldable pub attempt_from : (left attempt started_at : ℕ) → M A
  attempt_from zero attempt started_at = operation
  attempt_from (suc left) attempt started_at =
      let again : M A = attempt_from left (attempt + 1) started_at in
      catch operation λ error.
        visit (query λ t s. gives_up (failure_of error) attempt started_at options t) >>= λ over.
        if over then throw error else again

  unfoldable pub execute_async : M A
  unfolding attempt_from
  execute_async =
      visit (query λ t s. t.now) >>= λ started_at. attempt_from options.max_retries 0 started_at

-- `run` is `prisma.$transaction`: what a try does to the store and how it ends. After a lost connection it may
-- throw and have committed.
unfoldable pub execute_transaction :
    {A : Type 0} → (run : Visit A → Visit A) → (Error → Failure) → RetryOptions → Visit A → M A
unfolding execute_async
execute_transaction run failure_of options operation =
    execute_async failure_of options (visit (run operation))
