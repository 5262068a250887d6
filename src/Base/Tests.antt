-- ===== src/Base/Tests.antt =====
-- Retries on the sample store, and the theorems on them at these runs.
use fit.Common.{ℕ, ◌+◌, ◌*◌, ◌≡◌, refl, leb, if◌then◌else◌, [], any}
use fit.Store.{Store}
use fit.Runtime.{
  Error, record_missing, Result, ok, err, Visit, visit, pure, throw, catch, transaction, ◌>>=◌,
}
use fit.Runtime.Transaction.{query}
use fit.Base.{
  default_retry_options, Failure, known_request, is_transient_error, exponential_delay,
  calculate_delay, attempt_from, execute_async, execute_transaction,
}
use fit.Base.Retry.{Within, visit-Within, execute_async-Within}
use fit.Samples.{world}

-- A deadlock, which the options name, for each error.
abbrev deadlock : Error → Failure
deadlock e = known_request 2034

unfoldable retries : Unit {0}
unfolding any visit pure throw catch transaction ◌>>=◌ query is_transient_error exponential_delay
    calculate_delay attempt_from execute_async execute_transaction
retries = tt

-- A transaction that fails before the time 8.
abbrev from_eight : Visit ℕ
from_eight t s = if_late t.now s
  where
    if_late : ℕ → Store → Result ℕ × Store
    if_late now s =
        if leb 8 now then (ok now, record s { rentings = [] }) else (err record_missing, s)

tried_again :
    (execute_transaction transaction deadlock default_retry_options from_eight (world 5)).0 ≡ ok 8
unfolding retries
tried_again = refl

execute_async-Within_example :
    Within (1 + (1 + 3 * (1 + 1))) (execute_async deadlock default_retry_options (visit from_eight))
execute_async-Within_example =
    execute_async-Within deadlock default_retry_options 1 (visit-Within from_eight)
