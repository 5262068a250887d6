-- ===== src/Runtime.antt =====
-- How an `async` method runs: it visits the shared store again and again, and between two visits
-- any other request may change the store. A visit is one query, one `$transaction` or one Redis
-- command.
pub mod Logic
pub mod Outcomes
pub mod Transaction
pub mod Keeps
pub mod Rely
use fit.Common.{ℕ, ◌+◌, Bool, true, false, Option, none, some}
use fit.Store.{Store}

-- The messages of the errors; the texts are those of the source, with their parameters.
pub data Reason : Type 0 where
  posting_unavailable own_posting invalid_range shorter_than_a_day : Reason
  max_duration_exceeded : (duration_days max_booking_duration_days : ℕ) → Reason
  invalid_guest_count guest_count_exceeded note_too_long : Reason
  renting_overlap availability_block_overlap : Reason
  active_request_limit_exceeded : (active_request_count : ℕ) → Reason
  booking_not_found posting_not_found renting_not_found : Reason
  no_booking_access no_posting_access no_renting_access : Reason
  only_pending_updated only_pending_approved only_pending_declined already_expired : Reason
  posting_not_updatable posting_not_actionable posting_not_convertible : Reason
  no_longer_available only_paid_converted already_converted not_reserved : Reason
  already_reserved another_request_created changed_before_update : Reason
  changed_before_approval changed_before_decline : Reason
  request_finalized not_ready_for_payment payment_not_found no_payment_access : Reason
  payment_not_linked refund_exceeds_total not_retryable bad_signature : Reason
  provider_payment_not_found not_reconciled reconciliation_needed finalizing_busy : Reason
  code_sent_recently : (retry_after_seconds : ℕ) → Reason
  code_missing : Reason
  code_invalid : (attempts_remaining : ℕ) → Reason
  window_busy update_busy decision_busy conversion_busy : Reason
  posting_id_missing : Reason
  only_draft_published only_published_paused only_paused_unpaused already_archived : Reason
  photo_count_invalid daily_price_invalid latitude_invalid longitude_invalid : Reason
  block_range_invalid blocks_overlap block_conflicts_with_request : Reason
  block_conflicts_with_renting block_not_found block_changed unsafe_text : Reason
  availability_busy booking_availability_busy : Reason

-- The classes of backend/src/app/errors/http that the code throws. `type_error` is the exception
-- of reading a property of `null`, `duplicate_key` that of the database on a second row with one key,
-- `record_missing` that on an update of a row that is not there, `provider_error` one of the provider,
-- `plain_error` is `Error` itself.
pub data Error : Type 0 where
  bad_request conflict forbidden not_found too_many_requests plain_error : Reason → Error
  type_error duplicate_key record_missing provider_error : Error

pub data Result {ℓ} (A : Type ℓ) : Type ℓ where
  ok : A → Result A
  err : Error → Result A

-- One visit: the clock when it begins, the clock when its update is built, the values of
-- `randomUUID()` that it draws, `Math.floor(Math.random() * n)`,
-- the place that the database gives the row of an id among those that `orderBy` leaves equal, and what other requests did to the store since the visit before.
pub record Turn : Type 0 where
  pub now : ℕ
  pub later : ℕ
  pub uuid : ℕ → ℕ
  pub random : ℕ → ℕ
  pub rank : ℕ → ℕ
  pub others : Store → Store

pub record World : Type 0 where
  pub store : Store
  pub turns : ℕ → Turn
  pub moment : ℕ

abbrev pub M {ℓ} : Type ℓ → Type ℓ
M A = World → Result A × World

abbrev pub Visit {ℓ} : Type ℓ → Type ℓ
Visit A = Turn → Store → Result A × Store

abbrev pub enter : World → Store
enter w = (w.turns w.moment).others w.store

abbrev pub leave : World → Store → World
leave w s = record w { store = s; moment = w.moment + 1 }

module _ {ℓ} {A : Type ℓ} where
  unfoldable pub pure : A → M A
  pure a w = (ok a, w)

  unfoldable pub throw : Error → M A
  throw e w = (err e, w)

  unfoldable pub visit : Visit A → M A
  visit f w = let (r, s) = f (w.turns w.moment) (enter w) in (r, leave w s)

  -- A `$transaction` that throws is rolled back.
  abbrev pub roll_back : Store → Result A × Store → Result A × Store
  roll_back s (ok a, s') = (ok a, s')
  roll_back s (err e, s') = (err e, s)

  unfoldable pub transaction : Visit A → Visit A
  transaction f t s = roll_back s (f t s)

module _ {ℓ κ} {A : Type ℓ} {B : Type κ} where
  abbrev pub continue : Result A → (A → M B) → M B
  continue (ok a) f w = f a w
  continue (err e) f w = (err e, w)

  infixl 5 ◌>>=◌
  unfoldable pub ◌>>=◌ : M A → (A → M B) → M B
  unfolding pure throw visit
  ◌>>=◌ m f w = let (r, w') = m w in continue r f w'

infixl 5 ◌>>◌
abbrev pub ◌>>◌ {ℓ} : {B : Type ℓ} → M (Unit {0}) → M B → M B
m >> n = m >>= λ _. n

-- `try { return await m } finally { await c }`
unfoldable pub finally {ℓ} : {A : Type ℓ} → M A → M (Unit {0}) → M A
finally m c w = let (r, w') = m w in (r, (c w').1)

-- `try { return await m } catch (error) { await c; throw error }`
abbrev pub rethrow {ℓ} : {A : Type ℓ} → Result A → M (Unit {0}) → M A
rethrow (ok a) c w = (ok a, w)
rethrow (err e) c w = (err e, (c w).1)

unfoldable pub on_error {ℓ} : {A : Type ℓ} → M A → M (Unit {0}) → M A
on_error m c w = let (r, w') = m w in rethrow r c w'

-- `try { return await m } catch (error) { return await handler(error) }`
abbrev pub handled {ℓ} : {A : Type ℓ} → Result A → (Error → M A) → M A
handled (ok a) handler w = (ok a, w)
handled (err e) handler w = handler e w

unfoldable pub catch {ℓ} : {A : Type ℓ} → M A → (Error → M A) → M A
catch m handler w = let (r, w') = m w in handled r handler w'

-- `if (test) { throw error }`
unfoldable pub throw_if : Bool → Error → M (Unit {0})
throw_if true e = throw e
throw_if false e = pure tt

-- `if (!value) { throw error }`
unfoldable pub require {ℓ} : {A : Type ℓ} → Option A → Error → M A
require none e = throw e
require (some a) e = pure a

-- A pure check that may throw.
unfoldable pub lift {ℓ} : {A : Type ℓ} → Result A → M A
lift (ok a) = pure a
lift (err e) = throw e
