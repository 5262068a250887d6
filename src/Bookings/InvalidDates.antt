-- ===== src/Bookings/InvalidDates.antt =====
-- A request whose dates make no valid range, in `create` and in `quote` of
-- backend/src/app/features/bookings/bookings.service.ts.
use fit.Common.{ℕ, ◌≡◌, ◌⊎◌, refl, inl, inr, false, Option, none, some, List, [], ◌∷◌, ◌++◌}
use fit.Runtime.{
  Reason, invalid_range, posting_not_found, window_busy, Error, type_error, not_found, conflict,
  require, World,
}
use fit.Runtime.Logic.{Any}
use fit.Runtime.Outcomes.{
  Outcome, Ends, visit-Ends, pure-Ends, require-Ends, bind-Ends, weaken-Ends, throw-Ends,
}
use fit.Cache.Exclusion.{with_flow_locks-Ends}
use fit.Bookings.Model.{BookingQuoteInput, CreateBookingRequestInput}
use fit.Bookings.Normalize.{Normalized, valid_range, normalize_create_input_for_quote}
use fit.Bookings.Validation.{
  ValidationResult, find_posting, require_posting, validate_booking_request, assert_passed,
  assert_booking_request_validation_passed, posting_reasons, max_days_of,
}
use fit.Bookings.Create.{create_locked, create}
use fit.Bookings.Quote.{QuoteResult, quote_result, quote}

-- The errors of `create` on such a request: never the one that the checks have a message for.
abbrev pub Unvalidated : Error → Type 0
Unvalidated e = (e ≡ not_found posting_not_found) ⊎ (e ≡ conflict window_busy) ⊎ (e ≡ type_error)

abbrev pub IsNotFound : Error → Type 0
IsNotFound e = e ≡ not_found posting_not_found

abbrev pub HasNoRange : BookingQuoteInput → Type 0
HasNoRange input = valid_range input.start_at input.end_at ≡ none

normalize_invalid :
    (input : BookingQuoteInput) (max_days : ℕ)
    → HasNoRange input
    → normalize_create_input_for_quote input max_days ≡ (none, invalid_range ∷ [])
unfolding normalize_create_input_for_quote
normalize_invalid input max_days e = rw e refl

-- What a validation of such a request says: no dates, and why.
abbrev Failed : BookingQuoteInput → ValidationResult → Type 0
Failed input v =
    (v.normalized ≡ none)
    × (v.failure_reasons ≡ posting_reasons v.posting input.renter_id ++ invalid_range ∷ [])

module _ {E : Error → Type 0} (missing : E (not_found posting_not_found)) where
  require_posting-Ends : (id : ℕ) → Ends (require_posting id) Any E
  unfolding require_posting find_posting
  require_posting-Ends id =
      bind-Ends {Q = Any} (visit-Ends _ λ t s. tt)
        λ found _. weaken-Ends (require-Ends found _ missing) (λ p e. tt) (λ e h. h)

  validate-Ends :
      (input : BookingQuoteInput)
      → HasNoRange input
      → Ends (validate_booking_request input) (Failed input) E
  unfolding validate_booking_request
  validate-Ends input none_valid = bind-Ends (require_posting-Ends input.posting_id) λ p _.
      rw (normalize_invalid input (max_days_of p) none_valid) (
        bind-Ends (pure-Ends {Q = λ rs. rs ≡ []} [] refl)
          λ conflicts e. pure-Ends _ (refl, rw e refl))

assert_passed-Ends :
    {E : Error → Type 0} (rs : List Reason) (n : Option Normalized)
    → n ≡ none
    → Ends (assert_passed rs n) Any E
unfolding assert_passed
assert_passed-Ends [] none e = pure-Ends tt tt
assert_passed-Ends (r ∷ rs) none e = pure-Ends tt tt
assert_passed-Ends [] (some n) e = cc
assert_passed-Ends (r ∷ rs) (some n) e = cc

no_dates-Ends :
    (o : Option Normalized) → o ≡ none → Ends (require o type_error) (λ n. ⊥) Unvalidated
unfolding require
no_dates-Ends none e = throw-Ends type_error (inr (inr refl))
no_dates-Ends (some n) e = cc

create_locked-Ends :
    (input : CreateBookingRequestInput)
    → HasNoRange input.quoted
    → Ends (create_locked input) (λ b. ⊥) Unvalidated
unfolding create_locked assert_booking_request_validation_passed
create_locked-Ends input e = bind-Ends (validate-Ends (inl refl) input.quoted e) λ v h.
    bind-Ends (assert_passed-Ends v.failure_reasons v.normalized h.0)
      λ _ _. bind-Ends {Q = λ n. ⊥} (no_dates-Ends v.normalized h.0) λ n n'. absurd n'

create-Ends :
    (input : CreateBookingRequestInput)
    → HasNoRange input.quoted
    → Ends (create input) (λ b. ⊥) Unvalidated
unfolding create assert_booking_request_validation_passed
create-Ends input e = bind-Ends (validate-Ends (inl refl) input.quoted e) λ v h.
    bind-Ends (assert_passed-Ends v.failure_reasons v.normalized h.0) λ _ _.
      bind-Ends (with_flow_locks-Ends _ _ (inr (inl refl)) (create_locked-Ends input e))
        λ b n. absurd n

-- With dates that make no valid range, whatever others do, `create` never returns a booking and
-- never throws the BadRequestError of the checks: it ends in the error of a missing posting, the
-- conflict of its locks, or the exception of reading a property of `null`.
pub create_invalid_dates :
    (input : CreateBookingRequestInput) (w : World)
    → HasNoRange input.quoted
    → Outcome (λ b. ⊥) Unvalidated (create input w).0
create_invalid_dates input w e = (create-Ends input e).at w

unbookable :
    (v : ValidationResult) (r : Reason) (before : List Reason)
    → v.failure_reasons ≡ before ++ r ∷ []
    → (quote_result v).bookable ≡ false
unfolding quote_result
unbookable v r [] e = rw e refl
unbookable v r (x ∷ before) e = rw e refl

no_terms :
    (v : ValidationResult)
    → v.normalized ≡ none
    → ((quote_result v).duration_days ≡ none) × ((quote_result v).estimated_total ≡ none)
unfolding quote_result
no_terms v e = rw e (refl, refl)

quoted_reasons :
    (v : ValidationResult) (rs : List Reason)
    → v.failure_reasons ≡ rs
    → (quote_result v).failure_reasons ≡ rs
unfolding quote_result
quoted_reasons v rs e = e

-- What a quote with such dates answers.
pub record Unbookable (q : QuoteResult) : Type 0 where
  pub not_bookable : q.bookable ≡ false
  pub no_days : q.duration_days ≡ none
  pub no_total : q.estimated_total ≡ none
  pub before : List Reason
  pub last : q.failure_reasons ≡ before ++ invalid_range ∷ []

quote-Ends :
    (input : BookingQuoteInput) → HasNoRange input → Ends (quote input) Unbookable IsNotFound
unfolding quote
quote-Ends input e = bind-Ends (validate-Ends refl input e) λ v h. pure-Ends _ (record {
  not_bookable = unbookable v invalid_range _ h.1;
  no_days = (no_terms v h.0).0;
  no_total = (no_terms v h.0).1;
  before = _;
  last = quoted_reasons v _ h.1;
})

-- With dates that make no valid range, whatever others do, a quote ends in the error of a missing
-- posting, or answers that the request is not bookable, with no duration and no total, and gives
-- the range as the last reason.
pub quote_invalid_dates :
    (input : BookingQuoteInput) (w : World)
    → HasNoRange input
    → Outcome Unbookable IsNotFound (quote input w).0
quote_invalid_dates input w e = (quote-Ends input e).at w
