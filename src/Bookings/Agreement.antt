-- ===== src/Bookings/Agreement.antt =====
-- `normalizeCreateInput`, which throws at the first failure, and `normalizeCreateInputForQuote`,
-- which collects the failures, make the same checks.
use fit.Common.{ℕ, ◌≡◌, refl, inl, inr, Option, none, some, List, [], ◌∷◌, ltb, Bool-cases}
use fit.Runtime.{Reason, bad_request, Result, ok, err}
use fit.Bookings.Model.{BookingQuoteInput, UpdateBookingRequestInput}
use fit.Bookings.Normalize.{
  Normalized, NormalizedUpdate, valid_range, duration_days_of, trimmed_or_null, is_too_long,
  is_invalid_count, exceeds_guests, quote_reasons, normalize_range,
  normalize_create_input_for_quote, normalized_update, normalize_update_range,
  normalize_create_input,
}
use fit.Bookings.Passing.{InOrder, normalize-InOrder}

-- The quote of an update, for the posting of the booking request.
abbrev pub as_quote : ℕ → UpdateBookingRequestInput → BookingQuoteInput
as_quote posting_id u = record {
  posting_id = posting_id;
  renter_id = u.renter_id;
  start_at = u.start_at;
  end_at = u.end_at;
  guest_count = u.guest_count;
  note = u.note;
}

-- No failures: both give one request. Failures: the first is thrown.
abbrev pub Agrees : List Reason → Option Normalized → Result NormalizedUpdate → Type 0
Agrees [] n r = (k : NormalizedUpdate) × (r ≡ ok k) × (n ≡ some k.normalized)
Agrees (f ∷ fs) n r = r ≡ err (bad_request f)

module _ (u : UpdateBookingRequestInput) (posting_id max_days : ℕ) where
  range-Agrees :
      (o : Option (ℕ × ℕ))
      → Agrees
          (normalize_range (as_quote posting_id u) max_days o).1
          (normalize_range (as_quote posting_id u) max_days o).0
          (normalize_update_range u max_days o)
  unfolding normalize_range normalize_update_range normalized_update quote_reasons
  range-Agrees none = refl
  range-Agrees (some (x, y)) = elim (Bool-cases (ltb (duration_days_of x y) 1)) [
    | inl e ↦ rw e refl
    | inr e ↦ elim (Bool-cases (ltb max_days (duration_days_of x y))) [
      | inl f ↦ rw (e, f) refl
      | inr f ↦ elim (Bool-cases (is_invalid_count u.guest_count)) [
        | inl g ↦ rw (e, f, g) refl
        | inr g ↦ elim (Bool-cases (exceeds_guests u.guest_count)) [
          | inl h ↦ rw (e, f, g, h) refl
          | inr h ↦ elim (Bool-cases (is_too_long (trimmed_or_null u.note))) [
            | inl k ↦ rw (e, f, g, h, k) refl
            | inr k ↦ rw (e, f, g, h, k) (_, refl, refl)
          ]
        ]
      ]
    ]
  ]

  -- The checks of an update agree with those of a quote of the same dates, guests and note: where the
  -- quote has no failure reasons both give the same request, and else the update throws the first of
  -- the reasons.
  pub normalize-Agrees :
      Agrees
        (normalize_create_input_for_quote (as_quote posting_id u) max_days).1
        (normalize_create_input_for_quote (as_quote posting_id u) max_days).0
        (normalize_create_input u max_days)
  unfolding normalize_create_input_for_quote normalize_create_input
  normalize-Agrees = range-Agrees (valid_range u.start_at u.end_at)

  -- If an update passes its checks, its dates are a range of at least a day and at most the limit, with
  -- the days rounded up, its guests from 1 to 20 and its note short.
  pub update-InOrder :
      (n : NormalizedUpdate)
      → normalize_create_input u max_days ≡ ok n
      → InOrder max_days n.normalized
  update-InOrder n e =
      go (normalize_create_input_for_quote (as_quote posting_id u) max_days).1 refl normalize-Agrees
    where
      go :
          (rs : List Reason)
          → (normalize_create_input_for_quote (as_quote posting_id u) max_days).1 ≡ rs
          → Agrees rs
              (normalize_create_input_for_quote (as_quote posting_id u) max_days).0
              (normalize_create_input u max_days)
          → InOrder max_days n.normalized
      go [] r (k, e', q) =
          let same : k ≡ n = cc in
          normalize-InOrder (as_quote posting_id u) max_days n.normalized (rw (← same) q) r
      go (f ∷ fs) r a = cc
