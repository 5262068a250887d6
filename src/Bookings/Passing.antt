-- ===== src/Bookings/Passing.antt =====
-- What it means that a request passes the checks of Normalize.antt and Validation.antt.
use fit.Common.{
  ℕ, ◌≤◌, ◌<◌, ◌≡◌, refl, Bool, true, false, Option, none, some, List, [], ◌∷◌, ◌++◌, arith, ltb,
}
use mathlib.Core.Path.{subst}
use fit.Common.Text.{Text}
use fit.Store.{JsNumber, whole, negative, fractional}
use fit.Runtime.{Reason}
use fit.Bookings.Model.{max_booking_guest_count, BookingQuoteInput}
use fit.Bookings.Normalize.{
  Normalized, valid_range, duration_days_of, trimmed_or_null, is_too_long, is_invalid_count,
  exceeds_guests, reason_if, guest_reasons, quote_reasons, normalize_range,
  normalize_create_input_for_quote,
}
use fit.Bookings.Machine.{IsShort}

pub append-eq-nil {ℓ} : {A : Type ℓ} (xs ys : List A) → xs ++ ys ≡ [] → (xs ≡ []) × (ys ≡ [])
append-eq-nil [] ys e = (refl, e)
append-eq-nil (x ∷ xs) ys e = cc

pub reason_if-eq-nil : (b : Bool) (r : Reason) → reason_if b r ≡ [] → b ≡ false
reason_if-eq-nil true r e = cc
reason_if-eq-nil false r e = refl

-- The dates, the guests and the note of a request that is in order.
pub record InOrder (max_days : ℕ) (n : Normalized) : Type 0 where
  pub range : n.start_at < n.end_at
  pub duration : n.duration_days ≡ duration_days_of n.start_at n.end_at
  pub whole_days : 1 ≤ n.duration_days
  pub within : n.duration_days ≤ max_days
  pub guests : (k : ℕ) × (n.guest_count ≡ whole k) × (1 ≤ k) × (k ≤ max_booking_guest_count)
  pub short_note : IsShort n.note

guests_in_order :
    (g : JsNumber)
    → is_invalid_count g ≡ false
    → exceeds_guests g ≡ false
    → (k : ℕ) × (g ≡ whole k) × (1 ≤ k) × (k ≤ max_booking_guest_count)
guests_in_order (whole n) p q = (n, refl, ground arith, ground arith)
guests_in_order (negative n) p q = cc
guests_in_order fractional p q = cc

guest_reasons-eq-nil :
    (g : JsNumber)
    → guest_reasons g ≡ []
    → (is_invalid_count g ≡ false) × (exceeds_guests g ≡ false)
guest_reasons-eq-nil (whole n) e = ground arith
guest_reasons-eq-nil (negative n) e = cc
guest_reasons-eq-nil fractional e = cc

note_in_order : (o : Option Text) → is_too_long o ≡ false → IsShort o
note_in_order none p = tt
note_in_order (some s) p = ground arith

range_in_order : (a b : Option ℕ) (x y : ℕ) → valid_range a b ≡ some (x, y) → x < y
range_in_order none b x y e = cc
range_in_order (some a) none x y e = cc
range_in_order (some a) (some b) x y e = ground arith

at_least_one : (d : ℕ) → ltb d 1 ≡ false → 1 ≤ d
at_least_one d e = ground arith

at_most : (m d : ℕ) → ltb m d ≡ false → d ≤ m
at_most m d e = ground arith

quote_reasons-InOrder :
    (max_days x y : ℕ) (g : JsNumber) (note : Option Text)
    → x < y
    → quote_reasons (duration_days_of x y) max_days g note ≡ []
    → InOrder max_days (record {
      start_at = x;
      end_at = y;
      duration_days = duration_days_of x y;
      guest_count = g;
      note = note;
    })
unfolding quote_reasons
quote_reasons-InOrder max_days x y g note lt e =
    let (e1, rest) = append-eq-nil _ _ e in
    let (e2, rest') = append-eq-nil _ _ rest in
    let (e3, e4) = append-eq-nil _ _ rest' in
    let short = reason_if-eq-nil _ _ e4 in
    let (invalid, exceeds) = guest_reasons-eq-nil g e3 in
    record {
      range = lt;
      duration = refl;
      whole_days = at_least_one (duration_days_of x y) (reason_if-eq-nil _ _ e1);
      within = at_most max_days (duration_days_of x y) (reason_if-eq-nil _ _ e2);
      guests = guests_in_order g invalid exceeds;
      short_note = note_in_order note short;
    }

-- If a quote has dates and no failure reasons, the dates are a range of at least a day and at most the
-- limit, with the days rounded up, the guests from 1 to 20 and the note short.
pub normalize-InOrder :
    (input : BookingQuoteInput) (max_days : ℕ) (n : Normalized)
    → (normalize_create_input_for_quote input max_days).0 ≡ some n
    → (normalize_create_input_for_quote input max_days).1 ≡ []
    → InOrder max_days n
unfolding normalize_create_input_for_quote
normalize-InOrder input max_days n e r = go (valid_range input.start_at input.end_at) refl e r
  where
    go :
        (o : Option (ℕ × ℕ))
        → valid_range input.start_at input.end_at ≡ o
        → (normalize_range input max_days o).0 ≡ some n
        → (normalize_range input max_days o).1 ≡ []
        → InOrder max_days n
    go none v e r = cc
    go (some (x, y)) v e r =
        let ordered =
          quote_reasons-InOrder max_days x y input.guest_count (trimmed_or_null input.note)
            (range_in_order input.start_at input.end_at x y v) r in
        subst (InOrder max_days) (ground arith) ordered
