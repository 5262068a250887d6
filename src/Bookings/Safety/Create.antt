-- ===== src/Bookings/Safety/Create.antt =====
-- `create`: the invariant, and what is known of the row that it returns.
use mathlib.Core.Path.{subst}
use fit.Common.{
  ℕ, ◌≡◌, ◌≢◌, refl, sym, ◌∙◌, inl, inr, true, false, not, ◌||◌, Option, none, some, List, [], ◌∷◌,
  ◌++◌, arith, ◌==◌, is_some, leb, Bool-cases, any, count_if,
}
use fit.Store.{pending, Posting, Booking, Store}
use fit.Runtime.{World, Reason, Turn, own_posting, posting_unavailable}
use fit.Runtime.Logic.{
  Steady, safely, Safe, Holds, Any, pure-Safe, throw-Safe, require-Safe, bind-Safe, weaken,
}
use fit.Cache.Locks.{with_flow_locks-Safe}
use fit.Bookings.Model.{
  BookingQuoteInput, CreateBookingRequestInput, max_active_booking_requests_per_posting,
}
use fit.Bookings.Overlap.{has_overlap, has_blocking_availability_overlap}
use fit.Bookings.Repository.{
  has_id, is_active_for, create_if_within_active_request_limit,
  count_active_requests_for_renter_posting,
}
use fit.Bookings.Normalize.{Normalized, normalize_create_input_for_quote}
use fit.Bookings.Validation.{
  ValidationResult, posting_reasons, max_days_of, is_published, conflict_reasons,
  validate_booking_request, assert_passed, assert_booking_request_validation_passed,
}
use fit.Bookings.Create.{new_request, create_locked, create}
use fit.Bookings.Passing.{append-eq-nil, reason_if-eq-nil, InOrder, normalize-InOrder}
use fit.Bookings.Machine.{IsSound}
use fit.Bookings.Machine.Invariant.{Inv}
use fit.Bookings.Refinement.{create-Step}
use fit.Bookings.Safety.{
  Inv-IgnoresLocks, send-Safe, publish_change-Safe, read-Safe, step-Safe, require_posting-Safe,
}

-- What `validateBookingRequest` has put together.
pub record Validated (input : BookingQuoteInput) (v : ValidationResult) : Type 0 where
  pub posting : v.posting.id ≡ input.posting_id
  pub normalized : v.normalized ≡ (normalize_create_input_for_quote input (max_days_of v.posting)).0
  pub conflicts : List Reason
  pub reasons :
      v.failure_reasons
      ≡ posting_reasons v.posting input.renter_id
        ++ ((normalize_create_input_for_quote input (max_days_of v.posting)).1 ++ conflicts)

conflict_reasons-Safe :
    (posting_id renter_id : ℕ) (n : Option Normalized)
    → Safe Inv (conflict_reasons posting_id renter_id n) Any
unfolding conflict_reasons has_overlap has_blocking_availability_overlap
    count_active_requests_for_renter_posting
conflict_reasons-Safe posting_id renter_id none = pure-Safe [] tt
conflict_reasons-Safe posting_id renter_id (some n) =
    bind-Safe (read-Safe {Q = Any} _ λ t s v. tt) λ _ _.
      bind-Safe (read-Safe {Q = Any} _ λ t s v. tt)
        λ _ _. bind-Safe (read-Safe {Q = Any} _ λ t s v. tt) λ _ _. pure-Safe _ tt

pub validate_booking_request-Safe :
    (input : BookingQuoteInput) → Safe Inv (validate_booking_request input) (Validated input)
unfolding validate_booking_request
validate_booking_request-Safe input = bind-Safe (require_posting-Safe input.posting_id) λ p e.
    bind-Safe (conflict_reasons-Safe _ _ _) λ conflicts _.
      pure-Safe _ (record { posting = e; normalized = refl; conflicts = conflicts; reasons = refl })

-- What the assertion lets through: no failure, or no dates to go on with.
abbrev pub Passed : List Reason → Option Normalized → Type 0
Passed rs none = Unit
Passed rs (some n) = rs ≡ []

assert_passed-Safe :
    (rs : List Reason) (n : Option Normalized) → Safe Inv (assert_passed rs n) (λ _. Passed rs n)
unfolding assert_passed
assert_passed-Safe [] none = pure-Safe tt tt
assert_passed-Safe [] (some n) = pure-Safe tt refl
assert_passed-Safe (r ∷ rs) none = pure-Safe tt tt
assert_passed-Safe (r ∷ rs) (some n) = throw-Safe _

-- A request of a renter for another's published posting, in order for it.
pub record Acceptable (input : BookingQuoteInput) (p : Posting) (n : Normalized) : Type 0 where
  pub posting : p.id ≡ input.posting_id
  pub not_own : p.owner_id ≢ input.renter_id
  pub published : is_published p.status ≡ true
  pub not_archived : p.archived_at ≡ none
  pub in_order : InOrder (max_days_of p) n

eq-none : (o : Option ℕ) → is_some o ≡ false → o ≡ none
eq-none none e = refl
eq-none (some x) e = cc

posting_reasons-eq-nil :
    (p : Posting) (renter_id : ℕ)
    → posting_reasons p renter_id ≡ []
    → (is_published p.status ≡ true) × (p.archived_at ≡ none) × (p.owner_id ≢ renter_id)
posting_reasons-eq-nil p renter_id e =
    let (e1, e2) = append-eq-nil _ _ e in
    let available : (not (is_published p.status) || is_some p.archived_at) ≡ false =
      reason_if-eq-nil _ posting_unavailable e1 in
    let other : (p.owner_id == renter_id) ≡ false = reason_if-eq-nil _ own_posting e2 in
    (ground arith, eq-none p.archived_at (ground arith), ground arith)

-- A validation that passes with dates is of an acceptable request.
pub Validated-Acceptable :
    (input : BookingQuoteInput) (v : ValidationResult) (n : Normalized)
    → Validated input v
    → v.normalized ≡ some n
    → v.failure_reasons ≡ []
    → Acceptable input v.posting n
Validated-Acceptable input v n valid e none_failed =
    let (p, rest) = append-eq-nil _ _ (sym valid.reasons ∙ none_failed) in
    let (q, _) = append-eq-nil _ _ rest in
    let (published, not_archived, not_own) = posting_reasons-eq-nil v.posting input.renter_id p in
    record {
      posting = valid.posting;
      not_own = not_own;
      published = published;
      not_archived = not_archived;
      in_order = normalize-InOrder input (max_days_of v.posting) n (sym valid.normalized ∙ e) q;
    }

new_request-IsSound :
    (input : CreateBookingRequestInput) (p : Posting) (n : Normalized) (t : Turn)
    → InOrder (max_days_of p) n
    → IsSound (new_request input p n t).terms
new_request-IsSound input p n t h = record {
  range = h.range;
  duration = h.duration;
  whole_days = h.whole_days;
  guests = h.guests;
  short_note = h.short_note;
  daily = refl;
  total = refl;
}

-- What a created row satisfies.
pub record Created (input : CreateBookingRequestInput) (b : Booking) : Type 0 where
  pub waits : b.status ≡ pending
  pub sound : IsSound b.terms
  pub renter : b.renter_id ≡ input.renter_id
  pub posting : b.posting_id ≡ input.posting_id
  pub not_own : b.owner_id ≢ b.renter_id

abbrev FoundCreated : CreateBookingRequestInput → Option Booking → Type 0
FoundCreated input none = Unit
FoundCreated input (some b) = Created input b

create_row-Holds :
    (input : CreateBookingRequestInput) (p : Posting) (n : Normalized) (t : Turn) (s : Store)
    → Acceptable input.quoted p n
    → Holds
        (FoundCreated input)
        (create_if_within_active_request_limit
          (new_request input p n t)
          max_active_booking_requests_per_posting
          t
          s).0
unfolding create_if_within_active_request_limit
create_row-Holds input p n t s a =
    elim (Bool-cases (leb 2 (count_if (is_active_for p.id input.renter_id) s.bookings))) [
      | inl full ↦ rw full tt
      | inr below ↦ elim (Bool-cases (any (has_id (t.uuid 0)) s.bookings)) [
        | inl taken ↦ rw (below, taken) tt
        | inr fresh ↦
            rw (below, fresh)
              (record {
                waits = refl;
                sound = new_request-IsSound input p n t a.in_order;
                renter = refl;
                posting = a.posting;
                not_own = a.not_own;
              })
      ]
    ]

create_locked-Safe :
    (input : CreateBookingRequestInput) → Safe Inv (create_locked input) (Created input)
unfolding create_locked assert_booking_request_validation_passed
create_locked-Safe input = bind-Safe (validate_booking_request-Safe input.quoted) λ v valid.
    bind-Safe (assert_passed-Safe v.failure_reasons v.normalized) λ _ passed.
      bind-Safe (require-Safe v.normalized _) λ n e.
        let a =
          Validated-Acceptable input.quoted v n valid e
            (subst (Passed v.failure_reasons) e passed) in
        bind-Safe
          (step-Safe _
            (λ t s w.
              create-Step (new_request input v.posting n t) t s
                (new_request-IsSound input v.posting n t a.in_order))
            (λ t s w. create_row-Holds input v.posting n t s a))
          λ found h. weaken (require-Safe found _) λ b q. subst (FoundCreated input) q h

create-Safe : (input : CreateBookingRequestInput) → Safe Inv (create input) (Created input)
unfolding create assert_booking_request_validation_passed
create-Safe input = bind-Safe (validate_booking_request-Safe input.quoted) λ v valid.
    bind-Safe (assert_passed-Safe v.failure_reasons v.normalized) λ _ passed.
      bind-Safe (with_flow_locks-Safe Inv-IgnoresLocks _ _ (create_locked-Safe input)) λ b h.
        bind-Safe (send-Safe _)
          λ _ _. bind-Safe (publish_change-Safe b.posting_id) λ _ _. pure-Safe b h

-- If the store satisfies the invariant and other requests keep it, then the store at the end of
-- `create` satisfies it, whether it returns or throws, and a row that it returns is pending, sound,
-- the renter's, and for the posting of another.
pub create-Inv :
    (input : CreateBookingRequestInput) (w : World)
    → Steady Inv w
    → Inv (create input w).1.store × Holds (Created input) (create input w).0
create-Inv input w h = safely (create-Safe input) w h
