-- ===== src/Bookings/Completeness/Hold.antt =====
-- When the expiry of one request takes place: `expire` of bookings.repository.ts.
use fit.Common.{ℕ, ◌≤◌, ◌≡◌, refl, sym, true, Option, none, some, arith, leb}
use fit.Store.{BookingStatus, Booking, Store}
use fit.Runtime.{Turn, ok}
use fit.Bookings.Model.{same_status}
use fit.Bookings.Repository.{has_id, find_booking}
use fit.Bookings.Expiry.{
  reservation_over, is_candidate, is_expirable, expire_row, expire_found, expire,
}
use fit.Bookings.Machine.Invariant.{UniqueIds}
use fit.Bookings.Completeness.{one_row, found_id}

same_status_refl : (a : BookingStatus) → same_status a a ≡ true
same_status_refl a = ground arith

later_over :
    (o : Option ℕ) (now later : ℕ)
    → reservation_over o now ≡ true
    → now ≤ later
    → reservation_over o later ≡ true
later_over none now later e h = refl
later_over (some x) now later e h = ground arith

candidate_expirable :
    (b : Booking) (now later : ℕ)
    → is_candidate now b ≡ true
    → now ≤ later
    → is_expirable b later b ≡ true
candidate_expirable b now later e h =
    let over : reservation_over b.conversion_reservation_expires_at later ≡ true =
      later_over b.conversion_reservation_expires_at now later (ground arith) h in
    let held : leb b.hold_expires_at later ≡ true = ground arith in
    let me : has_id b.id b ≡ true = ground arith in
    rw (me, same_status_refl b.status, held, over) refl

-- Under unique keys, if a request is found to be a candidate for expiry, and the clock does not run
-- back, then `expire` answers `true` and the request is found with the columns of an expiry.
pub expire_completes :
    (id : ℕ) (t : Turn) (s : Store) (b : Booking)
    → UniqueIds s.bookings
    → find_booking id s ≡ some b
    → is_candidate t.now b ≡ true
    → t.now ≤ t.later
    → ((expire id t s).0 ≡ ok true)
      × (find_booking id (expire id t s).1 ≡ some (expire_row t.later b))
unfolding expire expire_found find_booking
expire_completes id t s b u f e h =
    let mine : id ≡ b.id = sym (found_id id s b f) in
    let (one, found) =
      one_row id (is_expirable b t.later) (expire_row t.later) (λ x. refl) (λ x k. ground arith)
        s.bookings b u f (candidate_expirable b t.now t.later e h) in
    rw (f, e, one) (refl, found)
