-- ===== src/Rentings/Refinement.antt =====
-- A conversion is a step of the machine of Bookings/Machine.antt: the new renting is apart from all
-- others, and it is the first of its booking request.
use fit.Common.{
  ℕ, ◌≡◌, ◌≢◌, refl, inl, inr, true, false, not, ◌||◌, Option, none, some, arith, ◌==◌, is_some,
  is_none, any, Bool-cases,
}
use fit.Common.Rows.{update-Pointwise, any-false, All-map, find-true}
use fit.Store.{Booking, Renting, Store}
use fit.Runtime.{Turn}
use fit.Bookings.Model.{is_paid}
use fit.Bookings.Overlap.{rents}
use fit.Bookings.Repository.{has_id, find_booking}
use fit.Bookings.Expiry.{reservation_over}
use fit.Bookings.Machine.{Move, converts, Apart, Step}
use fit.Bookings.Machine
use fit.Bookings.Machine.Invariant.{Core, found_alone}
use fit.Bookings.Refinement.{stays_refl, Step-refl, if-Step, transaction-Step}
use fit.Rentings.Repository.{
  has_renting, new_renting, convert_row, converted, has_duplicate_key, convert_found,
  convert_approved_booking_request,
}

rents-Apart : (r e : Renting) → rents r.posting_id r.start_at r.end_at e ≡ false → Apart r e
rents-Apart r e h = ground arith

convert-Move :
    (now : ℕ) (b c : Booking)
    → is_paid b.status ≡ true
    → is_none b.converted_at ≡ true
    → c ≡ b
    → Move c (convert_row now c)
convert-Move now b c p q e = converts now (ground arith) (ground arith) refl

other_request : (m n : ℕ) → (m == n) ≡ false → m ≢ n
other_request m n h = ground arith

converted-Step :
    (t : Turn) (s : Store) (id : ℕ) (b : Booking)
    → Core s
    → find_booking id s ≡ some b
    → is_paid b.status ≡ true
    → is_none b.converted_at ≡ true
    → any (rents b.posting_id b.start_at b.end_at) s.rentings ≡ false
    → has_renting s b.id ≡ false
    → Step s (converted t b s)
unfolding find_booking
converted-Step t s id b v found p q free alone =
    let same : b.id ≡ id = ground (arith, find-true (has_id id) s.bookings b found) in
    Machine.rents (new_renting t b)
      (update-Pointwise Move (has_id b.id) (convert_row t.now) stays_refl s.bookings (
        rw same (
          All-map (λ c only hit. convert-Move t.now b c p q (only hit)) s.bookings
            (found_alone id s.bookings b v.unique found))))
      (All-map (rents-Apart (new_renting t b)) s.rentings (any-false _ s.rentings free))
      (All-map (λ e h. other_request e.booking_request_id b.id h) s.rentings
        (any-false _ s.rentings alone))
      refl

-- In a store with the core of the invariant, what the repository's conversion does to the tables is one step of
-- the machine, on every branch: nothing where it is refused, else one renting that is apart from all
-- others and the first of its request, which was paid and unconverted.
pub convert-Step :
    (id owner_id : ℕ) (t : Turn) (s : Store)
    → Core s
    → Step s (convert_approved_booking_request id owner_id t s).1
unfolding convert_approved_booking_request
convert-Step id owner_id t s v = transaction-Step _ t s (go (find_booking id s) refl)
  where
    go : (o : Option Booking) → find_booking id s ≡ o → Step s (convert_found owner_id t s o).1
    go none e = Step-refl s
    go (some b) e = elim (Bool-cases (is_paid b.status)) [
      | inr p ↦ rw p (if-Step (not (b.owner_id == owner_id)) _ _ (Step-refl s) (Step-refl s))
      | inl p ↦ elim (Bool-cases (is_some b.converted_at || has_renting s b.id)) [
        | inl q ↦ rw (p, q) (if-Step (not (b.owner_id == owner_id)) _ _ (Step-refl s) (Step-refl s))
        | inr q ↦ elim (Bool-cases (any (rents b.posting_id b.start_at b.end_at) s.rentings)) [
          | inl r ↦
              rw (p, q, r)
                (if-Step (not (b.owner_id == owner_id)) _ _ (Step-refl s) (
                  if-Step (reservation_over b.conversion_reservation_expires_at t.now) _ _
                    (Step-refl s) (Step-refl s)))
          | inr r ↦
              rw (p, q, r)
                (if-Step (not (b.owner_id == owner_id)) _ _ (Step-refl s) (
                  if-Step (reservation_over b.conversion_reservation_expires_at t.now) _ _
                    (Step-refl s)
                    (if-Step (has_duplicate_key t s b) _ _ (Step-refl s)
                      (converted-Step t s id b v e p (ground arith) r (ground arith)))))
        ]
      ]
    ]
