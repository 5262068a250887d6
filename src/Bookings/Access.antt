-- ===== src/Bookings/Access.antt =====
-- Who may read a booking request: `getById` of bookings.service.ts.
use fit.Common.{
  ℕ, ◌≡◌, ◌⊎◌, refl, inl, inr, false, not, ◌&&◌, Option, none, some, arith, ◌==◌, find, Bool-cases,
}
use fit.Common.Rows.{find-true}
use fit.Store.{Booking, Store}
use fit.Runtime.{booking_not_found, no_booking_access, Error, forbidden, not_found, World, require}
use fit.Runtime.Outcomes.{
  Outcome, Ends, visit-Ends, pure-Ends, require-Ends, bind-Ends, throw_if-Ends, weaken-Ends,
}
use fit.Bookings.Repository.{has_id, find_booking, find_by_id}
use fit.Bookings.Quote.{get_by_id}

-- The request that was asked for, read by its owner or its renter.
pub record IsReadable (id user_id : ℕ) (b : Booking) : Type 0 where
  pub same : b.id ≡ id
  pub party : (b.owner_id ≡ user_id) ⊎ (b.renter_id ≡ user_id)

abbrev pub NotReadable : Error → Type 0
NotReadable e = (e ≡ not_found booking_not_found) ⊎ (e ≡ forbidden no_booking_access)

abbrev IsFound : ℕ → Option Booking → Type 0
IsFound id none = Unit
IsFound id (some b) = b.id ≡ id

find_booking-IsFound : (id : ℕ) (s : Store) → IsFound id (find_booking id s)
unfolding find_booking
find_booking-IsFound id s = go (find (has_id id) s.bookings) refl
  where
    go : (o : Option Booking) → find (has_id id) s.bookings ≡ o → IsFound id o
    go none e = tt
    go (some b) e = ground (arith, find-true (has_id id) s.bookings b e)

party_of :
    (b : Booking) (user_id : ℕ)
    → (not (b.owner_id == user_id) && not (b.renter_id == user_id)) ≡ false
    → (b.owner_id ≡ user_id) ⊎ (b.renter_id ≡ user_id)
party_of b user_id e = elim (Bool-cases (b.owner_id == user_id)) [
  | inl h ↦ inl (ground arith)
  | inr h ↦ inr (ground arith)
]

required :
    (id : ℕ) (o : Option Booking)
    → IsFound id o
    → Ends (require o (not_found booking_not_found)) (λ b. b.id ≡ id) NotReadable
unfolding require
required id none h = weaken-Ends (require-Ends none _ (inl refl)) (λ b e. cc) (λ e k. k)
required id (some b) h = pure-Ends b h

get_by_id-Ends : (id user_id : ℕ) → Ends (get_by_id id user_id) (IsReadable id user_id) NotReadable
unfolding get_by_id find_by_id
get_by_id-Ends id user_id =
    bind-Ends {Q = IsFound id} (visit-Ends _ λ t s. find_booking-IsFound id s) λ found h.
      bind-Ends (required id found h) λ b same.
        bind-Ends (throw_if-Ends _ _ (inr refl))
          λ _ allowed. pure-Ends b (record { same = same; party = party_of b user_id allowed })

-- Whatever others do, a read of a booking request ends in the error of a missing request or of one that
-- is not the user's, or returns the request that was asked for, whose owner or renter the user is.
pub get_by_id_access :
    (id user_id : ℕ) (w : World)
    → Outcome (IsReadable id user_id) NotReadable (get_by_id id user_id w).0
get_by_id_access id user_id w = (get_by_id-Ends id user_id).at w
