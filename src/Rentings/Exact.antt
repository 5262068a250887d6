-- ===== src/Rentings/Exact.antt =====
-- `convertApprovedBookingRequest` of rentings.repository.ts on all its branches: when it makes a renting,
-- and of what.
use mathlib.Core.Path.{subst}
use fit.Common.{
  ℕ, ◌≡◌, refl, Bool, true, false, ◌||◌, Option, none, some, ◌∷◌, arith, ◌==◌, is_some, any, find,
  update,
}
use fit.Common.Rows.{find-true, find-update}
use fit.Store.{paid, Booking, Renting, Store}
use fit.Runtime.{Error, Turn, Result, ok, err, transaction, roll_back}
use fit.Bookings.Model.{is_paid}
use fit.Bookings.Overlap.{rents}
use fit.Bookings.Repository.{has_id, find_booking}
use fit.Bookings.Expiry.{reservation_over}
use fit.Bookings.Machine.{Step}
use fit.Bookings.Machine.Invariant.{Core}
use fit.Rentings.Repository.{
  has_renting, new_renting, convert_row, has_duplicate_key, convert_found,
  convert_approved_booking_request,
}
use fit.Rentings.Refinement.{convert-Step}

-- The request of that id is in that store, at that moment, ready for its conversion.
pub record IsReady (id owner_id : ℕ) (t : Turn) (s : Store) (b : Booking) : Type 0 where
  pub found : find_booking id s ≡ some b
  pub owned : b.owner_id ≡ owner_id
  pub was_paid : b.status ≡ paid
  pub unconverted : b.converted_at ≡ none
  pub first : has_renting s b.id ≡ false
  pub reserved : reservation_over b.conversion_reservation_expires_at t.now ≡ false
  pub free : any (rents b.posting_id b.start_at b.end_at) s.rentings ≡ false
  pub fresh : has_duplicate_key t s b ≡ false

-- What a conversion is to do: the one renting of a request that is ready, which it returns, with the
-- request converted; or nothing, where no request of the id is ready.
pub data Converts (id owner_id : ℕ) (t : Turn) (s : Store) (r : Result (Option Renting) × Store)
    : Type 0 where
  rented :
      (b : Booking)
      → IsReady id owner_id t s b
      → r.0 ≡ ok (some (new_renting t b))
      → r.1.rentings ≡ new_renting t b ∷ s.rentings
      → find_booking id r.1 ≡ some (convert_row t.now b)
      → Converts id owner_id t s r
  refused :
      ((b : Booking) → IsReady id owner_id t s b → ⊥)
      → ((c : Renting) → r.0 ≡ ok (some c) → ⊥)
      → r.1 ≡ s
      → Converts id owner_id t s r

none_is_some : (c : Renting) → ok none ≡ ok (some c) → ⊥
none_is_some c e = cc

err_is_ok : (x : Error) (c : Renting) → err x ≡ ok (some c) → ⊥
err_is_ok x c e = cc

unready :
    (id owner_id : ℕ) (t : Turn) (s : Store) (b : Booking)
    → find_booking id s ≡ some b
    → (IsReady id owner_id t s b → ⊥)
    → (c : Booking) → IsReady id owner_id t s c
    → ⊥
unready id owner_id t s b f unfit c ready =
    let same : c ≡ b = ground (arith, ready.found) in
    unfit (subst (IsReady id owner_id t s) same ready)

module _ (id owner_id : ℕ) (t : Turn) (s : Store) (b : Booking)
    (f : find_booking id s ≡ some b) where
  nothing_given :
      (IsReady id owner_id t s b → ⊥) → Converts id owner_id t s (roll_back s (ok none, s))
  nothing_given unfit = refused (unready id owner_id t s b f unfit) none_is_some refl

  thrown :
      (e : Error)
      → (IsReady id owner_id t s b → ⊥)
      → Converts id owner_id t s (roll_back s (err e, s))
  thrown e unfit = refused (unready id owner_id t s b f unfit) (err_is_ok e) refl

  converted_row :
      find (has_id id) (update (has_id b.id) (convert_row t.now) s.bookings)
      ≡ some (convert_row t.now b)
  unfolding find_booking
  converted_row =
      let same : id ≡ b.id = ground (arith, find-true (has_id id) s.bookings b f) in
      subst
        (λ n.
          find (has_id id) (update (has_id n) (convert_row t.now) s.bookings)
          ≡ some (convert_row t.now b))
        same (find-update (has_id id) (convert_row t.now) (λ x hit. hit) s.bookings b f)

  found-Converts :
      (o : Bool)
      → (b.owner_id == owner_id) ≡ o
      → (p : Bool) → is_paid b.status ≡ p
      → (q : Bool) → (is_some b.converted_at || has_renting s b.id) ≡ q
      → (e : Bool) → reservation_over b.conversion_reservation_expires_at t.now ≡ e
      → (n : Bool) → any (rents b.posting_id b.start_at b.end_at) s.rentings ≡ n
      → (k : Bool) → has_duplicate_key t s b ≡ k
      → Converts id owner_id t s (roll_back s (convert_found owner_id t s (some b)))
  unfolding convert_found find_booking
  found-Converts false o p hp q hq e he n hn k hk =
      rw o (nothing_given λ r. ground (arith, r.owned))
  found-Converts true o false hp q hq e he n hn k hk =
      rw (o, hp) (thrown _ λ r. ground (arith, r.was_paid))
  found-Converts true o true hp true hq e he n hn k hk =
      rw (o, hp, hq) (thrown _ λ r. ground (arith, r.unconverted, r.first))
  found-Converts true o true hp false hq true he n hn k hk =
      rw (o, hp, hq, he) (thrown _ λ r. ground (arith, r.reserved))
  found-Converts true o true hp false hq false he true hn k hk =
      rw (o, hp, hq, he, hn) (thrown _ λ r. ground (arith, r.free))
  found-Converts true o true hp false hq false he false hn true hk =
      rw (o, hp, hq, he, hn, hk) (thrown _ λ r. ground (arith, r.fresh))
  found-Converts true o true hp false hq false he false hn false hk =
      rw (o, hp, hq, he, hn, hk)
        (rented b
          (record {
            found = f;
            owned = ground arith;
            was_paid = ground arith;
            unconverted = ground arith;
            first = ground arith;
            reserved = he;
            free = hn;
            fresh = hk;
          })
          refl refl converted_row)

converts :
    (id owner_id : ℕ) (t : Turn) (s : Store)
    → Converts id owner_id t s (convert_approved_booking_request id owner_id t s)
unfolding convert_approved_booking_request convert_found transaction
converts id owner_id t s = go (find_booking id s) refl
  where
    go :
        (o : Option Booking)
        → find_booking id s ≡ o
        → Converts id owner_id t s (roll_back s (convert_found owner_id t s o))
    go none f = refused (λ b r. ground (arith, r.found)) none_is_some refl
    go (some b) f = found-Converts id owner_id t s b f _ refl _ refl _ refl _ refl _ refl _ refl

-- In a store with the core of the invariant, the repository's conversion does one of two
-- things. If the request of the id is, in that store at that moment, the owner's, paid,
-- unconverted, without a renting, reserved, free of rentings on its dates, and the new keys are
-- fresh, then it returns the renting made from it, which is the one renting more, and the
-- request is found converted. If no request of the id is, it returns no renting and changes
-- nothing. In each case the tables make one step of the machine.
pub convert-Converts :
    (id owner_id : ℕ) (t : Turn) (s : Store)
    → Core s
    → let r = convert_approved_booking_request id owner_id t s in
      Converts id owner_id t s r × Step s r.1
convert-Converts id owner_id t s v = (converts id owner_id t s, convert-Step id owner_id t s v)
