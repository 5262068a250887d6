-- ===== src/Bookings/Refinement/Creation.antt =====
-- `createIfWithinActiveRequestLimit` of bookings.repository.ts on all its branches.
use fit.Common.{
  ℕ, ◌≤◌, ◌<◌, ◌≡◌, refl, inl, inr, true, false, none, some, ◌∷◌, arith, leb, any, count_if,
  Bool-cases,
}
use fit.Store.{pending, Booking, Store}
use fit.Runtime.{Turn, Result, ok, err, duplicate_key}
use fit.Common.{Option}
use fit.Bookings.Model.{PersistenceInput, max_active_booking_requests_per_posting}
use fit.Bookings.Repository.{
  has_id, is_active_for, new_booking, create_if_within_active_request_limit,
}
use fit.Bookings.Machine.{IsSound, Step}
use fit.Bookings.Refinement.{create-Step}

-- The active requests that count against the limit.
abbrev pub active : PersistenceInput → Store → ℕ
active input s = count_if (is_active_for input.posting_id input.renter_id) s.bookings

-- The row that a create is to leave.
pub record IsOf (input : PersistenceInput) (t : Turn) (b : Booking) : Type 0 where
  pub id : b.id ≡ t.uuid 0
  pub waits : b.status ≡ pending
  pub posting : b.posting_id ≡ input.posting_id
  pub renter : b.renter_id ≡ input.renter_id
  pub owner : b.owner_id ≡ input.owner_id
  pub terms : b.terms ≡ input.terms
  pub hold : b.hold_expires_at ≡ input.hold_expires_at
  pub unconverted : b.converted_at ≡ none
  pub unheld : b.hold_block_id ≡ none

-- What a create is to do: nothing at the limit, nothing but an error under a key that is taken, else
-- the one new row, which it returns.
pub data Creates (input : PersistenceInput) (t : Turn) (s : Store)
    (r : Result (Option Booking) × Store) : Type 0 where
  full :
      max_active_booking_requests_per_posting ≤ active input s
      → r ≡ (ok none, s)
      → Creates input t s r
  taken :
      active input s < max_active_booking_requests_per_posting
      → any (has_id (t.uuid 0)) s.bookings ≡ true
      → r ≡ (err duplicate_key, s)
      → Creates input t s r
  created :
      (b : Booking)
      → active input s < max_active_booking_requests_per_posting
      → any (has_id (t.uuid 0)) s.bookings ≡ false
      → IsOf input t b
      → r ≡ (ok (some b), record s { bookings = b ∷ s.bookings })
      → Creates input t s r

create_cases :
    (input : PersistenceInput) (t : Turn) (s : Store)
    → Creates input t s
        (create_if_within_active_request_limit input max_active_booking_requests_per_posting t s)
unfolding create_if_within_active_request_limit
create_cases input t s =
    elim (Bool-cases (leb max_active_booking_requests_per_posting (active input s))) [
      | inl above ↦ rw above (full (ground arith) refl)
      | inr below ↦ elim (Bool-cases (any (has_id (t.uuid 0)) s.bookings)) [
        | inl there ↦ rw (below, there) (taken (ground arith) there refl)
        | inr fresh ↦
            rw (below, fresh)
              (created (new_booking t input) (ground arith) fresh
                (record {
                  id = refl;
                  waits = refl;
                  posting = refl;
                  renter = refl;
                  owner = refl;
                  terms = refl;
                  hold = refl;
                  unconverted = refl;
                  unheld = refl;
                })
                refl)
      ]
    ]

-- With sound terms, the repository's create under the limit of active requests does one of
-- three things: where the limit is reached it returns `null` and changes nothing; else, where
-- the key is taken, it throws and changes nothing; else it returns a pending request with the
-- key and with the posting, the parties, the terms and the hold of the input, which is the one
-- row more. In each case the tables make one step of the machine.
pub create-Creates :
    (input : PersistenceInput) (t : Turn) (s : Store)
    → IsSound input.terms
    → let r =
        create_if_within_active_request_limit input max_active_booking_requests_per_posting t s in
      Creates input t s r × Step s r.1
create-Creates input t s sound = (create_cases input t s, create-Step input t s sound)
