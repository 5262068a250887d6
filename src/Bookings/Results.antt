-- ===== src/Bookings/Results.antt =====
-- What a row that a write of bookings.repository.ts returns tells of the store that it was made in.
use mathlib.Core.Path.{subst}
use fit.Common.{
  ℕ, ◌<◌, ◌≡◌, refl, sym, inl, inr, Bool, true, false, not, ◌||◌, Option, none, some, List, [], ◌∷◌,
  arith, leb, ◌==◌, if◌then◌else◌, find, count_if, update, All, Bool-cases,
}
use fit.Common.Text.{Text}
use fit.Common.Rows.{All-map, find-true}
use fit.Store.{BookingStatus, pending, Terms, Booking, Store}
use fit.Runtime.{Turn, Result, ok, err, roll_back, transaction}
use fit.Bookings.Model.{is_pending}
use fit.Bookings.Overlap.{blocked}
use fit.Bookings.Repository.{
  has_id, find_booking, update_one, is_renters_pending, is_owners_pending, update_pending_row,
  update_pending, approve_row, approve_found, approve, decline_row, decline_found, decline,
  returning,
}
use fit.Bookings.Machine.Invariant.{UniqueIds, found_alone}

find_updated :
    (id : ℕ) (row : Booking → Bool) (change : Booking → Booking)
    → ((b : Booking) → (change b).id ≡ b.id)
    → (bs : List Booking) (c : Booking) → find (has_id id) (update row change bs) ≡ some c
    → (b : Booking) × (find (has_id id) bs ≡ some b) × (c ≡ (if row b then change b else b))
unfolding find update
find_updated id row change same [] c e = cc
find_updated id row change same (x ∷ xs) c e = elim (Bool-cases (has_id id x)) [
  | inl hit ↦ (x, ground arith, ground (arith, same x))
  | inr miss ↦
      let (b, found, is) = find_updated id row change same xs c (ground (arith, same x)) in
      (b, ground arith, is)
]

-- Where no row passes, none is counted.
pub count_none :
    (row : Booking → Bool) (bs : List Booking) → All (λ b. row b ≡ false) bs → count_if row bs ≡ 0
unfolding count_if
count_none row [] h = refl
count_none row (b ∷ bs) (e, h) = rw (e, count_none row bs h) refl

module _ (id : ℕ) (row : Booking → Bool) (change : Booking → Booking)
    (same : (b : Booking) → (change b).id ≡ b.id)
    (about : (b : Booking) → row b ≡ true → has_id id b ≡ true) where
  row_fails : (b c : Booking) → row b ≡ false → (has_id id c ≡ true → c ≡ b) → row c ≡ false
  row_fails b c e only = elim (Bool-cases (row c)) [
    | inl h ↦ subst (λ x. row x ≡ false) (sym (only (about c h))) e
    | inr h ↦ h
  ]

  -- Under unique keys `updateMany` changes the row that a search by id finds, or none.
  pub update_one-gives :
      (s : Store) (c : Booking)
      → UniqueIds s.bookings
      → (update_one id row change s).0 ≡ some c
      → (b : Booking) × (find_booking id s ≡ some b) × (row b ≡ true) × (c ≡ change b)
  unfolding update_one find_booking
  update_one-gives s c u e = elim (Bool-cases (count_if row s.bookings == 1)) [
    | inr many ↦ ground arith
    | inl one ↦
        let (b, found, is) = find_updated id row change same s.bookings c (rw one at e) in
        elim (Bool-cases (row b)) [
          | inl hit ↦ (b, found, hit, rw hit at is)
          | inr miss ↦
              let zero_rows = count_none row s.bookings (
                All-map (λ x only. row_fails b x miss only) s.bookings
                  (found_alone id s.bookings b u found)) in
              absurd (ground (arith, zero_rows))
        ]
  ]

-- The conditions under which a pending request is decided, and the row that comes of it.
pub record Decided (change : Booking → Booking) (t : Turn) (s : Store) (id owner_id : ℕ)
    (c : Booking) : Type 0 where
  pub before : Booking
  pub found : find_booking id s ≡ some before
  pub owned : before.owner_id ≡ owner_id
  pub waiting : before.status ≡ pending
  pub unexpired : t.later < before.hold_expires_at
  pub after : c ≡ change before

is_pending-eq : (b : BookingStatus) → is_pending b ≡ true → b ≡ pending
is_pending-eq b h = ground arith

decided :
    (change : Booking → Booking) (t : Turn) (s : Store) (id owner_id : ℕ) (c : Booking)
    → ((b : Booking) → (change b).id ≡ b.id)
    → UniqueIds s.bookings
    → (update_one id (is_owners_pending id owner_id t.later) change s).0 ≡ some c
    → Decided change t s id owner_id c
decided change t s id owner_id c same u e =
    let (b, found, hit, is) =
      update_one-gives id (is_owners_pending id owner_id t.later) change same (λ x h. ground arith)
        s c u e in
    record {
      before = b;
      found = found;
      owned = ground arith;
      waiting = ground (arith, is_pending-eq b.status);
      unexpired = ground arith;
      after = is;
    }

-- If the keys are unique and a decline returns a row, it has found the request pending,
-- unexpired and the owner's, in that store at that moment, and the row is that request with the
-- columns of a decline.
pub decline-Decided :
    (id owner_id : ℕ) (note : Option Text) (t : Turn) (s : Store) (c : Booking)
    → UniqueIds s.bookings
    → (decline id owner_id note t s).0 ≡ ok (some c)
    → Decided (decline_row note t.later) t s id owner_id c
unfolding decline
decline-Decided id owner_id note t s c u e = go (find_booking id s) e
  where
    go :
        (o : Option Booking)
        → (returning (decline_found id owner_id note t s o)).0 ≡ ok (some c)
        → Decided (decline_row note t.later) t s id owner_id c
    go none e = cc
    go (some b) e =
        decided (decline_row note t.later) t s id owner_id c (λ x. refl) u (ground arith)

-- At the moment of an approval the dates are free of blocks that count.
pub record Approved (change : Booking → Booking) (t : Turn) (s : Store) (id owner_id : ℕ)
    (c : Booking) : Type 0 where
  pub decision : Decided change t s id owner_id c
  pub open decision use *
  pub free : blocked s c.posting_id c.start_at c.end_at (some id) ≡ false
  pub open_hold : t.now < decision.before.hold_expires_at

pub rolled_ok {ℓ} :
    {A : Type ℓ} (s : Store) (r : Result A × Store) (a : A) → (roll_back s r).0 ≡ ok a → r.0 ≡ ok a
rolled_ok s (ok b, s') a e = e
rolled_ok s (err x, s') a e = cc

approve_found-Approved :
    (id owner_id : ℕ) (note : Option Text) (hold_expires_at : ℕ) (t : Turn) (s : Store)
    (c b : Booking)
    → UniqueIds s.bookings
    → find_booking id s ≡ some b
    → b.id ≡ id
    → (approve_found id owner_id note hold_expires_at t s (some b)).0 ≡ ok (some c)
    → Approved (approve_row note hold_expires_at t.later) t s id owner_id c
unfolding approve_found
approve_found-Approved id owner_id note hold_expires_at t s c b u found same e =
    let change : Booking → Booking = approve_row note hold_expires_at t.later in
    let closed : (not (is_pending b.status) || leb b.hold_expires_at t.now) ≡ false =
      ground arith in
    let free : blocked s b.posting_id b.start_at b.end_at (some b.id) ≡ false = ground arith in
    let written : (update_one b.id (is_owners_pending b.id owner_id t.later) change s).0 ≡ some c =
      ground arith in
    let d =
      decided change t s id owner_id c (λ x. refl) u
        (subst (λ i. (update_one i (is_owners_pending i owner_id t.later) change s).0 ≡ some c) same
          written) in
    let first : d.before ≡ b = ground (arith, d.found) in
    record {
      decision = d;
      free = rw (d.after, first, ← same) free;
      open_hold = rw first (ground arith);
    }

-- If the keys are unique and an approval returns a row, it has found the request pending, unexpired,
-- the owner's, and with its dates free of every block that counts, all in one store at one moment, and
-- the row is that request with the columns of an approval.
pub approve-Approved :
    (id owner_id : ℕ) (note : Option Text) (hold_expires_at : ℕ) (t : Turn) (s : Store)
    (c : Booking)
    → UniqueIds s.bookings
    → (approve id owner_id note hold_expires_at t s).0 ≡ ok (some c)
    → Approved (approve_row note hold_expires_at t.later) t s id owner_id c
unfolding approve transaction find_booking
approve-Approved id owner_id note hold_expires_at t s c u e = go (find_booking id s) refl (
    rolled_ok s (approve_found id owner_id note hold_expires_at t s (find_booking id s)) (some c) e)
  where
    go :
        (o : Option Booking)
        → find_booking id s ≡ o
        → (approve_found id owner_id note hold_expires_at t s o).0 ≡ ok (some c)
        → Approved (approve_row note hold_expires_at t.later) t s id owner_id c
    go none f e = ground arith
    go (some b) f e =
        approve_found-Approved id owner_id note hold_expires_at t s c b u f
          (ground (arith, find-true (has_id id) s.bookings b f)) e

-- The conditions under which a pending request is updated, and the row that comes of it.
pub record Updated (terms : Terms) (t : Turn) (s : Store) (id renter_id : ℕ) (c : Booking)
    : Type 0 where
  pub before : Booking
  pub found : find_booking id s ≡ some before
  pub owned : before.renter_id ≡ renter_id
  pub waiting : before.status ≡ pending
  pub unexpired : t.later < before.hold_expires_at
  pub after : c ≡ record before { terms = terms }

-- If the keys are unique and an update returns a row, it has found the request pending, unexpired and
-- the renter's, and the row is that request with the new terms.
pub update_pending-Updated :
    (id renter_id : ℕ) (terms : Terms) (t : Turn) (s : Store) (c : Booking)
    → UniqueIds s.bookings
    → (update_pending id renter_id terms t s).0 ≡ ok (some c)
    → Updated terms t s id renter_id c
unfolding update_pending
update_pending-Updated id renter_id terms t s c u e = go (find_booking id s) e
  where
    written :
        (update_one id
            (is_renters_pending id renter_id t.later)
            (λ b. record b { terms = terms })
            s).0
          ≡ some c
        → Updated terms t s id renter_id c
    written w =
        let (b, found, hit, is) =
          update_one-gives id (is_renters_pending id renter_id t.later)
            (λ b. record b { terms = terms }) (λ x. refl) (λ x h. ground arith) s c u w in
        record {
          before = b;
          found = found;
          owned = ground arith;
          waiting = ground (arith, is_pending-eq b.status);
          unexpired = ground arith;
          after = is;
        }

    go :
        (o : Option Booking)
        → (returning (update_pending_row id renter_id terms t s o)).0 ≡ ok (some c)
        → Updated terms t s id renter_id c
    go none e = cc
    go (some b) e = written (ground arith)
