-- ===== src/Bookings/Completeness.antt =====
-- When the writes of bookings.repository.ts succeed: every condition under which they return a row.
pub mod Hold
use mathlib.Core.Path.{subst}
use fit.Common.{
  ℕ, ◌<◌, ◌≡◌, refl, sym, ap, inl, inr, Bool, true, false, Option, some, List, [], ◌∷◌, arith, leb,
  ltb, ◌==◌, find, count_if, update, All, Bool-cases,
}
use fit.Common.Text.{Text}
use fit.Common.Rows.{All-map, any-false, find-true}
use fit.Store.{pending, Terms, Booking, Store}
use fit.Runtime.{Turn, ok, transaction}
use fit.Bookings.Model.{is_pending}
use fit.Bookings.Overlap.{blocked}
use fit.Bookings.Repository.{
  has_id, find_booking, update_one, is_renters_pending, is_owners_pending, update_pending_row,
  update_pending, approve_row, approve_found, approve, decline_row, decline_found, decline,
}
use fit.Bookings.Machine.Invariant.{UniqueIds}
use fit.Bookings.Results.{count_none}

module _ (id : ℕ) (row : Booking → Bool) (change : Booking → Booking)
    (same : (b : Booking) → (change b).id ≡ b.id)
    (about : (b : Booking) → row b ≡ true → has_id id b ≡ true) where
  other_row : (b : Booking) → has_id id b ≡ false → row b ≡ false
  other_row b e = elim (Bool-cases (row b)) [
    | inl h ↦ absurd (ground (arith, about b h))
    | inr h ↦ h
  ]

  -- Under unique keys the row that a search finds is the one that is changed and found again.
  pub one_row :
      (bs : List Booking) (b : Booking)
      → UniqueIds bs
      → find (has_id id) bs ≡ some b
      → row b ≡ true
      → (count_if row bs ≡ 1) × (find (has_id id) (update row change bs) ≡ some (change b))
  unfolding find count_if update
  one_row [] b u e h = cc
  one_row (x ∷ xs) b (new, u) e h = elim (Bool-cases (has_id id x)) [
    | inl hit ↦
        let is : x ≡ b = ground arith in
        let row_x : row x ≡ true = subst (λ y. row y ≡ true) (sym is) h in
        let others : All (λ c. row c ≡ false) xs =
          All-map (λ c miss. other_row c (ground arith)) xs (any-false (has_id x.id) xs new) in
        let none_more : count_if row xs ≡ 0 = count_none row xs others in
        let again : has_id id (change x) ≡ true = ground (arith, same x) in
        rw (row_x, none_more, again) (refl, ap (λ y. some (change y)) is)
    | inr miss ↦
        let (one, found) = one_row xs b u (rw miss at e) h in
        rw (other_row x miss, miss, one) (refl, found)
  ]

  update_one_completes :
      (s : Store) (b : Booking)
      → UniqueIds s.bookings
      → find_booking id s ≡ some b
      → row b ≡ true
      → (update_one id row change s).0 ≡ some (change b)
  unfolding update_one find_booking
  update_one_completes s b u e h = let (one, found) = one_row s.bookings b u e h in rw one found

pub found_id : (id : ℕ) (s : Store) (b : Booking) → find_booking id s ≡ some b → b.id ≡ id
unfolding find_booking
found_id id s b f = ground (arith, find-true (has_id id) s.bookings b f)

module _ (id : ℕ) {later : ℕ} where
  can_decide :
      (owner_id : ℕ) (b : Booking)
      → b.id ≡ id
      → b.owner_id ≡ owner_id
      → b.status ≡ pending
      → later < b.hold_expires_at
      → is_owners_pending id owner_id later b ≡ true
  can_decide owner_id b mine owned waits after = ground arith

  can_change :
      (renter_id : ℕ) (b : Booking)
      → b.id ≡ id
      → b.renter_id ≡ renter_id
      → b.status ≡ pending
      → later < b.hold_expires_at
      → is_renters_pending id renter_id later b ≡ true
  can_change renter_id b mine owned waits after = ground arith

-- Under unique keys, if a request is found pending, the owner's, with its hold open and its dates free
-- of every block that counts, then its approval returns it with the columns of an approval.
pub approve_completes :
    (id owner_id : ℕ) (note : Option Text) (hold_expires_at : ℕ) (t : Turn) (s : Store)
    (b : Booking)
    → UniqueIds s.bookings
    → find_booking id s ≡ some b
    → b.owner_id ≡ owner_id
    → b.status ≡ pending
    → t.now < b.hold_expires_at
    → t.later < b.hold_expires_at
    → blocked s b.posting_id b.start_at b.end_at (some b.id) ≡ false
    → (approve id owner_id note hold_expires_at t s).0
      ≡ ok (some (approve_row note hold_expires_at t.later b))
unfolding approve approve_found transaction
approve_completes id owner_id note hold_expires_at t s b u f owned waits before after free =
    let own : (b.owner_id == owner_id) ≡ true = ground arith in
    let open_now : leb b.hold_expires_at t.now ≡ false = ground arith in
    let open_later : ltb t.later b.hold_expires_at ≡ true = ground arith in
    let mine : b.id ≡ id = found_id id s b f in
    let wrote =
      update_one_completes b.id (is_owners_pending b.id owner_id t.later)
        (approve_row note hold_expires_at t.later) (λ x. refl) (λ x h. ground arith) s b u
        (subst (λ i. find_booking i s ≡ some b) (sym mine) f)
        (can_decide b.id owner_id b refl owned waits after) in
    rw (f, own, waits, open_now, free, wrote) refl

-- Under unique keys, if a request is found pending and the owner's, with its hold open, then its
-- decline returns it with the columns of a decline.
pub decline_completes :
    (id owner_id : ℕ) (note : Option Text) (t : Turn) (s : Store) (b : Booking)
    → UniqueIds s.bookings
    → find_booking id s ≡ some b
    → b.owner_id ≡ owner_id
    → b.status ≡ pending
    → t.later < b.hold_expires_at
    → (decline id owner_id note t s).0 ≡ ok (some (decline_row note t.later b))
unfolding decline decline_found
decline_completes id owner_id note t s b u f owned waits after =
    let own : (b.owner_id == owner_id) ≡ true = ground arith in
    let open_later : ltb t.later b.hold_expires_at ≡ true = ground arith in
    let wrote =
      update_one_completes id (is_owners_pending id owner_id t.later) (decline_row note t.later)
        (λ x. refl) (λ x h. ground arith) s b u f
        (can_decide id owner_id b (found_id id s b f) owned waits after) in
    rw (f, own, waits, wrote) refl

-- Under unique keys, if a request is found pending and the renter's, with its hold open, then its
-- update returns it with the new terms.
pub update_pending_completes :
    (id renter_id : ℕ) (terms : Terms) (t : Turn) (s : Store) (b : Booking)
    → UniqueIds s.bookings
    → find_booking id s ≡ some b
    → b.renter_id ≡ renter_id
    → b.status ≡ pending
    → t.now < b.hold_expires_at
    → t.later < b.hold_expires_at
    → (update_pending id renter_id terms t s).0 ≡ ok (some (record b { terms = terms }))
unfolding update_pending update_pending_row
update_pending_completes id renter_id terms t s b u f owned waits before after =
    let own : (b.renter_id == renter_id) ≡ true = ground arith in
    let waiting : is_pending b.status ≡ true = ap is_pending waits in
    let open_now : leb b.hold_expires_at t.now ≡ false = ground arith in
    let open_later : ltb t.later b.hold_expires_at ≡ true = ground arith in
    let wrote =
      update_one_completes id (is_renters_pending id renter_id t.later)
        (λ b. record b { terms = terms }) (λ x. refl) (λ x h. ground arith) s b u f
        (can_change id renter_id b (found_id id s b f) owned waits after) in
    rw (f, own, waiting, open_now, wrote) refl
