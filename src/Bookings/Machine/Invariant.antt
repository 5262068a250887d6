-- ===== src/Bookings/Machine/Invariant.antt =====
-- What every step of the machine keeps.
use fit.Common.{
  ℕ, ◌+◌, ◌≤◌, ◌<◌, ◌≡◌, ◌≢◌, ap, inl, inr, true, false, List, [], ◌∷◌, arith, ◌==◌, any, find,
  some, count_if, All, Pointwise, Bool-cases,
}
use mathlib.Core.Path.{subst₂}
use fit.Common.Rows.{All-Pointwise, count_if-Pointwise, any-Pointwise, any-false, All-map}
use fit.Store.{Booking, Renting, Store}
use fit.Bookings.Model.{max_active_booking_requests_per_posting}
use fit.Bookings.Repository.{has_id, is_active_for}
use fit.Bookings.Machine.{
  IsSound, Move, stays, edits, approves, declines, expires, reserves, releases, converts, Apart,
  Step, moves, creates, rents,
}

-- Keys are unique.
abbrev pub UniqueIds : List Booking → Type 0
UniqueIds [] = Unit
UniqueIds (b ∷ bs) = (any (has_id b.id) bs ≡ false) × UniqueIds bs

-- Rentings of one posting do not overlap, and no two come from one booking request.
abbrev pub Disjoint : List Renting → Type 0
Disjoint [] = Unit
Disjoint (r ∷ rs) = All (Apart r) rs × Disjoint rs

abbrev pub OnePerRequest : List Renting → Type 0
OnePerRequest [] = Unit
OnePerRequest (r ∷ rs) =
    All (λ e. e.booking_request_id ≢ r.booking_request_id) rs × OnePerRequest rs

-- What every write of the program keeps, of the payments too.
pub record Core (s : Store) : Type 0 where
  pub unique : UniqueIds s.bookings
  pub sound : All (λ b. IsSound b.terms) s.bookings
  pub disjoint : Disjoint s.rentings
  pub one_each : OnePerRequest s.rentings

pub record Inv (s : Store) : Type 0 where
  pub core : Core s
  pub open core use *
  pub capped :
      (posting_id renter_id : ℕ)
      → count_if (is_active_for posting_id renter_id) s.bookings
        ≤ max_active_booking_requests_per_posting

Move-id : (b c : Booking) → Move b c → c.id ≡ b.id
Move-id b c (stays e) = ap (λ x. x.id) e
Move-id b c m = ground arith

Move-IsSound : (b c : Booking) → Move b c → IsSound b.terms → IsSound c.terms
Move-IsSound b c (stays e) h = rw e h
Move-IsSound b c (edits t p q e) h = rw e q
Move-IsSound b c (approves n x y p e) h = rw e h
Move-IsSound b c (declines n x p e) h = rw e h
Move-IsSound b c (expires x p q e) h = rw e h
Move-IsSound b c (reserves x y p q e) h = rw e h
Move-IsSound b c (releases e) h = rw e h
Move-IsSound b c (converts x p q e) h = rw e h

Move-is_active_for :
    (p r : ℕ) (b c : Booking) → Move b c → is_active_for p r c ≡ true → is_active_for p r b ≡ true
Move-is_active_for p r b c (stays e) h = rw (← e) h
Move-is_active_for p r b c m h = ground arith

-- A change of rows that keeps every id keeps the keys unique.
pub UniqueIds-Pointwise :
    (R : Booking → Booking → Type 0)
    → ((b c : Booking) → R b c → c.id ≡ b.id)
    → (bs cs : List Booking) → Pointwise R bs cs
    → UniqueIds bs
    → UniqueIds cs
UniqueIds-Pointwise R same [] [] r u = tt
UniqueIds-Pointwise R same [] (c ∷ cs) r u = absurd r
UniqueIds-Pointwise R same (b ∷ bs) [] r u = absurd r
UniqueIds-Pointwise R same (b ∷ bs) (c ∷ cs) (m, r) (new, u) = (
  rw (same b c m, any-Pointwise (has_id b.id) R (λ x y m. ap (λ z. z == b.id) (same x y m)) bs cs r)
      new,
  UniqueIds-Pointwise R same bs cs r u,
)

capped-Pointwise :
    (p r : ℕ) (bs cs : List Booking)
    → Pointwise Move bs cs
    → count_if (is_active_for p r) cs ≤ count_if (is_active_for p r) bs
capped-Pointwise p r = count_if-Pointwise (is_active_for p r) Move (Move-is_active_for p r)

-- A new request counts for its renter and posting alone.
capped-creates :
    (p r : ℕ) (b : Booking) (bs : List Booking)
    → count_if (is_active_for b.posting_id b.renter_id) bs < max_active_booking_requests_per_posting
    → count_if (is_active_for p r) bs ≤ max_active_booking_requests_per_posting
    → count_if (is_active_for p r) (b ∷ bs) ≤ max_active_booking_requests_per_posting
unfolding count_if
capped-creates p r b bs below h = elim (Bool-cases (is_active_for p r b)) [
  | inl e ↦
      let same_posting : b.posting_id ≡ p = ground arith in
      let same_renter : b.renter_id ≡ r = ground arith in
      rw e (
        subst₂ (λ x y. 1 + count_if (is_active_for x y) bs ≤ 2) same_posting same_renter
          (omega arith))
  | inr e ↦ rw e (omega arith)
]

pub Step-Core : (s s' : Store) → Step s s' → Core s → Core s'
Step-Core s s' (moves m e) v = record {
  unique = UniqueIds-Pointwise Move Move-id _ _ m v.unique;
  sound = All-Pointwise Move Move-IsSound _ _ m v.sound;
  disjoint = rw e v.disjoint;
  one_each = rw e v.one_each;
}
Step-Core s s' (creates b new fresh below eb er) v = record {
  unique = rw eb (fresh, v.unique);
  sound = rw eb (new.sound, v.sound);
  disjoint = rw er v.disjoint;
  one_each = rw er v.one_each;
}
Step-Core s s' (rents r m apart one er) v = record {
  unique = UniqueIds-Pointwise Move Move-id _ _ m v.unique;
  sound = All-Pointwise Move Move-IsSound _ _ m v.sound;
  disjoint = rw er (apart, v.disjoint);
  one_each = rw er (one, v.one_each);
}

-- From a store with the invariant every step of the machine leads to a store with the invariant.
pub Step-Inv : (s s' : Store) → Step s s' → Inv s → Inv s'
Step-Inv s s' step v = record { core = Step-Core s s' step v.core; capped = capped_then step }
  where
    capped_then :
        Step s s'
        → (p r : ℕ)
        → count_if (is_active_for p r) s'.bookings ≤ max_active_booking_requests_per_posting
    capped_then (moves m e) p r =
        omega (arith, capped-Pointwise p r s.bookings s'.bookings m, v.capped p r)
    capped_then (creates b new fresh below eb er) p r =
        rw eb (capped-creates p r b s.bookings below (v.capped p r))
    capped_then (rents x m apart one er) p r =
        omega (arith, capped-Pointwise p r s.bookings s'.bookings m, v.capped p r)

-- A row with the id of the row that a search by id finds is that row.
pub found_alone :
    (id : ℕ) (bs : List Booking) (b : Booking)
    → UniqueIds bs
    → find (has_id id) bs ≡ some b
    → All (λ c. has_id id c ≡ true → c ≡ b) bs
unfolding find any
found_alone id [] b u e = tt
found_alone id (x ∷ xs) b (new, u) e = elim (Bool-cases (has_id id x)) [
  | inl hit ↦
      let same : x ≡ b = ground arith in
      let others : All (λ c. has_id x.id c ≡ false) xs = any-false (has_id x.id) xs new in
      (λ _. same, All-map (λ c miss hit'. absurd (ground arith)) xs others)
  | inr miss ↦ (λ hit. cc, found_alone id xs b u (ground arith))
]
