-- ===== src/Bookings/Machine/History.antt =====
-- What stays of a booking request and of a renting, however long the program runs.
use fit.Common.{
  ℕ, ◌≡◌, ◌≢◌, refl, sym, ◌∙◌, ap, true, false, none, some, List, [], ◌∷◌, ◌++◌, arith, ◌==◌, any,
  find, Pointwise, Bool-cases, inl, inr,
}
use fit.Common.Rows.{find-none}
use mathlib.Core.List.{append_assoc}
use mathlib.Core.Path.{subst}
use fit.Store.{pending, Booking, Renting, Store}
use fit.Bookings.Repository.{has_id, find_booking}
use fit.Bookings.Machine.{
  Move, stays, edits, approves, declines, expires, reserves, releases, converts, Step, moves,
  creates, rents,
}

-- The parties of a request never change. Its terms are those that the owner has seen, once it has left
-- `pending`, where it never comes back to, and a conversion is never undone.
pub record Keeps (b c : Booking) : Type 0 where
  pub id : c.id ≡ b.id
  pub posting : c.posting_id ≡ b.posting_id
  pub renter : c.renter_id ≡ b.renter_id
  pub owner : c.owner_id ≡ b.owner_id
  pub terms : b.status ≢ pending → c.terms ≡ b.terms
  pub left : b.status ≢ pending → c.status ≢ pending
  pub conversion : (n : ℕ) → b.converted_at ≡ some n → c.converted_at ≡ some n

-- Every request is found again, and every renting is there still.
pub record History (s s' : Store) : Type 0 where
  pub bookings :
      (id : ℕ) (b : Booking)
      → find_booking id s ≡ some b
      → (c : Booking) × (find_booking id s' ≡ some c) × Keeps b c
  pub rentings : (added : List Renting) × (s'.rentings ≡ added ++ s.rentings)

pub Keeps-refl : (b : Booking) → Keeps b b
Keeps-refl b = record {
  id = refl;
  posting = refl;
  renter = refl;
  owner = refl;
  terms = λ p. refl;
  left = λ p. p;
  conversion = λ n e. e;
}

Keeps-trans : (b c d : Booking) → Keeps b c → Keeps c d → Keeps b d
Keeps-trans b c d h k = record {
  id = k.id ∙ h.id;
  posting = k.posting ∙ h.posting;
  renter = k.renter ∙ h.renter;
  owner = k.owner ∙ h.owner;
  terms = λ p. k.terms (h.left p) ∙ h.terms p;
  left = λ p. k.left (h.left p);
  conversion = λ n e. k.conversion n (h.conversion n e);
}

pub History-refl : (s : Store) → History s s
History-refl s = record { bookings = λ id b e. (b, e, Keeps-refl b); rentings = ([], refl) }

pub History-trans : (s s' s'' : Store) → History s s' → History s' s'' → History s s''
History-trans s s' s'' h k = record {
  bookings = λ id b e.
      let (c, found, kept) = h.bookings id b e in
      let (d, found', kept') = k.bookings id c found in (d, found', Keeps-trans b c d kept kept');
  rentings =
      let (xs, e) = h.rentings in
      let (ys, e') = k.rentings in
      (ys ++ xs, e' ∙ ap (λ rs. ys ++ rs) e ∙ sym (append_assoc ys xs s.rentings));
}

Move-Keeps : (b c : Booking) → Move b c → Keeps b c
Move-Keeps b c (stays e) = rw e (Keeps-refl b)
Move-Keeps b c (edits t p q e) = rw e (record {
  id = refl;
  posting = refl;
  renter = refl;
  owner = refl;
  terms = λ away. absurd (away p);
  left = λ away. away;
  conversion = λ n e. e;
})
Move-Keeps b c (approves n x y p e) = rw e (record {
  id = refl;
  posting = refl;
  renter = refl;
  owner = refl;
  terms = λ away. refl;
  left = λ away. absurd (away p);
  conversion = λ n e. e;
})
Move-Keeps b c (declines n x p e) = rw e (record {
  id = refl;
  posting = refl;
  renter = refl;
  owner = refl;
  terms = λ away. refl;
  left = λ away. absurd (away p);
  conversion = λ n e. e;
})
Move-Keeps b c (expires x p q e) = rw e (record {
  id = refl;
  posting = refl;
  renter = refl;
  owner = refl;
  terms = λ away. refl;
  left = λ away same. ground arith;
  conversion = λ n e. e;
})
Move-Keeps b c (reserves x y p q e) = rw e (record {
  id = refl;
  posting = refl;
  renter = refl;
  owner = refl;
  terms = λ away. refl;
  left = λ away. away;
  conversion = λ n e. e;
})
Move-Keeps b c (releases e) = rw e (record {
  id = refl;
  posting = refl;
  renter = refl;
  owner = refl;
  terms = λ away. refl;
  left = λ away. away;
  conversion = λ n e. e;
})
Move-Keeps b c (converts x p q e) = rw e (record {
  id = refl;
  posting = refl;
  renter = refl;
  owner = refl;
  terms = λ away. refl;
  left = λ away. away;
  conversion = λ n already. ground arith;
})

-- Rows that change in place, each keeping its id, are found where they were.
pub found_in_place :
    (R : Booking → Booking → Type 0)
    → ((b c : Booking) → R b c → c.id ≡ b.id)
    → (id : ℕ) (bs cs : List Booking) → Pointwise R bs cs
    → (b : Booking) → find (has_id id) bs ≡ some b
    → (c : Booking) × (find (has_id id) cs ≡ some c) × R b c
unfolding find
found_in_place R same id [] cs r b e = cc
found_in_place R same id (x ∷ xs) [] r b e = absurd r
found_in_place R same id (x ∷ xs) (y ∷ ys) (m, r) b e = elim (Bool-cases (has_id id x)) [
  | inl hit ↦
      let same_row : x ≡ b = ground arith in
      let there : has_id id y ≡ true = ap (λ n. n == id) (same x y m) ∙ hit in
      rw there (y, refl, subst (λ z. R z y) same_row m)
  | inr miss ↦
      let elsewhere : has_id id y ≡ false = ap (λ n. n == id) (same x y m) ∙ miss in
      rw elsewhere (found_in_place R same id xs ys r b (ground arith))
]

moves-found :
    (s s' : Store)
    → Pointwise Move s.bookings s'.bookings
    → (id : ℕ) (b : Booking) → find_booking id s ≡ some b
    → (c : Booking) × (find_booking id s' ≡ some c) × Keeps b c
unfolding find_booking
moves-found s s' m id b e =
    let (c, found, moved) =
      found_in_place Move (λ x y k. (Move-Keeps x y k).id) id s.bookings s'.bookings m b e in
    (c, found, Move-Keeps b c moved)

-- A new request is in nobody's way: its id is new.
found_behind :
    (id : ℕ) (new b : Booking) (bs : List Booking)
    → any (has_id new.id) bs ≡ false
    → find (has_id id) bs ≡ some b
    → find (has_id id) (new ∷ bs) ≡ some b
unfolding find
found_behind id new b bs fresh e = elim (Bool-cases (has_id id new)) [
  | inl hit ↦
      let same : new.id ≡ id = ground arith in
      let missed : find (has_id id) bs ≡ none =
        find-none (has_id id) bs (subst (λ n. any (has_id n) bs ≡ false) same fresh) in
      absurd (ground arith)
  | inr miss ↦ rw miss e
]

pub Step-History : (s s' : Store) → Step s s' → History s s'
unfolding find_booking
Step-History s s' (moves m e) = record { bookings = moves-found s s' m; rentings = ([], e) }
Step-History s s' (creates b new fresh below eb er) = record {
  bookings = λ id c e. (c, rw eb (found_behind id b c s.bookings fresh e), Keeps-refl c);
  rentings = ([], er);
}
Step-History s s' (rents r m apart one er) = record {
  bookings = moves-found s s' m;
  rentings = (r ∷ [], er);
}
