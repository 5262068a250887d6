-- ===== src/Payments/Effects.antt =====
-- What the transactions of payments do to the tables of bookings and rentings: a booking request keeps
-- its id, its parties, its terms and its conversion, and rentings stay as they are.
pub mod Kept
pub mod Transactions
pub mod Invariant
use fit.Common.{
  ℕ, ◌≡◌, refl, ◌∙◌, Bool, true, false, Option, none, some, List, [], ◌∷◌, update, Pointwise,
}
use fit.Common.Rows.{update-Pointwise, Pointwise-refl, Pointwise-trans, All-intro}
use fit.Store.{pending, Booking, Store}
use fit.Store.Payments.{Accounts}
use fit.Runtime.{Error, Result, ok, err, Turn, Visit, transaction, roll_back}
use fit.Runtime.Transaction.{give, query, or_raise, write, raise_if, when, resume, ◌>>=◌}
use fit.Bookings.Repository.{has_id}
use fit.Payments.Rows.{on_accounts, update_or_throw}

pub record Touch (b c : Booking) : Type 0 where
  pub id : c.id ≡ b.id
  pub posting : c.posting_id ≡ b.posting_id
  pub renter : c.renter_id ≡ b.renter_id
  pub owner : c.owner_id ≡ b.owner_id
  pub terms : c.terms ≡ b.terms
  pub conversion : c.converted_at ≡ b.converted_at
  pub waits : c.status ≡ pending → b.status ≡ pending

pub record Touches (s s' : Store) : Type 0 where
  pub bookings : Pointwise Touch s.bookings s'.bookings
  pub rentings : s'.rentings ≡ s.rentings

Touch-refl : (b : Booking) → Touch b b
Touch-refl b = record {
  id = refl;
  posting = refl;
  renter = refl;
  owner = refl;
  terms = refl;
  conversion = refl;
  waits = λ e. e;
}

Touch-trans : (b c d : Booking) → Touch b c → Touch c d → Touch b d
Touch-trans b c d h k = record {
  id = k.id ∙ h.id;
  posting = k.posting ∙ h.posting;
  renter = k.renter ∙ h.renter;
  owner = k.owner ∙ h.owner;
  terms = k.terms ∙ h.terms;
  conversion = k.conversion ∙ h.conversion;
  waits = λ e. h.waits (k.waits e);
}

pub Touches-refl : (s : Store) → Touches s s
Touches-refl s = record { bookings = Pointwise-refl Touch Touch-refl s.bookings; rentings = refl }

Touches-trans : (s s' s'' : Store) → Touches s s' → Touches s' s'' → Touches s s''
Touches-trans s s' s'' h k = record {
  bookings =
      Pointwise-trans Touch Touch-trans s.bookings s'.bookings s''.bookings h.bookings k.bookings;
  rentings = k.rentings ∙ h.rentings;
}

pub record Gentle {ℓ} {A : Type ℓ} (m : Visit A) : Type ℓ where
  pub at : (t : Turn) (s : Store) → Touches s (m t s).1

module _ {ℓ} {A : Type ℓ} where
  pub give-Gentle : (a : A) → Gentle (give a)
  unfolding give
  give-Gentle a = record { at = λ t s. Touches-refl s }

  pub query-Gentle : (f : Turn → Store → A) → Gentle (query f)
  unfolding query
  query-Gentle f = record { at = λ t s. Touches-refl s }

  pub or_raise-Gentle : (o : Option A) (e : Error) → Gentle (or_raise o e)
  unfolding or_raise
  or_raise-Gentle none e = record { at = λ t s. Touches-refl s }
  or_raise-Gentle (some a) e = record { at = λ t s. Touches-refl s }

  roll_back-Touches :
      (s : Store) (r : Result A × Store) → Touches s r.1 → Touches s (roll_back s r).1
  roll_back-Touches s (ok a, s') h = h
  roll_back-Touches s (err e, s') h = Touches-refl s

  pub transaction-Gentle : {m : Visit A} → Gentle m → Gentle (transaction m)
  unfolding transaction
  transaction-Gentle {m} h = record { at = λ t s. roll_back-Touches s (m t s) (h.at t s) }

module _ {ℓ κ} {A : Type ℓ} {B : Type κ} where
  resume-Touches :
      (r : Result A) (f : A → Visit B) (t : Turn) (s : Store)
      → ((a : A) → Gentle (f a))
      → Touches s (resume r f t s).1
  resume-Touches (ok a) f t s h = (h a).at t s
  resume-Touches (err e) f t s h = Touches-refl s

  pub bind-Gentle :
      {m : Visit A} {f : A → Visit B} → Gentle m → ((a : A) → Gentle (f a)) → Gentle (m >>= f)
  unfolding ◌>>=◌
  bind-Gentle {m} {f} hm hf = record {
    at = λ t s. Touches-trans s (m t s).1 _ (hm.at t s) (resume-Touches (m t s).0 f t (m t s).1 hf);
  }

pub raise_if-Gentle : (test : Bool) (e : Error) → Gentle (raise_if test e)
unfolding raise_if
raise_if-Gentle true e = record { at = λ t s. Touches-refl s }
raise_if-Gentle false e = record { at = λ t s. Touches-refl s }

pub when-Gentle : (test : Bool) {m : Visit (Unit {0})} → Gentle m → Gentle (when test m)
unfolding when
when-Gentle true h = record { at = h.at }
when-Gentle false h = record { at = λ t s. Touches-refl s }

-- A write that leaves bookings and rentings alone.
pub write-Gentle :
    (f : Turn → Store → Store) → ((t : Turn) (s : Store) → Touches s (f t s)) → Gentle (write f)
unfolding write
write-Gentle f h = record { at = h }

pub aside : (s s' : Store) → s'.bookings ≡ s.bookings → s'.rentings ≡ s.rentings → Touches s s'
aside s s' b r = record {
  bookings = rw b (Pointwise-refl Touch Touch-refl s.bookings);
  rentings = r;
}

update_or_throw-Touches :
    (test : Bool) (f : Turn → Store → Store) (t : Turn) (s : Store)
    → Touches s (f t s)
    → Touches s (update_or_throw test f t s).1
update_or_throw-Touches true f t s h = h
update_or_throw-Touches false f t s h = Touches-refl s

-- A change of one booking request.
changed :
    (id : ℕ) (f : Booking → Booking) (s : Store)
    → ((b : Booking) → Touch b (f b))
    → Touches s (record s { bookings = update (has_id id) f s.bookings })
changed id f s h = record {
  bookings =
      update-Pointwise Touch (has_id id) f Touch-refl s.bookings
        (All-intro (λ b e. h b) s.bookings);
  rentings = refl;
}

pub accounts-Touches :
    (test : Bool) (f : Turn → Accounts → Accounts) (t : Turn) (s : Store)
    → Touches s (update_or_throw test (λ t. on_accounts (f t)) t s).1
accounts-Touches test f t s =
    update_or_throw-Touches test (λ t. on_accounts (f t)) t s
      (aside s (on_accounts (f t) s) refl refl)

pub booking-Touches :
    (test : Bool) (id : ℕ) (f : Turn → Booking → Booking) (t : Turn) (s : Store)
    → ((t : Turn) (b : Booking) → Touch b (f t b))
    → Touches s
        (update_or_throw test
          (λ t s. record s { bookings = update (has_id id) (f t) s.bookings })
          t
          s).1
booking-Touches test id f t s h =
    update_or_throw-Touches test
      (λ t s. record s { bookings = update (has_id id) (f t) s.bookings }) t s
      (changed id (f t) s (h t))
