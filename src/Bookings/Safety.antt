-- ===== src/Bookings/Safety.antt =====
-- The invariant of Machine/Invariant.antt through the parts that the service methods are made of.

pub mod Create
pub mod Change
pub mod Decide
pub mod Expiry
pub mod Refusal
use fit.Bookings.Overlap.{has_overlap, has_blocking_availability_overlap}
use mathlib.Core.Path.{subst}
use fit.Common.{ℕ, ◌≡◌, refl, Option, none, some, List, arith, ◌==◌, find}
use fit.Common.Rows.{find-true}
use fit.Store.{Booking, Posting, Message, Store}
use fit.Runtime.{Reason, Turn, Visit, ok, visit, transaction}
use fit.Runtime.Logic.{
  Safe, Holds, Any, visit-Safe, pure-Safe, throw_if-Safe, require-Safe, bind-Safe, weaken,
}
use fit.Cache.Locks.{IgnoresLocks}
use fit.Bookings.Messages.{send, enqueue_search_sync, publish_change}
use fit.Store.Search.{SearchOutbox}
use fit.Search.Enqueue.{enqueue_outbox}
use fit.Runtime.Transaction.{write}
use fit.Bookings.Repository.{has_id, find_booking, find_by_id}
use fit.Bookings.Validation.{
  find_posting, require_posting, require_owner_booking_request, throw_if_expired, assert_can_decide,
  assert_no_blocking_availability_overlap, assert_no_renting_overlap,
  require_posting_editable_for_renter, require_posting_actionable_for_owner,
}
use fit.Bookings.Machine.{Step}
use fit.Bookings.Machine.Invariant.{Inv, Step-Inv}

-- The invariant is about bookings and rentings alone.
pub Inv-IgnoresLocks : IgnoresLocks Inv
Inv-IgnoresLocks s ls v = record {
  core = record {
    unique = v.unique;
    sound = v.sound;
    disjoint = v.disjoint;
    one_each = v.one_each;
  };
  capped = v.capped;
}

pub Inv-sent : (s : Store) (ms : List Message) → Inv s → Inv (record s { sent = ms })
Inv-sent s ms v = record {
  core = record {
    unique = v.unique;
    sound = v.sound;
    disjoint = v.disjoint;
    one_each = v.one_each;
  };
  capped = v.capped;
}

pub send-Safe : (message : Turn → Message) → Safe Inv (send message) Any
unfolding send
send-Safe message = visit-Safe _ λ t s v. record { keeps = Inv-sent s _ v; gives = tt }

pub Inv-outbox : (s : Store) (rows : List SearchOutbox) → Inv s → Inv (record s { outbox = rows })
Inv-outbox s rows v = record {
  core = record {
    unique = v.unique;
    sound = v.sound;
    disjoint = v.disjoint;
    one_each = v.one_each;
  };
  capped = v.capped;
}

pub enqueue_search_sync-Safe : (posting_id : ℕ) → Safe Inv (enqueue_search_sync posting_id) Any
unfolding enqueue_search_sync enqueue_outbox transaction write
enqueue_search_sync-Safe posting_id =
    visit-Safe _ λ t s v. record { keeps = Inv-outbox s _ v; gives = tt }

pub publish_change-Safe : (posting_id : ℕ) → Safe Inv (publish_change posting_id) Any
unfolding publish_change
publish_change-Safe posting_id = bind-Safe (send-Safe _) λ _ _. enqueue_search_sync-Safe posting_id

-- A visit that only reads.
pub read-Safe {ℓ κ} :
    {A : Type ℓ} {Q : A → Type κ} (f : Turn → Store → A)
    → ((t : Turn) (s : Store) → Inv s → Q (f t s))
    → Safe Inv (visit (λ t s. (ok (f t s), s))) Q
read-Safe f h = visit-Safe _ λ t s v. record { keeps = v; gives = h t s v }

-- A visit that makes a step of the machine.
pub step-Safe {ℓ κ} :
    {A : Type ℓ} {Q : A → Type κ} (f : Visit A)
    → ((t : Turn) (s : Store) → Inv s → Step s (f t s).1)
    → ((t : Turn) (s : Store) → Inv s → Holds Q (f t s).0)
    → Safe Inv (visit f) Q
step-Safe f step gives =
    visit-Safe f λ t s v. record { keeps = Step-Inv s _ (step t s v) v; gives = gives t s v }

-- What is found under an id has it.
abbrev pub FoundBooking : ℕ → Option Booking → Type 0
FoundBooking id none = Unit
FoundBooking id (some b) = b.id ≡ id

abbrev pub FoundPosting : ℕ → Option Posting → Type 0
FoundPosting id none = Unit
FoundPosting id (some p) = p.id ≡ id

pub find_booking-id : (id : ℕ) (s : Store) → FoundBooking id (find_booking id s)
unfolding find_booking
find_booking-id id s = go (find (has_id id) s.bookings) refl
  where
    go : (o : Option Booking) → find (has_id id) s.bookings ≡ o → FoundBooking id o
    go none e = tt
    go (some b) e = ground (arith, find-true (has_id id) s.bookings b e)

pub find_by_id-Safe : (id : ℕ) → Safe Inv (visit (find_by_id id)) (FoundBooking id)
unfolding find_by_id
find_by_id-Safe id = read-Safe (λ t s. find_booking id s) λ t s v. find_booking-id id s

find_posting-id : (id : ℕ) (s : Store) → FoundPosting id (find (λ p. p.id == id) s.postings)
find_posting-id id s = go (find (λ p. p.id == id) s.postings) refl
  where
    go : (o : Option Posting) → find (λ p. p.id == id) s.postings ≡ o → FoundPosting id o
    go none e = tt
    go (some p) e = ground (arith, find-true (λ q. q.id == id) s.postings p e)

pub require_posting-Safe : (id : ℕ) → Safe Inv (require_posting id) (λ p. p.id ≡ id)
unfolding require_posting find_posting
require_posting-Safe id =
    bind-Safe (read-Safe _ λ t s v. find_posting-id id s)
      λ found h. weaken (require-Safe found _) (λ p e. subst (FoundPosting id) e h)

pub require_owner_booking_request-Safe :
    (id owner_id : ℕ)
    → Safe Inv
        (require_owner_booking_request id owner_id)
        (λ b. (b.id ≡ id) × (b.owner_id ≡ owner_id))
unfolding require_owner_booking_request
require_owner_booking_request-Safe id owner_id = bind-Safe (find_by_id-Safe id) λ found h.
    bind-Safe (require-Safe found _) λ b e.
      bind-Safe (throw_if-Safe _ _)
        λ _ owned. pure-Safe b (subst (FoundBooking id) e h, ground arith)

pub throw_if_expired-Safe : (b : Booking) → Safe Inv (throw_if_expired b) Any
unfolding throw_if_expired
throw_if_expired-Safe b =
    bind-Safe (read-Safe {Q = Any} _ λ t s v. tt) λ over _. weaken (throw_if-Safe over _) λ _ _. tt

pub assert_can_decide-Safe : (b : Booking) (r : Reason) → Safe Inv (assert_can_decide b r) Any
unfolding assert_can_decide
assert_can_decide-Safe b r = bind-Safe (throw_if-Safe _ _) λ _ _. throw_if_expired-Safe b

pub assert_no_renting_overlap-Safe :
    (posting_id start_at end_at : ℕ)
    → Safe Inv (assert_no_renting_overlap posting_id start_at end_at) Any
unfolding assert_no_renting_overlap has_overlap
assert_no_renting_overlap-Safe posting_id start_at end_at =
    bind-Safe (read-Safe {Q = Any} _ λ t s v. tt) λ o _. weaken (throw_if-Safe o _) λ _ _. tt

pub assert_no_blocking_availability_overlap-Safe :
    (posting_id start_at end_at : ℕ) (excluded : Option ℕ)
    → Safe Inv (assert_no_blocking_availability_overlap posting_id start_at end_at excluded) Any
unfolding assert_no_blocking_availability_overlap has_blocking_availability_overlap
assert_no_blocking_availability_overlap-Safe posting_id start_at end_at excluded =
    bind-Safe (read-Safe {Q = Any} _ λ t s v. tt) λ o _. weaken (throw_if-Safe o _) λ _ _. tt

pub require_posting_editable_for_renter-Safe :
    (id : ℕ) → Safe Inv (require_posting_editable_for_renter id) (λ p. p.id ≡ id)
unfolding require_posting_editable_for_renter
require_posting_editable_for_renter-Safe id =
    bind-Safe (require_posting-Safe id) λ p e. bind-Safe (throw_if-Safe _ _) λ _ _. pure-Safe p e

pub require_posting_actionable_for_owner-Safe :
    (id : ℕ) → Safe Inv (require_posting_actionable_for_owner id) (λ p. p.id ≡ id)
unfolding require_posting_actionable_for_owner
require_posting_actionable_for_owner-Safe id =
    bind-Safe (require_posting-Safe id) λ p e. bind-Safe (throw_if-Safe _ _) λ _ _. pure-Safe p e
