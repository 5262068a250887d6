-- ===== src/Payments/Effects/Invariant.antt =====
-- What a transaction of payments keeps, since it leaves the ids, the parties, the terms and the
-- conversions of booking requests alone, and all rentings.
use fit.Common.{◌≡◌, ◌∙◌, []}
use fit.Common.Rows.{All-Pointwise}
use fit.Store.{Booking, Store}
use fit.Bookings.Repository.{find_booking}
use fit.Bookings.Machine.{IsSound}
use fit.Bookings.Machine.Invariant.{Core, UniqueIds-Pointwise}
use fit.Bookings.Machine.History.{Keeps, History, found_in_place}
use fit.Payments.Effects.{Touch, Touches}

Touch-id : (b c : Booking) → Touch b c → c.id ≡ b.id
Touch-id b c h = h.id

Touch-IsSound : (b c : Booking) → Touch b c → IsSound b.terms → IsSound c.terms
Touch-IsSound b c h sound = rw h.terms sound

pub Touches-Core : (s s' : Store) → Touches s s' → Core s → Core s'
Touches-Core s s' h v = record {
  unique = UniqueIds-Pointwise Touch Touch-id _ _ h.bookings v.unique;
  sound = All-Pointwise Touch Touch-IsSound _ _ h.bookings v.sound;
  disjoint = rw h.rentings v.disjoint;
  one_each = rw h.rentings v.one_each;
}

Touch-Keeps : (b c : Booking) → Touch b c → Keeps b c
Touch-Keeps b c h = record {
  id = h.id;
  posting = h.posting;
  renter = h.renter;
  owner = h.owner;
  terms = λ away. h.terms;
  left = λ away e. away (h.waits e);
  conversion = λ n e. h.conversion ∙ e;
}

pub Touches-History : (s s' : Store) → Touches s s' → History s s'
unfolding find_booking
Touches-History s s' h = record {
  bookings = λ id b e.
      let (c, found, touched) =
        found_in_place Touch Touch-id id s.bookings s'.bookings h.bookings b e in
      (c, found, Touch-Keeps b c touched);
  rentings = ([], h.rentings);
}
