-- ===== src/System/Aside.antt =====
-- What an owner does to a posting leaves the tables of bookings and rentings alone.
use fit.Common.{ℕ, ◌≡◌, refl, inl, inr, List, Option-cases}
use fit.Store.{Booking, Renting, Posting, Store}
use fit.Store.Search.{OutboxOperation}
use fit.Runtime.{Turn, transaction}
use fit.Runtime.Transaction.{write, give, ◌>>=◌}
use fit.Search.Enqueue.{enqueue_outbox}
use fit.Postings.Dates.{BlockDates}
use fit.Postings.Repository.{
  find_posting_row, sync_owner_posting_counts, change_found, change_posting,
}
use fit.Postings.Blocks.{
  create_owner_availability_block, update_owner_availability_block, delete_owner_availability_block,
}
use fit.Postings.Frame.{Unconcerned, create-Keeps, update-Keeps, delete-Keeps}
use fit.Payments.Effects.{Touches, aside}

-- The tables are those.
abbrev Same : List Booking → List Renting → Store → Type 0
Same bookings rentings s = (s.bookings ≡ bookings) × (s.rentings ≡ rentings)

Same-Unconcerned :
    (bookings : List Booking) (rentings : List Renting) → Unconcerned (Same bookings rentings)
Same-Unconcerned bookings rentings = record {
  locks = λ s ls h. h;
  messages = λ s ms h. h;
  outbox = λ s rows h. h;
  created = λ s b own h. h;
  changed = λ s posting_id block_id input h. h;
  removed = λ s posting_id block_id h. h;
}

Same-Touches : (s s' : Store) → Same s.bookings s.rentings s' → Touches s s'
Same-Touches s s' (b, r) = aside s s' b r

pub create-Touches :
    (posting_id : ℕ) (input : BlockDates) (t : Turn) (s : Store)
    → Touches s (create_owner_availability_block posting_id input t s).1
create-Touches posting_id input t s =
    Same-Touches s _ ((create-Keeps (Same-Unconcerned _ _) posting_id input).at t s (refl, refl))

pub update-Touches :
    (posting_id block_id : ℕ) (input : BlockDates) (t : Turn) (s : Store)
    → Touches s (update_owner_availability_block posting_id block_id input t s).1
update-Touches posting_id block_id input t s =
    Same-Touches s _
      ((update-Keeps (Same-Unconcerned _ _) posting_id block_id input).at t s (refl, refl))

pub delete-Touches :
    (posting_id block_id : ℕ) (t : Turn) (s : Store)
    → Touches s (delete_owner_availability_block posting_id block_id t s).1
delete-Touches posting_id block_id t s =
    Same-Touches s _ ((delete-Keeps (Same-Unconcerned _ _) posting_id block_id).at t s (refl, refl))

pub change_posting-Touches :
    (id owner_id : ℕ) (operation : OutboxOperation) (f : Turn → Posting → Posting) (t : Turn)
    (s : Store)
    → Touches s (change_posting id owner_id operation f t s).1
unfolding change_posting change_found transaction ◌>>=◌ write give enqueue_outbox
    sync_owner_posting_counts
change_posting-Touches id owner_id operation f t s = elim (Option-cases (find_posting_row id s)) [
  | inl missing ↦ rw missing (aside s s refl refl)
  | inr (existing, found) ↦ rw found (aside s _ refl refl)
]
