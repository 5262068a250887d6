-- ===== src/Postings/Frame.antt =====
-- What an owner who blocks dates leaves alone: every property that owner blocks have no part in.
pub mod Holds
use fit.Common.{ℕ, ◌≡◌, refl, Bool, true, Option, none, some, List, ◌∷◌, ◌==◌, update, remove}
use fit.Common.Text.{Text}
use fit.Store.{Message, Block, Store}
use fit.Store.Search.{OutboxOperation, upsert, SearchOutbox}
use fit.Runtime.{record_missing, Result, ok, err, Error, Turn, visit, lift, throw_if, require}
use fit.Runtime.Logic.{
  Safe, Any, visit-Safe, pure-Safe, throw-Safe, throw_if-Safe, require-Safe, bind-Safe, weaken,
}
use fit.Runtime.Keeps.{
  Keeps, visit-Keeps, transaction-Keeps, give-Keeps, query-Keeps, or_raise-Keeps, write-Keeps,
  if-Keeps, bind-Keeps,
}
use fit.Cache.Locks.{IgnoresLocks, with_flow_locks-Safe}
use fit.Bookings.Messages.{send}
use fit.Bookings.Validation.{find_posting}
use fit.Search.Enqueue.{enqueue_outbox}
use fit.Postings.Dates.{BlockInput, BlockDates}
use fit.Postings.Blocks.{
  is_owner, is_owner_block, new_block, changed_block, create_owner_availability_block,
  update_owner_availability_block, delete_owner_availability_block, find_owner_availability_block,
  has_owner_availability_block_overlap, has_active_booking_availability_conflict,
  has_renting_availability_conflict,
}
use fit.Postings.Availability.{
  require_owner_posting_for_availability, assert_existing_owner_availability_block, assert_no,
  assert_availability_block_can_be_written, create_block_locked, update_block_locked,
  delete_block_locked, create_block, update_block, delete_block,
}

-- A property of the store that owner blocks, locks, messages and the search outbox have no part in.
pub record Unconcerned (P : Store → Type 0) : Type 0 where
  pub locks : IgnoresLocks P
  pub messages : (s : Store) (ms : List Message) → P s → P (record s { sent = ms })
  pub outbox : (s : Store) (rows : List SearchOutbox) → P s → P (record s { outbox = rows })
  pub created :
      (s : Store) (b : Block)
      → is_owner b.source ≡ true
      → P s
      → P (record s { blocks = b ∷ s.blocks })
  pub changed :
      (s : Store) (posting_id block_id : ℕ) (input : BlockDates)
      → P s
      → P (record s {
        blocks = update (is_owner_block posting_id block_id) (changed_block input) s.blocks;
      })
  pub removed :
      (s : Store) (posting_id block_id : ℕ)
      → P s
      → P (record s { blocks = remove (is_owner_block posting_id block_id) s.blocks })

module _ {P : Store → Type 0} (free : Unconcerned P) where
  read-Safe : {A : Type 0} (f : Turn → Store → A) → Safe P (visit (λ t s. (ok (f t s), s))) Any
  read-Safe f = visit-Safe _ λ t s p. record { keeps = p; gives = tt }

  send-Safe : (message : Turn → Message) → Safe P (send message) Any
  unfolding send
  send-Safe message = visit-Safe _ λ t s p. record { keeps = free.messages s _ p; gives = tt }

  lift-Safe : {A : Type 0} (r : Result A) → Safe P (lift r) Any
  unfolding lift
  lift-Safe (ok a) = pure-Safe a tt
  lift-Safe (err e) = throw-Safe e

  throw_if-Any : (b : Bool) (e : Error) → Safe P (throw_if b e) Any
  throw_if-Any b e = weaken (throw_if-Safe b e) λ _ _. tt

  require-Any : {A : Type 0} (o : Option A) (e : Error) → Safe P (require o e) Any
  require-Any o e = weaken (require-Safe o e) λ _ _. tt

  enqueue_outbox-Keeps :
      (drawn posting_id : ℕ) (operation : OutboxOperation)
      → Keeps P (enqueue_outbox drawn posting_id operation)
  unfolding enqueue_outbox
  enqueue_outbox-Keeps drawn posting_id operation = write-Keeps _ λ t s. free.outbox s _

  pub create-Keeps :
      (posting_id : ℕ) (input : BlockDates)
      → Keeps P (create_owner_availability_block posting_id input)
  unfolding create_owner_availability_block
  create-Keeps posting_id input = transaction-Keeps (
      bind-Keeps (write-Keeps _ λ t s. free.created s (new_block posting_id input t) refl)
        λ _. bind-Keeps (enqueue_outbox-Keeps 1 posting_id upsert) λ _. give-Keeps _)

  pub update-Keeps :
      (posting_id block_id : ℕ) (input : BlockDates)
      → Keeps P (update_owner_availability_block posting_id block_id input)
  unfolding update_owner_availability_block
  update-Keeps posting_id block_id input = transaction-Keeps (
      bind-Keeps (query-Keeps _) λ count.
        bind-Keeps (write-Keeps _ λ t s. free.changed s posting_id block_id input) λ _.
          if-Keeps (count == 1)
            (bind-Keeps (query-Keeps _) λ found.
              bind-Keeps (or_raise-Keeps found record_missing)
                λ _. bind-Keeps (enqueue_outbox-Keeps 0 posting_id upsert) λ _. give-Keeps _)
            (give-Keeps _))

  pub delete-Keeps :
      (posting_id block_id : ℕ) → Keeps P (delete_owner_availability_block posting_id block_id)
  unfolding delete_owner_availability_block
  delete-Keeps posting_id block_id = transaction-Keeps (
      bind-Keeps (query-Keeps _) λ count.
        bind-Keeps (write-Keeps _ λ t s. free.removed s posting_id block_id) λ _.
          if-Keeps (count == 1)
            (bind-Keeps (enqueue_outbox-Keeps 0 posting_id upsert) λ _. give-Keeps _)
            (give-Keeps _))

  require_owner_posting_for_availability-Safe :
      (id owner_id : ℕ) → Safe P (require_owner_posting_for_availability id owner_id) Any
  unfolding require_owner_posting_for_availability find_posting
  require_owner_posting_for_availability-Safe id owner_id =
      bind-Safe (read-Safe _) λ found _. require-Any _ _

  assert_no-Safe :
      (f : Turn → Store → Bool) (e : Error) → Safe P (assert_no (λ t s. (ok (f t s), s)) e) Any
  unfolding assert_no
  assert_no-Safe f e = bind-Safe (read-Safe f) λ found _. throw_if-Any found e

  assert_availability_block_can_be_written-Safe :
      (posting_id : ℕ) (block : BlockDates) (excluded : Option ℕ)
      → Safe P (assert_availability_block_can_be_written posting_id block excluded) Any
  unfolding assert_availability_block_can_be_written has_owner_availability_block_overlap
      has_active_booking_availability_conflict has_renting_availability_conflict
  assert_availability_block_can_be_written-Safe posting_id block excluded =
      bind-Safe (assert_no-Safe _ _) λ _ _. bind-Safe (assert_no-Safe _ _) λ _ _. assert_no-Safe _ _

  create_block_locked-Safe :
      (posting_id : ℕ) (block : BlockDates) → Safe P (create_block_locked posting_id block) Any
  unfolding create_block_locked
  create_block_locked-Safe posting_id block =
      bind-Safe (assert_availability_block_can_be_written-Safe posting_id block none) λ _ _.
        bind-Safe (visit-Keeps (create-Keeps posting_id block))
          λ _ _. bind-Safe (send-Safe _) λ _ _. pure-Safe _ tt

  assert_existing_owner_availability_block-Safe :
      (posting_id block_id : ℕ)
      → Safe P (assert_existing_owner_availability_block posting_id block_id) Any
  unfolding assert_existing_owner_availability_block find_owner_availability_block
  assert_existing_owner_availability_block-Safe posting_id block_id =
      bind-Safe (read-Safe _) λ found _. bind-Safe (require-Any found _) λ _ _. pure-Safe tt tt

  update_block_locked-Safe :
      (posting_id block_id : ℕ) (block : BlockDates)
      → Safe P (update_block_locked posting_id block_id block) Any
  unfolding update_block_locked
  update_block_locked-Safe posting_id block_id block =
      bind-Safe (assert_existing_owner_availability_block-Safe posting_id block_id) λ _ _.
        bind-Safe (assert_availability_block_can_be_written-Safe posting_id block (some block_id))
          λ _ _. bind-Safe (visit-Keeps (update-Keeps posting_id block_id block)) λ found _.
            bind-Safe (require-Any found _) λ _ _. bind-Safe (send-Safe _) λ _ _. pure-Safe _ tt

  pub delete_block-Safe :
      (id owner_id block_id : ℕ) → Safe P (delete_block id owner_id block_id) Any
  unfolding delete_block delete_block_locked
  delete_block-Safe id owner_id block_id =
      bind-Safe (require_owner_posting_for_availability-Safe id owner_id) λ posting _.
        with_flow_locks-Safe free.locks _ _ (
          bind-Safe (visit-Keeps (delete-Keeps posting.id block_id))
            λ deleted _. bind-Safe (throw_if-Any _ _) λ _ _. send-Safe _)

  module _ (is_unsafe : Text → Bool) where
    pub create_block-Safe :
        (id owner_id : ℕ) (input : BlockInput)
        → Safe P (create_block is_unsafe id owner_id input) Any
    unfolding create_block
    create_block-Safe id owner_id input =
        bind-Safe (require_owner_posting_for_availability-Safe id owner_id) λ posting _.
          bind-Safe (lift-Safe _) λ block _.
            bind-Safe (throw_if-Any _ _)
              λ _ _. with_flow_locks-Safe free.locks _ _ (create_block_locked-Safe posting.id block)

    pub update_block-Safe :
        (id owner_id block_id : ℕ) (input : BlockInput)
        → Safe P (update_block is_unsafe id owner_id block_id input) Any
    unfolding update_block
    update_block-Safe id owner_id block_id input =
        bind-Safe (require_owner_posting_for_availability-Safe id owner_id) λ posting _.
          bind-Safe (lift-Safe _) λ block _. bind-Safe (throw_if-Any _ _) λ _ _.
            with_flow_locks-Safe free.locks _ _ (update_block_locked-Safe posting.id block_id block)
