-- ===== src/Postings/Counts/Methods.antt =====
-- The counts through publish, pause, unpause and archive, among other requests.
use fit.Common.{
  ℕ, ◌≡◌, refl, sym, ap, ◌∙◌, inl, inr, Bool, Option, none, some, List, [], ◌∷◌, arith, find, All,
  Bool-cases, Option-cases,
}
use mathlib.Core.Path.{subst}
use fit.Store.{Posting, Message}
use fit.Store.Search.{OutboxOperation, upsert, delete}
use fit.Runtime.{Error, Turn, World, M, Visit, visit, throw_if, transaction}
use fit.Runtime.Transaction.{write, give, ◌>>=◌}
use fit.Runtime.Logic.{
  Steady, Safe, Any, safely, visit-Safe, pure-Safe, throw_if-Safe, require-Safe, bind-Safe, weaken,
}
use fit.Cache.Locks.{IgnoresLocks, with_flow_locks-Safe}
use fit.Bookings.Messages.{send}
use fit.Bookings.Validation.{find_posting}
use fit.Search.Enqueue.{enqueue_outbox}
use fit.Postings.Repository.{
  has_posting_id, find_posting_row, sync_owner_posting_counts, change_found, change_posting,
  published_row, archived_row, paused_row, unpaused_row, publish, archive, pause, unpause,
}
use fit.Postings.Service.{
  require_owner_posting, assert_can_publish, assert_can_pause, assert_can_unpause,
  assert_can_archive, write_and_announce, with_thumbnails, publish_posting, pause_locked,
  pause_posting, unpause_locked, unpause_posting, archive_posting,
}
use fit.Postings.Counts.{Counted, KeepsOwner, change-Counted}

pub data StatusCall : Type 0 where
  publishes pauses unpauses archives : StatusCall

abbrev pub perform : StatusCall → (id owner_id : ℕ) → M Posting
perform publishes = publish_posting
perform pauses = pause_posting
perform unpauses = unpause_posting
perform archives = archive_posting

module _ (owner_of : ℕ → ℕ) where
  Counted-IgnoresLocks : IgnoresLocks (Counted owner_of)
  unfolding Counted
  Counted-IgnoresLocks s ls h = h

  send-Safe : (message : Turn → Message) → Safe (Counted owner_of) (send message) Any
  unfolding send Counted
  send-Safe message = visit-Safe _ λ t s p. record { keeps = p; gives = tt }

  change_posting-Safe :
      (id owner_id : ℕ) (operation : OutboxOperation) (f : Turn → Posting → Posting)
      → ((t : Turn) → KeepsOwner (f t))
      → owner_of id ≡ owner_id
      → Safe (Counted owner_of) (visit (change_posting id owner_id operation f)) Any
  unfolding change_posting change_found transaction ◌>>=◌ write give enqueue_outbox
      sync_owner_posting_counts
  change_posting-Safe id owner_id operation f same own = visit-Safe _ λ t s p.
      elim (Option-cases (find_posting_row id s)) [
        | inl missing ↦ rw missing (record { keeps = p; gives = tt })
        | inr (existing, found) ↦
            rw (found, sym own)
              (record { keeps = change-Counted owner_of (same t) id s _ p; gives = tt })
      ]

  -- Who is let in as the owner is the owner.
  abbrev FoundOwner : (id : ℕ) → Option Posting → Type 0
  FoundOwner id none = Unit
  FoundOwner id (some p) = p.owner_id ≡ owner_of id

  find-FoundOwner :
      (id : ℕ) (ps : List Posting)
      → All (λ q. q.owner_id ≡ owner_of q.id) ps
      → FoundOwner id (find (has_posting_id id) ps)
  unfolding find
  find-FoundOwner id [] h = tt
  find-FoundOwner id (q ∷ qs) (h, hs) = elim (Bool-cases (has_posting_id id q)) [
    | inl hit ↦ rw hit (h ∙ ap owner_of (ground arith))
    | inr miss ↦ rw miss (find-FoundOwner id qs hs)
  ]

  require_owner_posting-Safe :
      (id owner_id : ℕ)
      → Safe (Counted owner_of) (require_owner_posting id owner_id) (λ _. owner_of id ≡ owner_id)
  unfolding require_owner_posting find_posting Counted
  require_owner_posting-Safe id owner_id =
      bind-Safe {Q = FoundOwner id}
        (visit-Safe _ λ t s p. record { keeps = p; gives = find-FoundOwner id s.postings p.1 })
        λ found h. bind-Safe (require-Safe found _) λ posting e.
          bind-Safe (throw_if-Safe _ _) λ _ mine.
            let own : posting.owner_id ≡ owner_of id = subst (FoundOwner id) e h in
            pure-Safe posting (sym own ∙ ground arith)

  throw_if-Any : (b : Bool) (e : Error) → Safe (Counted owner_of) (throw_if b e) Any
  throw_if-Any b e = weaken (throw_if-Safe b e) λ _ _. tt

  assert_can_publish-Safe : (p : Posting) → Safe (Counted owner_of) (assert_can_publish p) Any
  unfolding assert_can_publish
  assert_can_publish-Safe p = bind-Safe (throw_if-Any _ _) λ _ _.
      bind-Safe (throw_if-Any _ _) λ _ _.
        bind-Safe (throw_if-Any _ _) λ _ _. bind-Safe (throw_if-Any _ _) λ _ _. throw_if-Any _ _

  write_and_announce-Safe :
      (method : Visit (Option Posting))
      → Safe (Counted owner_of) (visit method) Any
      → Safe (Counted owner_of) (write_and_announce method) Any
  unfolding write_and_announce
  write_and_announce-Safe method h = bind-Safe h λ found _.
      bind-Safe (require-Safe found _) λ changed _. bind-Safe (send-Safe _) λ _ _. pure-Safe _ tt

  with_thumbnails-Safe : (p : Posting) → Safe (Counted owner_of) (with_thumbnails p) Any
  unfolding with_thumbnails
  with_thumbnails-Safe p = bind-Safe (send-Safe _) λ _ _. pure-Safe _ tt

  publish_posting-Safe :
      (id owner_id : ℕ) → Safe (Counted owner_of) (publish_posting id owner_id) Any
  unfolding publish_posting publish
  publish_posting-Safe id owner_id =
      bind-Safe (require_owner_posting-Safe id owner_id) λ posting own.
        bind-Safe (assert_can_publish-Safe posting) λ _ _.
          bind-Safe
            (write_and_announce-Safe _ (
              change_posting-Safe id owner_id upsert published_row
                (λ t. record { id = λ p. refl; owner = λ p. refl }) own))
            λ changed _. with_thumbnails-Safe changed

  pause_locked-Safe : (id owner_id : ℕ) → Safe (Counted owner_of) (pause_locked id owner_id) Any
  unfolding pause_locked assert_can_pause pause
  pause_locked-Safe id owner_id = bind-Safe (require_owner_posting-Safe id owner_id) λ posting own.
      bind-Safe (throw_if-Any _ _) λ _ _. write_and_announce-Safe _ (
        change_posting-Safe id owner_id delete paused_row
          (λ t. record { id = λ p. refl; owner = λ p. refl }) own)

  unpause_locked-Safe : (id owner_id : ℕ) → Safe (Counted owner_of) (unpause_locked id owner_id) Any
  unfolding unpause_locked assert_can_unpause unpause
  unpause_locked-Safe id owner_id =
      bind-Safe (require_owner_posting-Safe id owner_id) λ posting own.
        bind-Safe (throw_if-Any _ _) λ _ _.
          bind-Safe
            (write_and_announce-Safe _ (
              change_posting-Safe id owner_id upsert unpaused_row
                (λ t. record { id = λ p. refl; owner = λ p. refl }) own))
            λ changed _. with_thumbnails-Safe changed

  perform-Safe :
      (c : StatusCall) (id owner_id : ℕ) → Safe (Counted owner_of) (perform c id owner_id) Any
  unfolding pause_posting unpause_posting archive_posting assert_can_pause assert_can_unpause
      assert_can_archive archive
  perform-Safe publishes id owner_id = publish_posting-Safe id owner_id
  perform-Safe pauses id owner_id =
      bind-Safe (require_owner_posting-Safe id owner_id) λ posting own.
        bind-Safe (throw_if-Any _ _)
          λ _ _. with_flow_locks-Safe Counted-IgnoresLocks _ _ (pause_locked-Safe id owner_id)
  perform-Safe unpauses id owner_id =
      bind-Safe (require_owner_posting-Safe id owner_id) λ posting own.
        bind-Safe (throw_if-Any _ _)
          λ _ _. with_flow_locks-Safe Counted-IgnoresLocks _ _ (unpause_locked-Safe id owner_id)
  perform-Safe archives id owner_id =
      bind-Safe (require_owner_posting-Safe id owner_id) λ posting own.
        bind-Safe (throw_if-Any _ _) λ _ _. write_and_announce-Safe _ (
          change_posting-Safe id owner_id delete archived_row
            (λ t. record { id = λ p. refl; owner = λ p. refl }) own)

-- Whoever publishes, pauses, unpauses or archives, the counts in every profile stay those of its owner's
-- postings, and no posting changes its owner, if every other request keeps both.
pub perform-Counted :
    (owner_of : ℕ → ℕ) (c : StatusCall) (id owner_id : ℕ) (w : World)
    → Steady (Counted owner_of) w
    → Counted owner_of (perform c id owner_id w).1.store
perform-Counted owner_of c id owner_id w steady =
    (safely (perform-Safe owner_of c id owner_id) w steady).0
