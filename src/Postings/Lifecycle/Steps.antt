-- ===== src/Postings/Lifecycle/Steps.antt =====
-- What the parts of the methods do to the status of a posting.
use fit.Common.{ℕ, ◌≡◌, refl, ap, ◌∙◌, inl, inr, some, find, Option-cases}
use fit.Common.Rows.{find-update}
use mathlib.Core.Path.{subst}
use fit.Store.{PostingStatus, Posting, Message, Store}
use fit.Store.Search.{OutboxOperation}
use fit.Runtime.{Turn, visit, transaction}
use fit.Runtime.Transaction.{write, give, ◌>>=◌}
use fit.Runtime.Rely.{
  Goes, pure-Goes, visit-Goes, throw_if-Goes, require-Goes, require_some-Goes, known-Goes,
  bind-Goes,
}
use fit.Cache.Rely.{Lasts}
use fit.Bookings.Messages.{send}
use fit.Bookings.Validation.{find_posting}
use fit.Search.Enqueue.{enqueue_outbox}
use fit.Postings.Repository.{
  has_posting_id, find_posting_row, sync_owner_posting_counts, change_found, change_posting,
}
use fit.Postings.Service.{require_owner_posting, write_and_announce, with_thumbnails}
use fit.Postings.Counts.Methods.{StatusCall}
use fit.Postings.Lifecycle.{Transition, status_in, HasStatus, some-≡, none-≢, LeavesStatus}

-- The status after a call that returns: the machine has moved.
unfoldable pub Moved : (id : ℕ) → StatusCall → PostingStatus → Store → Type 0
Moved id c a s = (b : PostingStatus) × (Transition c a b × HasStatus id b s)

module _ (id owner_id : ℕ) (turns : ℕ → Turn) (leaves : LeavesStatus id turns) where
  pub HasStatus-Lasts : (a : PostingStatus) → Lasts turns (HasStatus id a)
  unfolding HasStatus
  HasStatus-Lasts a = record { free = λ s ls h. h; stable = leaves a }

  send-Goes :
      (message : Turn → Message) (a : PostingStatus) (fail : Store → Type 0)
      → Goes turns (HasStatus id a) (send message) (λ _. HasStatus id a) fail
  unfolding send HasStatus
  send-Goes message a fail = visit-Goes turns _ (leaves a) λ t s h. h

  pub require_owner_posting-Goes :
      (a : PostingStatus)
      → Goes turns
          (HasStatus id a)
          (require_owner_posting id owner_id)
          (λ p s. (p.status ≡ a) × HasStatus id a s)
          (HasStatus id a)
  unfolding require_owner_posting find_posting HasStatus
  require_owner_posting-Goes a =
      bind-Goes turns {mid = λ found s. (status_in found ≡ some a) × HasStatus id a s}
        (visit-Goes turns _ (leaves a) λ t s h. (h, h))
        λ found. known-Goes turns λ is_a.
          bind-Goes turns {mid = λ p s. (p.status ≡ a) × HasStatus id a s}
            (require-Goes turns found _ (λ s h. h)
              λ p s e h. (some-≡ (subst (λ o. status_in o ≡ some a) e is_a), h))
            λ p. known-Goes turns λ same.
              bind-Goes turns {mid = λ _. HasStatus id a}
                (throw_if-Goes turns _ _ (λ s h. h) λ s e h. h)
                λ _. pure-Goes turns p λ s h. (same, h)

  -- The write, on the row that is there.
  change_posting-Goes :
      (a b : PostingStatus) (operation : OutboxOperation) (f : Turn → Posting → Posting)
      (fail : Store → Type 0)
      → ((t : Turn) (p : Posting) → (f t p).id ≡ p.id)
      → ((t : Turn) (p : Posting) → (f t p).status ≡ b)
      → Goes turns
          (HasStatus id a)
          (visit (change_posting id owner_id operation f))
          (λ o s. ((p : Posting) × (o ≡ some p)) × HasStatus id b s)
          fail
  unfolding change_posting find_posting_row change_found transaction ◌>>=◌ write give enqueue_outbox
      sync_owner_posting_counts HasStatus
  change_posting-Goes a b operation f fail same_id to_b = visit-Goes turns _ (leaves a) λ t s h.
      elim (Option-cases (find (has_posting_id id) s.postings)) [
        | inl missing ↦ absurd (none-≢ (subst (λ o. status_in o ≡ some a) missing h))
        | inr (p, found) ↦ rw found (
          (f t p, refl),
          ap status_in (
                find-update (has_posting_id id) (f t) (λ x hit. rw (same_id t x) hit) s.postings p
                  found)
              ∙ ap some (to_b t p),
        )
      ]

  pub Moved-Lasts : (c : StatusCall) (a : PostingStatus) → Lasts turns (Moved id c a)
  unfolding Moved
  Moved-Lasts c a = record {
    free = λ s ls (b, (r, h)). (b, (r, (HasStatus-Lasts b).free s ls h));
    stable = λ i s (b, (r, h)). (b, (r, leaves b i s h));
  }

  pub write_and_announce-Goes :
      (c : StatusCall) {a b : PostingStatus} (operation : OutboxOperation)
      (f : Turn → Posting → Posting)
      → ((t : Turn) (p : Posting) → (f t p).id ≡ p.id)
      → ((t : Turn) (p : Posting) → (f t p).status ≡ b)
      → Transition c a b
      → Goes turns
          (HasStatus id a)
          (write_and_announce (change_posting id owner_id operation f))
          (λ _. Moved id c a)
          (HasStatus id a)
  unfolding write_and_announce Moved
  write_and_announce-Goes c {a} {b} operation f same_id to_b moves =
      bind-Goes turns {mid = λ o s. ((p : Posting) × (o ≡ some p)) × HasStatus id b s}
        (change_posting-Goes a b operation f (HasStatus id a) same_id to_b)
        λ o. known-Goes turns λ (p, e). rw e (
          bind-Goes turns {mid = λ q. HasStatus id b} (require_some-Goes turns p _) λ q.
            bind-Goes turns {mid = λ _. HasStatus id b} (send-Goes _ b (HasStatus id a))
              λ _. pure-Goes turns q λ s h. (b, (moves, h)))

  pub with_thumbnails-Goes :
      (c : StatusCall) (a : PostingStatus) (p : Posting)
      → Goes turns (Moved id c a) (with_thumbnails p) (λ _. Moved id c a) (HasStatus id a)
  unfolding with_thumbnails send Moved HasStatus
  with_thumbnails-Goes c a p =
      bind-Goes turns {mid = λ _. Moved id c a}
        (visit-Goes turns _ (Moved-Lasts c a).stable λ t s h. h) λ _. pure-Goes turns p λ s h. h
