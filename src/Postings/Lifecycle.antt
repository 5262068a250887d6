-- ===== src/Postings/Lifecycle.antt =====
-- The states of a posting and the changes of them that the service allows.
pub mod Steps
pub mod Methods
use fit.Common.{ℕ, ◌≡◌, refl, true, false, not, Option, none, some, find}
use fit.Store.{PostingStatus, draft, published, paused, archived, Posting, Store}
use fit.Runtime.{Turn}
use fit.Runtime.Rely.{Stable}
use fit.Bookings.Validation.{is_published}
use fit.Postings.Repository.{has_posting_id, is_kept}
use fit.Postings.Service.{is_draft, is_paused, is_archived}
use fit.Postings.Counts.Methods.{StatusCall, publishes, pauses, unpauses, archives}

-- The changes of a status that the service allows.
pub data Transition : StatusCall → PostingStatus → PostingStatus → Type 0 where
  publishing : Transition publishes draft published
  pausing : Transition pauses published paused
  unpausing : Transition unpauses paused published
  archiving : {a : PostingStatus} → is_kept a ≡ true → Transition archives a archived

abbrev pub status_in : Option Posting → Option PostingStatus
status_in none = none
status_in (some p) = some p.status

-- The posting is in the store, with that status.
unfoldable pub HasStatus : (id : ℕ) → PostingStatus → Store → Type 0
HasStatus id a s = status_in (find (has_posting_id id) s.postings) ≡ some a

pub some-≡ : {A : Type 0} {a b : A} → some a ≡ some b → a ≡ b
some-≡ e = cc

pub none-≢ : {A : Type 0} {a : A} → none ≡ some a → ⊥
none-≢ e = cc

pub is_draft-≡ : (a : PostingStatus) → not (is_draft a) ≡ false → a ≡ draft
is_draft-≡ draft e = refl
is_draft-≡ published e = cc
is_draft-≡ paused e = cc
is_draft-≡ archived e = cc

pub is_published-≡ : (a : PostingStatus) → not (is_published a) ≡ false → a ≡ published
is_published-≡ draft e = cc
is_published-≡ published e = refl
is_published-≡ paused e = cc
is_published-≡ archived e = cc

pub is_paused-≡ : (a : PostingStatus) → not (is_paused a) ≡ false → a ≡ paused
is_paused-≡ draft e = cc
is_paused-≡ published e = cc
is_paused-≡ paused e = refl
is_paused-≡ archived e = cc

pub is_archived-is_kept : (a : PostingStatus) → is_archived a ≡ false → is_kept a ≡ true
is_archived-is_kept draft e = refl
is_archived-is_kept published e = refl
is_archived-is_kept paused e = refl
is_archived-is_kept archived e = cc

-- The other requests leave the status of the posting alone.
abbrev pub LeavesStatus : (id : ℕ) → (ℕ → Turn) → Type 0
LeavesStatus id turns = (a : PostingStatus) → Stable turns (HasStatus id a)
