-- ===== src/Search/Relayed.antt =====
-- The methods of backend/src/app/features/postings/postings.repository.ts that end a claim on rows of the
-- search outbox, and the one that revives dead letters.
use fit.Common.{
  ℕ, Bool, true, false, ◌&&◌, ◌||◌, Option, none, some, List, [], ◌∷◌, ltb, leb, ◌==◌, is_none,
  is_some, if◌then◌else◌, length, take, select,
}
use fit.Common.Text.{Text}
use fit.Store.Search.{OutboxOperation, upsert, delete, barrier, SearchOutbox}
use fit.Runtime.{Turn, Visit, transaction}
use fit.Runtime.Transaction.{give, query, ◌>>=◌, ◌>>◌}
use fit.Search.Outbox.{is_among, ids_of, update_entry, update_entries}

-- `const now = new Date()` comes before the update.
abbrev pub relayed_row : Option ℕ → Turn → SearchOutbox → SearchOutbox
relayed_row broker_message_id t e = record e {
  processed_at = some t.now;
  processing_at = none;
  broker_message_id = broker_message_id;
  last_error = none;
}

abbrev pub superseded_row : Option ℕ → Turn → SearchOutbox → SearchOutbox
superseded_row broker_message_id t e = record (relayed_row broker_message_id t e) {
  indexed_at = some t.now;
}

unfoldable pub mark_search_outbox_relayed :
    (id : ℕ) (superseded_ids : List ℕ) → Option ℕ → Visit (Unit {0})
unfolding update_entry update_entries
mark_search_outbox_relayed id superseded_ids broker_message_id = transaction (do
  update_entry id (relayed_row broker_message_id)
  update_entries (is_among superseded_ids) (superseded_row broker_message_id))

abbrev pub is_releasable : List ℕ → SearchOutbox → Bool
is_releasable ids e = is_among ids e && is_none e.indexed_at && is_none e.dead_lettered_at

abbrev pub released_row : Text → Turn → SearchOutbox → SearchOutbox
released_row message t e = record e { processing_at = none; last_error = some (take 2048 message) }

-- releaseSearchOutboxClaims, with the message that every caller gives.
unfoldable pub release_search_outbox_claims : (ids : List ℕ) → Text → Visit (Unit {0})
unfolding update_entries
release_search_outbox_claims ids message = update_entries (is_releasable ids) (released_row message)

abbrev is_change : OutboxOperation → Bool
is_change upsert = true
is_change delete = true
is_change barrier = false

abbrev pub is_dead : SearchOutbox → Bool
is_dead e = is_some e.dead_lettered_at && is_change e.operation

-- `orderBy: [{ deadLetteredAt: "asc" }, { createdAt: "asc" }]` of rows that are dead letters.
abbrev pub died_before : (deadlettered created : ℕ) → Option ℕ → (created_at : ℕ) → Bool
died_before died created none created_at = true
died_before died created (some dead_lettered_at) created_at =
    ltb died dead_lettered_at || (died == dead_lettered_at && leb created created_at)

abbrev pub dies_first : SearchOutbox → SearchOutbox → Bool
dies_first d e = first d.dead_lettered_at
  where
    first : Option ℕ → Bool
    first none = false
    first (some died) = died_before died d.created_at e.dead_lettered_at e.created_at

abbrev pub insert_dead : SearchOutbox → List SearchOutbox → List SearchOutbox
insert_dead e [] = e ∷ []
insert_dead e (d ∷ ds) =
    let rest = insert_dead e ds in if dies_first e d then e ∷ d ∷ ds else d ∷ rest

unfoldable pub sort_dead : List SearchOutbox → List SearchOutbox
sort_dead [] = []
sort_dead (e ∷ es) = insert_dead e (sort_dead es)

abbrev pub revived_row : Turn → SearchOutbox → SearchOutbox
revived_row t e = record e {
  dead_lettered_at = none;
  processed_at = none;
  indexed_at = none;
  processing_at = none;
  broker_message_id = none;
  last_error = none;
  attempts = 0;
  publish_attempts = 0;
  available_at = t.later;
}

-- `limit <= 0` takes no row.
unfoldable pub revive_dead_lettered_search_outbox : (limit : ℕ) → Visit ℕ
unfolding sort_dead update_entries
revive_dead_lettered_search_outbox limit = transaction (do
  ids ← query λ t s. ids_of (take limit (sort_dead (select is_dead s.outbox)))
  update_entries (is_among ids) revived_row
  give (length ids))
