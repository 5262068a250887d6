-- ===== src/Search/Relay/Batch.antt =====
-- A batch of the relay leaves no claim of its own behind, whatever the broker does.
use fit.Common.{
  ℕ, zero, suc, ◌+◌, ◌≡◌, refl, sym, ◌∙◌, inl, inr, Bool, true, false, ◌||◌, Option, none, some,
  List, [], ◌∷◌, ◌++◌, arith, leb, ◌==◌, any, All, is_none, is_some, ◌&&◌, ap, Bool-cases,
}
use fit.Common.Text.{Text}
use mathlib.Core.Bool.{or_comm}
use mathlib.Core.List.{append-nil}
use mathlib.Core.Path.{subst}
use fit.Store.{Store}
use fit.Store.Search.{SearchOutbox}
use fit.Runtime.{ok, Turn, World, visit, transaction}
use fit.Runtime.Transaction.{write}
use fit.Runtime.Transaction as Body
use fit.Search.Outbox.{
  has_entry_id, is_among, ids_of, update_entry, update_entries, retry_row, dead_row,
  mark_search_outbox_publish_retry, mark_search_outbox_dead_lettered,
}
use fit.Search.Relayed.{
  relayed_row, superseded_row, mark_search_outbox_relayed, is_releasable, released_row,
  release_search_outbox_claims,
}
use fit.Search.Relay.{
  Broker, to_index_job, IndexJob, RelayJob, unknown_relay_error, publish_from, record_failure,
  record_success, record_outcome, relay, relay_all, coalesce_relay_jobs,
}
use fit.Search.Relay.Cover.{any-append, or_left_comm, covers, covers-coalesce_relay_jobs}
use fit.Search.Relay.Settled.{
  is_settled, Settled, SettledRow, update-Settled, Settled-weaken, Calm, Ends, Settles, Left,
  pure-Settles, visit-Ends, bind-Ends, then-pure-Ends, bind-Settles, catch-Settles,
  visit-catch-Settles, if-Ends,
}

missing-Settled :
    (id : ℕ) (ids : List ℕ) (es : List SearchOutbox)
    → any (has_entry_id id) es ≡ false
    → All (SettledRow ids) es
    → All (SettledRow (id ∷ ids)) es
unfolding any
missing-Settled id ids [] none_here h = tt
missing-Settled id ids (e ∷ es) none_here (h, hs) =
    (λ among. h (ground arith), missing-Settled id ids es (ground arith) hs)

-- An update of one row: where there is none under the id, none has to be settled.
update_entry-Settled :
    (id : ℕ) (f : Turn → SearchOutbox → SearchOutbox)
    → ((t : Turn) (e : SearchOutbox) → is_settled (f t e) ≡ true)
    → (ids : List ℕ) (t : Turn) (s : Store) → Settled ids s
    → Settled (id ∷ ids) (update_entry id f t s).1
unfolding update_entry any Settled
update_entry-Settled id f settles ids t s h = elim (Bool-cases (any (has_entry_id id) s.outbox)) [
  | inl found ↦ rw found (
      update-Settled (has_entry_id id) (f t) (id ∷ []) ids (settles t)
        (λ e miss among. absurd (ground arith)) s h)
  | inr missing ↦ rw missing (missing-Settled id ids s.outbox missing h)
]

kept_claim :
    (indexed_at dead_lettered_at : Option ℕ) (free among : Bool)
    → (among && is_none indexed_at && is_none dead_lettered_at) ≡ false
    → among ≡ true
    → (free || (is_some indexed_at || is_some dead_lettered_at)) ≡ true
kept_claim indexed_at dead_lettered_at true among miss h = refl
kept_claim (some i) dead_lettered_at false among miss h = refl
kept_claim none (some d) false among miss h = refl
kept_claim none none false true miss h = cc
kept_claim none none false false miss h = cc

release-Settled :
    (new : List ℕ) (message : Text) (ids : List ℕ) (t : Turn) (s : Store)
    → Settled ids s
    → Settled (new ++ ids) (release_search_outbox_claims new message t s).1
unfolding release_search_outbox_claims update_entries write
release-Settled new message ids t s h =
    update-Settled (is_releasable new) (released_row message t) new ids (λ e. refl)
      (λ e miss among.
        kept_claim e.indexed_at e.dead_lettered_at (is_none e.processing_at) (is_among new e) miss
          among)
      s h

release-Settles :
    (new : List ℕ) (message : Text) → Settles new (visit (release_search_outbox_claims new message))
unfolding release_search_outbox_claims update_entries write visit
release-Settles new message = record {
  ends = visit-Ends new (release_search_outbox_claims new message) (release-Settled new message);
  returns = λ w. (tt, refl);
}

-- The rows of a relay job.
abbrev pub rows_of_job : RelayJob → List ℕ
rows_of_job g = g.primary.id ∷ g.superseded_ids

superseded_last :
    (id : ℕ) (superseded ids : List ℕ) (e : SearchOutbox)
    → is_among (id ∷ superseded ++ ids) e ≡ true
    → is_among (superseded ++ id ∷ ids) e ≡ true
unfolding any
superseded_last id superseded ids e among =
    let p = λ (i : ℕ). i == e.id in
    any-append p superseded (id ∷ ids)
    ∙ (or_left_comm (any p superseded) (p id) (any p ids)
        ∙ (sym (ap (λ b. p id || b) (any-append p superseded ids)) ∙ among))

relayed-Left :
    (g : RelayJob) (broker_message_id : Option ℕ) (ids : List ℕ) (t : Turn) (s : Store)
    → Settled ids s
    → Left
        (rows_of_job g)
        ids
        (mark_search_outbox_relayed g.primary.id g.superseded_ids broker_message_id t s)
unfolding mark_search_outbox_relayed transaction Body.◌>>=◌ update_entry update_entries write any
relayed-Left g broker_message_id ids t s h =
    elim (Bool-cases (any (has_entry_id g.primary.id) s.outbox)) [
      | inl found ↦ rw found (
          Settled-weaken (g.superseded_ids ++ g.primary.id ∷ ids) (rows_of_job g ++ ids)
            (superseded_last g.primary.id g.superseded_ids ids) _
            (update-Settled (is_among g.superseded_ids) (superseded_row broker_message_id t)
              g.superseded_ids (g.primary.id ∷ ids) (λ e. refl)
              (λ e miss among. absurd (ground arith)) _
              (update-Settled (has_entry_id g.primary.id) (relayed_row broker_message_id t)
                (g.primary.id ∷ []) ids (λ e. refl) (λ e miss among. absurd (ground arith)) s h)))
      | inr missing ↦ rw missing h
    ]

abbrev rows_of_jobs : List RelayJob → List ℕ
rows_of_jobs [] = []
rows_of_jobs (g ∷ gs) = rows_of_jobs gs ++ rows_of_job g

any-rows_of_jobs :
    (id : ℕ) (gs : List RelayJob) → any (λ i. i == id) (rows_of_jobs gs) ≡ any (covers id) gs
unfolding any
any-rows_of_jobs id [] = refl
any-rows_of_jobs id (g ∷ gs) =
    any-append (λ i. i == id) (rows_of_jobs gs) (rows_of_job g)
    ∙ rw (any-rows_of_jobs id gs) (or_comm (any (covers id) gs) (covers id g))

module _ (broker : Broker) where
  record_success-Settles : (g : RelayJob) → Settles (rows_of_job g) (record_success broker g)
  unfolding record_success
  record_success-Settles g =
      visit-catch-Settles (rows_of_job g)
        (mark_search_outbox_relayed g.primary.id g.superseded_ids (some g.primary.id)) _
        (relayed-Left g (some g.primary.id))
        (λ e. release-Settles (rows_of_job g) (broker.message_of e))

  record_failure-Settles :
      (max_publish_attempts : ℕ) (g : RelayJob) (message : Text)
      → Settles (rows_of_job g) (record_failure broker max_publish_attempts g message)
  unfolding record_failure mark_search_outbox_dead_lettered mark_search_outbox_publish_retry
  record_failure-Settles max_publish_attempts g message =
      catch-Settles (rows_of_job g)
        (bind-Ends g.superseded_ids (g.primary.id ∷ []) (release-Settles g.superseded_ids message)
          (λ _.
            if-Ends (leb max_publish_attempts (g.primary.publish_attempts + 1)) (g.primary.id ∷ [])
              (visit-Ends (g.primary.id ∷ [])
                (mark_search_outbox_dead_lettered g.primary.id message)
                (update_entry-Settled g.primary.id (dead_row message) (λ t e. refl)))
              (visit-Ends (g.primary.id ∷ [])
                (mark_search_outbox_publish_retry g.primary.id (g.primary.publish_attempts + 1)
                  message)
                (update_entry-Settled g.primary.id
                  (retry_row (g.primary.publish_attempts + 1) message) (λ t e. refl)))))
        (λ e. pure-Settles tt)

  module _ (quiet : (job : IndexJob) → Ends [] (broker.publish_index_job job)) where
    publish_from-Settles :
        (rounds : ℕ) (error : Text) (job : SearchOutbox)
        → Settles [] (publish_from broker rounds error job)
    unfolding publish_from
    publish_from-Settles zero error job = pure-Settles (some error)
    publish_from-Settles (suc rounds) error job =
        catch-Settles [] (then-pure-Ends none [] (quiet (to_index_job job)))
          (λ e. publish_from-Settles rounds (broker.message_of e) job)

    record_outcome-Settles :
        (max_publish_attempts : ℕ) (g : RelayJob) (o : Option Text)
        → Settles (rows_of_job g) (record_outcome broker max_publish_attempts g o)
    record_outcome-Settles max_publish_attempts g none = record_success-Settles g
    record_outcome-Settles max_publish_attempts g (some message) =
        record_failure-Settles max_publish_attempts g message

    relay-Settles :
        (max_publish_attempts : ℕ) (g : RelayJob)
        → Settles (rows_of_job g) (relay broker max_publish_attempts g)
    unfolding relay
    relay-Settles max_publish_attempts g =
        subst (λ ids. Settles ids (relay broker max_publish_attempts g))
          (append-nil (rows_of_job g))
          (bind-Settles [] (rows_of_job g) (publish_from-Settles 3 unknown_relay_error g.primary)
            (record_outcome-Settles max_publish_attempts g))

    relay_all-Settles :
        (max_publish_attempts : ℕ) (gs : List RelayJob)
        → Settles (rows_of_jobs gs) (relay_all broker max_publish_attempts gs)
    unfolding relay_all
    relay_all-Settles max_publish_attempts [] = pure-Settles tt
    relay_all-Settles max_publish_attempts (g ∷ gs) =
        bind-Settles (rows_of_job g) (rows_of_jobs gs) (relay-Settles max_publish_attempts g)
          (λ _. relay_all-Settles max_publish_attempts gs)

-- Among others that claim no settled row, and with a broker that may fail but claims no row, the relay of
-- a batch returns, and no row of the batch is left claimed, unless it is indexed or a dead letter.
pub relay_all-Settled :
    (broker : Broker)
    → ((job : IndexJob) → Ends [] (broker.publish_index_job job))
    → (max_publish_attempts : ℕ) (jobs : List SearchOutbox) (w : World) → Calm [] w
    → let after = relay_all broker max_publish_attempts (coalesce_relay_jobs jobs) w in
      (after.0 ≡ ok tt) × Settled (ids_of jobs) after.1.store
relay_all-Settled broker quiet max_publish_attempts jobs w calm =
    let gs = coalesce_relay_jobs jobs in
    let all = relay_all-Settles broker quiet max_publish_attempts gs in
    (
      (all.returns w).1,
      Settled-weaken (rows_of_jobs gs ++ []) (ids_of jobs)
          (λ e among.
            rw (append-nil (rows_of_jobs gs))
              (any-rows_of_jobs e.id gs ∙ (covers-coalesce_relay_jobs jobs e.id ∙ among)))
          _ (all.ends.at [] w calm).here,
    )
