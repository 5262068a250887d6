-- ===== src/Postings/Lifecycle/Methods.antt =====
-- Publish, pause, unpause and archive as moves of the state machine.
use fit.Common.{ℕ, ◌≡◌, refl, sym, ◌∙◌, Bool, true, false, List}
use mathlib.Core.Path.{subst}
use fit.Store.{PostingStatus, draft, published, paused, Posting, FlowKey, Store}
use fit.Store.Search.{upsert, delete}
use fit.Runtime.{Reason, Error, World, M, Turn, throw_if, ◌>>=◌}
use fit.Runtime.Rely.{Outcome, Goes, throw_if-Goes, known-Goes, bind-Goes}
use fit.Cache.Rely.{with_flow_locks-Goes}
use fit.Postings.Repository.{
  is_kept, published_row, archived_row, paused_row, unpaused_row, publish, archive, pause, unpause,
}
use fit.Postings.Service.{
  require_owner_posting, assert_can_publish, assert_can_pause, assert_can_unpause,
  assert_can_archive, publish_posting, pause_locked, pause_posting, unpause_locked, unpause_posting,
  archive_posting,
}
use fit.Postings.Counts.Methods.{StatusCall, publishes, pauses, unpauses, archives, perform}
use fit.Postings.Lifecycle.{
  Transition, publishing, pausing, unpausing, archiving, HasStatus, is_draft-≡, is_published-≡,
  is_paused-≡, is_archived-is_kept, LeavesStatus,
}
use fit.Postings.Lifecycle.Steps.{
  HasStatus-Lasts, Moved, Moved-Lasts, require_owner_posting-Goes, write_and_announce-Goes,
  with_thumbnails-Goes,
}
use fit.Cache.{with_flow_locks}

module _ (id owner_id : ℕ) (turns : ℕ → Turn) (leaves : LeavesStatus id turns) where
  -- A check of the status lets through the statuses that `P` says.
  check-Goes :
      {a : PostingStatus} (P : PostingStatus → Type 0) (b : Bool) (e : Error)
      → (b ≡ false → P a)
      → Goes turns (HasStatus id a) (throw_if b e) (λ _ s. P a × HasStatus id a s) (HasStatus id a)
  check-Goes P b e h = throw_if-Goes turns b e (λ s p. p) λ s ok_now p. (h ok_now, p)

  -- A check of something else.
  pass-Goes :
      (P fail : Store → Type 0)
      → ((s : Store) → P s → fail s)
      → (b : Bool) (e : Error) → Goes turns P (throw_if b e) (λ _. P) fail
  pass-Goes P fail h b e = throw_if-Goes turns b e h λ s ok_now p. p

  -- The owner's posting, with its status.
  owned-Goes {ℓ} :
      {A : Type ℓ} {a : PostingStatus} {m : Posting → M A} {post : A → Store → Type 0}
      → ((p : Posting) → p.status ≡ a → Goes turns (HasStatus id a) (m p) post (HasStatus id a))
      → Goes turns (HasStatus id a) (require_owner_posting id owner_id >>= m) post (HasStatus id a)
  owned-Goes {a} h =
      bind-Goes turns {mid = λ p s. (p.status ≡ a) × HasStatus id a s}
        (require_owner_posting-Goes id owner_id turns leaves a) λ p. known-Goes turns (h p)

  assert_can_publish-Goes :
      (a : PostingStatus) (p : Posting)
      → p.status ≡ a
      → Goes turns
          (HasStatus id a)
          (assert_can_publish p)
          (λ _ s. (a ≡ draft) × HasStatus id a s)
          (HasStatus id a)
  unfolding assert_can_publish
  assert_can_publish-Goes a p same =
      let Draft = λ (s : Store). (a ≡ draft) × HasStatus id a s in
      let pass = pass-Goes Draft (HasStatus id a) (λ s (e, h). h) in
      bind-Goes turns {mid = λ _. Draft}
        (check-Goes (λ x. x ≡ draft) _ _ λ e. sym same ∙ is_draft-≡ p.status e)
        λ _. bind-Goes turns {mid = λ _. Draft} (pass _ _) λ _.
          bind-Goes turns {mid = λ _. Draft} (pass _ _)
            λ _. bind-Goes turns {mid = λ _. Draft} (pass _ _) λ _. pass _ _

  publish_posting-Goes :
      (a : PostingStatus)
      → Goes turns
          (HasStatus id a)
          (publish_posting id owner_id)
          (λ _. Moved id publishes a)
          (HasStatus id a)
  unfolding publish_posting publish
  publish_posting-Goes a = owned-Goes λ p same.
      bind-Goes turns {mid = λ _ s. (a ≡ draft) × HasStatus id a s}
        (assert_can_publish-Goes a p same)
        λ _. known-Goes turns λ is_a.
          bind-Goes turns {mid = λ _. Moved id publishes a}
            (write_and_announce-Goes id owner_id turns leaves publishes upsert published_row
              (λ t p. refl) (λ t p. refl)
              (subst (λ x. Transition publishes x published) (sym is_a) publishing))
            λ q. with_thumbnails-Goes id owner_id turns leaves publishes a q

  pause_locked-Goes :
      (a : PostingStatus)
      → Goes turns
          (HasStatus id a)
          (pause_locked id owner_id)
          (λ _. Moved id pauses a)
          (HasStatus id a)
  unfolding pause_locked assert_can_pause pause
  pause_locked-Goes a = owned-Goes λ p same.
      bind-Goes turns {mid = λ _ s. (a ≡ published) × HasStatus id a s}
        (check-Goes (λ x. x ≡ published) _ _ λ e. sym same ∙ is_published-≡ p.status e)
        λ _. known-Goes turns λ is_a.
          write_and_announce-Goes id owner_id turns leaves pauses delete paused_row (λ t p. refl)
            (λ t p. refl) (subst (λ x. Transition pauses x paused) (sym is_a) pausing)

  unpause_locked-Goes :
      (a : PostingStatus)
      → Goes turns
          (HasStatus id a)
          (unpause_locked id owner_id)
          (λ _. Moved id unpauses a)
          (HasStatus id a)
  unfolding unpause_locked assert_can_unpause unpause
  unpause_locked-Goes a = owned-Goes λ p same.
      bind-Goes turns {mid = λ _ s. (a ≡ paused) × HasStatus id a s}
        (check-Goes (λ x. x ≡ paused) _ _ λ e. sym same ∙ is_paused-≡ p.status e)
        λ _. known-Goes turns λ is_a.
          bind-Goes turns {mid = λ _. Moved id unpauses a}
            (write_and_announce-Goes id owner_id turns leaves unpauses upsert unpaused_row
              (λ t p. refl) (λ t p. refl)
              (subst (λ x. Transition unpauses x published) (sym is_a) unpausing))
            λ q. with_thumbnails-Goes id owner_id turns leaves unpauses a q

  archive_posting-Goes :
      (a : PostingStatus)
      → Goes turns
          (HasStatus id a)
          (archive_posting id owner_id)
          (λ _. Moved id archives a)
          (HasStatus id a)
  unfolding archive_posting assert_can_archive archive
  archive_posting-Goes a = owned-Goes λ p same.
      bind-Goes turns {mid = λ _ s. (is_kept a ≡ true) × HasStatus id a s}
        (check-Goes (λ x. is_kept x ≡ true) _ _
          λ e. subst (λ x. is_kept x ≡ true) same (is_archived-is_kept p.status e))
        λ _. known-Goes turns λ kept.
          write_and_announce-Goes id owner_id turns leaves archives delete archived_row
            (λ t p. refl) (λ t p. refl) (archiving kept)

  -- Under the lock of the booking window.
  locked-Goes :
      (c : StatusCall) (a : PostingStatus) (ks : List FlowKey) (r : Reason) {m : M Posting}
      → Goes turns (HasStatus id a) m (λ _. Moved id c a) (HasStatus id a)
      → Goes turns (HasStatus id a) (with_flow_locks ks m r) (λ _. Moved id c a) (HasStatus id a)
  locked-Goes c a ks r h =
      with_flow_locks-Goes turns (HasStatus-Lasts id owner_id turns leaves a)
        (λ _. Moved-Lasts id owner_id turns leaves c a) (HasStatus-Lasts id owner_id turns leaves a)
        (λ s p. p) ks r h

  perform-Goes :
      (c : StatusCall) (a : PostingStatus)
      → Goes turns (HasStatus id a) (perform c id owner_id) (λ _. Moved id c a) (HasStatus id a)
  unfolding pause_posting unpause_posting assert_can_pause assert_can_unpause
  perform-Goes publishes a = publish_posting-Goes a
  perform-Goes pauses a = owned-Goes λ p same.
      bind-Goes turns {mid = λ _. HasStatus id a} (pass-Goes _ _ (λ s h. h) _ _)
        λ _. locked-Goes pauses a _ _ (pause_locked-Goes a)
  perform-Goes unpauses a = owned-Goes λ p same.
      bind-Goes turns {mid = λ _. HasStatus id a} (pass-Goes _ _ (λ s h. h) _ _)
        λ _. locked-Goes unpauses a _ _ (unpause_locked-Goes a)
  perform-Goes archives a = archive_posting-Goes a

-- Publish, pause, unpause and archive move a posting as its states allow: a call that returns has moved the
-- status from what it was to the one that the machine has for it, and a call that throws leaves the status,
-- if no other request changes it meanwhile.
pub perform-Transition :
    (c : StatusCall) (id owner_id : ℕ) (a : PostingStatus) (w : World)
    → LeavesStatus id w.turns
    → HasStatus id a w.store
    → Outcome
        (λ p s. (b : PostingStatus) × (Transition c a b × HasStatus id b s))
        (HasStatus id a)
        (perform c id owner_id w).0
        (perform c id owner_id w).1.store
unfolding Moved
perform-Transition c id owner_id a w leaves h =
    ((perform-Goes id owner_id w.turns leaves c a).at w refl h).1
