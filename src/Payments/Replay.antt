-- ===== src/Payments/Replay.antt =====
-- A webhook that the provider delivers again.
use mathlib.Core.Path.{subst}
use fit.Common.{
  ℕ, ◌+◌, ◌≡◌, refl, ap, ◌∙◌, Bool, true, false, not, Option, none, some, find, any, arith, List,
  [], ◌∷◌, if◌then◌else◌, Bool-cases, inl, inr,
}
use fit.Common.Text.{Text}
use fit.Common.Rows.{find-update}
use fit.Store.{Store}
use fit.Store.Payments.{WebhookEvent}
use fit.Runtime.{
  Error, Result, ok, err, World, M, enter, visit, pure, throw, throw_if, record_missing, continue,
  ◌>>=◌, ◌>>◌,
}
use fit.Runtime.Transaction.{query}
use fit.Base.Once.{Alone}
use fit.Payments.Webhooks.{has_event_id, was_processed, find_event, mark_webhook_processed}
use fit.Payments.Queries.{find_by_square_references, upsert_webhook_event, create_unless_found}
use fit.Payments.Service.{WebhookDelivery}
use fit.Payments.Settlement.{id_of, process_square_webhook}

err_is_ok :
    {B : Type 0} (x : Error) (b : B) (w w' : World)
    → ◌≡◌ {A = Result B × World} (err x, w) (ok b, w')
    → ⊥
err_is_ok x b w w' e = let same : err x ≡ ok b = ap (λ r. r.0) e in cc

-- The parts of a run that has returned.
bind-ok :
    {A B : Type 0} (m : M A) (f : A → M B) (w w' : World) (b : B)
    → (m >>= f) w ≡ (ok b, w')
    → (a : A) × (w1 : World) × (m w ≡ (ok a, w1)) × (f a w1 ≡ (ok b, w'))
unfolding ◌>>=◌
bind-ok {A} {B} m f w w' b e = go (m w) refl e
  where
    go :
        (x : Result A × World)
        → m w ≡ x
        → continue x.0 f x.1 ≡ (ok b, w')
        → (a : A) × (w1 : World) × (m w ≡ (ok a, w1)) × (f a w1 ≡ (ok b, w'))
    go (ok a, w1) h e = (a, w1, h, e)
    go (err x, w1) h e = absurd (err_is_ok x b w1 w' e)

throw_if-ok :
    (b : Bool) (x : Error) (w w' : World) → throw_if b x w ≡ (ok tt, w') → (b ≡ false) × (w ≡ w')
unfolding throw_if throw pure
throw_if-ok true x w w' e = absurd (err_is_ok x tt w w' e)
throw_if-ok false x w w' e = (refl, ap (λ r. r.1) e)

-- The event is in the store, and has been processed.
abbrev Processed : (event_id : ℕ) → Store → Type 0
Processed id s =
    (e : WebhookEvent) × (find (has_event_id id) s.accounts.webhook_events ≡ some e)
    × (was_processed e ≡ true)

any_found :
    {A : Type 0} (p : A → Bool) (xs : List A) → any p xs ≡ true → (x : A) × (find p xs ≡ some x)
unfolding any find
any_found p [] e = absurd cc
any_found p (x ∷ xs) e = elim (Bool-cases (p x)) [
  | inl hit ↦ (x, rw hit refl)
  | inr miss ↦ let (y, found) = any_found p xs (rw miss at e) in (y, rw miss found)
]

mark-Processed :
    (id : ℕ) (w w' : World)
    → visit (mark_webhook_processed id) w ≡ (ok tt, w')
    → Processed id w'.store
unfolding visit mark_webhook_processed
mark-Processed id w w' e =
    let events = (enter w).accounts.webhook_events in
    elim (Bool-cases (any (has_event_id id) events)) [
      | inr missing ↦ absurd (err_is_ok record_missing tt _ w' (rw missing at e))
      | inl there ↦
          let (found, is) = any_found (has_event_id id) events there in
          subst (Processed id) (ap (λ r. r.1.store) (rw there at e))
            (_, find-update (has_event_id id) _ (λ x hit. hit) events found is, refl)
    ]

ok-injective : {A : Type 0} {a b : A} → ok a ≡ ok b → a ≡ b
ok-injective e = cc

not_true : ok false ≡ ok true → ⊥
not_true e = cc

upsert-Processed :
    (id : ℕ) (event_type : Text) (valid : Bool) (payment_id : Option ℕ) (w w' : World)
    → upsert_webhook_event id event_type valid payment_id w ≡ (ok true, w')
    → Processed id w'.store
unfolding upsert_webhook_event create_unless_found find_event visit query pure
upsert-Processed id event_type valid payment_id w w' e =
    let (found, w1, h1, e1) = bind-ok _ _ w w' true e in
    looked found w1 (ok-injective (ap (λ r. r.0) h1)) (ap (λ r. r.1.store) h1) e1
  where
    looked :
        (o : Option WebhookEvent) (w1 : World)
        → find (has_event_id id) (enter w).accounts.webhook_events ≡ o
        → enter w ≡ w1.store
        → create_unless_found id event_type valid payment_id o w1 ≡ (ok true, w')
        → Processed id w'.store
    looked none w1 f same e =
        let (u, w2, h2, e2) = bind-ok _ _ w1 w' true e in absurd (not_true (ap (λ r. r.0) e2))
    looked (some x) w1 f same e =
        subst (Processed id) (same ∙ ap (λ r. r.1.store) e) (x, f, ok-injective (ap (λ r. r.0) e))

rest :
    (event : WebhookDelivery) (payment_id : Option ℕ) (settle : M (Unit {0})) (already : Bool)
    (w1 w2 w3 w' : World)
    → upsert_webhook_event event.event_id event.event_type event.is_valid payment_id w1
      ≡ (ok already, w2)
    → w2 ≡ w3
    → (if already then pure tt else (settle >> visit (mark_webhook_processed event.event_id))) w3
      ≡ (ok tt, w')
    → Processed event.event_id w'.store
unfolding pure
rest event payment_id settle true w1 w2 w3 w' h same e =
    subst (Processed event.event_id) (ap (λ w. w.store) (same ∙ ap (λ r. r.1) e))
      (upsert-Processed event.event_id event.event_type event.is_valid payment_id w1 w2 h)
rest event payment_id settle false w1 w2 w3 w' h same e =
    let (u, w4, h4, e4) = bind-ok _ _ w3 w' tt e in mark-Processed event.event_id w4 w' e4

-- A delivery that has returned leaves its event processed.
process-Processed :
    (canceled_message failed_message : Text) (event : WebhookDelivery) (w w' : World)
    → process_square_webhook canceled_message failed_message event w ≡ (ok tt, w')
    → (event.is_valid ≡ true) × Processed event.event_id w'.store
unfolding process_square_webhook
process-Processed canceled_message failed_message event w w' e =
    let (payment, w1, h1, e1) = bind-ok _ _ w w' tt e in
    let (already, w2, h2, e2) = bind-ok _ _ w1 w' tt e1 in
    let (u, w3, h3, e3) = bind-ok _ _ w2 w' tt e2 in
    let (valid, same) = throw_if-ok (not event.is_valid) _ w2 w3 h3 in
    (ground arith, rest event (id_of payment) _ already w1 w2 w3 w' h2 same e3)

again :
    (canceled_message failed_message : Text) (event : WebhookDelivery) (e : WebhookEvent)
    (w : World)
    → Alone w
    → event.is_valid ≡ true
    → find (has_event_id event.event_id) w.store.accounts.webhook_events ≡ some e
    → was_processed e ≡ true
    → ((process_square_webhook canceled_message failed_message event w).0 ≡ ok tt)
      × ((process_square_webhook canceled_message failed_message event w).1.store ≡ w.store)
unfolding process_square_webhook upsert_webhook_event create_unless_found find_event
    find_by_square_references ◌>>=◌ visit query throw_if pure
again canceled_message failed_message event e w alone valid found processed =
    let here : (w.turns (w.moment + 1)).others ((w.turns w.moment).others w.store) ≡ w.store =
      alone (w.moment + 1) _ ∙ alone w.moment w.store in
    rw (here, found, processed, valid) (refl, refl)

-- If a delivery of an event has returned, then while nobody else writes a second delivery of it
-- returns and changes nothing.
pub process_square_webhook-again :
    (canceled_message failed_message : Text) (event : WebhookDelivery) (w w' : World)
    → process_square_webhook canceled_message failed_message event w ≡ (ok tt, w')
    → Alone w'
    → ((process_square_webhook canceled_message failed_message event w').0 ≡ ok tt)
      × ((process_square_webhook canceled_message failed_message event w').1.store ≡ w'.store)
process_square_webhook-again canceled_message failed_message event w w' done alone =
    let (valid, (e, found, processed)) =
      process-Processed canceled_message failed_message event w w' done in
    again canceled_message failed_message event e w' alone valid found processed
