-- ===== src/Payments/Repeats.antt =====
-- Calls of payments.repository.ts that are made again: a refund with the same key, a payout that has
-- been released.
use fit.Common.{
  ℕ, ◌≡◌, refl, Option-cases, sym, ap, ◌∙◌, inl, inr, true, false, ◌&&◌, Option, none, some, arith,
  ltb, ◌==◌, any, find, update, Bool-cases,
}
use fit.Common.Rows.{find-true, find-update}
use fit.Store.{Store}
use fit.Store.Payments.{Payment, Refund, Payout}
use mathlib.Core.Path.{subst}
use fit.Runtime.{
  bad_request, not_found, payment_not_found, payment_not_linked, record_missing, Error, Result, ok,
  err, Turn, transaction,
}
use fit.Runtime.Transaction.{give, ◌>>=◌}
use fit.Payments.Model.{CreateRefundInput}
use fit.Payments.Rows.{
  update_payout, create_ledger_entry, has_payment_id, has_payout_id, find_payment,
}
use fit.Payments.Payouts.{is_scheduled, released_payout, release_found, mark_payout_released}
use fit.Payments.Refunds.{
  RefundTicket, new_refund, find_refund, refund_again_or_new, create_refund_record,
}

-- What is found of the payment decides the rest.
create_refund_record-found :
    (input : CreateRefundInput) (key : ℕ) (p : Payment) (provider_id : ℕ) (t : Turn) (s : Store)
    → find_payment input.payment_id s ≡ some p
    → p.square_payment_id ≡ some provider_id
    → create_refund_record input key t s
      ≡ transaction (refund_again_or_new input key p provider_id (find_refund p.id key s)) t s
unfolding create_refund_record transaction ◌>>=◌ find
create_refund_record-found input key p provider_id t s found linked = rw (found, linked) refl

-- A call does not both fail and succeed.
ok_or_err :
    {A : Type 0} (r : Result A × Store) (e : Error) (a : A) (s s' : Store)
    → r ≡ (err e, s)
    → r ≡ (ok a, s')
    → ⊥
ok_or_err r e a s s' failed done = let same : err e ≡ ok a = ap (λ x. x.0) (sym failed ∙ done) in cc

ticket_of : Payment → (provider_id : ℕ) → Refund → RefundTicket
ticket_of p provider_id r = record {
  refund_id = r.id;
  payment_id = p.id;
  provider_payment_id = provider_id;
  pricing_currency = p.pricing_currency;
}

-- A refund that a call has found or has written is there after it.
record Ticketed (input : CreateRefundInput) (key : ℕ) (p : Payment) (provider_id : ℕ)
    (ticket : RefundTicket) (s' : Store) : Type 0 where
  refund : Refund
  found : find_refund p.id key s' ≡ some refund
  given : ticket ≡ ticket_of p provider_id refund

module _ (input : CreateRefundInput) (key : ℕ) (p : Payment) (provider_id : ℕ) where
  Recorded : Store → Result RefundTicket × Store → Type 0
  Recorded s (err e, s') = Unit
  Recorded s (ok ticket, s') =
      Ticketed input key p provider_id ticket s'
      × (find_payment input.payment_id s' ≡ find_payment input.payment_id s)

  refund_again_or_new-Recorded :
      (t : Turn) (s : Store)
      → p.id ≡ input.payment_id
      → (o : Option Refund) → find_refund p.id key s ≡ o
      → Recorded s (transaction (refund_again_or_new input key p provider_id o) t s)
  unfolding Recorded refund_again_or_new find_refund find_payment find transaction ◌>>=◌ ticket_of
  refund_again_or_new-Recorded t s same (some r) e =
      (record { refund = r; found = e; given = refl }, refl)
  refund_again_or_new-Recorded t s same none e =
      elim (Bool-cases (ltb p.total_amount input.amount)) [
        | inl over ↦ rw over tt
        | inr within ↦ elim (Bool-cases (any (λ r. r.idempotency_key == key) s.accounts.refunds)) [
          | inl taken ↦ rw (within, taken) tt
          | inr fresh ↦
              let first : (input.payment_id == p.id && key == key) ≡ true = ground arith in
              rw (within, fresh)
                (
                  record { refund = new_refund input key t; found = rw first refl; given = refl },
                  refl,
                )
        ]
      ]

  again :
      (t' : Turn) (s' : Store) (ticket : RefundTicket)
      → find_payment input.payment_id s' ≡ some p
      → p.square_payment_id ≡ some provider_id
      → Ticketed input key p provider_id ticket s'
      → create_refund_record input key t' s' ≡ (ok ticket, s')
  unfolding refund_again_or_new transaction ticket_of give
  again t' s' ticket found linked h =
      create_refund_record-found input key p provider_id t' s' found linked
      ∙ rw (h.found, h.given) refl

create_refund_record-missing :
    (input : CreateRefundInput) (key : ℕ) (t : Turn) (s : Store)
    → find_payment input.payment_id s ≡ none
    → create_refund_record input key t s ≡ (err (not_found payment_not_found), s)
unfolding create_refund_record transaction ◌>>=◌ find
create_refund_record-missing input key t s missing = rw missing refl

create_refund_record-unlinked :
    (input : CreateRefundInput) (key : ℕ) (p : Payment) (t : Turn) (s : Store)
    → find_payment input.payment_id s ≡ some p
    → p.square_payment_id ≡ none
    → create_refund_record input key t s ≡ (err (bad_request payment_not_linked), s)
unfolding create_refund_record transaction ◌>>=◌ find
create_refund_record-unlinked input key p t s found unlinked = rw (found, unlinked) refl

-- If a refund has been taken on, a second call with the same input and key returns the same answer
-- and changes nothing.
pub create_refund_record-again :
    (input : CreateRefundInput) (key : ℕ) (t t' : Turn) (s s' : Store) (ticket : RefundTicket)
    → create_refund_record input key t s ≡ (ok ticket, s')
    → create_refund_record input key t' s' ≡ (ok ticket, s')
unfolding Recorded find_payment
create_refund_record-again input key t t' s s' ticket done =
    elim (Option-cases (find_payment input.payment_id s)) [
      | inl missing ↦
          absurd (ok_or_err _ _ _ s s' (create_refund_record-missing input key t s missing) done)
      | inr (p, found) ↦ elim (Option-cases p.square_payment_id) [
        | inl unlinked ↦ absurd (
            ok_or_err _ _ _ s s' (create_refund_record-unlinked input key p t s found unlinked)
              done)
        | inr (q, linked) ↦
            let same : p.id ≡ input.payment_id =
              ground
                (arith, find-true (has_payment_id input.payment_id) s.accounts.payments p found) in
            let (recorded, kept) =
              subst (Recorded input key p q s)
                (sym (create_refund_record-found input key p q t s found linked) ∙ done)
                (refund_again_or_new-Recorded input key p q t s same (find_refund p.id key s)
                  refl) in
            again input key p q t' s' ticket (kept ∙ found) linked recorded
      ]
    ]

release_found-released :
    (p : Payout) (t : Turn) (s : Store)
    → is_scheduled p.status ≡ false
    → release_found p t s ≡ (ok tt, s)
unfolding release_found give
release_found-released p t s over = rw over refl

mark_payout_released-found :
    (id : ℕ) (p : Payout) (t : Turn) (s : Store)
    → find (has_payout_id id) s.accounts.payouts ≡ some p
    → mark_payout_released id t s ≡ transaction (release_found p) t s
unfolding mark_payout_released transaction ◌>>=◌ find
mark_payout_released-found id p t s found = rw found refl

mark_payout_released-missing :
    (id : ℕ) (t : Turn) (s : Store)
    → find (has_payout_id id) s.accounts.payouts ≡ none
    → mark_payout_released id t s ≡ (err record_missing, s)
unfolding mark_payout_released transaction ◌>>=◌ find
mark_payout_released-missing id t s missing = rw missing refl

-- After a release the payout is found, no longer scheduled.
Released : ℕ → Result (Unit {0}) × Store → Type 0
Released id (err e, s') = Unit
Released id (ok u, s') =
    (p : Payout) × (find (has_payout_id id) s'.accounts.payouts ≡ some p)
    × (is_scheduled p.status ≡ false)

released_row :
    (id : ℕ) (p : Payout) (t : Turn) (s : Store)
    → find (has_payout_id id) s.accounts.payouts ≡ some p
    → find (has_payout_id id) (update (has_payout_id p.id) (released_payout t) s.accounts.payouts)
      ≡ some (released_payout t p)
released_row id p t s found =
    let same : p.id ≡ id =
      ground (arith, find-true (has_payout_id id) s.accounts.payouts p found) in
    subst
      (λ n.
        find (has_payout_id id) (update (has_payout_id n) (released_payout t) s.accounts.payouts)
        ≡ some (released_payout t p))
      (sym same)
      (find-update (has_payout_id id) (released_payout t) (λ x hit. hit) s.accounts.payouts p found)

release_found-IsReleased :
    (id : ℕ) (p : Payout) (t : Turn) (s : Store)
    → find (has_payout_id id) s.accounts.payouts ≡ some p
    → Released id (transaction (release_found p) t s)
unfolding Released release_found transaction ◌>>=◌ give update_payout find_payment
    create_ledger_entry
release_found-IsReleased id p t s found = elim (Bool-cases (is_scheduled p.status)) [
  | inr over ↦ rw over (p, found, over)
  | inl due ↦ elim (Bool-cases (any (has_payout_id p.id) s.accounts.payouts)) [
    | inr gone ↦ rw (due, gone) tt
    | inl there ↦ elim (Option-cases (find_payment p.payment_id s)) [
      | inl missing ↦ rw (due, there, missing) tt
      | inr (payment, paid) ↦
          rw (due, there, paid) (released_payout t p, released_row id p t s found, refl)
    ]
  ]
]

-- If a release of a payout has returned, a second one returns and changes nothing: the money is
-- entered in the ledger once.
pub mark_payout_released-again :
    (id : ℕ) (t t' : Turn) (s s' : Store)
    → mark_payout_released id t s ≡ (ok tt, s')
    → mark_payout_released id t' s' ≡ (ok tt, s')
unfolding Released transaction
mark_payout_released-again id t t' s s' done =
    elim (Option-cases (find (has_payout_id id) s.accounts.payouts)) [
      | inl missing ↦
          absurd (ok_or_err _ _ _ s s' (mark_payout_released-missing id t s missing) done)
      | inr (p, found) ↦
          let (q, found', over) =
            subst (Released id) (sym (mark_payout_released-found id p t s found) ∙ done)
              (release_found-IsReleased id p t s found) in
          mark_payout_released-found id q t' s' found'
          ∙ rw (release_found-released q t' s' over) refl
    ]
