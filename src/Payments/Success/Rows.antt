-- ===== src/Payments/Success/Rows.antt =====
-- The latest attempt of a payment is a row of the table.
use fit.Common.{
  ℕ, ◌≡◌, refl, true, false, Bool, ◌==◌, ◌&&◌, ◌||◌, not, some, List, [], ◌∷◌, arith, leb, any,
  find, select, All, head?, Bool-cases, inl, inr,
}
use fit.Common.Rows.{All-map}
use mathlib.Core.Path.{subst}
use fit.Store.{Store}
use fit.Store.Payments.{Payment, Attempt}
use fit.Payments.Rows.{
  has_reference, reference_taken, has_attempt_id, insert_by_newest, by_newest, attempts_of,
}
use fit.Payments.Outcome.{latest_attempt}

pub any-find {ℓ} :
    {A : Type ℓ} (p : A → Bool) (xs : List A) (x : A) → find p xs ≡ some x → any p xs ≡ true
unfolding any find
any-find p [] x e = cc
any-find p (y ∷ ys) x e = elim (Bool-cases (p y)) [
  | inl hit ↦ rw hit refl
  | inr miss ↦ rw miss (any-find p ys x (ground arith))
]

self_id : (n : ℕ) → (n == n) ≡ true
self_id n = ground arith

and_false : (b : Bool) → (b && false || false) ≡ false
and_false true = refl
and_false false = refl

-- No other payment has an id that `p` has after the change.
pub reference_free :
    (id : ℕ) (f : Payment → Payment) (p : Payment) (payments : List Payment)
    → All
        (λ q. has_reference (f p).square_payment_id (f p).square_order_id q ≡ true → q.id ≡ id)
        payments
    → reference_taken id f (some p) payments ≡ false
unfolding any
reference_free id f p [] h = refl
reference_free id f p (q ∷ qs) (h, hs) =
    elim (Bool-cases (has_reference (f p).square_payment_id (f p).square_order_id q)) [
      | inl shared ↦ rw (shared, h shared, self_id id, reference_free id f p qs hs) refl
      | inr apart ↦ rw (apart, reference_free id f p qs hs) (and_false (not (q.id == id)))
    ]

or_right : (a b : Bool) → b ≡ true → (a || b) ≡ true
or_right true b h = refl
or_right false b h = h

each_there : (xs : List Attempt) → All (λ a. any (has_attempt_id a.id) xs ≡ true) xs
unfolding any
each_there [] = tt
each_there (x ∷ xs) = (
  rw (self_id x.id) refl,
  All-map (λ a h. or_right (x.id == a.id) (any (has_attempt_id a.id) xs) h) xs (each_there xs),
)

module _ (P : Attempt → Type 0) where
  select-All : (q : Attempt → Bool) (xs : List Attempt) → All P xs → All P (select q xs)
  unfolding select
  select-All q [] h = tt
  select-All q (x ∷ xs) (p, h) = elim (Bool-cases (q x)) [
    | inl e ↦ rw e (p, select-All q xs h)
    | inr e ↦ rw e (select-All q xs h)
  ]

  insert_by_newest-All :
      (created_at : Attempt → ℕ) (x : Attempt) (xs : List Attempt)
      → P x
      → All P xs
      → All P (insert_by_newest created_at x xs)
  unfolding insert_by_newest
  insert_by_newest-All created_at x [] p h = (p, tt)
  insert_by_newest-All created_at x (y ∷ ys) p (q, h) =
      elim (Bool-cases (leb (created_at y) (created_at x))) [
        | inl e ↦ rw e (p, (q, h))
        | inr e ↦ rw e (q, insert_by_newest-All created_at x ys p h)
      ]

  by_newest-All :
      (created_at : Attempt → ℕ) (xs : List Attempt) → All P xs → All P (by_newest created_at xs)
  unfolding by_newest
  by_newest-All created_at [] h = tt
  by_newest-All created_at (x ∷ xs) (p, h) =
      insert_by_newest-All created_at x (by_newest created_at xs) p (by_newest-All created_at xs h)

  head-All : (xs : List Attempt) (a : Attempt) → All P xs → head? xs ≡ some a → P a
  head-All [] a h e = absurd (ground arith)
  head-All (x ∷ xs) a (p, h) e = let same : x ≡ a = ground arith in subst P same p

pub latest_attempt-any :
    (payment_id : ℕ) (s : Store) (a : Attempt)
    → latest_attempt payment_id s ≡ some a
    → any (has_attempt_id a.id) s.accounts.attempts ≡ true
unfolding latest_attempt attempts_of
latest_attempt-any payment_id s a e =
    let There : Attempt → Type 0 = λ a. any (has_attempt_id a.id) s.accounts.attempts ≡ true in
    head-All There (attempts_of payment_id s) a
      (by_newest-All There _ _
        (select-All There _ s.accounts.attempts (each_there s.accounts.attempts)))
      e
