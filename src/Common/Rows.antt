-- ===== src/Common/Rows.antt =====
-- What a change of rows by `update` does to a property of every row, to a count and to a search.
use Prim.Native.Nat.{◌≤◌}
use mathlib.Core.Path.{◌≡◌, refl}
use mathlib.Core.Logic.{inl, inr}
use mathlib.Core.Bool.{Bool, true, false}
use mathlib.Core.Option.{none, some}
use mathlib.Core.List.{List, [], ◌∷◌}
use native.Mathlib.Omega.{arith}
use fit.Common.Tests.{Bool-cases}
use fit.Common.Lists.{any, count_if, find, update, All, Pointwise}

module _ {ℓ} {A : Type ℓ} where
  -- If each changed row is related to the row before, and each row to itself, so are the lists.
  pub update-Pointwise :
      (R : A → A → Type 0) (row : A → Bool) (f : A → A)
      → ((x : A) → R x x)
      → (xs : List A) → All (λ x. row x ≡ true → R x (f x)) xs
      → Pointwise R xs (update row f xs)
  unfolding update
  update-Pointwise R row f same [] h = tt
  update-Pointwise R row f same (x ∷ xs) (hx, h) = elim (Bool-cases (row x)) [
    | inl e ↦ rw e (hx e, update-Pointwise R row f same xs h)
    | inr e ↦ rw e (same x, update-Pointwise R row f same xs h)
  ]

  pub Pointwise-refl : (R : A → A → Type 0) → ((x : A) → R x x) → (xs : List A) → Pointwise R xs xs
  Pointwise-refl R same [] = tt
  Pointwise-refl R same (x ∷ xs) = (same x, Pointwise-refl R same xs)

  pub Pointwise-trans :
      (R : A → A → Type 0)
      → ((x y z : A) → R x y → R y z → R x z)
      → (xs ys zs : List A) → Pointwise R xs ys
      → Pointwise R ys zs
      → Pointwise R xs zs
  Pointwise-trans R trans [] [] [] h k = tt
  Pointwise-trans R trans [] [] (z ∷ zs) h k = k
  Pointwise-trans R trans [] (y ∷ ys) zs h k = absurd h
  Pointwise-trans R trans (x ∷ xs) [] zs h k = absurd h
  Pointwise-trans R trans (x ∷ xs) (y ∷ ys) [] h k = k
  Pointwise-trans R trans (x ∷ xs) (y ∷ ys) (z ∷ zs) (h, hs) (k, ks) =
      (trans x y z h k, Pointwise-trans R trans xs ys zs hs ks)

  pub All-intro {κ} : {P : A → Type κ} → ((x : A) → P x) → (xs : List A) → All P xs
  All-intro h [] = tt
  All-intro h (x ∷ xs) = (h x, All-intro h xs)

  pub All-Pointwise {κ} :
      {P : A → Type κ} (R : A → A → Type 0)
      → ((x y : A) → R x y → P x → P y)
      → (xs ys : List A) → Pointwise R xs ys
      → All P xs
      → All P ys
  All-Pointwise R step [] [] r h = tt
  All-Pointwise R step [] (y ∷ ys) r h = absurd r
  All-Pointwise R step (x ∷ xs) [] r h = absurd r
  All-Pointwise R step (x ∷ xs) (y ∷ ys) (r, rs) (p, ps) =
      (step x y r p, All-Pointwise R step xs ys rs ps)

  -- A test that no step turns on counts no more rows than before.
  pub count_if-Pointwise :
      (p : A → Bool) (R : A → A → Type 0)
      → ((x y : A) → R x y → p y ≡ true → p x ≡ true)
      → (xs ys : List A) → Pointwise R xs ys
      → count_if p ys ≤ count_if p xs
  unfolding count_if
  count_if-Pointwise p R step [] [] r = omega arith
  count_if-Pointwise p R step [] (y ∷ ys) r = absurd r
  count_if-Pointwise p R step (x ∷ xs) [] r = absurd r
  count_if-Pointwise p R step (x ∷ xs) (y ∷ ys) (r, rs) =
      ground (arith, step x y r, count_if-Pointwise p R step xs ys rs)

  -- A test that every step leaves alone finds as much as before.
  pub any-Pointwise :
      (p : A → Bool) (R : A → A → Type 0)
      → ((x y : A) → R x y → p y ≡ p x)
      → (xs ys : List A) → Pointwise R xs ys
      → any p ys ≡ any p xs
  unfolding any
  any-Pointwise p R step [] [] r = refl
  any-Pointwise p R step [] (y ∷ ys) r = absurd r
  any-Pointwise p R step (x ∷ xs) [] r = absurd r
  any-Pointwise p R step (x ∷ xs) (y ∷ ys) (r, rs) =
      rw (step x y r, any-Pointwise p R step xs ys rs) refl

  pub find-true : (p : A → Bool) (xs : List A) (x : A) → find p xs ≡ some x → p x ≡ true
  unfolding find
  find-true p [] x e = cc
  find-true p (y ∷ xs) x e = ground (arith, find-true p xs x)

  pub find-none : (p : A → Bool) (xs : List A) → any p xs ≡ false → find p xs ≡ none
  unfolding any find
  find-none p [] e = refl
  find-none p (x ∷ xs) e = ground (arith, find-none p xs)

  -- A change that a test does not see is found where the row was.
  pub find-update :
      (p : A → Bool) (f : A → A)
      → ((x : A) → p x ≡ true → p (f x) ≡ true)
      → (xs : List A) (x : A) → find p xs ≡ some x
      → find p (update p f xs) ≡ some (f x)
  unfolding find update
  find-update p f h [] x e = cc
  find-update p f h (y ∷ ys) x e = elim (Bool-cases (p y)) [
    | inl hit ↦ let same : y ≡ x = ground arith in rw (hit, h y hit) (rw same refl)
    | inr miss ↦ rw (miss, miss) (find-update p f h ys x (ground arith))
  ]

  -- Where no row passes a test, each row fails it.
  pub any-false : (p : A → Bool) (xs : List A) → any p xs ≡ false → All (λ x. p x ≡ false) xs
  unfolding any
  any-false p [] e = tt
  any-false p (x ∷ xs) e = (ground arith, any-false p xs (ground arith))

  pub All-map {κ μ} :
      {P : A → Type κ} {Q : A → Type μ}
      → ((x : A) → P x → Q x)
      → (xs : List A) → All P xs
      → All Q xs
  All-map f [] h = tt
  All-map f (x ∷ xs) (p, h) = (f x p, All-map f xs h)

  -- What a change gives the rows it changes, and every other row has.
  pub update-All {κ μ} :
      {P : A → Type κ} {Q : A → Type μ} (p : A → Bool) (f : A → A)
      → ((x : A) → P x → p x ≡ true → Q (f x))
      → ((x : A) → P x → p x ≡ false → Q x)
      → (xs : List A) → All P xs
      → All Q (update p f xs)
  unfolding update
  update-All p f hit miss [] h = tt
  update-All p f hit miss (x ∷ xs) (h, hs) = elim (Bool-cases (p x)) [
    | inl e ↦ rw e (hit x h e, update-All p f hit miss xs hs)
    | inr e ↦ rw e (miss x h e, update-All p f hit miss xs hs)
  ]

  -- A test that a change does not turn counts as many rows as before.
  pub count_if-update :
      (test p : A → Bool) (f : A → A) (xs : List A)
      → All (λ x. p x ≡ true → test (f x) ≡ test x) xs
      → count_if test (update p f xs) ≡ count_if test xs
  unfolding count_if update
  count_if-update test p f [] h = refl
  count_if-update test p f (x ∷ xs) (h, hs) = elim (Bool-cases (p x)) [
    | inl e ↦ rw (e, h e, count_if-update test p f xs hs) refl
    | inr e ↦ rw (e, count_if-update test p f xs hs) refl
  ]
