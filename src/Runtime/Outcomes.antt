-- ===== src/Runtime/Outcomes.antt =====
-- A logic for how a method ends, whatever others do: `Ends m Q E` says that `m` returns a value with
-- `Q` or throws an error with `E`.
use fit.Common.{◌≡◌, refl, Bool, true, false, Option, none, some}
use fit.Store.{Store}
use fit.Runtime.{
  Error, Result, ok, err, Turn, World, M, Visit, enter, pure, throw, visit, continue, ◌>>=◌,
  finally, throw_if, require,
}

abbrev pub Outcome {ℓ} : {A : Type ℓ} → (A → Type 0) → (Error → Type 0) → Result A → Type 0
Outcome Q E (ok a) = Q a
Outcome Q E (err e) = E e

pub record Ends {ℓ} {A : Type ℓ} (m : M A) (Q : A → Type 0) (E : Error → Type 0) : Type ℓ where
  pub at : (w : World) → Outcome Q E (m w).0

module _ {E : Error → Type 0} where
  module _ {ℓ} {A : Type ℓ} {Q : A → Type 0} where
    pub pure-Ends : (a : A) → Q a → Ends (pure a) Q E
    unfolding pure
    pure-Ends a q = record { at = λ w. q }

    pub throw-Ends : (e : Error) → E e → Ends (throw e) Q E
    unfolding throw
    throw-Ends e q = record { at = λ w. q }

    pub visit-Ends :
        (f : Visit A) → ((t : Turn) (s : Store) → Outcome Q E (f t s).0) → Ends (visit f) Q E
    unfolding visit
    visit-Ends f h = record { at = λ w. h (w.turns w.moment) (enter w) }

    pub finally-Ends : {m : M A} (c : M (Unit {0})) → Ends m Q E → Ends (finally m c) Q E
    unfolding finally
    finally-Ends c h = record { at = h.at }

  pub require-Ends :
      {A : Type 0} (o : Option A) (e : Error) → E e → Ends (require o e) (λ a. o ≡ some a) E
  unfolding require
  require-Ends none e h = throw-Ends e h
  require-Ends (some a) e h = pure-Ends a refl

  module _ {ℓ κ} {A : Type ℓ} {B : Type κ} {Q : A → Type 0} {R : B → Type 0} where
    continue_ends :
        (r : Result A) (f : A → M B) (w : World)
        → Outcome Q E r
        → ((a : A) → Q a → Ends (f a) R E)
        → Outcome R E (continue r f w).0
    continue_ends (ok a) f w q h = (h a q).at w
    continue_ends (err e) f w q h = q

    pub bind-Ends :
        {m : M A} {f : A → M B} → Ends m Q E → ((a : A) → Q a → Ends (f a) R E) → Ends (m >>= f) R E
    unfolding ◌>>=◌
    bind-Ends {m} {f} hm hf = record { at = λ w. continue_ends (m w).0 f (m w).1 (hm.at w) hf }

Outcome-mono {ℓ} :
    {A : Type ℓ} {Q R : A → Type 0} {E F : Error → Type 0} (r : Result A)
    → ((a : A) → Q a → R a)
    → ((e : Error) → E e → F e)
    → Outcome Q E r
    → Outcome R F r
Outcome-mono (ok a) f g h = f a h
Outcome-mono (err e) f g h = g e h

pub weaken-Ends {ℓ} :
    {A : Type ℓ} {m : M A} {Q R : A → Type 0} {E F : Error → Type 0}
    → Ends m Q E
    → ((a : A) → Q a → R a)
    → ((e : Error) → E e → F e)
    → Ends m R F
weaken-Ends {m} h f g = record { at = λ w. Outcome-mono (m w).0 f g (h.at w) }

pub throw_if-Ends :
    {E : Error → Type 0} (test : Bool) (e : Error)
    → E e
    → Ends (throw_if test e) (λ u. test ≡ false) E
unfolding throw_if
throw_if-Ends true e h = throw-Ends e h
throw_if-Ends false e h = pure-Ends tt refl
