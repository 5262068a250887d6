-- ===== src/Runtime/Logic.antt =====
-- A logic for methods that others interrupt. `Safe P m Q`: if every other request keeps `P` of the
-- store, then `m` keeps it at each of its visits, also where it throws, and a value that `m` returns
-- satisfies `Q`.
use fit.Common.{ℕ, ◌≡◌, refl, Bool, true, false, Option, none, some}
use fit.Store.{Store}
use fit.Runtime.{
  Error, Result, ok, err, Turn, World, M, Visit, enter, pure, throw, visit, transaction, roll_back,
  rethrow, continue, ◌>>=◌, finally, on_error, throw_if, require,
}

pub record Steady (P : Store → Type 0) (w : World) : Type 0 where
  pub here : P w.store
  pub others : (i : ℕ) (s : Store) → P s → P ((w.turns i).others s)

-- The values of a result.
abbrev pub Holds {ℓ κ} : {A : Type ℓ} → (A → Type κ) → Result A → Type κ
Holds Q (ok a) = Q a
Holds Q (err e) = Unit

pub record Safe {ℓ κ} (P : Store → Type 0) {A : Type ℓ} (m : M A) (Q : A → Type κ)
    : Type (ℓ ⊔ κ) where
  pub keeps : (w : World) → Steady P w → Steady P (m w).1
  pub gives : (w : World) → Steady P w → Holds Q (m w).0

-- What one visit has to show.
pub record SafeAt {ℓ κ} (P : Store → Type 0) {A : Type ℓ} (Q : A → Type κ) (r : Result A × Store)
    : Type (ℓ ⊔ κ) where
  pub keeps : P r.1
  pub gives : Holds Q r.0

abbrev pub Any {ℓ} : {A : Type ℓ} → A → Type 0
Any a = Unit

pub Any-Holds {ℓ} : {A : Type ℓ} (r : Result A) → Holds Any r
Any-Holds (ok a) = tt
Any-Holds (err e) = tt

Holds-mono {ℓ κ μ} :
    {A : Type ℓ} {Q : A → Type κ} {R : A → Type μ} (r : Result A)
    → ((a : A) → Q a → R a)
    → Holds Q r
    → Holds R r
Holds-mono (ok a) f h = f a h
Holds-mono (err e) f h = tt

rethrow_gives {ℓ κ} :
    {A : Type ℓ} (Q : A → Type κ) (r : Result A) (c : M (Unit {0})) (w : World)
    → Holds Q r
    → Holds Q (rethrow r c w).0
rethrow_gives Q (ok a) c w h = h
rethrow_gives Q (err e) c w h = tt

module _ {P : Store → Type 0} where
  rethrow_keeps {ℓ} :
      {A : Type ℓ} (r : Result A) {c : M (Unit {0})} (w : World)
      → Safe P c Any
      → Steady P w
      → Steady P (rethrow r c w).1
  rethrow_keeps (ok a) w hc p = p
  rethrow_keeps (err e) w hc p = hc.keeps w p

  pub weaken {ℓ κ μ} :
      {A : Type ℓ} {m : M A} {Q : A → Type κ} {R : A → Type μ}
      → Safe P m Q
      → ((a : A) → Q a → R a)
      → Safe P m R
  weaken {m} h f = record { keeps = h.keeps; gives = λ w p. Holds-mono (m w).0 f (h.gives w p) }

  -- A whole run among others.
  pub safely {ℓ κ} :
      {A : Type ℓ} {m : M A} {Q : A → Type κ}
      → Safe P m Q
      → (w : World) → Steady P w
      → P (m w).1.store × Holds Q (m w).0
  safely h w p = ((h.keeps w p).here, h.gives w p)

  module _ {ℓ κ} {A : Type ℓ} {Q : A → Type κ} where
    pub pure-Safe : (a : A) → Q a → Safe P (pure a) Q
    unfolding pure
    pure-Safe a q = record { keeps = λ w p. p; gives = λ w p. q }

    pub throw-Safe : (e : Error) → Safe P (throw e) Q
    unfolding throw
    throw-Safe e = record { keeps = λ w p. p; gives = λ w p. tt }

    pub visit-Safe :
        (f : Visit A) → ((t : Turn) (s : Store) → P s → SafeAt P Q (f t s)) → Safe P (visit f) Q
    unfolding visit
    visit-Safe f h = record {
      keeps = λ w p. record {
        here = (h (w.turns w.moment) (enter w) (p.others w.moment w.store p.here)).keeps;
        others = p.others;
      };
      gives = λ w p. (h (w.turns w.moment) (enter w) (p.others w.moment w.store p.here)).gives;
    }

    transaction_lem :
        (r : Result A × Store) (s : Store) → P s → SafeAt P Q r → SafeAt P Q (roll_back s r)
    transaction_lem (ok a, s') s p h = h
    transaction_lem (err e, s') s p h = record { keeps = p; gives = tt }

    -- A transaction that throws changes nothing, whatever it had done.
    pub transaction-SafeAt :
        (f : Visit A) (t : Turn) (s : Store)
        → P s
        → SafeAt P Q (f t s)
        → SafeAt P Q (transaction f t s)
    unfolding transaction
    transaction-SafeAt f t s p h = transaction_lem (f t s) s p h

    pub finally-Safe :
        {m : M A} {c : M (Unit {0})} → Safe P m Q → Safe P c Any → Safe P (finally m c) Q
    unfolding finally
    finally-Safe {m} {c} hm hc = record {
      keeps = λ w p. hc.keeps (m w).1 (hm.keeps w p);
      gives = hm.gives;
    }

    pub on_error-Safe :
        {m : M A} {c : M (Unit {0})} → Safe P m Q → Safe P c Any → Safe P (on_error m c) Q
    unfolding on_error
    on_error-Safe {m} {c} hm hc = record {
      keeps = λ w p. rethrow_keeps (m w).0 (m w).1 hc (hm.keeps w p);
      gives = λ w p. rethrow_gives Q (m w).0 c (m w).1 (hm.gives w p);
    }

  pub throw_if-Safe : (b : Bool) (e : Error) → Safe P (throw_if b e) (λ _. b ≡ false)
  unfolding throw_if
  throw_if-Safe true e = throw-Safe e
  throw_if-Safe false e = pure-Safe tt refl

  pub require-Safe {ℓ} :
      {A : Type ℓ} (o : Option A) (e : Error) → Safe P (require o e) (λ a. o ≡ some a)
  unfolding require
  require-Safe none e = throw-Safe e
  require-Safe (some x) e = pure-Safe x refl

  module _ {ℓ κ μ ν} {A : Type ℓ} {B : Type κ} {Q : A → Type μ} {R : B → Type ν} where
    continue_keeps :
        (r : Result A) (f : A → M B) (w : World)
        → Holds Q r
        → ((a : A) → Q a → Safe P (f a) R)
        → Steady P w
        → Steady P (continue r f w).1
    continue_keeps (ok a) f w q h p = (h a q).keeps w p
    continue_keeps (err e) f w q h p = p

    continue_gives :
        (r : Result A) (f : A → M B) (w : World)
        → Holds Q r
        → ((a : A) → Q a → Safe P (f a) R)
        → Steady P w
        → Holds R (continue r f w).0
    continue_gives (ok a) f w q h p = (h a q).gives w p
    continue_gives (err e) f w q h p = tt

    pub bind-Safe :
        {m : M A} {f : A → M B} → Safe P m Q → ((a : A) → Q a → Safe P (f a) R) → Safe P (m >>= f) R
    unfolding ◌>>=◌
    bind-Safe {m} {f} hm hf = record {
      keeps = λ w p. continue_keeps (m w).0 f (m w).1 (hm.gives w p) hf (hm.keeps w p);
      gives = λ w p. continue_gives (m w).0 f (m w).1 (hm.gives w p) hf (hm.keeps w p);
    }
