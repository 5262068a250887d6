-- ===== src/Runtime/Rely.antt =====
-- A logic of pre- and postconditions among other requests: each condition on the store that stands before a
-- visit has to be one that the others keep.
use fit.Common.{ℕ, ◌≡◌, refl, ap, Bool, true, false, Option, none, some}
use fit.Store.{Store}
use fit.Runtime.{
  Error, Result, ok, err, Turn, World, M, Visit, enter, pure, throw, visit, continue, ◌>>=◌,
  finally, throw_if, require,
}

-- What holds at the end, of a value that is returned or of an error.
abbrev pub Outcome {ℓ} :
    {A : Type ℓ} → (A → Store → Type 0) → (Store → Type 0) → Result A → Store → Type 0
Outcome post fail (ok a) s = post a s
Outcome post fail (err e) s = fail s

Outcome-same {ℓ} :
    {A : Type ℓ} (P : Store → Type 0) (r : Result A) (s : Store) → Outcome (λ _. P) P r s → P s
Outcome-same P (ok a) s h = h
Outcome-same P (err e) s h = h

module _ (turns : ℕ → Turn) where
  -- The other requests of these turns keep `P`.
  abbrev pub Stable : (Store → Type 0) → Type 0
  Stable P = (i : ℕ) (s : Store) → P s → P ((turns i).others s)

  pub record Goes {ℓ} (pre : Store → Type 0) {A : Type ℓ} (m : M A) (post : A → Store → Type 0)
      (fail : Store → Type 0) : Type ℓ where
    pub at :
        (w : World)
        → w.turns ≡ turns
        → pre w.store
        → ((m w).1.turns ≡ turns) × Outcome post fail (m w).0 (m w).1.store

  module _ {pre fail : Store → Type 0} where
    module _ {ℓ} {A : Type ℓ} {post : A → Store → Type 0} where
      pub pure-Goes : (a : A) → ((s : Store) → pre s → post a s) → Goes pre (pure a) post fail
      unfolding pure
      pure-Goes a h = record { at = λ w e p. (e, h w.store p) }

      pub throw-Goes : (e : Error) → ((s : Store) → pre s → fail s) → Goes pre (throw e) post fail
      unfolding throw
      throw-Goes x h = record { at = λ w e p. (e, h w.store p) }

      pub visit-Goes :
          (f : Visit A)
          → Stable pre
          → ((t : Turn) (s : Store) → pre s → Outcome post fail (f t s).0 (f t s).1)
          → Goes pre (visit f) post fail
      unfolding visit
      visit-Goes f stable h = record {
        at = λ w e p. (
          e,
          h (w.turns w.moment) (enter w)
              (rw (ap (λ ts. (ts w.moment).others w.store) e) (stable w.moment w.store p)),
        );
      }

    pub throw_if-Goes :
        {post : Store → Type 0} (b : Bool) (e : Error)
        → ((s : Store) → pre s → fail s)
        → ((s : Store) → b ≡ false → pre s → post s)
        → Goes pre (throw_if b e) (λ _ s. post s) fail
    unfolding throw_if
    throw_if-Goes true e bad good = throw-Goes e bad
    throw_if-Goes false e bad good = pure-Goes tt (λ s p. good s refl p)

    pub require-Goes {ℓ} :
        {A : Type ℓ} {post : A → Store → Type 0} (o : Option A) (e : Error)
        → ((s : Store) → pre s → fail s)
        → ((a : A) (s : Store) → o ≡ some a → pre s → post a s)
        → Goes pre (require o e) post fail
    unfolding require
    require-Goes none e bad good = throw-Goes e bad
    require-Goes (some a) e bad good = pure-Goes a (λ s p. good a s refl p)

  pub require_some-Goes {ℓ} :
      {A : Type ℓ} {pre fail : Store → Type 0} (a : A) (e : Error)
      → Goes pre (require (some a) e) (λ _. pre) fail
  unfolding require
  require_some-Goes a e = pure-Goes a λ s p. p

  -- A fact that the store has no part in.
  pub known-Goes {ℓ} :
      {X : Type 0} {A : Type ℓ} {pre fail : Store → Type 0} {m : M A} {post : A → Store → Type 0}
      → (X → Goes pre m post fail)
      → Goes (λ s. X × pre s) m post fail
  known-Goes h = record { at = λ w e (x, p). (h x).at w e p }

  module _ {ℓ κ} {fail : Store → Type 0} {A : Type ℓ} {B : Type κ} {mid : A → Store → Type 0}
      {post : B → Store → Type 0} where
    continue-Goes :
        (r : Result A) (f : A → M B) (w : World)
        → ((a : A) → Goes (mid a) (f a) post fail)
        → w.turns ≡ turns
        → Outcome mid fail r w.store
        → ((continue r f w).1.turns ≡ turns)
          × Outcome post fail (continue r f w).0 (continue r f w).1.store
    continue-Goes (ok a) f w h e p = (h a).at w e p
    continue-Goes (err x) f w h e p = (e, p)

    pub bind-Goes :
        {pre : Store → Type 0} {m : M A} {f : A → M B}
        → Goes pre m mid fail
        → ((a : A) → Goes (mid a) (f a) post fail)
        → Goes pre (m >>= f) post fail
    unfolding ◌>>=◌
    bind-Goes {m} {f} hm hf = record {
      at = λ w e p. let first = hm.at w e p in continue-Goes (m w).0 f (m w).1 hf first.0 first.1;
    }

  module _ {ℓ} {A : Type ℓ} {post : A → Store → Type 0} {fail : Store → Type 0} where
    cleaned :
        (r : Result A) (c : M (Unit {0})) (w : World)
        → ((a : A) → Goes (post a) c (λ _. post a) (post a))
        → Goes fail c (λ _. fail) fail
        → w.turns ≡ turns
        → Outcome post fail r w.store
        → ((c w).1.turns ≡ turns) × Outcome post fail r (c w).1.store
    cleaned (ok a) c w hp hf e p =
        let after = (hp a).at w e p in
        (after.0, Outcome-same (post a) (c w).0 (c w).1.store after.1)
    cleaned (err x) c w hp hf e p =
        let after = hf.at w e p in (after.0, Outcome-same fail (c w).0 (c w).1.store after.1)

    -- The cleanup keeps what there is, whether it returns or throws.
    pub finally-Goes :
        {pre : Store → Type 0} {m : M A} {c : M (Unit {0})}
        → Goes pre m post fail
        → ((a : A) → Goes (post a) c (λ _. post a) (post a))
        → Goes fail c (λ _. fail) fail
        → Goes pre (finally m c) post fail
    unfolding finally
    finally-Goes {m} {c} hm hp hf = record {
      at = λ w e p. let first = hm.at w e p in cleaned (m w).0 c (m w).1 hp hf first.0 first.1;
    }
