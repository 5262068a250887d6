-- ===== src/Base/Once.antt =====
-- A transaction that is tried again is made once, or not at all, where a try that fails is rolled back.
use fit.Common.{ℕ, zero, suc, ◌+◌, ◌≡◌, refl, Bool, true, false, if◌then◌else◌}
use fit.Store.{Store}
use fit.Runtime.{
  Error, Result, ok, err, Turn, World, M, Visit, enter, leave, visit, throw, catch, handled,
  transaction, roll_back, ◌>>=◌,
}
use fit.Runtime.Transaction.{query}
use fit.Base.{Failure, RetryOptions, attempt_from, execute_async, execute_transaction}
use mathlib.Core.Path.{subst}

-- Nobody else writes.
abbrev pub Alone : World → Type 0
Alone w = (i : ℕ) (s : Store) → (w.turns i).others s ≡ s

-- The store is as before and the result an error, or the transaction has been made once, with a result.
pub data Once {A : Type 0} (f : Visit A) (s : Store) (r : Result A) (s' : Store) : Type 0 where
  never : (e : Error) → r ≡ err e → s' ≡ s → Once f s r s'
  once : (t : Turn) (a : A) → f t s ≡ (ok a, s') → r ≡ ok a → Once f s r s'

-- `m` does `f` at most once, where nobody else writes.
record Single {A : Type 0} (f : Visit A) (m : M A) : Type 0 where
  at : (w : World) → Alone w → Alone (m w).1 × Once f w.store (m w).0 (m w).1.store

module _ {A : Type 0} {f : Visit A} where
  throw-Single : (e : Error) → Single f (throw e)
  unfolding throw
  throw-Single e = record { at = λ w alone. (alone, never e refl refl) }

  rolled_back :
      (t : Turn) (s : Store) (r : Result A × Store)
      → f t s ≡ r
      → Once f s (roll_back s r).0 (roll_back s r).1
  rolled_back t s (ok a, s') e = once t a e refl
  rolled_back t s (err x, s') e = never x refl refl

  transaction-Single : Single f (visit (transaction f))
  unfolding visit transaction
  transaction-Single = record {
    at = λ w alone. (
      alone,
      subst (λ s. Once f s (visit (transaction f) w).0 (visit (transaction f) w).1.store)
          (alone w.moment w.store)
          (rolled_back (w.turns w.moment) (enter w) (f (w.turns w.moment) (enter w)) refl),
    );
  }

  query-Single :
      {B : Type 0} (g : Turn → Store → B) (k : B → M A)
      → ((b : B) → Single f (k b))
      → Single f (visit (query g) >>= k)
  unfolding visit query ◌>>=◌
  query-Single g k h = record {
    at = λ w alone.
        let (alone', made) = (h (g (w.turns w.moment) (enter w))).at (leave w (enter w)) alone in
        (
          alone',
          subst
              (λ s.
                Once f s (k (g (w.turns w.moment) (enter w)) (leave w (enter w))).0
                  (k (g (w.turns w.moment) (enter w)) (leave w (enter w))).1.store)
              (alone w.moment w.store) made,
        );
  }

  handled-Once :
      (s : Store) (r : Result A) (h : Error → M A) (w : World)
      → ((e : Error) → Single f (h e))
      → Alone w
      → Once f s r w.store
      → Alone (handled r h w).1 × Once f s (handled r h w).0 (handled r h w).1.store
  handled-Once s (ok a) h w single alone made = (alone, made)
  handled-Once s (err x) h w single alone (once t a e re) = cc
  handled-Once s (err x) h w single alone (never e re se) =
      let (alone', made) = (single x).at w alone in
      (alone', subst (λ z. Once f z (h x w).0 (h x w).1.store) se made)

  catch-Single :
      {m : M A} {h : Error → M A}
      → Single f m
      → ((e : Error) → Single f (h e))
      → Single f (catch m h)
  unfolding catch
  catch-Single {m} {h} hm hh = record {
    at = λ w alone.
        let (alone', made) = hm.at w alone in handled-Once w.store (m w).0 h (m w).1 hh alone' made;
  }

  if-Single : (b : Bool) {m m' : M A} → Single f m → Single f m' → Single f (if b then m else m')
  if-Single true h k = h
  if-Single false h k = k

  attempt_from-Single :
      (failure_of : Error → Failure) (options : RetryOptions) (left attempt started_at : ℕ)
      → Single f (attempt_from failure_of options (visit (transaction f)) left attempt started_at)
  unfolding attempt_from
  attempt_from-Single failure_of options zero attempt started_at = transaction-Single
  attempt_from-Single failure_of options (suc left) attempt started_at =
      catch-Single transaction-Single λ e. query-Single _ _ λ over.
        if-Single over (throw-Single e)
          (attempt_from-Single failure_of options left (attempt + 1) started_at)

-- While nobody else writes, and if each try that fails is rolled back, a transaction with its retries
-- either ends in an error with the store as before, or has been made exactly once, from that store,
-- and its value is returned.
pub execute_transaction-Once :
    {A : Type 0} (failure_of : Error → Failure) (options : RetryOptions) (f : Visit A) (w : World)
    → Alone w
    → Once f w.store
        (execute_transaction transaction failure_of options f w).0
        (execute_transaction transaction failure_of options f w).1.store
unfolding execute_transaction execute_async
execute_transaction-Once failure_of options f w alone =
    ((query-Single _ _
        λ started_at. attempt_from-Single failure_of options options.max_retries 0 started_at).at
      w alone).1
