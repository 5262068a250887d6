-- ===== src/Base/Retry.antt =====
-- What the retries of a repository promise to its callers.
use fit.Common.{ℕ, zero, suc, ◌+◌, ◌*◌, ◌≤◌, Bool, true, false, arith, if◌then◌else◌}
use fit.Store.{Store}
use fit.Runtime.{
  Error, Result, ok, err, Turn, World, M, Visit, visit, throw, catch, handled, continue, ◌>>=◌,
}
use fit.Runtime.Transaction.{query}
use fit.Runtime.Logic.{Steady, Holds, Safe, Any, bind-Safe, visit-Safe, throw-Safe}
use fit.Base.{Failure, RetryOptions, attempt_from, execute_async}

module _ {A : Type 0} {P : Store → Type 0} {Q : A → Type 0} where
  handled_keeps :
      (r : Result A) (h : Error → M A) (w : World)
      → ((e : Error) → Safe P (h e) Q)
      → Steady P w
      → Steady P (handled r h w).1
  handled_keeps (ok a) h w safe p = p
  handled_keeps (err e) h w safe p = (safe e).keeps w p

  handled_gives :
      (r : Result A) (h : Error → M A) (w : World)
      → ((e : Error) → Safe P (h e) Q)
      → Steady P w
      → Holds Q r
      → Holds Q (handled r h w).0
  handled_gives (ok a) h w safe p q = q
  handled_gives (err e) h w safe p q = (safe e).gives w p

  catch-Safe :
      {m : M A} {h : Error → M A}
      → Safe P m Q
      → ((e : Error) → Safe P (h e) Q)
      → Safe P (catch m h) Q
  unfolding catch
  catch-Safe {m} {h} hm hh = record {
    keeps = λ w p. handled_keeps (m w).0 h (m w).1 hh (hm.keeps w p);
    gives = λ w p. handled_gives (m w).0 h (m w).1 hh (hm.keeps w p) (hm.gives w p);
  }

  if-Safe : (b : Bool) {m n : M A} → Safe P m Q → Safe P n Q → Safe P (if b then m else n) Q
  if-Safe true h k = h
  if-Safe false h k = k

query-Safe : {B : Type 0} {P : Store → Type 0} (f : Turn → Store → B) → Safe P (visit (query f)) Any
unfolding query
query-Safe f = visit-Safe (query f) λ t s p. record { keeps = p; gives = tt }

module _ {A : Type 0} (failure_of : Error → Failure) (options : RetryOptions)
    {operation : M A} where
  module _ {P : Store → Type 0} {Q : A → Type 0} where
    attempt_from-Safe :
        (left attempt started_at : ℕ)
        → Safe P operation Q
        → Safe P (attempt_from failure_of options operation left attempt started_at) Q
    unfolding attempt_from
    attempt_from-Safe zero attempt started_at h = h
    attempt_from-Safe (suc left) attempt started_at h = catch-Safe h λ e.
        bind-Safe (query-Safe _) λ over any.
          if-Safe over (throw-Safe e) (attempt_from-Safe left (attempt + 1) started_at h)

    -- If an operation keeps a property of the store and its values satisfy another, then so do the
    -- operation with its retries and its values.
    pub execute_async-Safe :
        Safe P operation Q → Safe P (execute_async failure_of options operation) Q
    unfolding execute_async
    execute_async-Safe h =
        bind-Safe (query-Safe _)
          λ started_at any. attempt_from-Safe options.max_retries 0 started_at h

-- `m` takes at most `n` visits to the store, whatever it meets there.
pub record Within {ℓ} {A : Type ℓ} (n : ℕ) (m : M A) : Type ℓ where
  pub at : (w : World) → (m w).1.moment ≤ w.moment + n

pub visit-Within {ℓ} : {A : Type ℓ} (f : Visit A) → Within 1 (visit f)
unfolding visit
visit-Within f = record { at = λ w. omega arith }

one_more : (n left : ℕ) → n + (1 + (n + left * (n + 1))) ≤ n + suc left * (n + 1)
one_more n left = omega arith

module _ {A : Type 0} where
  wider : {k n : ℕ} {m : M A} → k ≤ n → Within k m → Within n m
  wider below h = record { at = λ w. omega (arith, below, h.at w) }

  throw-Within : (n : ℕ) (e : Error) → Within n (throw {A = A} e)
  unfolding throw
  throw-Within n e = record { at = λ w. omega arith }

  handled-Within :
      (n : ℕ) (r : Result A) (h : Error → M A) (w : World)
      → ((e : Error) → Within n (h e))
      → (handled r h w).1.moment ≤ w.moment + n
  handled-Within n (ok a) h w within = omega arith
  handled-Within n (err e) h w within = (within e).at w

  catch-Within :
      (k n : ℕ) {m : M A} {h : Error → M A}
      → Within k m
      → ((e : Error) → Within n (h e))
      → Within (k + n) (catch m h)
  unfolding catch
  catch-Within k n {m} {h} hm hh = record {
    at = λ w. omega (arith, hm.at w, handled-Within n (m w).0 h (m w).1 hh);
  }

  if-Within :
      (n : ℕ) (b : Bool) {m m' : M A} → Within n m → Within n m' → Within n (if b then m else m')
  if-Within n true h k = h
  if-Within n false h k = k

module _ {A B : Type 0} where
  continue-Within :
      (n : ℕ) (r : Result A) (f : A → M B) (w : World)
      → ((a : A) → Within n (f a))
      → (continue r f w).1.moment ≤ w.moment + n
  continue-Within n (ok a) f w within = (within a).at w
  continue-Within n (err e) f w within = omega arith

  bind-Within :
      (k n : ℕ) {m : M A} {f : A → M B}
      → Within k m
      → ((a : A) → Within n (f a))
      → Within (k + n) (m >>= f)
  unfolding ◌>>=◌
  bind-Within k n {m} {f} hm hf = record {
    at = λ w. omega (arith, hm.at w, continue-Within n (m w).0 f (m w).1 hf);
  }

module _ {A : Type 0} (failure_of : Error → Failure) (options : RetryOptions)
    {operation : M A} where
  attempt_from-Within :
      (n left attempt started_at : ℕ)
      → Within n operation
      → Within
          (n + left * (n + 1))
          (attempt_from failure_of options operation left attempt started_at)
  unfolding attempt_from
  attempt_from-Within n zero attempt started_at h = record { at = λ w. omega (arith, h.at w) }
  attempt_from-Within n (suc left) attempt started_at h =
      let bound : n + (1 + (n + left * (n + 1))) ≤ n + suc left * (n + 1) = one_more n left in
      wider bound (
        catch-Within n (1 + (n + left * (n + 1))) h λ e.
          bind-Within 1 (n + left * (n + 1)) (visit-Within _) λ over.
            if-Within (n + left * (n + 1)) over (throw-Within (n + left * (n + 1)) e)
              (attempt_from-Within n left (attempt + 1) started_at h))

  -- If an operation takes at most `n` visits, then with its retries it ends after at most one
  -- visit, `n` visits for the first try, and `n + 1` visits for each of the `max_retries` others.
  pub execute_async-Within :
      (n : ℕ)
      → Within n operation
      → Within
          (1 + (n + options.max_retries * (n + 1)))
          (execute_async failure_of options operation)
  unfolding execute_async
  execute_async-Within n h =
      bind-Within 1 (n + options.max_retries * (n + 1)) (visit-Within _)
        λ started_at. attempt_from-Within n options.max_retries 0 started_at h
