-- ===== src/Runtime/Keeps.antt =====
-- A logic for the statements of a transaction: what each of them keeps, the transaction keeps.
use fit.Common.{Bool, true, false, Option, none, some, if◌then◌else◌}
use fit.Store.{Store}
use fit.Runtime.{Error, Result, ok, err, Turn, Visit, visit, transaction, roll_back}
use fit.Runtime.Transaction.{give, query, or_raise, write, resume, ◌>>=◌}
use fit.Runtime.Logic.{Safe, Any, Any-Holds, visit-Safe}

pub record Keeps {ℓ} (P : Store → Type 0) {A : Type ℓ} (m : Visit A) : Type ℓ where
  pub at : (t : Turn) (s : Store) → P s → P (m t s).1

rolled_back :
    (P : Store → Type 0) {A : Type 0} (r : Result A × Store) (s : Store)
    → P s
    → P r.1
    → P (roll_back s r).1
rolled_back P (ok a, s') s p h = h
rolled_back P (err e, s') s p h = p

module _ {P : Store → Type 0} where
  pub visit-Keeps {ℓ} : {A : Type ℓ} {f : Visit A} → Keeps P f → Safe P (visit f) Any
  visit-Keeps {f} h =
      visit-Safe f λ t s p. record { keeps = h.at t s p; gives = Any-Holds (f t s).0 }

  pub transaction-Keeps : {A : Type 0} {m : Visit A} → Keeps P m → Keeps P (transaction m)
  unfolding transaction
  transaction-Keeps {m} h = record { at = λ t s p. rolled_back P (m t s) s p (h.at t s p) }

  pub give-Keeps {ℓ} : {A : Type ℓ} (f : Turn → A) → Keeps P (λ t. give (f t) t)
  unfolding give
  give-Keeps f = record { at = λ t s p. p }

  pub query-Keeps {ℓ} : {A : Type ℓ} (f : Turn → Store → A) → Keeps P (query f)
  unfolding query
  query-Keeps f = record { at = λ t s p. p }

  pub or_raise-Keeps {ℓ} : {A : Type ℓ} (o : Option A) (e : Error) → Keeps P (or_raise o e)
  unfolding or_raise
  or_raise-Keeps none e = record { at = λ t s p. p }
  or_raise-Keeps (some a) e = record { at = λ t s p. p }

  pub write-Keeps :
      (f : Turn → Store → Store) → ((t : Turn) (s : Store) → P s → P (f t s)) → Keeps P (write f)
  unfolding write
  write-Keeps f h = record { at = h }

  pub if-Keeps {ℓ} :
      {A : Type ℓ} (b : Bool) {m n : Visit A} → Keeps P m → Keeps P n → Keeps P (if b then m else n)
  if-Keeps true hm hn = hm
  if-Keeps false hm hn = hn

  module _ {ℓ κ} {A : Type ℓ} {B : Type κ} where
    resumed :
        (r : Result A × Store) {f : A → Visit B} (t : Turn)
        → ((a : A) → Keeps P (f a))
        → P r.1
        → P (resume r.0 f t r.1).1
    resumed (ok a, s) t h p = (h a).at t s p
    resumed (err e, s) t h p = p

    pub bind-Keeps :
        {m : Visit A} {f : A → Visit B} → Keeps P m → ((a : A) → Keeps P (f a)) → Keeps P (m >>= f)
    unfolding ◌>>=◌
    bind-Keeps {m} {f} hm hf = record { at = λ t s p. resumed (m t s) t hf (hm.at t s p) }
