-- ===== src/Runtime/Transaction.antt =====
-- The body of a `$transaction`, statement by statement: nobody interrupts it, so that it is a visit made
-- of smaller ones. An error ends it; `transaction` rolls its writes back.
use fit.Common.{Bool, true, false, Option, none, some}
use fit.Store.{Store}
use fit.Runtime.{Error, Result, ok, err, Turn, Visit}

module _ {ℓ} {A : Type ℓ} where
  unfoldable pub give : A → Visit A
  give a t s = (ok a, s)

  unfoldable pub raise : Error → Visit A
  raise e t s = (err e, s)

  -- A query, and a value of the clock or of `randomUUID()`.
  unfoldable pub query : (Turn → Store → A) → Visit A
  query f t s = (ok (f t s), s)

  unfoldable pub or_raise : Option A → Error → Visit A
  or_raise none e t s = (err e, s)
  or_raise (some a) e t s = (ok a, s)

unfoldable pub write : (Turn → Store → Store) → Visit (Unit {0})
write f t s = (ok tt, f t s)

unfoldable pub raise_if : Bool → Error → Visit (Unit {0})
raise_if true e t s = (err e, s)
raise_if false e t s = (ok tt, s)

-- `if (test) { … }`
unfoldable pub when : Bool → Visit (Unit {0}) → Visit (Unit {0})
when true m t s = m t s
when false m t s = (ok tt, s)

module _ {ℓ κ} {A : Type ℓ} {B : Type κ} where
  abbrev pub resume : Result A → (A → Visit B) → Visit B
  resume (ok a) f t s = f a t s
  resume (err e) f t s = (err e, s)

  infixl 5 ◌>>=◌
  unfoldable pub ◌>>=◌ : Visit A → (A → Visit B) → Visit B
  unfolding give raise query or_raise write raise_if when
  ◌>>=◌ m f t s = let (r, s') = m t s in resume r f t s'

infixl 5 ◌>>◌
abbrev pub ◌>>◌ {ℓ} : {B : Type ℓ} → Visit (Unit {0}) → Visit B → Visit B
m >> n = m >>= λ _. n
