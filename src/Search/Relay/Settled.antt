-- ===== src/Search/Relay/Settled.antt =====
-- A logic for calls that settle rows of the search outbox, so that no claim is left on them.
use fit.Common.{
  ℕ, ◌≡◌, refl, sym, ◌∙◌, inl, inr, Bool, true, false, ◌||◌, List, [], ◌++◌, ◌==◌, if◌then◌else◌,
  is_none, is_some, update, All, Bool-cases,
}
use fit.Common.Rows.{update-All, All-map}
use mathlib.Core.List.{append_assoc}
use mathlib.Core.Path.{subst}
use fit.Store.{Store}
use fit.Store.Search.{SearchOutbox}
use fit.Runtime.{
  Error, Result, ok, err, Turn, World, M, Visit, enter, leave, pure, visit, catch, handled,
  continue, ◌>>=◌, ◌>>◌,
}
use fit.Search.Outbox.{is_among}
use fit.Search.Relay.Cover.{any-append}

-- Not claimed, or a row that no claim keeps from its end: one that is indexed or a dead letter.
abbrev pub is_settled : SearchOutbox → Bool
is_settled e = is_none e.processing_at || (is_some e.indexed_at || is_some e.dead_lettered_at)

-- The rows of the ids are settled.
abbrev pub SettledRow : List ℕ → SearchOutbox → Type 0
SettledRow ids e = is_among ids e ≡ true → is_settled e ≡ true

unfoldable pub Settled : List ℕ → Store → Type 0
Settled ids s = All (SettledRow ids) s.outbox

-- An update that settles each row it changes and changes no id keeps what is settled, and settles `new`
-- where it reaches the rows of `new` that are not settled.
pub update-Settled :
    (p : SearchOutbox → Bool) (f : SearchOutbox → SearchOutbox) (new ids : List ℕ)
    → ((e : SearchOutbox) → is_settled (f e) ≡ true)
    → ((e : SearchOutbox) → p e ≡ false → is_among new e ≡ true → is_settled e ≡ true)
    → (s : Store) → Settled ids s
    → Settled (new ++ ids) (record s { outbox = update p f s.outbox })
unfolding Settled
update-Settled p f new ids settles reaches s h =
    update-All p f (λ e before hit among. settles e)
      (λ e before miss among. elim (Bool-cases (is_among new e)) [
        | inl of_new ↦ reaches e miss of_new
        | inr old ↦ before (sym (rw old refl) ∙ (sym (any-append (λ i. i == e.id) new ids) ∙ among))
      ])
      s.outbox h

-- The rows of the ids are settled, and nobody else claims a settled row meanwhile.
pub record Calm (ids : List ℕ) (w : World) : Type 0 where
  pub here : Settled ids w.store
  pub others :
      (i : ℕ) (s : Store) (ids : List ℕ) → Settled ids s → Settled ids ((w.turns i).others s)

-- Whether it returns or throws, `m` leaves the rows of `new` settled and keeps what is settled.
pub record Ends {ℓ} (new : List ℕ) {A : Type ℓ} (m : M A) : Type ℓ where
  pub at : (ids : List ℕ) (w : World) → Calm ids w → Calm (new ++ ids) (m w).1

abbrev pub Returns {ℓ} : {A : Type ℓ} → M A → Type ℓ
Returns {A} m = (w : World) → (a : A) × ((m w).0 ≡ ok a)

-- The same, of what never throws.
pub record Settles {ℓ} (new : List ℕ) {A : Type ℓ} (m : M A) : Type ℓ where
  pub ends : Ends new m
  pub returns : Returns m

pub Settled-weaken :
    (ids ids' : List ℕ)
    → ((e : SearchOutbox) → is_among ids' e ≡ true → is_among ids e ≡ true)
    → (s : Store) → Settled ids s
    → Settled ids' s
unfolding Settled
Settled-weaken ids ids' sub s h = All-map (λ e before among. before (sub e among)) s.outbox h

pub pure-Settles {ℓ} : {A : Type ℓ} (a : A) → Settles [] (pure a)
unfolding pure
pure-Settles a = record { ends = record { at = λ ids w h. h }; returns = λ w. (a, refl) }

pub visit-Ends :
    {A : Type 0} (new : List ℕ) (f : Visit A)
    → ((ids : List ℕ) (t : Turn) (s : Store) → Settled ids s → Settled (new ++ ids) (f t s).1)
    → Ends new (visit f)
unfolding visit
visit-Ends new f h = record {
  at = λ ids w calm. record {
    here = h ids (w.turns w.moment) (enter w) (calm.others w.moment w.store ids calm.here);
    others = calm.others;
  };
}

module _ {ℓ κ} {A : Type ℓ} {B : Type κ} where
  continue-Calm :
      (new ids : List ℕ) (r : Result A) (f : A → M B) (w : World)
      → ((a : A) → Ends new (f a))
      → (a : A) × (r ≡ ok a)
      → Calm ids w
      → Calm (new ++ ids) (continue r f w).1
  continue-Calm new ids r f w hf (a, e) calm = rw e ((hf a).at ids w calm)

  pub bind-Ends :
      {m : M A} {f : A → M B} (old new : List ℕ)
      → Settles old m
      → ((a : A) → Ends new (f a))
      → Ends (new ++ old) (m >>= f)
  unfolding ◌>>=◌
  bind-Ends {m} {f} old new hm hf = record {
    at = λ ids w calm.
        subst (λ all. Calm all (continue (m w).0 f (m w).1).1) (sym (append_assoc new old ids))
          (continue-Calm new (old ++ ids) (m w).0 f (m w).1 hf (hm.returns w)
            (hm.ends.at ids w calm));
  }

  continue-Returns :
      (r : Result A) (f : A → M B) (w : World)
      → ((a : A) → Returns (f a))
      → (a : A) × (r ≡ ok a)
      → (b : B) × ((continue r f w).0 ≡ ok b)
  continue-Returns r f w hf (a, e) = rw e (hf a w)

  pub bind-Settles :
      {m : M A} {f : A → M B} (old new : List ℕ)
      → Settles old m
      → ((a : A) → Settles new (f a))
      → Settles (new ++ old) (m >>= f)
  unfolding ◌>>=◌
  bind-Settles {m} {f} old new hm hf = record {
    ends = bind-Ends old new hm (λ a. (hf a).ends);
    returns = λ w. continue-Returns (m w).0 f (m w).1 (λ a. (hf a).returns) (hm.returns w);
  }

-- What a transaction has to show: if it throws, nothing it settles is settled.
abbrev pub Left : (new ids : List ℕ) → {A : Type 0} → Result A × Store → Type 0
Left new ids (ok a, s) = Settled (new ++ ids) s
Left new ids (err e, s) = Settled ids s

module _ {ℓ} {A : Type ℓ} where
  handled-Calm :
      (ids : List ℕ) (r : Result A) (handler : Error → M A) (w : World)
      → ((e : Error) → Ends [] (handler e))
      → Calm ids w
      → Calm ids (handled r handler w).1
  handled-Calm ids (ok a) handler w hh calm = calm
  handled-Calm ids (err e) handler w hh calm = (hh e).at ids w calm

  handled-Returns :
      (r : Result A) (handler : Error → M A) (w : World)
      → ((e : Error) → Returns (handler e))
      → (a : A) × ((handled r handler w).0 ≡ ok a)
  handled-Returns (ok a) handler w hh = (a, refl)
  handled-Returns (err e) handler w hh = hh e w

  -- What is thrown is handled by a call that settles nothing of its own.
  pub catch-Settles :
      {m : M A} {handler : Error → M A} (new : List ℕ)
      → Ends new m
      → ((e : Error) → Settles [] (handler e))
      → Settles new (catch m handler)
  unfolding catch
  catch-Settles {m} {handler} new hm hh = record {
    ends = record {
      at = λ ids w calm.
          handled-Calm (new ++ ids) (m w).0 handler (m w).1 (λ e. (hh e).ends) (hm.at ids w calm);
    };
    returns = λ w. handled-Returns (m w).0 handler (m w).1 (λ e. (hh e).returns);
  }

Left-Calm :
    {A : Type 0} (new ids : List ℕ) (r : Result A × Store) (handler : Error → M A) (w : World)
    → ((e : Error) → Ends new (handler e))
    → Calm ids w
    → Left new ids r
    → Calm (new ++ ids) (handled r.0 handler (leave w r.1)).1
Left-Calm new ids (ok a, s) handler w hh calm h = record { here = h; others = calm.others }
Left-Calm new ids (err e, s) handler w hh calm h =
    (hh e).at ids (leave w s) (record { here = h; others = calm.others })

-- What a visit does not settle, its handler does.
pub visit-catch-Settles :
    {A : Type 0} (new : List ℕ) (f : Visit A) (handler : Error → M A)
    → ((ids : List ℕ) (t : Turn) (s : Store) → Settled ids s → Left new ids (f t s))
    → ((e : Error) → Settles new (handler e))
    → Settles new (catch (visit f) handler)
unfolding catch visit
visit-catch-Settles new f handler h hh = record {
  ends = record {
    at = λ ids w calm.
        let before = calm.others w.moment w.store ids calm.here in
        Left-Calm new ids (f (w.turns w.moment) (enter w)) handler w (λ e. (hh e).ends) calm
          (h ids (w.turns w.moment) (enter w) before);
  };
  returns = λ w. handled-Returns (visit f w).0 handler (visit f w).1 (λ e. (hh e).returns);
}

continue-pure :
    {A : Type 0} (new : List ℕ) (r : Result (Unit {0})) (a : A) (w : World)
    → Calm new w
    → Calm new (continue r (λ _. pure a) w).1
unfolding pure
continue-pure new (ok u) a w calm = calm
continue-pure new (err e) a w calm = calm

pub then-pure-Ends :
    {A : Type 0} {m : M (Unit {0})} (a : A) (new : List ℕ) → Ends new m → Ends new (m >> pure a)
unfolding ◌>>=◌
then-pure-Ends {m} a new hm = record {
  at = λ ids w calm. continue-pure (new ++ ids) (m w).0 a (m w).1 (hm.at ids w calm);
}

pub if-Ends :
    (b : Bool) {m n : M (Unit {0})} (new : List ℕ)
    → Ends new m
    → Ends new n
    → Ends new (if b then m else n)
if-Ends true new hm hn = hm
if-Ends false new hm hn = hn
