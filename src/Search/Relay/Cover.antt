-- ===== src/Search/Relay/Cover.antt =====
-- No claimed row is lost between the batch and the jobs that it is relayed as.
use fit.Common.{
  ℕ, ◌≡◌, refl, sym, ◌∙◌, inl, inr, Bool, true, false, ◌||◌, Option, none, some, List, [], ◌∷◌,
  ◌++◌, arith, ◌==◌, any, All, Bool-cases,
}
use mathlib.Core.Bool.{or_assoc}
use mathlib.Core.Path.{subst}
use fit.Store.Search.{OutboxOperation, upsert, delete, barrier, SearchOutbox}
use fit.Search.Outbox.{ids_of}
use fit.Search.Relay.{
  CoalescingKey, of_outbox, of_posting, keys_equal, posting_key, key_for, key_of, RelayJob,
  new_group, into_group, place, coalesce_from, coalesce_relay_jobs,
}
use fit.Search.Relay.Coalescing.{keys_equal-≡}

-- Whether a row is the primary of one of the jobs, or superseded by one.
abbrev pub covers : (id : ℕ) → RelayJob → Bool
covers id g = g.primary.id == id || any (λ i. i == id) g.superseded_ids

-- A group keeps its primary's key, and a row without a key to share supersedes none.
abbrev OnItsOwn : CoalescingKey → RelayJob → Type 0
OnItsOwn (of_outbox id) g = (g.primary.id ≡ id) × (g.superseded_ids ≡ [])
OnItsOwn (of_posting p run index) g = Unit {0}

abbrev Proper : RelayJob → Type 0
Proper g = OnItsOwn g.key g

pub any-append :
    {A : Type 0} (p : A → Bool) (xs ys : List A) → any p (xs ++ ys) ≡ (any p xs || any p ys)
unfolding any
any-append p [] ys = refl
any-append p (x ∷ xs) ys = rw (any-append p xs ys) (sym (or_assoc (p x) (any p xs) (any p ys)))

pub or_left_comm : (a b c : Bool) → (a || (b || c)) ≡ (b || (a || c))
or_left_comm true true c = refl
or_left_comm true false c = refl
or_left_comm false b c = refl

turned : (a b c : Bool) → (a || (b || c)) ≡ ((b || a) || c)
turned true true c = refl
turned true false c = refl
turned false true c = refl
turned false false c = refl

or_false : (a : Bool) → (a || false) ≡ a
or_false true = refl
or_false false = refl

posting_key_own :
    (job : SearchOutbox) (o : Option ℕ) (id : ℕ) → posting_key job o ≡ of_outbox id → job.id ≡ id
posting_key_own job none id e = cc
posting_key_own job (some p) id e = cc

key_for_own :
    (job : SearchOutbox) (op : OutboxOperation) (id : ℕ)
    → key_for job op ≡ of_outbox id
    → job.id ≡ id
key_for_own job barrier id e = cc
key_for_own job upsert id e = posting_key_own job job.posting_id id e
key_for_own job delete id e = posting_key_own job job.posting_id id e

posting_key-OnItsOwn :
    (job : SearchOutbox) (o : Option ℕ) → OnItsOwn (posting_key job o) (new_group job)
posting_key-OnItsOwn job none = (refl, refl)
posting_key-OnItsOwn job (some p) = tt

new_group-Proper :
    (job : SearchOutbox) (op : OutboxOperation) → OnItsOwn (key_for job op) (new_group job)
new_group-Proper job barrier = (refl, refl)
new_group-Proper job upsert = posting_key-OnItsOwn job job.posting_id
new_group-Proper job delete = posting_key-OnItsOwn job job.posting_id

into_group-Proper :
    (k : CoalescingKey) (job : SearchOutbox) (g : RelayJob)
    → g.key ≡ k
    → Proper (into_group k job g)
into_group-Proper (of_outbox own) job g h = new_group-Proper job job.operation
into_group-Proper (of_posting p run index) job g h =
    subst
      (λ k.
        OnItsOwn k
          (record g { primary = job; superseded_ids = g.superseded_ids ++ g.primary.id ∷ [] }))
      (sym h) tt

covers-into_group :
    (k : CoalescingKey) (job : SearchOutbox) (g : RelayJob) (id : ℕ)
    → key_of job ≡ k
    → OnItsOwn k g
    → covers id (into_group k job g) ≡ (job.id == id || covers id g)
unfolding any
covers-into_group (of_outbox own) job g id e (same_id, alone) =
    let own_id = key_for_own job job.operation own e in rw (alone, same_id, own_id) (ground arith)
covers-into_group (of_posting p run index) job g id e proper =
    rw (any-append (λ i. i == id) g.superseded_ids (g.primary.id ∷ [])) (ground arith)

place-Proper : (job : SearchOutbox) (gs : List RelayJob) → All Proper gs → All Proper (place job gs)
unfolding place
place-Proper job [] h = (new_group-Proper job job.operation, tt)
place-Proper job (g ∷ gs) (h, hs) = elim (Bool-cases (keys_equal g.key (key_of job))) [
  | inl hit ↦ rw hit (into_group-Proper (key_of job) job g (keys_equal-≡ _ _ hit), hs)
  | inr miss ↦ rw miss (h, place-Proper job gs hs)
]

covers-place :
    (job : SearchOutbox) (gs : List RelayJob) (id : ℕ)
    → All Proper gs
    → any (covers id) (place job gs) ≡ (job.id == id || any (covers id) gs)
unfolding place any
covers-place job [] id h = ground arith
covers-place job (g ∷ gs) id (h, hs) = elim (Bool-cases (keys_equal g.key (key_of job))) [
  | inl hit ↦
      let own = subst (λ k. OnItsOwn k g) (keys_equal-≡ g.key (key_of job) hit) h in
      rw (hit, covers-into_group (key_of job) job g id refl own)
        (or_assoc (job.id == id) (covers id g) (any (covers id) gs))
  | inr miss ↦
      rw (miss, covers-place job gs id hs)
        (or_left_comm (covers id g) (job.id == id) (any (covers id) gs))
]

covers-coalesce_from :
    (gs : List RelayJob) (jobs : List SearchOutbox) (id : ℕ)
    → All Proper gs
    → any (covers id) (coalesce_from gs jobs)
      ≡ (any (λ i. i == id) (ids_of jobs) || any (covers id) gs)
unfolding coalesce_from any
covers-coalesce_from gs [] id h = refl
covers-coalesce_from gs (job ∷ jobs) id h =
    covers-coalesce_from (place job gs) jobs id (place-Proper job gs h)
    ∙ rw (covers-place job gs id h)
        (turned (any (λ i. i == id) (ids_of jobs)) (job.id == id) (any (covers id) gs))

-- An id is that of a claimed row exactly if one of the jobs of the batch covers it.
pub covers-coalesce_relay_jobs :
    (jobs : List SearchOutbox) (id : ℕ)
    → any (covers id) (coalesce_relay_jobs jobs) ≡ any (λ i. i == id) (ids_of jobs)
unfolding coalesce_relay_jobs any
covers-coalesce_relay_jobs jobs id =
    covers-coalesce_from [] jobs id tt ∙ or_false (any (λ i. i == id) (ids_of jobs))
