-- ===== src/Search/Relay/Coalescing.antt =====
-- What the relay makes of a batch: one job for each posting, run and index.
use fit.Common.{
  ℕ, ◌≡◌, refl, ◌∙◌, inl, inr, Bool, true, false, Option, none, some, List, [], ◌∷◌, ◌++◌, arith,
  find, select, All, Bool-cases,
}
use mathlib.Core.List.{append-nil, append_assoc}
use fit.Store.Search.{SearchOutbox}
use fit.Search.Outbox.{same, ids_of}
use fit.Search.Relay.{
  CoalescingKey, of_outbox, of_posting, keys_equal, key_of, RelayJob, new_group, into_group, place,
  coalesce_from, coalesce_relay_jobs,
}

same-≡ : (a b : Option ℕ) → same a b ≡ true → a ≡ b
same-≡ none none e = refl
same-≡ none (some b) e = cc
same-≡ (some a) none e = cc
same-≡ (some a) (some b) e = ground arith

pub keys_equal-≡ : (k l : CoalescingKey) → keys_equal k l ≡ true → k ≡ l
keys_equal-≡ (of_outbox a) (of_outbox b) e = ground arith
keys_equal-≡ (of_outbox a) (of_posting q run' index') e = cc
keys_equal-≡ (of_posting p run index) (of_outbox b) e = cc
keys_equal-≡ (of_posting p run index) (of_posting q run' index') e =
    ground (arith, same-≡ run run', same-≡ index index')

same_refl : (a : Option ℕ) → same a a ≡ true
same_refl none = refl
same_refl (some a) = ground arith

pub keys_equal_refl : (k : CoalescingKey) → keys_equal k k ≡ true
keys_equal_refl (of_outbox a) = ground arith
keys_equal_refl (of_posting p run index) = rw (same_refl run, same_refl index) ground arith

abbrev pub is_under : CoalescingKey → RelayJob → Bool
is_under k g = keys_equal g.key k

-- A posting's group as the jobs of its key make it, one after the other.
abbrev merged : CoalescingKey → Option RelayJob → SearchOutbox → RelayJob
merged k none job = new_group job
merged k (some g) job = into_group k job g

abbrev fold_into : CoalescingKey → Option RelayJob → List SearchOutbox → Option RelayJob
fold_into k o [] = o
fold_into k o (job ∷ jobs) = fold_into k (some (merged k o job)) jobs

-- The key is of the job that comes in.
into_group-key :
    (job : SearchOutbox) (g : RelayJob) (k : CoalescingKey)
    → key_of job ≡ k
    → g.key ≡ k
    → (into_group k job g).key ≡ k
into_group-key job g (of_outbox id) e h = e
into_group-key job g (of_posting p run index) e h = h

find-place :
    (k : CoalescingKey) (job : SearchOutbox) (gs : List RelayJob)
    → key_of job ≡ k
    → find (is_under k) (place job gs) ≡ some (merged k (find (is_under k) gs) job)
unfolding place find
find-place k job [] e = rw (e, keys_equal_refl k) refl
find-place k job (g ∷ gs) e = elim (Bool-cases (keys_equal g.key k)) [
  | inl hit ↦
      let stays = into_group-key job g k e (keys_equal-≡ g.key k hit) in
      rw (e, hit) (rw (stays, keys_equal_refl k) refl)
  | inr miss ↦ rw (e, miss) (rw (miss, find-place k job gs e) refl)
]

find-place-miss :
    (k : CoalescingKey) (job : SearchOutbox) (gs : List RelayJob)
    → keys_equal (key_of job) k ≡ false
    → find (is_under k) (place job gs) ≡ find (is_under k) gs
unfolding place find
find-place-miss k job [] e = rw e refl
find-place-miss k job (g ∷ gs) e = elim (Bool-cases (keys_equal g.key (key_of job))) [
  | inl hit ↦
      let of_job = keys_equal-≡ g.key (key_of job) hit in
      let stays = into_group-key job g (key_of job) refl of_job in
      rw hit (rw (stays, of_job, e) refl)
  | inr miss ↦ rw (miss, find-place-miss k job gs e) refl
]

find-coalesce_from :
    (k : CoalescingKey) (gs : List RelayJob) (jobs : List SearchOutbox)
    → find (is_under k) (coalesce_from gs jobs)
      ≡ fold_into k (find (is_under k) gs) (select (λ j. keys_equal (key_of j) k) jobs)
unfolding coalesce_from select
find-coalesce_from k gs [] = refl
find-coalesce_from k gs (job ∷ jobs) = elim (Bool-cases (keys_equal (key_of job) k)) [
  | inl hit ↦
      rw
        (
          hit,
          find-coalesce_from k (place job gs) jobs,
          find-place k job gs (keys_equal-≡ (key_of job) k hit),
        )
        refl
  | inr miss ↦
      rw (miss, find-coalesce_from k (place job gs) jobs, find-place-miss k job gs miss) refl
]

-- The last of the jobs, and the jobs before it.
abbrev pub last_from : SearchOutbox → List SearchOutbox → SearchOutbox
last_from job [] = job
last_from job (next ∷ jobs) = last_from next jobs

abbrev pub before_last : SearchOutbox → List SearchOutbox → List SearchOutbox
before_last job [] = []
before_last job (next ∷ jobs) = job ∷ before_last next jobs

unfoldable pub group_of : CoalescingKey → List SearchOutbox → Option RelayJob
group_of k [] = none
group_of k (job ∷ jobs) = some (record {
  key = k;
  primary = last_from job jobs;
  superseded_ids = ids_of (before_last job jobs);
})

fold_into-some :
    (p : ℕ) (run index : Option ℕ) (g : RelayJob) (jobs : List SearchOutbox)
    → fold_into (of_posting p run index) (some g) jobs
      ≡ some (record g {
        primary = last_from g.primary jobs;
        superseded_ids = g.superseded_ids ++ ids_of (before_last g.primary jobs);
      })
fold_into-some p run index g [] = rw (append-nil g.superseded_ids) refl
fold_into-some p run index g (job ∷ jobs) =
    fold_into-some p run index (into_group (of_posting p run index) job g) jobs
    ∙ rw (append_assoc g.superseded_ids (g.primary.id ∷ []) (ids_of (before_last job jobs))) refl

fold_into-none :
    (p : ℕ) (run index : Option ℕ) (jobs : List SearchOutbox)
    → All (λ j. keys_equal (key_of j) (of_posting p run index) ≡ true) jobs
    → fold_into (of_posting p run index) none jobs ≡ group_of (of_posting p run index) jobs
unfolding group_of
fold_into-none p run index [] h = refl
fold_into-none p run index (job ∷ jobs) (h, hs) =
    fold_into-some p run index (new_group job) jobs
    ∙ rw (keys_equal-≡ (key_of job) (of_posting p run index) h) refl

pub select-All : {A : Type 0} (p : A → Bool) (xs : List A) → All (λ x. p x ≡ true) (select p xs)
unfolding select
select-All p [] = tt
select-All p (x ∷ xs) = elim (Bool-cases (p x)) [
  | inl hit ↦ rw hit (hit, select-All p xs)
  | inr miss ↦ rw miss (select-All p xs)
]

-- For each posting, run and index, the batch makes the one job that its claimed rows call for: none where
-- there is no row, and else the last row in the order of the claim, which supersedes the rows before it.
pub find-coalesce_relay_jobs :
    (jobs : List SearchOutbox) (posting_id : ℕ) (run index : Option ℕ)
    → let k = of_posting posting_id run index in
      find (is_under k) (coalesce_relay_jobs jobs)
      ≡ group_of k (select (λ j. keys_equal (key_of j) k) jobs)
unfolding coalesce_relay_jobs find
find-coalesce_relay_jobs jobs posting_id run index =
    let k = of_posting posting_id run index in
    find-coalesce_from k [] jobs
    ∙ fold_into-none posting_id run index _ (select-All (λ j. keys_equal (key_of j) k) jobs)
