-- ===== src/Search/Claims.antt =====
-- A claim on rows of the search outbox excludes the others for five minutes.
use fit.Common.{
  ℕ, zero, suc, ◌+◌, ◌≤◌, ◌≡◌, refl, sym, inl, inr, Bool, true, false, ◌&&◌, ◌||◌, Option, none,
  some, List, [], ◌∷◌, arith, ltb, ◌==◌, take, any, find, select, update, All, Bool-cases,
}
use fit.Common.Rows.{All-map, find-true}
use mathlib.Core.Path.{subst}
use fit.Store.{Store}
use fit.Store.Search.{SearchOutbox}
use fit.Runtime.{ok, Turn}
use fit.Search.Outbox.{
  has_entry_id, is_among, ids_of, claim_milliseconds, is_claimable, is_ready, comes_before,
  insert_entry, sort_entries, if_found, rows_of, ready_ids, claim_row, claim_search_outbox_batch,
}

-- Every row of the ids is claimed since `now`.
unfoldable pub Claimed : (ids : List ℕ) (now : ℕ) → Store → Type 0
Claimed ids now s = All (λ e. is_among ids e ≡ true → e.processing_at ≡ some now) s.outbox

or_intro : (a : Bool) {b : Bool} → b ≡ true → (a || b) ≡ true
or_intro true h = refl
or_intro false h = h

-- Whether a row of the id is ready.
abbrev is_ready_id : (now : ℕ) → List SearchOutbox → ℕ → Bool
is_ready_id now rows id = any (λ e. is_ready now e && e.id == id) rows

ready_rows :
    (now : ℕ) (rows : List SearchOutbox)
    → All (λ e. is_ready now e ≡ true → is_ready_id now rows e.id ≡ true) rows
unfolding any
ready_rows now [] = tt
ready_rows now (e ∷ es) = (
  λ ready. ground arith,
  All-map (λ d h ready. or_intro (is_ready now e && e.id == d.id) (h ready)) es (ready_rows now es),
)

select-All-if :
    (p : SearchOutbox → Bool) (Q : SearchOutbox → Type 0) (es : List SearchOutbox)
    → All (λ e. p e ≡ true → Q e) es
    → All Q (select p es)
unfolding select
select-All-if p Q [] h = tt
select-All-if p Q (e ∷ es) (h, hs) = elim (Bool-cases (p e)) [
  | inl hit ↦ rw hit (h hit, select-All-if p Q es hs)
  | inr miss ↦ rw miss (select-All-if p Q es hs)
]

insert_entry-All :
    (P : SearchOutbox → Type 0) (e : SearchOutbox) (es : List SearchOutbox)
    → P e
    → All P es
    → All P (insert_entry e es)
insert_entry-All P e [] p h = (p, tt)
insert_entry-All P e (d ∷ ds) p (h, hs) = elim (Bool-cases (comes_before e d)) [
  | inl hit ↦ rw hit (p, (h, hs))
  | inr miss ↦ rw miss (h, insert_entry-All P e ds p hs)
]

sort_entries-All :
    (P : SearchOutbox → Type 0) (es : List SearchOutbox) → All P es → All P (sort_entries es)
unfolding sort_entries
sort_entries-All P [] h = tt
sort_entries-All P (e ∷ es) (h, hs) = insert_entry-All P e _ h (sort_entries-All P es hs)

take-All :
    (P : SearchOutbox → Type 0) (n : ℕ) (es : List SearchOutbox) → All P es → All P (take n es)
take-All P zero es h = tt
take-All P (suc n) [] h = tt
take-All P (suc n) (e ∷ es) (h, hs) = (h, take-All P n es hs)

ids_of-All : (P : ℕ → Type 0) (es : List SearchOutbox) → All (λ e. P e.id) es → All P (ids_of es)
ids_of-All P [] h = tt
ids_of-All P (e ∷ es) (h, hs) = (h, ids_of-All P es hs)

if_found-All :
    (P : ℕ → Type 0) (id : ℕ) (o : Option SearchOutbox) (rows rest : List SearchOutbox)
    → find (has_entry_id id) rows ≡ o
    → P id
    → All (λ e. P e.id) rest
    → All (λ e. P e.id) (if_found o rest)
if_found-All P id none rows rest found p h = h
if_found-All P id (some e) rows rest found p h =
    let same_id : id ≡ e.id = ground (arith, find-true (has_entry_id id) rows e found) in
    (subst P same_id p, h)

-- The rows of ids have these ids.
rows_of-All :
    (P : ℕ → Type 0) (ids : List ℕ) (rows : List SearchOutbox)
    → All P ids
    → All (λ e. P e.id) (rows_of ids rows)
unfolding rows_of
rows_of-All P [] rows h = tt
rows_of-All P (id ∷ ids) rows (p, h) =
    if_found-All P id (find (has_entry_id id) rows) rows (rows_of ids rows) refl p
      (rows_of-All P ids rows h)

ready_ids-All :
    (limit now : ℕ) (rows : List SearchOutbox)
    → All (λ id. is_ready_id now rows id ≡ true) (ready_ids limit now rows)
unfolding ready_ids
ready_ids-All limit now rows =
    let P = λ (e : SearchOutbox). is_ready_id now rows e.id ≡ true in
    ids_of-All _ _ (
      take-All P limit _
        (sort_entries-All P _ (select-All-if (is_ready now) P rows (ready_rows now rows))))

-- A row that is claimed at `now` is not ready before the claim is over.
claimed_not_ready :
    (id : ℕ) (ids : List ℕ) (now now' : ℕ) (rows : List SearchOutbox)
    → now' ≤ now + claim_milliseconds
    → any (λ i. i == id) ids ≡ true
    → All (λ e. is_among ids e ≡ true → e.processing_at ≡ some now) rows
    → is_ready_id now' rows id ≡ true
    → ⊥
unfolding any
claimed_not_ready id ids now now' [] soon among h ready = cc
claimed_not_ready id ids now now' (e ∷ es) soon among (h, hs) ready =
    elim (Bool-cases (is_ready now' e && e.id == id)) [
      | inl hit ↦
          let same_id : e.id ≡ id = ground arith in
          let claimed = h (subst (λ x. any (λ i. i == x) ids ≡ true) (sym same_id) among) in
          let free : is_claimable now' e.processing_at ≡ true = ground arith in
          let over : ltb (now + claim_milliseconds) now' ≡ true =
            subst (λ o. is_claimable now' o ≡ true) claimed free in
          ground arith
      | inr miss ↦ claimed_not_ready id ids now now' es soon among hs (ground arith)
    ]

among_own : (ids : List ℕ) → All (λ i. any (λ j. j == i) ids ≡ true) ids
unfolding any
among_own [] = tt
among_own (id ∷ ids) = (ground arith, All-map (λ i h. or_intro (id == i) h) ids (among_own ids))

pick :
    (P : ℕ → Type 0) (id : ℕ) (es : List SearchOutbox)
    → All (λ e. P e.id) es
    → any (λ i. i == id) (ids_of es) ≡ true
    → P id
unfolding any
pick P id [] h among = cc
pick P id (e ∷ es) (h, hs) among = elim (Bool-cases (e.id == id)) [
  | inl hit ↦ let same_id : e.id ≡ id = ground arith in subst P same_id h
  | inr miss ↦ pick P id es hs (ground arith)
]

-- The ids of rows of ids are among them.
among-rows_of :
    (id : ℕ) (ids : List ℕ) (rows : List SearchOutbox)
    → any (λ i. i == id) (ids_of (rows_of ids rows)) ≡ true
    → any (λ i. i == id) ids ≡ true
among-rows_of id ids rows =
    let P = λ (i : ℕ). any (λ j. j == i) ids ≡ true in
    pick P id (rows_of ids rows) (rows_of-All P ids rows (among_own ids))

update-Claimed :
    (ids : List ℕ) (now : ℕ) (es : List SearchOutbox)
    → All
        (λ e. is_among ids e ≡ true → e.processing_at ≡ some now)
        (update (is_among ids) (claim_row now) es)
unfolding update
update-Claimed ids now [] = tt
update-Claimed ids now (e ∷ es) = elim (Bool-cases (is_among ids e)) [
  | inl hit ↦ rw hit ((λ among. refl), update-Claimed ids now es)
  | inr miss ↦ rw miss ((λ among. absurd (ground arith)), update-Claimed ids now es)
]

false_unless : (b : Bool) → (b ≡ true → ⊥) → b ≡ false
false_unless true h = absurd (h refl)
false_unless false h = refl

ok-≡ : {A : Type 0} {a b : A} → ok a ≡ ok b → a ≡ b
ok-≡ e = cc

-- Rows that a claim gives are claimed, and as long as they are, another claim within five minutes gives
-- none of them.
pub claim_search_outbox_batch_excludes :
    (limit limit' : ℕ) (t t' : Turn) (s s' : Store) (rows rows' : List SearchOutbox)
    → (claim_search_outbox_batch limit t s).0 ≡ ok rows
    → ((ids : List ℕ)
        → Claimed ids t.now (claim_search_outbox_batch limit t s).1
        → Claimed ids t.now s')
    → t'.now ≤ t.now + claim_milliseconds
    → (claim_search_outbox_batch limit' t' s').0 ≡ ok rows'
    → All (λ e. is_among (ids_of rows) e ≡ false) rows'
unfolding claim_search_outbox_batch Claimed
claim_search_outbox_batch_excludes limit limit' t t' s s' rows rows' given kept soon given' =
    let ids = ready_ids limit t.now s.outbox in
    let ids' = ready_ids limit' t'.now s'.outbox in
    let held = kept ids (update-Claimed ids t.now s.outbox) in
    let ready =
      rows_of-All (λ id. is_ready_id t'.now s'.outbox id ≡ true) ids'
        (update (is_among ids') (claim_row t'.now) s'.outbox)
        (ready_ids-All limit' t'.now s'.outbox) in
    subst (All λ e. is_among (ids_of rows) e ≡ false) (ok-≡ given') (
      All-map
        (λ e r. false_unless _ λ among.
          claimed_not_ready e.id ids t.now t'.now s'.outbox soon
            (among-rows_of e.id ids _
              (subst (λ l. is_among (ids_of l) e ≡ true) (sym (ok-≡ given)) among))
            held r)
        _ ready)
