-- ===== src/Postings/Dates/Apart.antt =====
-- The check of neighbours finds every overlap of an owner's blocks.
use fit.Common.{
  ◌≤◌, ◌<◌, ◌≡◌, refl, inl, inr, ◌⊎◌, Bool, true, false, Option, none, some, List, [], ◌∷◌, arith,
  ltb, leb, if◌then◌else◌, All, Bool-cases,
}
use mathlib.Core.Path.{subst}
use mathlib.Core.List.{Perm}
use mathlib.Core.List.Perm
use fit.Common.Rows.{All-map}
use fit.Common.Text.{Text}
use fit.Runtime.{ok, err, bad_request, blocks_overlap}
use fit.Bookings.Model.{JsDate}
use fit.Bookings.Overlap.{overlaps}
use fit.Bookings.Normalize.{trimmed_or_null}
use fit.Postings.Dates.{
  BlockInput, BlockDates, valid_block, valid_blocks, cons_valid, insert_block, sort_blocks,
  neighbours_overlap, checked, normalize_availability_blocks,
}

abbrev Nonempty : BlockDates → Type 0
Nonempty b = b.start_at < b.end_at

abbrev pub blocks_clash : BlockDates → BlockDates → Bool
blocks_clash b c = overlaps b.start_at b.end_at c.start_at c.end_at

-- No two of the blocks overlap.
abbrev pub AllApart : List BlockDates → Type 0
AllApart [] = Unit
AllApart (b ∷ bs) = All (λ c. blocks_clash b c ≡ false) bs × AllApart bs

-- By their starts.
abbrev Sorted : List BlockDates → Type 0
Sorted [] = Unit
Sorted (b ∷ bs) = All (λ c. b.start_at ≤ c.start_at) bs × Sorted bs

some-≡ : {A : Type 0} {a b : A} → some a ≡ some b → a ≡ b
some-≡ e = cc

cons_valid-Nonempty :
    (start_at end_at : JsDate) (written : Option Text) (o : Option (List BlockDates))
    (bs : List BlockDates)
    → ((rest : List BlockDates) → o ≡ some rest → All Nonempty rest)
    → cons_valid (valid_block start_at end_at written) o ≡ some bs
    → All Nonempty bs
cons_valid-Nonempty none end_at written o bs h e = cc
cons_valid-Nonempty (some a) none written o bs h e = cc
cons_valid-Nonempty (some a) (some b) written o bs h e = go (leb b a) o refl h e
  where
    go :
        (c : Bool) (o : Option (List BlockDates))
        → leb b a ≡ c
        → ((rest : List BlockDates) → o ≡ some rest → All Nonempty rest)
        → cons_valid
            (if c then none else some (record { start_at = a; end_at = b; note = written }))
            o
          ≡ some bs
        → All Nonempty bs
    go true o c h e = cc
    go false none c h e = cc
    go false (some rest) c h e = subst (All Nonempty) (some-≡ e) (ground arith, h rest refl)

valid_blocks-Nonempty :
    (inputs : List BlockInput) (bs : List BlockDates)
    → valid_blocks inputs ≡ some bs
    → All Nonempty bs
unfolding valid_blocks
valid_blocks-Nonempty [] bs e = subst (All Nonempty) (some-≡ e) tt
valid_blocks-Nonempty (b ∷ inputs) bs e =
    cons_valid-Nonempty b.start_at b.end_at (trimmed_or_null b.note) (valid_blocks inputs) bs
      (valid_blocks-Nonempty inputs) e

insert_block-All :
    (P : BlockDates → Type 0) (b : BlockDates) (bs : List BlockDates)
    → P b
    → All P bs
    → All P (insert_block b bs)
insert_block-All P b [] p h = (p, tt)
insert_block-All P b (c ∷ cs) p (h, hs) = elim (Bool-cases (leb b.start_at c.start_at)) [
  | inl first ↦ rw first (p, (h, hs))
  | inr later ↦ rw later (h, insert_block-All P b cs p hs)
]

sort_blocks-All :
    (P : BlockDates → Type 0) (bs : List BlockDates) → All P bs → All P (sort_blocks bs)
unfolding sort_blocks
sort_blocks-All P [] h = tt
sort_blocks-All P (b ∷ bs) (h, hs) = insert_block-All P b _ h (sort_blocks-All P bs hs)

insert_block-Sorted :
    (b : BlockDates) (bs : List BlockDates) → Sorted bs → Sorted (insert_block b bs)
insert_block-Sorted b [] h = (tt, tt)
insert_block-Sorted b (c ∷ cs) (h, hs) = elim (Bool-cases (leb b.start_at c.start_at)) [
  | inl first ↦
      let le : b.start_at ≤ c.start_at = ground arith in
      rw first ((le, All-map (λ d k. omega arith) cs h), (h, hs))
  | inr later ↦
      let le : c.start_at ≤ b.start_at = ground arith in
      rw later (insert_block-All _ b cs le h, insert_block-Sorted b cs hs)
]

sort_blocks-Sorted : (bs : List BlockDates) → Sorted (sort_blocks bs)
unfolding sort_blocks
sort_blocks-Sorted [] = tt
sort_blocks-Sorted (b ∷ bs) = insert_block-Sorted b _ (sort_blocks-Sorted bs)

insert_block-perm : (b : BlockDates) (bs : List BlockDates) → Perm (insert_block b bs) (b ∷ bs)
insert_block-perm b [] = Perm.rfl
insert_block-perm b (c ∷ cs) = elim (Bool-cases (leb b.start_at c.start_at)) [
  | inl first ↦ rw first Perm.rfl
  | inr later ↦ rw later (Perm.trans (Perm.cons c (insert_block-perm b cs)) (Perm.swap b c cs))
]

sort_blocks-perm : (bs : List BlockDates) → Perm (sort_blocks bs) bs
unfolding sort_blocks
sort_blocks-perm [] = Perm.rfl
sort_blocks-perm (b ∷ bs) =
    Perm.trans (insert_block-perm b (sort_blocks bs)) (Perm.cons b (sort_blocks-perm bs))

-- Where no neighbours overlap, a block ends before each later one begins.
ends_before_rest :
    (b : BlockDates) (bs : List BlockDates)
    → All Nonempty bs
    → neighbours_overlap b bs ≡ false
    → All (λ c. b.end_at ≤ c.start_at) bs
ends_before_rest b [] full clear = tt
ends_before_rest b (c ∷ cs) (h, hs) clear =
    let rest = ends_before_rest c cs hs (ground arith) in
    (ground arith, All-map (λ d k. ground arith) cs rest)

neighbours-AllApart :
    (b : BlockDates) (bs : List BlockDates)
    → All Nonempty bs
    → neighbours_overlap b bs ≡ false
    → AllApart (b ∷ bs)
neighbours-AllApart b [] full clear = (tt, tt)
neighbours-AllApart b (c ∷ cs) (h, hs) clear = (
  All-map (λ d k. ground arith) (c ∷ cs) (ends_before_rest b (c ∷ cs) (h, hs) clear),
  neighbours-AllApart c cs hs (ground arith),
)

neighbours_clash :
    (b : BlockDates) (bs : List BlockDates)
    → All Nonempty bs
    → Sorted (b ∷ bs)
    → neighbours_overlap b bs ≡ true
    → AllApart (b ∷ bs)
    → ⊥
neighbours_clash b [] full sorted clash apart = cc
neighbours_clash b (c ∷ cs) (h, hs) ((le, les), sorted) clash ((one, more), apart) =
    elim (Bool-cases (ltb c.start_at b.end_at)) [
      | inl here ↦ absurd (ground arith)
      | inr miss ↦ neighbours_clash c cs hs sorted (ground arith) apart
    ]

checked_cases :
    (bs : List BlockDates)
    → All Nonempty bs
    → Sorted bs
    → ((checked bs ≡ ok bs) × AllApart bs)
      ⊎ ((checked bs ≡ err (bad_request blocks_overlap)) × ¬ (AllApart bs))
checked_cases [] full sorted = inl (refl, tt)
checked_cases (b ∷ bs) (h, hs) sorted = elim (Bool-cases (neighbours_overlap b bs)) [
  | inl clash ↦ inr (rw clash refl, neighbours_clash b bs hs sorted clash)
  | inr clear ↦ inl (rw clear refl, neighbours-AllApart b bs hs clear)
]

-- Of blocks with valid ranges, the check returns the sorted list, with the same blocks, if no two of them
-- overlap, and throws if two do.
pub normalize_availability_blocks_exact :
    (inputs : List BlockInput) (bs : List BlockDates)
    → valid_blocks inputs ≡ some bs
    → Perm (sort_blocks bs) bs
      × (((normalize_availability_blocks inputs ≡ ok (sort_blocks bs)) × AllApart (sort_blocks bs))
          ⊎ ((normalize_availability_blocks inputs ≡ err (bad_request blocks_overlap))
              × ¬ (AllApart (sort_blocks bs))))
unfolding normalize_availability_blocks
normalize_availability_blocks_exact inputs bs valid = (
  sort_blocks-perm bs,
  rw valid (
      checked_cases (sort_blocks bs)
        (sort_blocks-All Nonempty bs (valid_blocks-Nonempty inputs bs valid))
        (sort_blocks-Sorted bs)),
)
