-- ===== src/Postings/Dates.antt =====
-- normalizeAvailabilityBlocks of backend/src/app/features/postings/postings.service.ts: the dates that an
-- owner blocks, in order and without an overlap. The note is any text; it is trimmed.
pub mod Apart
use fit.Common.{ℕ, Bool, false, ◌||◌, Option, none, some, List, [], ◌∷◌, ltb, leb, if◌then◌else◌}
use fit.Common.Text.{Text}
use fit.Runtime.{Result, ok, err, bad_request, block_range_invalid, blocks_overlap}
use fit.Bookings.Model.{JsDate}
use fit.Bookings.Normalize.{trimmed_or_null}

-- `PostingAvailabilityBlockInput`, its texts of dates read by `new Date`.
pub record BlockInput : Type 0 where
  pub start_at : JsDate
  pub end_at : JsDate
  pub note : Option Text

pub record BlockDates : Type 0 where
  pub start_at : ℕ
  pub end_at : ℕ
  pub note : Option Text

-- `Number.isNaN(…) || startAt >= endAt` throws.
abbrev pub valid_block : JsDate → JsDate → Option Text → Option BlockDates
valid_block none end_at written = none
valid_block (some a) none written = none
valid_block (some a) (some b) written =
    if leb b a then none else some (record { start_at = a; end_at = b; note = written })

abbrev cons_valid : Option BlockDates → Option (List BlockDates) → Option (List BlockDates)
cons_valid none rest = none
cons_valid (some b) none = none
cons_valid (some b) (some bs) = some (b ∷ bs)

unfoldable pub valid_blocks : List BlockInput → Option (List BlockDates)
valid_blocks [] = some []
valid_blocks (b ∷ bs) =
    cons_valid (valid_block b.start_at b.end_at (trimmed_or_null b.note)) (valid_blocks bs)

abbrev pub insert_block : BlockDates → List BlockDates → List BlockDates
insert_block b [] = b ∷ []
insert_block b (c ∷ cs) =
    let rest = insert_block b cs in if leb b.start_at c.start_at then b ∷ c ∷ cs else c ∷ rest

-- `sort` by the start; it is stable.
unfoldable pub sort_blocks : List BlockDates → List BlockDates
sort_blocks [] = []
sort_blocks (b ∷ bs) = insert_block b (sort_blocks bs)

-- The second loop: whether a block begins before the one in front of it ends.
abbrev pub neighbours_overlap : BlockDates → List BlockDates → Bool
neighbours_overlap previous [] = false
neighbours_overlap previous (current ∷ rest) =
    ltb current.start_at previous.end_at || neighbours_overlap current rest

abbrev pub some_overlap : List BlockDates → Bool
some_overlap [] = false
some_overlap (b ∷ bs) = neighbours_overlap b bs

abbrev pub checked : List BlockDates → Result (List BlockDates)
checked bs = if some_overlap bs then err (bad_request blocks_overlap) else ok bs

abbrev pub normalized : Option (List BlockDates) → Result (List BlockDates)
normalized none = err (bad_request block_range_invalid)
normalized (some bs) = checked (sort_blocks bs)

-- An invalid range throws, wherever the sort puts it, before overlaps are looked for.
unfoldable pub normalize_availability_blocks : List BlockInput → Result (List BlockDates)
unfolding valid_blocks sort_blocks
normalize_availability_blocks blocks = normalized (valid_blocks blocks)

abbrev the_block : Option BlockDates → Result BlockDates
the_block none = err (bad_request block_range_invalid)
the_block (some b) = ok b

-- normalizeSingleAvailabilityBlock: a list of one block has no overlap.
unfoldable pub normalize_single_availability_block : BlockInput → Result BlockDates
normalize_single_availability_block b =
    the_block (valid_block b.start_at b.end_at (trimmed_or_null b.note))
