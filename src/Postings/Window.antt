-- ===== src/Postings/Window.antt =====
-- What the lock of the booking window is for: an owner's new block takes free dates.
use fit.Common.{ℕ, ◌≡◌, refl, Bool, false, ◌&&◌, none, List, [], ◌∷◌, arith, ◌==◌, any, All}
use fit.Common.Rows.{All-map, any-false}
use fit.Store.{Block, Store}
use fit.Runtime.{Error, Turn, World, transaction, ok}
use fit.Runtime.Transaction.{write, give, ◌>>=◌}
use fit.Runtime.Rely.{Outcome, Stable, Goes, pure-Goes, visit-Goes, throw_if-Goes, bind-Goes}
use fit.Bookings.Messages.{send}
use fit.Bookings.Overlap.{overlaps, rents}
use fit.Search.Enqueue.{enqueue_outbox}
use fit.Postings.Dates.{BlockDates}
use fit.Postings.Blocks.{
  is_owner, new_block, create_owner_availability_block, is_in_the_way,
  has_owner_availability_block_overlap, has_active_booking_availability_conflict,
  has_renting_availability_conflict,
}
use fit.Postings.Availability.{
  assert_no, assert_availability_block_can_be_written, create_block_locked,
}

-- Two blocks of the owner of one posting that overlap.
abbrev pub owners_clash : Block → Block → Bool
owners_clash b c =
    is_owner b.source
    && is_owner c.source
    && c.posting_id == b.posting_id
    && overlaps c.start_at c.end_at b.start_at b.end_at

abbrev pub NoClash : List Block → Type 0
NoClash [] = Unit
NoClash (b ∷ bs) = All (λ c. owners_clash b c ≡ false) bs × NoClash bs

-- No two blocks of owners overlap.
unfoldable pub Disjoint : Store → Type 0
Disjoint s = NoClash s.blocks

-- The dates are free of the owner's blocks.
unfoldable pub Clear : (posting_id start_at end_at : ℕ) → Store → Type 0
Clear posting_id start_at end_at s =
    any (is_in_the_way posting_id start_at end_at none) s.blocks ≡ false

-- They are free of rentings.
unfoldable pub Unrented : (posting_id start_at end_at : ℕ) → Store → Type 0
Unrented posting_id start_at end_at s = any (rents posting_id start_at end_at) s.rentings ≡ false

-- The other requests respect the window: they let no owner's blocks overlap, and take none of the dates
-- while those are free.
pub record Respects (posting_id start_at end_at : ℕ) (turns : ℕ → Turn) : Type 0 where
  pub disjoint : Stable turns Disjoint
  pub clear : Stable turns (Clear posting_id start_at end_at)
  pub unrented : Stable turns (Unrented posting_id start_at end_at)

new_block-NoClash :
    (posting_id : ℕ) (input : BlockDates) (t : Turn) (bs : List Block)
    → any (is_in_the_way posting_id input.start_at input.end_at none) bs ≡ false
    → NoClash bs
    → NoClash (new_block posting_id input t ∷ bs)
new_block-NoClash posting_id input t bs clear h =
    (All-map (λ c e. ground arith) bs (any-false _ bs clear), h)

module _ (posting_id : ℕ) (input : BlockDates) (turns : ℕ → Turn)
    (respects : Respects posting_id input.start_at input.end_at turns) where
  abbrev Reserved : Store → Type 0
  Reserved s = Disjoint s × Clear posting_id input.start_at input.end_at s

  abbrev Available : Store → Type 0
  Available s = Reserved s × Unrented posting_id input.start_at input.end_at s

  Reserved-Stable : Stable turns Reserved
  Reserved-Stable i s (d, c) = (respects.disjoint i s d, respects.clear i s c)

  Available-Stable : Stable turns Available
  Available-Stable i s (r, u) = (Reserved-Stable i s r, respects.unrented i s u)

  -- A check that passes has found nothing.
  assert_no-Goes :
      (P Q : Store → Type 0) (f : Turn → Store → Bool) (e : Error)
      → Stable turns P
      → ((s : Store) → P s → Disjoint s)
      → ((t : Turn) (s : Store) → P s → f t s ≡ false → Q s)
      → Goes turns P (assert_no (λ t s. (ok (f t s), s)) e) (λ _. Q) Disjoint
  unfolding assert_no
  assert_no-Goes P Q f e stable bad good =
      bind-Goes turns {mid = λ b s. P s × (b ≡ false → Q s)}
        (visit-Goes turns _ stable λ t s p. (p, good t s p))
        λ b. throw_if-Goes turns b e (λ s (p, h). bad s p) λ s clear (p, h). h clear

  assert_availability_block_can_be_written-Goes :
      Goes turns Disjoint
        (assert_availability_block_can_be_written posting_id input none)
        (λ _. Available)
        Disjoint
  unfolding assert_availability_block_can_be_written has_owner_availability_block_overlap
      has_active_booking_availability_conflict has_renting_availability_conflict Clear Unrented
  assert_availability_block_can_be_written-Goes =
      bind-Goes turns {mid = λ _. Reserved}
        (assert_no-Goes Disjoint Reserved _ _ respects.disjoint (λ s d. d)
          λ t s d clear. (d, clear))
        λ _.
          bind-Goes turns {mid = λ _. Reserved}
            (assert_no-Goes Reserved Reserved _ _ Reserved-Stable (λ s r. r.0) λ t s r free. r)
            λ _.
              assert_no-Goes Reserved Available _ _ Reserved-Stable (λ s r. r.0)
                λ t s r free. (r, free)

  -- The block has the dates that were asked for, and no renting is on them.
  abbrev pub Granted : Block → Store → Type 0
  Granted b s =
      (Disjoint s × Unrented posting_id input.start_at input.end_at s)
      × ((b.start_at ≡ input.start_at) × (b.end_at ≡ input.end_at))

  create_block_locked-Goes :
      Goes turns Disjoint (create_block_locked posting_id input) Granted Disjoint
  unfolding create_block_locked create_owner_availability_block transaction ◌>>=◌ write give
      enqueue_outbox send Disjoint Clear Unrented
  create_block_locked-Goes =
      bind-Goes turns {mid = λ _. Available} assert_availability_block_can_be_written-Goes λ _.
        bind-Goes turns {mid = Granted}
          (visit-Goes turns _ Available-Stable λ t s ((d, c), u).
            ((new_block-NoClash posting_id input t s.blocks c d, u), (refl, refl)))
          λ b.
            bind-Goes turns {mid = λ _. Granted b}
              (visit-Goes turns _
                (λ i s ((d, u), same). ((respects.disjoint i s d, respects.unrented i s u), same))
                λ t s h. h)
              λ _. pure-Goes turns b λ s h. h

-- Among requests that respect the window, an owner's new block never overlaps another: no two blocks of
-- owners overlap at the end, however the call ends, and a call that returns gives a block with the dates that
-- were asked for, on which there is no renting.
pub create_block_locked-Disjoint :
    (posting_id : ℕ) (input : BlockDates) (w : World)
    → Respects posting_id input.start_at input.end_at w.turns
    → Disjoint w.store
    → Outcome
        (λ b s.
          (Disjoint s × Unrented posting_id input.start_at input.end_at s)
          × ((b.start_at ≡ input.start_at) × (b.end_at ≡ input.end_at)))
        Disjoint
        (create_block_locked posting_id input w).0
        (create_block_locked posting_id input w).1.store
create_block_locked-Disjoint posting_id input w respects h =
    ((create_block_locked-Goes posting_id input w.turns respects).at w refl h).1
