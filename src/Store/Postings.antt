-- ===== src/Store/Postings.antt =====
-- The table profiles of backend/prisma/schema.prisma and the columns of a posting that only its owner's
-- methods read.
use fit.Common.{ℕ, Bool}

pub data AvailabilityStatus : Type 0 where
  available limited unavailable : AvailabilityStatus

-- A latitude or a longitude: its sign, the whole degrees of its absolute value and whether more than
-- those is left, which is what a comparison with a whole number tells. `not_finite` is NaN or an infinity.
pub data Coordinate : Type 0 where
  degrees : (negative : Bool) (whole : ℕ) (fraction : Bool) → Coordinate
  not_finite : Coordinate

-- The columns that count the postings of the user.
pub record Profile : Type 0 where
  pub user_id : ℕ
  pub rent_postings_count : ℕ
  pub available_rent_postings_count : ℕ
