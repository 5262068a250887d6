-- ===== src/Samples/Valid.antt =====
-- The sample store satisfies the invariant.
use fit.Common.{
  ℕ, ◌+◌, ◌≤◌, refl, Bool, List, [], ◌∷◌, arith, any, count_if, length, Bool-cases, inl, inr,
}
use fit.Store.{Booking}
use fit.Runtime.Logic.{Steady}
use fit.Bookings.Repository.{is_active_for}
use fit.Bookings.Normalize.{duration_days_of}
use fit.Bookings.Machine.{IsSound}
use fit.Bookings.Machine.Invariant.{Inv}
use fit.Samples.{day, two_days, store, world}

count_if-le : (p : Booking → Bool) (bs : List Booking) → count_if p bs ≤ length bs
unfolding count_if
count_if-le p [] = omega arith
count_if-le p (b ∷ bs) = elim (Bool-cases (p b)) [
  | inl e ↦ rw e (omega (arith, count_if-le p bs))
  | inr e ↦ rw e (omega (arith, count_if-le p bs))
]

pub two_days-IsSound : (n : ℕ) → IsSound (two_days (day n) (day (n + 2)))
unfolding duration_days_of
two_days-IsSound n = record {
  range = omega arith;
  duration = omega arith;
  whole_days = omega arith;
  guests = (2, refl, omega arith, omega arith);
  short_note = tt;
  daily = refl;
  total = refl;
}

pub store-Inv : Inv store
unfolding any
store-Inv = record {
  core = record {
    unique = (refl, (refl, tt));
    sound = (two_days-IsSound 10, (two_days-IsSound 20, tt));
    disjoint = tt;
    one_each = tt;
  };
  capped = λ p r. count_if-le (is_active_for p r) store.bookings;
}

pub world-Steady : (start : ℕ) → Steady Inv (world start)
world-Steady start = record { here = store-Inv; others = λ i s h. h }
