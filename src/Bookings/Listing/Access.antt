-- ===== src/Bookings/Listing/Access.antt =====
-- Whose booking requests a page shows.
use fit.Common.{
  ℕ, zero, suc, ◌≤◌, ◌≡◌, ◌⊎◌, refl, inl, inr, Bool, true, List, [], ◌∷◌, arith, Bool-cases, All,
  select, take, drop, length,
}
use fit.Store.{Booking}
use fit.Runtime.{posting_not_found, no_posting_access, Error, forbidden, not_found, World, visit}
use fit.Runtime.Logic.{Any}
use fit.Runtime.Outcomes.{
  Outcome, Ends, visit-Ends, pure-Ends, require-Ends, bind-Ends, weaken-Ends, throw_if-Ends,
}
use fit.Bookings.Validation.{find_posting}
use fit.Bookings.Listing.{
  ListOwnerBookingRequestsInput, is_owners, is_newer, insert_newest, newest_first, page_of,
  find_page, count_rows, list_by_owner_and_posting, list_for_owner_posting,
}

module _ (row : Booking → Bool) where
  abbrev AllPass : List Booking → Type 0
  AllPass = All (λ b. row b ≡ true)

  select-AllPass : (bs : List Booking) → AllPass (select row bs)
  unfolding select
  select-AllPass [] = tt
  select-AllPass (b ∷ bs) = elim (Bool-cases (row b)) [
    | inl e ↦ rw e (e, select-AllPass bs)
    | inr e ↦ rw e (select-AllPass bs)
  ]

  insert_newest-AllPass :
      (rank : ℕ → ℕ) (b : Booking) (bs : List Booking)
      → row b ≡ true
      → AllPass bs
      → AllPass (insert_newest rank b bs)
  unfolding insert_newest
  insert_newest-AllPass rank b [] e h = (e, tt)
  insert_newest-AllPass rank b (c ∷ cs) e (p, h) = elim (Bool-cases (is_newer rank b c)) [
    | inl k ↦ rw k (e, (p, h))
    | inr k ↦ rw k (p, insert_newest-AllPass rank b cs e h)
  ]

  newest_first-AllPass :
      (rank : ℕ → ℕ) (bs : List Booking) → AllPass bs → AllPass (newest_first rank bs)
  unfolding newest_first
  newest_first-AllPass rank [] h = tt
  newest_first-AllPass rank (b ∷ bs) (e, h) =
      insert_newest-AllPass rank b _ e (newest_first-AllPass rank bs h)

  drop-AllPass : (n : ℕ) (bs : List Booking) → AllPass bs → AllPass (drop n bs)
  drop-AllPass zero bs h = h
  drop-AllPass (suc n) [] h = tt
  drop-AllPass (suc n) (b ∷ bs) (e, h) = drop-AllPass n bs h

  take-AllPass : (n : ℕ) (bs : List Booking) → AllPass bs → AllPass (take n bs)
  take-AllPass zero bs h = tt
  take-AllPass (suc n) [] h = tt
  take-AllPass (suc n) (b ∷ bs) (e, h) = (e, take-AllPass n bs h)

length-take : (n : ℕ) (bs : List Booking) → length (take n bs) ≤ n
length-take zero bs = omega arith
length-take (suc n) [] = omega arith
length-take (suc n) (b ∷ bs) = omega (arith, length-take n bs)

-- A page of the owner's requests for the posting.
pub record IsOwnersPage (input : ListOwnerBookingRequestsInput) (bs : List Booking) : Type 0 where
  pub own : All (λ b. is_owners input b ≡ true) bs
  pub short : length bs ≤ input.page_size

-- The errors of a list for a posting.
abbrev pub NoAccess : Error → Type 0
NoAccess e = (e ≡ not_found posting_not_found) ⊎ (e ≡ forbidden no_posting_access)

find_page-Ends :
    (input : ListOwnerBookingRequestsInput)
    → Ends
        (visit (find_page (is_owners input) input.page input.page_size))
        (IsOwnersPage input)
        NoAccess
unfolding find_page page_of
find_page-Ends input = visit-Ends _ λ t s. record {
  own = take-AllPass _ _ _ (
      drop-AllPass _ _ _
        (newest_first-AllPass _ _ _ (select-AllPass (is_owners input) s.bookings)));
  short = length-take input.page_size _;
}

list_by_owner_and_posting-Ends :
    (input : ListOwnerBookingRequestsInput)
    → Ends (list_by_owner_and_posting input) (λ r. IsOwnersPage input r.booking_requests) NoAccess
unfolding list_by_owner_and_posting count_rows
list_by_owner_and_posting-Ends input =
    bind-Ends (find_page-Ends input)
      λ rows h. bind-Ends {Q = Any} (visit-Ends _ λ t s. tt) λ total _. pure-Ends _ h

list-Ends :
    (input : ListOwnerBookingRequestsInput)
    → Ends (list_for_owner_posting input) (λ r. IsOwnersPage input r.booking_requests) NoAccess
unfolding list_for_owner_posting find_posting
list-Ends input = bind-Ends {Q = Any} (visit-Ends _ λ t s. tt) λ found _.
    bind-Ends {Q = Any} (weaken-Ends (require-Ends found _ (inl refl)) (λ p e. tt) (λ e h. h))
      λ posting _.
        bind-Ends (throw_if-Ends _ _ (inr refl)) λ _ _. list_by_owner_and_posting-Ends input

-- Whatever others do, a list for a posting ends in the error of a missing posting or of one that is not
-- the owner's, or answers with at most a page of requests, each for the posting and the owner's, and
-- with the status that was asked for.
pub list_for_owner_posting_access :
    (input : ListOwnerBookingRequestsInput) (w : World)
    → Outcome
        (λ r. IsOwnersPage input r.booking_requests)
        NoAccess
        (list_for_owner_posting input w).0
list_for_owner_posting_access input w = (list-Ends input).at w
