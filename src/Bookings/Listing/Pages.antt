-- ===== src/Bookings/Listing/Pages.antt =====
-- The pages of a list, one after the other.
use fit.Common.{
  ℕ, zero, suc, ◌+◌, ◌-◌, ◌*◌, ◌/◌, ◌≤◌, ◌<◌, ◌≡◌, ◌≢◌, refl, ap, sym, ◌∙◌, inl, inr, Bool, List,
  [], ◌∷◌, ◌++◌, arith, leb, Bool-cases, count_if, select, take, drop, length, All,
}
use mathlib.Core.List.{Perm}
use mathlib.Core.List.Perm
use fit.Common.Rows.{All-map}
use fit.Store.{Booking, Store}
use fit.Runtime.{Result, ok, err, Turn}
use fit.Bookings.Listing.{
  total_pages_of, create_pagination, is_newer, insert_newest, newest_first, page_of, find_page,
}

module _ {ℓ} {A : Type ℓ} where
  take_nil : (n : ℕ) → (let none_left : List A = [] in take n none_left) ≡ []
  take_nil zero = refl
  take_nil (suc n) = refl

  take-drop : (m n : ℕ) (xs : List A) → take m xs ++ take n (drop m xs) ≡ take (m + n) xs
  take-drop zero n xs = let e : 0 + n ≡ n = omega arith in rw e refl
  take-drop (suc m) n [] = ap (λ ys. ys) (take_nil n ∙ sym (take_nil (suc m + n)))
  take-drop (suc m) n (x ∷ xs) =
      let e : suc m + n ≡ suc (m + n) = omega arith in rw e (ap (λ ys. x ∷ ys) (take-drop m n xs))

  take_all : (n : ℕ) (xs : List A) → length xs ≤ n → take n xs ≡ xs
  take_all zero [] h = refl
  take_all zero (x ∷ xs) h = absurd (omega arith)
  take_all (suc n) [] h = refl
  take_all (suc n) (x ∷ xs) h = ap (λ ys. x ∷ ys) (take_all n xs (omega arith))

at_most_one :
    (total page_size pages : ℕ) → pages ≤ 1 → total ≤ pages * page_size → total ≤ 1 * page_size
at_most_one total page_size zero h e = omega arith
at_most_one total page_size (suc zero) h e = e
at_most_one total page_size (suc (suc n)) h e = absurd (omega arith)

enough_pages :
    (total page_size : ℕ) → 1 ≤ page_size → total ≤ total_pages_of total page_size * page_size
enough_pages total page_size h =
    let pages : ℕ = (total + (page_size - 1)) / page_size in
    let enough : total ≤ pages * page_size = omega arith in
    elim (Bool-cases (leb pages 1)) [
      | inl e ↦ rw e (at_most_one total page_size pages (ground arith) enough)
      | inr e ↦ rw e enough
    ]

insert_newest-Perm :
    (rank : ℕ → ℕ) (b : Booking) (bs : List Booking) → Perm (insert_newest rank b bs) (b ∷ bs)
unfolding insert_newest
insert_newest-Perm rank b [] = Perm.rfl
insert_newest-Perm rank b (c ∷ cs) = elim (Bool-cases (is_newer rank b c)) [
  | inl e ↦ rw e Perm.rfl
  | inr e ↦ rw e (Perm.trans (Perm.cons c (insert_newest-Perm rank b cs)) (Perm.swap b c cs))
]

newest_first-Perm : (rank : ℕ → ℕ) (bs : List Booking) → Perm (newest_first rank bs) bs
unfolding newest_first
newest_first-Perm rank [] = Perm.rfl
newest_first-Perm rank (b ∷ bs) =
    Perm.trans (insert_newest-Perm rank b (newest_first rank bs))
      (Perm.cons b (newest_first-Perm rank bs))

length-insert_newest :
    (rank : ℕ → ℕ) (b : Booking) (bs : List Booking)
    → length (insert_newest rank b bs) ≡ suc (length bs)
unfolding insert_newest
length-insert_newest rank b [] = refl
length-insert_newest rank b (c ∷ cs) = elim (Bool-cases (is_newer rank b c)) [
  | inl e ↦ rw e refl
  | inr e ↦ rw e (ap suc (length-insert_newest rank b cs))
]

length-newest_first : (rank : ℕ → ℕ) (bs : List Booking) → length (newest_first rank bs) ≡ length bs
unfolding newest_first
length-newest_first rank [] = refl
length-newest_first rank (b ∷ bs) =
    length-insert_newest rank b (newest_first rank bs) ∙ ap suc (length-newest_first rank bs)

insert_newest-All :
    (P : Booking → Type 0) (rank : ℕ → ℕ) (b : Booking) (bs : List Booking)
    → P b
    → All P bs
    → All P (insert_newest rank b bs)
unfolding insert_newest
insert_newest-All P rank b [] p h = (p, tt)
insert_newest-All P rank b (c ∷ cs) p (q, h) = elim (Bool-cases (is_newer rank b c)) [
  | inl e ↦ rw e (p, (q, h))
  | inr e ↦ rw e (q, insert_newest-All P rank b cs p h)
]

newest_first-All :
    (P : Booking → Type 0) (rank : ℕ → ℕ) (bs : List Booking)
    → All P bs
    → All P (newest_first rank bs)
unfolding newest_first
newest_first-All P rank [] h = tt
newest_first-All P rank (b ∷ bs) (p, h) =
    insert_newest-All P rank b _ p (newest_first-All P rank bs h)

-- No two rows have one time.
abbrev pub IsDistinct : List Booking → Type 0
IsDistinct [] = Unit
IsDistinct (b ∷ bs) = All (λ c. c.created_at ≢ b.created_at) bs × IsDistinct bs

-- Each row was created before those in front of it.
abbrev pub IsNewestFirst : List Booking → Type 0
IsNewestFirst [] = Unit
IsNewestFirst (b ∷ bs) = All (λ c. c.created_at < b.created_at) bs × IsNewestFirst bs

insert_newest-IsNewestFirst :
    (rank : ℕ → ℕ) (b : Booking) (bs : List Booking)
    → All (λ c. c.created_at ≢ b.created_at) bs
    → IsNewestFirst bs
    → IsNewestFirst (insert_newest rank b bs)
unfolding insert_newest
insert_newest-IsNewestFirst rank b [] apart sorted = (tt, tt)
insert_newest-IsNewestFirst rank b (c ∷ cs) (other, apart) (older, sorted) =
    elim (Bool-cases (is_newer rank b c)) [
      | inl e ↦
          let newer : c.created_at < b.created_at = ground arith in
          rw e ((newer, All-map (λ d h. ground arith) cs older), (older, sorted))
      | inr e ↦
          let later : b.created_at < c.created_at = ground arith in
          rw e (
            insert_newest-All _ rank b cs later older,
            insert_newest-IsNewestFirst rank b cs apart sorted,
          )
    ]

newest_first-IsNewestFirst :
    (rank : ℕ → ℕ) (bs : List Booking) → IsDistinct bs → IsNewestFirst (newest_first rank bs)
unfolding newest_first
newest_first-IsNewestFirst rank [] h = tt
newest_first-IsNewestFirst rank (b ∷ bs) (apart, h) =
    insert_newest-IsNewestFirst rank b _ (newest_first-All _ rank bs apart)
      (newest_first-IsNewestFirst rank bs h)

-- Without ties the rank plays no part.
insert_newest-rank :
    (rank rank' : ℕ → ℕ) (b : Booking) (bs : List Booking)
    → All (λ c. c.created_at ≢ b.created_at) bs
    → insert_newest rank b bs ≡ insert_newest rank' b bs
unfolding insert_newest
insert_newest-rank rank rank' b [] h = refl
insert_newest-rank rank rank' b (c ∷ cs) (other, h) =
    let same : is_newer rank b c ≡ is_newer rank' b c = ground arith in
    rw (same, insert_newest-rank rank rank' b cs h) refl

newest_first-rank :
    (rank rank' : ℕ → ℕ) (bs : List Booking)
    → IsDistinct bs
    → newest_first rank bs ≡ newest_first rank' bs
unfolding newest_first
newest_first-rank rank rank' [] h = refl
newest_first-rank rank rank' (b ∷ bs) (apart, h) =
    rw (newest_first-rank rank rank' bs h)
      (insert_newest-rank rank rank' b _ (newest_first-All _ rank' bs apart))

length-select :
    (row : Booking → Bool) (bs : List Booking) → length (select row bs) ≡ count_if row bs
unfolding select count_if
length-select row [] = refl
length-select row (b ∷ bs) = elim (Bool-cases (row b)) [
  | inl e ↦ rw e (omega (arith, length-select row bs))
  | inr e ↦ rw e (omega (arith, length-select row bs))
]

abbrev given : Result (List Booking) → List Booking
given (ok rows) = rows
given (err e) = []

-- The pages from the first to the last of `pages`, each asked for in a turn of its own.
abbrev pub all_pages :
    (row : Booking → Bool) (turns : ℕ → Turn) (pages page_size : ℕ) → Store → List Booking
all_pages row turns zero page_size s = []
all_pages row turns (suc n) page_size s =
    all_pages row turns n page_size s ++ given (find_page row (suc n) page_size (turns n) s).0

all_pages-take :
    (row : Booking → Bool) (turns : ℕ → Turn) (rank : ℕ → ℕ) (n page_size : ℕ) (s : Store)
    → IsDistinct (select row s.bookings)
    → all_pages row turns n page_size s
      ≡ take (n * page_size) (newest_first rank (select row s.bookings))
unfolding page_of find_page
all_pages-take row turns rank zero page_size s h =
    let e : 0 * page_size ≡ 0 = omega arith in rw e refl
all_pages-take row turns rank (suc n) page_size s h =
    let start : (suc n - 1) * page_size ≡ n * page_size = ap (λ k. k * page_size) (omega arith) in
    let end : suc n * page_size ≡ n * page_size + page_size = omega arith in
    rw
      (
        start,
        end,
        all_pages-take row turns rank n page_size s h,
        newest_first-rank (turns n).rank rank (select row s.bookings) h,
      )
      (take-drop (n * page_size) page_size _)

-- With a page size from 1, and if no two of the rows that pass the test were created at one
-- time, the pages that the pagination promises for the counted rows, each asked for in a turn
-- of its own of one store, are one after the other the rows that pass, each once, and each row
-- was created before those in front of it.
pub all_pages_once :
    (row : Booking → Bool) (turns : ℕ → Turn) (page page_size : ℕ) (s : Store)
    → 1 ≤ page_size
    → IsDistinct (select row s.bookings)
    → let pages = (create_pagination page page_size (count_if row s.bookings)).total_pages in
      let rows = all_pages row turns pages page_size s in
      IsNewestFirst rows × Perm rows (select row s.bookings)
unfolding create_pagination
all_pages_once row turns page page_size s h distinct =
    let bs = select row s.bookings in
    let rank = (turns 0).rank in
    let pages : ℕ = total_pages_of (count_if row s.bookings) page_size in
    let all : all_pages row turns pages page_size s ≡ newest_first rank bs =
      all_pages-take row turns rank pages page_size s distinct
      ∙ take_all (pages * page_size) _ (
          omega (
            arith,
            enough_pages (count_if row s.bookings) page_size h,
            length-newest_first rank bs,
            length-select row s.bookings,
          )) in
    rw all (newest_first-IsNewestFirst rank bs distinct, newest_first-Perm rank bs)
