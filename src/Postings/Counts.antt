-- ===== src/Postings/Counts.antt =====
-- The counts of an owner's profile are those of the postings, after every change of a status.
pub mod Methods
use fit.Common.{ℕ, ◌≡◌, refl, sym, ap, ◌∙◌, Bool, false, List, arith, ◌==◌, count_if, update, All}
use fit.Common.Rows.{All-map, update-All, count_if-update}
use fit.Store.{Posting, Store}
use fit.Store.Postings.{Profile}
use fit.Store.Search.{SearchOutbox}
use fit.Postings.Repository.{
  has_posting_id, counts_in_total, counts_as_available, is_profile_of, counted_row,
}

-- Each profile has the counts of its owner's postings.
abbrev pub CountedRow : List Posting → Profile → Type 0
CountedRow ps q =
    (q.rent_postings_count ≡ count_if (counts_in_total q.user_id) ps)
    × (q.available_rent_postings_count ≡ count_if (counts_as_available q.user_id) ps)

-- With it, that no posting has another owner than `owner_of` says.
unfoldable pub Counted : (owner_of : ℕ → ℕ) → Store → Type 0
Counted owner_of s =
    All (CountedRow s.postings) s.profiles × All (λ p. p.owner_id ≡ owner_of p.id) s.postings

-- A change of a posting that is its owner's alone.
pub record KeepsOwner (f : Posting → Posting) : Type 0 where
  pub id : (p : Posting) → (f p).id ≡ p.id
  pub owner : (p : Posting) → (f p).owner_id ≡ p.owner_id

other_owner : (a u o : ℕ) → a ≡ o → (u == o) ≡ false → (a == u) ≡ false
other_owner a u o e h = ground arith

module _ (owner_of : ℕ → ℕ) {f : Posting → Posting} (same : KeepsOwner f) (id : ℕ) where
  update-owners :
      (ps : List Posting)
      → All (λ p. p.owner_id ≡ owner_of p.id) ps
      → All (λ p. p.owner_id ≡ owner_of p.id) (update (has_posting_id id) f ps)
  update-owners ps h =
      update-All (has_posting_id id) f
        (λ p own hit. same.owner p ∙ (own ∙ sym (ap owner_of (same.id p)))) (λ p own miss. own) ps h

  -- A change of a posting turns no test that is about another owner.
  count-update :
      (test : (owner_id : ℕ) → Posting → Bool)
      → ((owner_id : ℕ) (p : Posting) → (p.owner_id == owner_id) ≡ false → test owner_id p ≡ false)
      → (user_id : ℕ) → (user_id == owner_of id) ≡ false
      → (ps : List Posting) → All (λ p. p.owner_id ≡ owner_of p.id) ps
      → count_if (test user_id) (update (has_posting_id id) f ps) ≡ count_if (test user_id) ps
  count-update test others user_id stranger ps h =
      count_if-update (test user_id) (has_posting_id id) f ps (
        All-map
          (λ p own hit.
            let by_id : p.owner_id ≡ owner_of id = own ∙ ap owner_of (ground arith) in
            let before : (p.owner_id == user_id) ≡ false =
              other_owner p.owner_id user_id (owner_of id) by_id stranger in
            let after : ((f p).owner_id == user_id) ≡ false =
              other_owner (f p).owner_id user_id (owner_of id) (same.owner p ∙ by_id) stranger in
            others user_id (f p) after ∙ sym (others user_id p before))
          ps h)

  change-Counted :
      (s : Store) (rows : List SearchOutbox)
      → Counted owner_of s
      → Counted owner_of (record s {
        postings = update (has_posting_id id) f s.postings;
        outbox = rows;
        profiles =
            update
              (is_profile_of (owner_of id))
              (counted_row
                (owner_of id)
                (record s { postings = update (has_posting_id id) f s.postings; outbox = rows }))
              s.profiles;
      })
  unfolding Counted
  change-Counted s rows (counted, own) =
      let ps = update (has_posting_id id) f s.postings in
      (
        update-All (is_profile_of (owner_of id)) _
            (λ q before hit.
              let e : owner_of id ≡ q.user_id = ground arith in
              (
                ap (λ u. count_if (counts_in_total u) ps) e,
                ap (λ u. count_if (counts_as_available u) ps) e,
              ))
            (λ q before miss. (
              before.0
                  ∙ sym (
                      count-update counts_in_total (λ u p e. rw e refl) q.user_id miss s.postings
                        own),
              before.1
                  ∙ sym (
                      count-update counts_as_available (λ u p e. rw e refl) q.user_id miss
                        s.postings own),
            ))
            s.profiles counted,
        update-owners s.postings own,
      )
