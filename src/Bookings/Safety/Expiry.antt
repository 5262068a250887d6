-- ===== src/Bookings/Safety/Expiry.antt =====
-- A round of the expiry worker: which requests it may end.
use mathlib.Core.Path.{subst}
use fit.Common.{
  ℕ, ◌≤◌, ◌≡◌, refl, ◌∙◌, inl, inr, Bool, true, false, not, Option, none, some, List, [], ◌∷◌,
  arith, ◌==◌, if◌then◌else◌, count_if, update, Bool-cases, Pointwise,
}
use fit.Common.Rows.{update-Pointwise, Pointwise-trans, All-intro}
use fit.Store.{BookingStatus, expired, Booking, Renting, Store}
use fit.Runtime.{Result, ok, err, Turn, World, M, pure, handled, catch, transaction}
use fit.Runtime.Logic.{Steady, safely, Safe, Holds, Any, pure-Safe, bind-Safe, visit-Safe}
use fit.Runtime.Transaction.{write}
use fit.Search.Enqueue.{enqueue_outbox}
use fit.Bookings.Model.{can_expire, same_status}
use fit.Bookings.Messages.{send, enqueue_search_sync}
use fit.Bookings.Repository.{find_booking}
use fit.Bookings.Expiry.{
  is_candidate, is_expirable, expire_row, expire_found, list_expired_candidates, expire, expire_job,
  expire_jobs, run_once,
}

-- What a round may do to one row.
pub data Ending (b c : Booking) : Type 0 where
  kept : c ≡ b → Ending b c
  ended :
      (at : ℕ)
      → can_expire b.status ≡ true
      → b.hold_expires_at ≤ at
      → c ≡ record b {
        status = expired;
        expired_at = some at;
        hold_block_id = none;
        conversion_reserved_at = none;
        conversion_reservation_expires_at = none;
      }
      → Ending b c

over_once : (b c : Booking) → can_expire c.status ≡ true → c.status ≡ expired → ⊥
over_once b c h e = ground (arith, e)

Ending-trans : (b c d : Booking) → Ending b c → Ending c d → Ending b d
Ending-trans b c d (kept e) h = subst (λ x. Ending x d) e h
Ending-trans b c d (ended at may late e) (kept same) = ended at may late (same ∙ e)
Ending-trans b c d (ended at may late e) (ended at' may' late' e') =
    absurd (over_once b c may' (rw e refl))

same_status-eq : (a b : BookingStatus) → same_status a b ≡ true → can_expire a ≡ can_expire b
same_status-eq a b h = ground arith

-- Since these rows of requests and rentings, nothing but overdue holds has ended.
abbrev pub OnlyEndings : List Booking → List Renting → Store → Type 0
OnlyEndings bookings rentings s = Pointwise Ending bookings s.bookings × (s.rentings ≡ rentings)

module _ (bookings : List Booking) (rentings : List Renting) where
  abbrev P : Store → Type 0
  P = OnlyEndings bookings rentings

  expire_found-P : (t : Turn) (s : Store) (o : Option Booking) → P s → P (expire_found t s o).1
  unfolding expire_found
  expire_found-P t s none p = p
  expire_found-P t s (some existing) p = elim (Bool-cases (is_candidate t.now existing)) [
    | inr e ↦ rw e p
    | inl e ↦
        let after : Pointwise Ending bookings
            (update (is_expirable existing t.later) (expire_row t.later) s.bookings) =
          Pointwise-trans Ending Ending-trans _ s.bookings _ p.0 (
            update-Pointwise Ending (is_expirable existing t.later) (expire_row t.later)
              (λ b. kept refl) s.bookings
              (All-intro
                (λ b hit.
                  ended t.later (ground (arith, same_status-eq b.status existing.status))
                    (ground arith) refl)
                s.bookings)) in
        elim (Bool-cases (not (count_if (is_expirable existing t.later) s.bookings == 1))) [
          | inl one ↦ rw (e, one) (after, p.1)
          | inr many ↦ rw (e, many) (after, p.1)
        ]
  ]

  expire_job-Safe : (job : Booking) → Safe P (expire_job job) Any
  unfolding expire_job expire send enqueue_search_sync enqueue_outbox transaction write
  expire_job-Safe job =
      bind-Safe {Q = Any}
        (visit-Safe (expire job.id)
          λ t s p. record { keeps = expire_found-P t s (find_booking job.id s) p; gives = tt })
        λ done _.
          if-Safe done
            (bind-Safe {Q = Any} (visit-Safe _ λ t s p. record { keeps = p; gives = tt }) λ _ _.
              bind-Safe {Q = Any} (visit-Safe _ λ t s p. record { keeps = p; gives = tt })
                λ _ _. visit-Safe _ λ t s p. record { keeps = p; gives = tt })
            (pure-Safe tt tt)
    where
      if-Safe :
          (b : Bool) {m n : M (Unit {0})}
          → Safe P m Any
          → Safe P n Any
          → Safe P (if b then m else n) Any
      if-Safe true h k = h
      if-Safe false h k = k

  logged :
      (r : Result (Unit {0})) (w : World)
      → Steady P w
      → Steady P (handled r (λ e. pure tt) w).1 × Holds Any (handled r (λ e. pure tt) w).0
  unfolding pure
  logged (ok a) w p = (p, tt)
  logged (err e) w p = (p, tt)

  expire_jobs-Safe : (jobs : List Booking) → Safe P (expire_jobs jobs) Any
  unfolding expire_jobs catch
  expire_jobs-Safe [] = pure-Safe tt tt
  expire_jobs-Safe (job ∷ jobs) =
      bind-Safe {Q = Any}
        (record {
          keeps = λ w p. (logged (expire_job job w).0 _ ((expire_job-Safe job).keeps w p)).0;
          gives = λ w p. (logged (expire_job job w).0 _ ((expire_job-Safe job).keeps w p)).1;
        })
        λ _ _. expire_jobs-Safe jobs

  run_once-Safe : (batch_size : ℕ) → Safe P (run_once batch_size) Any
  unfolding run_once list_expired_candidates
  run_once-Safe batch_size =
      bind-Safe {Q = Any} (visit-Safe _ λ t s p. record { keeps = p; gives = tt })
        λ jobs _. bind-Safe (expire_jobs-Safe jobs) λ _ _. pure-Safe _ tt

-- If since some rows of requests and rentings nothing has changed but that requests in a status
-- that can expire, with a hold that was over by the time they ended, became expired, and others
-- keep it so, then it is so after a round of the expiry worker.
pub run_once-OnlyEndings :
    (batch_size : ℕ) (bookings : List Booking) (rentings : List Renting) (w : World)
    → Steady (OnlyEndings bookings rentings) w
    → OnlyEndings bookings rentings (run_once batch_size w).1.store
run_once-OnlyEndings batch_size bookings rentings w h =
    (safely (run_once-Safe bookings rentings batch_size) w h).0
