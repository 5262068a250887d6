-- ===== src/Otp/Guess.antt =====
-- One guess, in each of its three cases.
use fit.Common.{
  ℕ, ◌+◌, ◌-◌, ◌≤◌, ◌≡◌, refl, ◌⊎◌, inl, inr, true, false, ◌||◌, none, some, arith, leb, Bool-cases,
}
use fit.Common.Text.{Text, trim}
use fit.Store.{CodeEntry}
use fit.Runtime.{
  Result, ok, err, bad_request, code_missing, code_invalid, World, visit, throw, require, ◌>>=◌,
}
use fit.Runtime.Transaction.{query, write}
use fit.Base.Once.{Alone}
use fit.Otp.{
  code_of, without_code, without_cooldown, set_code, code_ttl, same_text, refuse_guess, check_guess,
  verify,
}

module _ (seconds_of : ℕ → ℕ) (key : ℕ) (guess : Text) (w : World) (alone : Alone w) where
  abbrev now : ℕ
  now = (w.turns w.moment).now

  -- Without an entry that is alive, nothing happens.
  pub verify-missing :
      code_of key now w.store ≡ none
      → ((verify seconds_of key guess w).0 ≡ err (bad_request code_missing))
        × ((verify seconds_of key guess w).1.store ≡ w.store)
        × ((verify seconds_of key guess w).1.turns ≡ w.turns)
        × (w.moment ≤ (verify seconds_of key guess w).1.moment)
  unfolding verify visit query require throw ◌>>=◌
  verify-missing missing = rw (alone w.moment w.store, missing) (refl, refl, refl, omega arith)

  -- The code itself is taken, and its entry is deleted.
  pub verify-right :
      (e : CodeEntry)
      → code_of key now w.store ≡ some e
      → same_text e.code (trim guess) ≡ true
      → ((verify seconds_of key guess w).0 ≡ ok tt)
        × ((verify seconds_of key guess w).1.store
            ≡ without_cooldown key (without_code key w.store))
        × ((verify seconds_of key guess w).1.turns ≡ w.turns)
        × (w.moment ≤ (verify seconds_of key guess w).1.moment)
  unfolding verify visit query require throw check_guess write ◌>>=◌
  verify-right e found right =
      rw
        (
          alone w.moment w.store,
          found,
          right,
          alone (w.moment + 1) w.store,
          alone (w.moment + 1 + 1) (without_code key w.store),
        )
        (refl, refl, refl, omega arith)

  -- Another guess costs an attempt: the last one costs the code.
  pub record Costs (e : CodeEntry) (r : Result (Unit {0})) (w' : World) : Type 0 where
    pub refused : r ≡ err (bad_request (code_invalid (e.attempts_remaining - 1)))
    pub turns : w'.turns ≡ w.turns
    pub later : w.moment ≤ w'.moment
    pub left :
        (w'.store ≡ without_code key w.store)
        ⊎ ((ttl : ℕ) × (1 ≤ e.attempts_remaining - 1)
            × (w'.store
                ≡ set_code key e.code
                    (e.attempts_remaining - 1)
                    ttl
                    (w.turns (w.moment + 1 + 1))
                    w.store))

  pub verify-Costs :
      (e : CodeEntry)
      → code_of key now w.store ≡ some e
      → same_text e.code (trim guess) ≡ false
      → Costs e (verify seconds_of key guess w).0 (verify seconds_of key guess w).1
  unfolding verify visit query require throw check_guess refuse_guess write ◌>>=◌
  verify-Costs e found wrong =
      let ttl : ℕ =
        code_ttl seconds_of (w.turns (w.moment + 1)).now
          (code_of key (w.turns (w.moment + 1)).now w.store) in
      elim (Bool-cases (leb (e.attempts_remaining - 1) 0 || leb ttl 0)) [
        | inl over ↦
            rw
              (
                alone w.moment w.store,
                found,
                wrong,
                alone (w.moment + 1) w.store,
                over,
                alone (w.moment + 1 + 1) w.store,
              )
              (record { refused = refl; turns = refl; later = omega arith; left = inl refl })
        | inr more ↦
            rw
              (
                alone w.moment w.store,
                found,
                wrong,
                alone (w.moment + 1) w.store,
                more,
                alone (w.moment + 1 + 1) w.store,
              )
              (record {
                refused = refl;
                turns = refl;
                later = omega arith;
                left = inr (ttl, ground arith, refl);
              })
      ]
