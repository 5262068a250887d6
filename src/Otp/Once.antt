-- ===== src/Otp/Once.antt =====
-- A code that has been issued can be guessed at five times, and is taken once.
use fit.Common.{
  ℕ, ◌+◌, ◌≤◌, ◌≡◌, refl, sym, ◌∙◌, inl, inr, true, false, none, List, [], ◌∷◌, arith, ltb, ◌==◌,
  find, remove, All, length, Bool-cases, Option-cases,
}
use fit.Common.Text.{Text, trim}
use fit.Store.{CodeEntry, Store}
use fit.Runtime.{
  Result, ok, err, bad_request, too_many_requests, code_sent_recently, code_missing, World, visit,
  pure, throw, throw_if, ◌>>=◌,
}
use fit.Runtime.Transaction.{query, write}
use fit.Base.Once.{Alone}
use mathlib.Core.Path.{subst}
use fit.Otp.{
  IssuedOtp, generate_code, is_code, code_of, cooldown_of, set_code, set_cooldown, cooldown_ttl,
  max_attempts, ttl_in_seconds, resend_cooldown_in_seconds, same_text, issue, verify,
}
use fit.Otp.Guess.{verify-missing, verify-right, verify-Costs}
use fit.Otp.Attempts.{Forward, Guessing, Guessing-on, without_code-Held, try_all, try_all-exhausted}

gone :
    (key now : ℕ) (es : List CodeEntry)
    → find (is_code key now) (remove (λ e. e.key == key) es) ≡ none
unfolding find remove
gone key now [] = refl
gone key now (x ∷ xs) = elim (Bool-cases (x.key == key)) [
  | inl hit ↦ rw hit (gone key now xs)
  | inr miss ↦ rw (miss, miss) (gone key now xs)
]

-- While nobody else writes, after a code has been taken every further guess, the code too, is
-- refused as for a code that is not there.
pub verify-verify :
    (seconds_of : ℕ → ℕ) (key : ℕ) (code code' : Text) (w : World)
    → Alone w
    → (verify seconds_of key code w).0 ≡ ok tt
    → (verify seconds_of key code' (verify seconds_of key code w).1).0
      ≡ err (bad_request code_missing)
unfolding code_of
verify-verify seconds_of key code code' w alone done =
    elim (Option-cases (code_of key (w.turns w.moment).now w.store)) [
      | inl missing ↦
          let (refused, stays, turns, later) = verify-missing seconds_of key code w alone missing in
          let clash : err (bad_request code_missing) ≡ ok tt = sym refused ∙ done in absurd cc
      | inr (e, found) ↦ elim (Bool-cases (same_text e.code (trim code))) [
        | inr wrong ↦
            let clash : err _ ≡ ok tt =
              sym (verify-Costs seconds_of key code w alone e found wrong).refused ∙ done in
            absurd cc
        | inl right ↦
            let (fine, store_after, turns, later) =
              verify-right seconds_of key code w alone e found right in
            let after : World = (verify seconds_of key code w).1 in
            (verify-missing seconds_of key code' after (rw turns alone)
              (rw store_after (gone key (after.turns after.moment).now w.store.codes))).0
      ]
    ]

module _ (seconds_of : ℕ → ℕ) (key : ℕ) (w : World) (alone : Alone w) where
  abbrev pub pause : ℕ
  pause =
      cooldown_ttl seconds_of (w.turns w.moment).now
        (cooldown_of key (w.turns w.moment).now w.store)

  abbrev pub fresh : Text
  fresh = generate_code (w.turns (w.moment + 1))

  abbrev pub written : Store
  written = set_code key fresh max_attempts ttl_in_seconds (w.turns (w.moment + 1 + 1)) w.store

  pub issue-refused :
      ltb 0 pause ≡ true
      → (issue seconds_of key w).0 ≡ err (too_many_requests (code_sent_recently pause))
  unfolding issue visit query throw_if throw ◌>>=◌
  issue-refused soon = rw (alone w.moment w.store, soon) refl

  pub record Issues (r : Result IssuedOtp) (w' : World) : Type 0 where
    pub result :
        r
        ≡ ok (record {
          code = fresh;
          ttl_in_seconds = ttl_in_seconds;
          resend_available_in_seconds = resend_cooldown_in_seconds;
        })
    pub store : w'.store.codes ≡ written.codes
    pub turns : w'.turns ≡ w.turns
    pub later : w.moment ≤ w'.moment

  pub issue-Issues :
      ltb 0 pause ≡ false → Issues (issue seconds_of key w).0 (issue seconds_of key w).1
  unfolding issue visit query write throw_if pure set_cooldown ◌>>=◌
  issue-Issues free =
      rw
        (
          alone w.moment w.store,
          free,
          alone (w.moment + 1) w.store,
          alone (w.moment + 1 + 1) w.store,
          alone (w.moment + 1 + 1 + 1) written,
        )
        (record { result = refl; store = refl; turns = refl; later = omega arith })

-- An issue that is not refused leaves its code with all attempts.
issue-Guessing :
    (seconds_of : ℕ → ℕ) (key : ℕ) (w : World) (r : IssuedOtp)
    → Alone w
    → Forward w
    → (issue seconds_of key w).0 ≡ ok r
    → Guessing key r.code max_attempts (issue seconds_of key w).1
unfolding set_code
issue-Guessing seconds_of key w r alone forward done =
    elim (Bool-cases (ltb 0 (pause seconds_of key w alone))) [
      | inl soon ↦
          let clash : err _ ≡ ok r = sym (issue-refused seconds_of key w alone soon) ∙ done in
          absurd cc
      | inr free ↦
          let i = issue-Issues seconds_of key w alone free in
          let given : ok _ ≡ ok r = sym i.result ∙ done in
          let same : fresh seconds_of key w alone ≡ r.code = cc in
          Guessing-on key r.code max_attempts w _ alone forward i.turns i.later (
            rw i.store (
              (λ hit. (same, omega arith, inl (omega arith))),
              without_code-Held key r.code max_attempts _ w.store,
            ))
    ]

-- While nobody else writes and the clock does not run back, after an issue that has returned a
-- code and five guesses that are not the code, every further guess, the code too, is refused as
-- for a code that is not there.
pub issue-exhausted :
    (seconds_of : ℕ → ℕ) (key : ℕ) (r : IssuedOtp) (guesses : List Text) (last : Text) (w : World)
    → Alone w
    → Forward w
    → (issue seconds_of key w).0 ≡ ok r
    → length guesses ≡ max_attempts
    → All (λ g. same_text r.code (trim g) ≡ false) guesses
    → (verify seconds_of key last (try_all seconds_of key guesses (issue seconds_of key w).1)).0
      ≡ err (bad_request code_missing)
issue-exhausted seconds_of key r guesses last w alone forward done five wrong =
    try_all-exhausted seconds_of key r.code guesses last (issue seconds_of key w).1 wrong (
      subst (λ n. Guessing key r.code n (issue seconds_of key w).1) (sym five)
        (issue-Guessing seconds_of key w r alone forward done))
