-- ===== src/Otp/Tests.antt =====
-- Runs with one-time codes, and the theorems on them at these runs.
use fit.Common.{
  ◌==◌, if◌then◌else◌, ℕ, ◌+◌, ◌/◌, ◌≡◌, refl, arith, List, [], ◌∷◌, map, find, remove,
}
use fit.Common.Text.{Text, trim}
use fit.Store.{Store}
use fit.Runtime.{
  Result, ok, err, bad_request, too_many_requests, code_sent_recently, code_missing, code_invalid,
  World, visit, pure, throw, throw_if, require, ◌>>=◌,
}
use fit.Runtime.Transaction.{query, write}
use fit.Otp.{
  IssuedOtp, digits, generate_code, same_text, code_of, cooldown_of, set_code, set_cooldown, issue,
  refuse_guess, check_guess, verify,
}
use fit.Otp.Attempts.{try_all}
use fit.Otp.Round.{issue-verify}
use fit.Otp.Once.{verify-verify, issue-exhausted}
use fit.Samples.{world}

unfoldable codes : Unit {0}
unfolding find remove trim visit pure throw throw_if require ◌>>=◌ query write digits generate_code
    same_text code_of cooldown_of set_code set_cooldown issue refuse_guess check_guess verify
    try_all
codes = tt

abbrev seconds : ℕ → ℕ
seconds n = (n + 500) / 1000

abbrev before : World
before = world 5

abbrev zeros : Text
zeros = 48 ∷ 48 ∷ 48 ∷ 48 ∷ 48 ∷ 48 ∷ []

abbrev issued : World
issued = (issue seconds 9 before).1

abbrev ticket : IssuedOtp
ticket = record { code = zeros; ttl_in_seconds = 600; resend_available_in_seconds = 60 }

issue_returns : (issue seconds 9 before).0 ≡ ok ticket
unfolding codes
issue_returns = refl

issued_then_taken : (verify seconds 9 zeros issued).0 ≡ ok tt
unfolding codes
issued_then_taken = refl

too_soon : (issue seconds 9 issued).0 ≡ err (too_many_requests (code_sent_recently 60))
unfolding codes
too_soon = refl

four_left : (verify seconds 9 (49 ∷ []) issued).0 ≡ err (bad_request (code_invalid 4))
unfolding codes
four_left = refl

-- Another request in the middle of this one: `others` of this one's visit with the number `n` counted from
-- its first is all of `other`.
abbrev interrupted : (n : ℕ) → (Store → Store) → World
interrupted n other = record issued {
  turns =
      λ i. record (issued.turns i) { others = λ s. if i == issued.moment + n then other s else s };
}

abbrev of_another : (guess : Text) → Store → Result (Unit {0}) × World
of_another guess s = verify seconds 9 guess (record (world 20) { store = s })

-- The other request is through between this one's read and its delete: both take the one code.
taken_twice :
    ((of_another zeros issued.store).0 ≡ ok tt)
    × ((verify seconds 9 zeros (interrupted 1 (λ s. (of_another zeros s).1.store))).0 ≡ ok tt)
unfolding codes
taken_twice = (refl, refl)

-- Two wrong guesses at a time cost one attempt.
one_attempt_for_two :
    let wrong : Text = 49 ∷ [] in
    map
      (λ e. e.attempts_remaining)
      (verify seconds 9 wrong (interrupted 1 (λ s. (of_another wrong s).1.store))).1.store.codes
    ≡ 4 ∷ []
unfolding codes
one_attempt_for_two = refl

verify-verify_example :
    (verify seconds 9 zeros (verify seconds 9 zeros issued).1).0 ≡ err (bad_request code_missing)
unfolding codes
verify-verify_example = verify-verify seconds 9 zeros zeros issued (λ i s. refl) refl

abbrev ones : Text
ones = 49 ∷ 49 ∷ 49 ∷ 49 ∷ 49 ∷ 49 ∷ []

abbrev five : List Text
five = ones ∷ ones ∷ ones ∷ ones ∷ ones ∷ []

-- Even the code itself is refused after five wrong guesses.
issue-exhausted_example :
    (verify seconds 9 zeros (try_all seconds 9 five issued)).0 ≡ err (bad_request code_missing)
unfolding codes
issue-exhausted_example =
    issue-exhausted seconds 9 ticket five zeros before (λ i s. refl) (λ i j h. omega arith) refl
      refl (refl, (refl, (refl, (refl, (refl, tt)))))

issue-verify_example : (verify seconds 9 zeros issued).0 ≡ ok tt
unfolding codes
issue-verify_example = issue-verify seconds 9 ticket before (λ i s. refl) refl (omega arith)
