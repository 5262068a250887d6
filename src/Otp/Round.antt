-- ===== src/Otp/Round.antt =====
-- From the issue of a code to its use.
use fit.Common.{
  ℕ, ◌+◌, ◌*◌, ◌/◌, ◌%◌, ◌<◌, ◌≡◌, refl, sym, ◌∙◌, inl, inr, true, false, [], ◌∷◌, arith, ltb, ◌==◌,
  find, Bool-cases,
}
use fit.Common.Text.{Text, is_space, trim_start, trim}
use fit.Runtime.{ok, err, World}
use fit.Store.{CodeEntry}
use mathlib.Core.Path.{subst}
use Prim.Native.Nat.{◌^◌}
use fit.Base.Once.{Alone}
use fit.Otp.{
  IssuedOtp, code_of, digits, generate_code, max_attempts, code_length, is_code, set_code,
  same_text, ttl_in_seconds, issue, verify,
}
use fit.Otp.Guess.{verify-right}
use fit.Otp.Once.{pause, fresh, issue-refused, issue-Issues}

same_text_refl : (c : Text) → same_text c c ≡ true
unfolding same_text
same_text_refl [] = refl
same_text_refl (x ∷ xs) = let same : (x == x) ≡ true = ground arith in rw same (same_text_refl xs)

is_space-digit : (n : ℕ) → is_space (b'0' + n % 10) ≡ false
unfolding is_space
is_space-digit n = ground arith

trim-digits : (n : ℕ) → trim (digits code_length n) ≡ digits code_length n
unfolding trim trim_start digits
trim-digits n = rw (is_space-digit (n / 10 / 10 / 10 / 10 / 10), is_space-digit n) refl

-- While nobody else writes, if an issue has returned a code, then a guess of that code before its
-- ten minutes are over is taken.
pub issue-verify :
    (seconds_of : ℕ → ℕ) (key : ℕ) (r : IssuedOtp) (w : World)
    → Alone w
    → (issue seconds_of key w).0 ≡ ok r
    → ((issue seconds_of key w).1.turns (issue seconds_of key w).1.moment).now
      < (w.turns (w.moment + 1 + 1)).now + ttl_in_seconds * 1000
    → (verify seconds_of key r.code (issue seconds_of key w).1).0 ≡ ok tt
unfolding code_of find set_code generate_code
issue-verify seconds_of key r w alone done early =
    elim (Bool-cases (ltb 0 (pause seconds_of key w alone))) [
      | inl soon ↦
          let clash : err _ ≡ ok r = sym (issue-refused seconds_of key w alone soon) ∙ done in
          absurd cc
      | inr free ↦
          let i = issue-Issues seconds_of key w alone free in
          let given : ok _ ≡ ok r = sym i.result ∙ done in
          let code : Text = fresh seconds_of key w alone in
          let same : code ≡ r.code = cc in
          let e : CodeEntry = record {
            key = key;
            code = code;
            attempts_remaining = max_attempts;
            expires_at = (w.turns (w.moment + 1 + 1)).now + ttl_in_seconds * 1000;
          } in
          let after : World = (issue seconds_of key w).1 in
          let alive : is_code key (after.turns after.moment).now e ≡ true = ground arith in
          let trimmed : same_text code (trim code) ≡ true =
            rw (trim-digits ((w.turns (w.moment + 1)).random (10 ^ code_length)))
              (same_text_refl code) in
          (verify-right seconds_of key r.code after (rw i.turns alone) e
            (rw i.store (rw alive refl))
            (subst (λ c. same_text code (trim c) ≡ true) same trimmed)).0
    ]
