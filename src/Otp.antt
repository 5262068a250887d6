-- ===== src/Otp.antt =====
-- backend/src/app/features/auth/otp/otp.service.ts: one-time codes in Redis. Logging is left out.
pub mod Guess
pub mod Attempts
pub mod Once
pub mod Round
mod Tests
use fit.Common.{
  ℕ, zero, suc, ◌+◌, ◌-◌, ◌*◌, ◌/◌, ◌%◌, Bool, true, false, not, ◌&&◌, ◌||◌, Option, none, some, [],
  ◌∷◌, ◌++◌, ltb, leb, ◌==◌, if◌then◌else◌, find, remove,
}
use fit.Common.Text.{Text, trim}
use fit.Store.{CodeEntry, CooldownEntry, Store}
use fit.Runtime.{
  bad_request, too_many_requests, code_sent_recently, code_missing, code_invalid, Turn, M, visit,
  pure, throw, throw_if, require, ◌>>=◌, ◌>>◌,
}
use fit.Runtime.Transaction.{query, write}
use Prim.Native.Nat.{◌^◌}

abbrev pub code_length : ℕ
code_length = 6

abbrev pub ttl_in_seconds : ℕ
ttl_in_seconds = 10 * 60

abbrev pub resend_cooldown_in_seconds : ℕ
resend_cooldown_in_seconds = 60

abbrev pub max_attempts : ℕ
max_attempts = 5

pub record IssuedOtp : Type 0 where
  pub code : Text
  pub ttl_in_seconds : ℕ
  pub resend_available_in_seconds : ℕ

-- The last `length` digits of a number, which has no more.
unfoldable pub digits : (length number : ℕ) → Text
digits zero number = []
digits (suc length) number = digits length (number / 10) ++ ((b'0' + number % 10) ∷ [])

-- `randomInt(0, max).toString().padStart(this.codeLength, "0")`
unfoldable pub generate_code : Turn → Text
unfolding digits
generate_code t = digits code_length (t.random (10 ^ code_length))

unfoldable pub same_text : Text → Text → Bool
same_text [] [] = true
same_text [] (d ∷ ds) = false
same_text (c ∷ cs) [] = false
same_text (c ∷ cs) (d ∷ ds) = c == d && same_text cs ds

-- An entry is there until its time to live is over.
abbrev pub is_code : (key now : ℕ) → CodeEntry → Bool
is_code key now e = e.key == key && ltb now e.expires_at

unfoldable pub code_of : (key now : ℕ) → Store → Option CodeEntry
code_of key now s = find (is_code key now) s.codes

unfoldable pub cooldown_of : (key now : ℕ) → Store → Option CooldownEntry
cooldown_of key now s = find (λ e. e.key == key && ltb now e.expires_at) s.cooldowns

abbrev pub without_code : (key : ℕ) → Store → Store
without_code key s = record s { codes = remove (λ e. e.key == key) s.codes }

abbrev pub without_cooldown : (key : ℕ) → Store → Store
without_cooldown key s = record s { cooldowns = remove (λ e. e.key == key) s.cooldowns }

unfoldable pub set_code : (key : ℕ) → Text → (attempts_remaining ttl : ℕ) → Turn → Store → Store
set_code key code attempts_remaining ttl t s = record s {
  codes =
      record {
        key = key;
        code = code;
        attempts_remaining = attempts_remaining;
        expires_at = t.now + ttl * 1000;
      }
      ∷ remove (λ e. e.key == key) s.codes;
}

unfoldable pub set_cooldown : (key ttl : ℕ) → Turn → Store → Store
set_cooldown key ttl t s = record s {
  cooldowns =
      record { key = key; expires_at = t.now + ttl * 1000 }
      ∷ remove (λ e. e.key == key) s.cooldowns;
}

-- What Redis reports of the milliseconds that a key has left, in seconds. A missing key counts as 0: of
-- its negative answer the code only tests that it is not positive.
module _ (seconds_of : ℕ → ℕ) where
  abbrev pub code_ttl : ℕ → Option CodeEntry → ℕ
  code_ttl now none = 0
  code_ttl now (some e) = seconds_of (e.expires_at - now)

  abbrev pub cooldown_ttl : ℕ → Option CooldownEntry → ℕ
  cooldown_ttl now none = 0
  cooldown_ttl now (some e) = seconds_of (e.expires_at - now)

  unfoldable pub issue : (key : ℕ) → M IssuedOtp
  unfolding generate_code set_code set_cooldown
  issue key = do
    cooldown ← visit (query λ t s. cooldown_ttl t.now (cooldown_of key t.now s))
    throw_if (ltb 0 cooldown) (too_many_requests (code_sent_recently cooldown))
    code ← visit (query λ t s. generate_code t)
    visit (write (set_code key code max_attempts ttl_in_seconds))
    visit (write (set_cooldown key resend_cooldown_in_seconds))
    pure (record {
      code = code;
      ttl_in_seconds = ttl_in_seconds;
      resend_available_in_seconds = resend_cooldown_in_seconds;
    })

  -- The entry that is read is written back with one attempt less.
  unfoldable pub refuse_guess : (key : ℕ) → CodeEntry → M (Unit {0})
  unfolding set_code
  refuse_guess key e = do
    let attempts_remaining = e.attempts_remaining - 1
    ttl ← visit (query λ t s. code_ttl t.now (code_of key t.now s))
    if leb attempts_remaining 0 || leb ttl 0
        then visit (write λ t. without_code key)
        else visit (write (set_code key e.code attempts_remaining ttl))
    throw (bad_request (code_invalid attempts_remaining))

  unfoldable pub check_guess : (key : ℕ) → Text → CodeEntry → M (Unit {0})
  unfolding refuse_guess
  check_guess key guess e =
      if not (same_text e.code (trim guess))
      then refuse_guess key e
      else (do visit (write λ t. without_code key); visit (write λ t. without_cooldown key))

  unfoldable pub verify : (key : ℕ) → (code : Text) → M (Unit {0})
  unfolding check_guess
  verify key code = do
    found ← visit (query λ t s. code_of key t.now s)
    e ← require found (bad_request code_missing)
    check_guess key code e
