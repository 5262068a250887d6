-- ===== src/Otp/Attempts.antt =====
-- How often a code can be guessed.
use fit.Common.{
  ℕ, suc, ◌≤◌, ◌≡◌, refl, ◌⊎◌, inl, inr, Bool, true, false, none, some, List, [], ◌∷◌, arith, ◌==◌,
  find, remove, All, length, Bool-cases, Option-cases,
}
use fit.Common.Text.{Text, trim}
use fit.Store.{CodeEntry, Store}
use fit.Runtime.{err, bad_request, code_missing, World}
use fit.Base.Once.{Alone}
use mathlib.Core.Path.{subst}
use fit.Common.Rows.{All-intro, All-map}
use fit.Otp.{is_code, code_of, without_code, set_code, same_text, verify}
use fit.Otp.Guess.{verify-missing, verify-Costs}

-- An entry under the key holds the code, with at least one attempt left, and, unless its time was over at
-- `since`, with at most `n`.
abbrev pub Fits : (key : ℕ) → Text → (n since : ℕ) → CodeEntry → Type 0
Fits key code n since e =
    (e.key == key) ≡ true
    → (e.code ≡ code)
      × (1 ≤ e.attempts_remaining)
      × ((e.attempts_remaining ≤ n) ⊎ (e.expires_at ≤ since))

abbrev pub Held : (key : ℕ) → Text → (n since : ℕ) → Store → Type 0
Held key code n since s = All (Fits key code n since) s.codes

remove-All :
    (P : CodeEntry → Type 0) (p : CodeEntry → Bool) (es : List CodeEntry)
    → All (λ e. p e ≡ false → P e) es
    → All P (remove p es)
unfolding remove
remove-All P p [] h = tt
remove-All P p (e ∷ es) (h, hs) = elim (Bool-cases (p e)) [
  | inl gone ↦ rw gone (remove-All P p es hs)
  | inr stays ↦ rw stays (h stays, remove-All P p es hs)
]

-- What is deleted under the key holds nothing of it.
pub without_code-Held :
    (key : ℕ) (code : Text) (n since : ℕ) (s : Store) → Held key code n since (without_code key s)
without_code-Held key code n since s =
    remove-All _ (λ e. e.key == key) s.codes
      (All-intro (λ e miss hit. absurd (ground arith)) s.codes)

found-Fits :
    (key : ℕ) (code : Text) (n since now : ℕ) (es : List CodeEntry) (e : CodeEntry)
    → since ≤ now
    → All (Fits key code n since) es
    → find (is_code key now) es ≡ some e
    → (e.code ≡ code) × (1 ≤ e.attempts_remaining) × (e.attempts_remaining ≤ n)
unfolding find
found-Fits key code n since now [] e before h found = absurd (ground arith)
found-Fits key code n since now (x ∷ xs) e before (h, hs) found =
    elim (Bool-cases (is_code key now x)) [
      | inl hit ↦
          let same : x ≡ e = ground arith in
          let (code_same, least, most) = h (ground arith) in
          subst (λ y. (y.code ≡ code) × (1 ≤ y.attempts_remaining) × (y.attempts_remaining ≤ n))
            same (code_same, least, elim most [ inl few ↦ few | inr over ↦ absurd (ground arith) ])
      | inr miss ↦ found-Fits key code n since now xs e before hs (ground arith)
    ]

missing-Held :
    (key : ℕ) (code : Text) (n since now : ℕ) (es : List CodeEntry)
    → All (Fits key code (suc n) since) es
    → find (is_code key now) es ≡ none
    → All (Fits key code n now) es
unfolding find
missing-Held key code n since now [] h missing = tt
missing-Held key code n since now (x ∷ xs) (h, hs) missing = elim (Bool-cases (is_code key now x)) [
  | inl hit ↦ absurd (ground arith)
  | inr miss ↦ (
    λ hit. let (code_same, least, most) = h hit in (code_same, least, inr (ground arith)),
    missing-Held key code n since now xs hs (ground arith),
  )
]

-- The clock does not run back.
abbrev pub Forward : World → Type 0
Forward w = (i j : ℕ) → i ≤ j → (w.turns i).now ≤ (w.turns j).now

-- The guesses one after the other, whatever they end in.
unfoldable pub try_all : (seconds_of : ℕ → ℕ) (key : ℕ) → List Text → World → World
try_all seconds_of key [] w = w
try_all seconds_of key (g ∷ gs) w = try_all seconds_of key gs (verify seconds_of key g w).1

-- Nobody else writes, the clock does not run back, and `n` attempts are left.
pub record Guessing (key : ℕ) (code : Text) (n : ℕ) (w : World) : Type 0 where
  pub alone : Alone w
  pub forward : Forward w
  pub held : Held key code n (w.turns w.moment).now w.store

Held-later :
    (key : ℕ) (code : Text) (n since since' : ℕ) (es : List CodeEntry)
    → since ≤ since'
    → All (Fits key code n since) es
    → All (Fits key code n since') es
Held-later key code n since since' es before h =
    All-map
      (λ e fits hit.
        let (same, least, most) = fits hit in
        (same, least, elim most [ inl few ↦ inl few | inr over ↦ inr (omega arith) ]))
      es h

pub Guessing-on :
    (key : ℕ) (code : Text) (n : ℕ) (w w' : World)
    → Alone w
    → Forward w
    → w'.turns ≡ w.turns
    → w.moment ≤ w'.moment
    → Held key code n (w.turns w.moment).now w'.store
    → Guessing key code n w'
Guessing-on key code n w w' alone forward turns later held = record {
  alone = rw turns alone;
  forward = rw turns forward;
  held =
      rw turns (Held-later key code n _ _ w'.store.codes (forward w.moment w'.moment later) held);
}

-- A wrong guess leaves one attempt less.
wrong-Guessing :
    (seconds_of : ℕ → ℕ) (key : ℕ) (code guess : Text) (n : ℕ) (w : World)
    → same_text code (trim guess) ≡ false
    → Guessing key code (suc n) w
    → Guessing key code n (verify seconds_of key guess w).1
unfolding code_of set_code
wrong-Guessing seconds_of key code guess n w wrong g =
    elim (Option-cases (code_of key (w.turns w.moment).now w.store)) [
      | inl missing ↦
          let (refused, stays, turns, later) =
            verify-missing seconds_of key guess w g.alone missing in
          Guessing-on key code n w _ g.alone g.forward turns later
            (rw stays (missing-Held key code n _ _ w.store.codes g.held missing))
      | inr (e, found) ↦
          let (same, least, most) =
            found-Fits key code (suc n) (w.turns w.moment).now (w.turns w.moment).now w.store.codes
              e (omega arith) g.held found in
          let c = verify-Costs seconds_of key guess w g.alone e found (rw same wrong) in
          Guessing-on key code n w _ g.alone g.forward c.turns c.later (elim c.left [
            | inl gone ↦ rw gone (without_code-Held key code n _ w.store)
            | inr (ttl, more, set) ↦
                rw set
                  ((λ hit. (same, more, inl (omega arith))), without_code-Held key code n _ w.store)
          ])
    ]

none-left :
    (key : ℕ) (code : Text) (now : ℕ) (es : List CodeEntry)
    → All (Fits key code 0 now) es
    → find (is_code key now) es ≡ none
unfolding find
none-left key code now [] h = refl
none-left key code now (x ∷ xs) (h, hs) = elim (Bool-cases (is_code key now x)) [
  | inl hit ↦
      let (same, least, most) = h (ground arith) in
      absurd (elim most [ inl few ↦ omega arith | inr over ↦ ground arith ])
  | inr miss ↦ rw miss (none-left key code now xs hs)
]

-- After as many wrong guesses as there are attempts left, every further guess is refused.
pub try_all-exhausted :
    (seconds_of : ℕ → ℕ) (key : ℕ) (code : Text) (guesses : List Text) (last : Text) (w : World)
    → All (λ g. same_text code (trim g) ≡ false) guesses
    → Guessing key code (length guesses) w
    → (verify seconds_of key last (try_all seconds_of key guesses w)).0
      ≡ err (bad_request code_missing)
unfolding try_all code_of
try_all-exhausted seconds_of key code [] last w wrong g =
    (verify-missing seconds_of key last w g.alone (none-left key code _ w.store.codes g.held)).0
try_all-exhausted seconds_of key code (x ∷ xs) last w (wrong, rest) g =
    try_all-exhausted seconds_of key code xs last (verify seconds_of key x w).1 rest
      (wrong-Guessing seconds_of key code x (length xs) w wrong g)
