-- ===== src/Codes/Attempts.antt =====
-- Wrong codes in boardBooking of apps/api/src/main.ts.
use nodex_v.Prelude.{
  ℕ, suc, ◌+◌, ◌==◌, ◌≡◌, refl, sym, subst, arith, leb, true, false, List, [], ◌∷◌, String, none,
  some, All, length, Bool-cases, inl, inr, err,
}
use nodex_v.Codes.{
  SecretCode, CodeGuard, attempt_allowed, boarding_code_can_attempt, find_active, BoardingStore,
  BoardingError, boarding_code_not_found, boarding_not_allowed, boarding_code_invalid, is_boarding,
  board_booking, fail_code, code_refused, update_code, is_code_active,
}
use nodex_v.Codes.Transactions.{Transaction}

-- The code is not the one whose hash the row has.
abbrev pub IsWrong : (String → ℕ) → SecretCode → String → Type 0
IsWrong hash_secret c code = (c.code_hash == hash_secret code) ≡ false

module _ (hash_secret : String → ℕ) where
  wrong_throws :
      (c : SecretCode) (code : String) (now : ℕ) (s : BoardingStore)
      → find_active s.codes ≡ some c
      → IsWrong hash_secret c code
      → (t : BoardingStore) × (e : BoardingError) × (board_booking hash_secret code now s
          ≡ (t, err e))
  unfolding board_booking
  wrong_throws c code now s found wrong = elim (Bool-cases (is_boarding s)) [
    | inr h ↦ (s, boarding_not_allowed, rw (h, board_booking) refl)
    | inl h ↦ by_guard h (boarding_code_can_attempt c now) refl
  ]
    where
      by_guard :
          is_boarding s ≡ true
          → (g : CodeGuard) → boarding_code_can_attempt c now ≡ g
          → (t : BoardingStore) × (e : BoardingError) × (board_booking hash_secret code now s
              ≡ (t, err e))
      by_guard h attempt_allowed a = (
        record s {
          codes = update_code c.id (fail_code now) s.codes;
          attempts = false ∷ s.attempts;
        },
        boarding_code_invalid,
        rw (h, found, a, wrong, board_booking) refl,
      )
      by_guard h CodeGuard.code_inactive a =
          (s, code_refused CodeGuard.code_inactive, rw (h, found, a, board_booking) refl)
      by_guard h CodeGuard.code_used a =
          (s, code_refused CodeGuard.code_used, rw (h, found, a, board_booking) refl)
      by_guard h CodeGuard.code_locked a =
          (s, code_refused CodeGuard.code_locked, rw (h, found, a, board_booking) refl)
      by_guard h CodeGuard.code_expired a =
          (s, code_refused CodeGuard.code_expired, rw (h, found, a, board_booking) refl)
      by_guard h CodeGuard.code_max_attempts a =
          (s, code_refused CodeGuard.code_max_attempts, rw (h, found, a, board_booking) refl)

  -- The attempts of a driver one after the other, each in its transaction.
  pub try_codes :
      Transaction BoardingStore BoardingError (Unit {0})
      → ℕ
      → List String
      → BoardingStore
      → BoardingStore
  unfolding board_booking
  try_codes tx now [] s = s
  try_codes tx now (code ∷ codes) s =
      try_codes tx now codes (tx.run (board_booking hash_secret code now) s).0

  -- However many codes a driver enters whose hash is not that of the code in use, the transactions
  -- leave the rows of the booking as they were: no attempt is counted or recorded, and the code is not
  -- locked.
  pub try_codes-wrong :
      (tx : Transaction BoardingStore BoardingError (Unit {0}))
      → (c : SecretCode) (now : ℕ) (codes : List String) (s : BoardingStore)
      → find_active s.codes ≡ some c
      → All (IsWrong hash_secret c) codes
      → try_codes tx now codes s ≡ s
  unfolding try_codes
  try_codes-wrong tx c now [] s found wrong = refl
  try_codes-wrong tx c now (code ∷ codes) s found (w, wrong) =
      let (t, e, thrown) = wrong_throws c code now s found w in
      rw (tx.rolls_back _ s t e thrown) (try_codes-wrong tx c now codes s found wrong)

  allowed_left :
      (c : SecretCode) (now : ℕ)
      → boarding_code_can_attempt c now ≡ attempt_allowed
      → ¬ (c.attempts_count ≡ c.max_attempts)
  unfolding boarding_code_can_attempt
  allowed_left c now a e = ground arith

  -- The bodies alone, one after the other, as if every one were kept.
  pub try_bodies : ℕ → List String → BoardingStore → BoardingStore
  unfolding board_booking
  try_bodies now [] s = s
  try_bodies now (code ∷ codes) s = try_bodies now codes (board_booking hash_secret code now s).0

  allowed_active :
      (c : SecretCode) (now : ℕ)
      → boarding_code_can_attempt c now ≡ attempt_allowed
      → is_code_active c.status ≡ true
  unfolding boarding_code_can_attempt
  allowed_active c now a = ground arith

  allowed_step :
      (c : SecretCode) (code : String) (now : ℕ) (s : BoardingStore)
      → is_boarding s ≡ true
      → s.codes ≡ c ∷ []
      → boarding_code_can_attempt c now ≡ attempt_allowed
      → IsWrong hash_secret c code
      → (board_booking hash_secret code now s).0
        ≡ record s { codes = fail_code now c ∷ []; attempts = false ∷ s.attempts }
  unfolding board_booking
  allowed_step c code now s h only a wrong =
      let active = allowed_active c now a in
      let found : find_active s.codes ≡ some c = rw (only, active) refl in
      rw (h, found, a, wrong, board_booking, only) (ground arith)

  allowed_fail :
      (c : SecretCode) (now : ℕ)
      → boarding_code_can_attempt c now ≡ attempt_allowed
      → leb c.max_attempts (suc c.attempts_count) ≡ false
      → boarding_code_can_attempt (fail_code now c) now ≡ attempt_allowed
  unfolding boarding_code_can_attempt
  allowed_fail c now a more = ground arith

  abbrev IsLocked : BoardingStore → Type 0
  IsLocked s = (is_boarding s ≡ true) × (find_active s.codes ≡ none)

  locked_throws :
      (code : String) (now : ℕ) (s : BoardingStore)
      → IsLocked s
      → (board_booking hash_secret code now s).1 ≡ err boarding_code_not_found
  unfolding board_booking
  locked_throws code now s (h, none_left) = rw (h, none_left, board_booking) refl

  bodies_lock :
      (c : SecretCode) (now : ℕ) (codes : List String) (s : BoardingStore)
      → is_boarding s ≡ true
      → s.codes ≡ c ∷ []
      → boarding_code_can_attempt c now ≡ attempt_allowed
      → All (IsWrong hash_secret c) codes
      → c.attempts_count + length codes ≡ c.max_attempts
      → IsLocked (try_bodies now codes s)
  unfolding try_bodies
  bodies_lock c now [] s h only a wrong count = absurd (allowed_left c now a (ground arith))
  bodies_lock c now (k ∷ codes) s h only a (w, wrong) count =
      subst (λ t. IsLocked (try_bodies now codes t)) (sym (allowed_step c k now s h only a w))
        (elim (Bool-cases (leb c.max_attempts (suc c.attempts_count))) [
          | inr more ↦
              bodies_lock (fail_code now c) now codes
                (record s { codes = fail_code now c ∷ []; attempts = false ∷ s.attempts }) h refl
                (allowed_fail c now a more) wrong (ground arith)
          | inl last ↦ nothing_left codes (ground arith) last
        ])
    where
      nothing_left :
          (rest : List String)
          → length rest ≡ 0
          → leb c.max_attempts (suc c.attempts_count) ≡ true
          → IsLocked (
              try_bodies now rest
                (record s { codes = fail_code now c ∷ []; attempts = false ∷ s.attempts }))
      nothing_left [] n last = (h, ground arith)
      nothing_left (x ∷ rest) n last = absurd (ground arith)

  -- Were the writes of a wrong attempt kept, then as many wrong codes as the row still allows would
  -- lock the only code of a booking at boarding: the next attempt, with whatever code, finds none.
  pub try_bodies-wrong :
      (c : SecretCode) (now : ℕ) (codes : List String) (s : BoardingStore) (code : String)
      (later : ℕ)
      → is_boarding s ≡ true
      → s.codes ≡ c ∷ []
      → boarding_code_can_attempt c now ≡ attempt_allowed
      → All (IsWrong hash_secret c) codes
      → c.attempts_count + length codes ≡ c.max_attempts
      → (board_booking hash_secret code later (try_bodies now codes s)).1
        ≡ err boarding_code_not_found
  try_bodies-wrong c now codes s code later h only a wrong count =
      locked_throws code later (try_bodies now codes s)
        (bodies_lock c now codes s h only a wrong count)
