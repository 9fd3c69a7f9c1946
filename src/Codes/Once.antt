-- ===== src/Codes/Once.antt =====
-- The codes in use of one booking: createBoardingCode, activeBoardingCodeForBooking and the success of
-- boardBooking (apps/api/src/main.ts).
use nodex_v.Prelude.{
  ℕ, suc, ◌≤◌, ◌<◌, ◌==◌, ◌≡◌, refl, arith, true, false, List, [], ◌∷◌, String, none, some, All,
  Bool-cases, Option-cases, inl, inr, Result, ok, err, map, if◌then◌else◌,
}
use nodex_v.Codes.{
  SecretCode, CodeGuard, attempt_allowed, boarding_code_can_attempt, find_active, is_code_active,
  is_set, update_code, verify_code, replace_code, create_code, active_code, BoardingStore,
  BoardingError, boarding_code_not_found, is_boarding, board_booking, code_inactive, code_used,
  code_locked, code_expired, code_max_attempts, board,
}

abbrev pub actives : List SecretCode → ℕ
actives [] = 0
actives (c ∷ cs) = if is_code_active c.status then suc (actives cs) else actives cs

-- A code in use was not verified.
abbrev pub IsUnused : SecretCode → Type 0
IsUnused c = is_code_active c.status ≡ true → is_set c.verified_at ≡ false

replaced_inactive : (c : SecretCode) → IsUnused c → is_code_active (replace_code c).status ≡ false
replaced_inactive c unused = ground arith

replaced_none : (cs : List SecretCode) → All IsUnused cs → actives (map replace_code cs) ≡ 0
replaced_none [] us = refl
replaced_none (c ∷ cs) (u, us) = rw (replaced_inactive c u) (replaced_none cs us)

none_verified :
    (id now : ℕ) (cs : List SecretCode)
    → actives cs ≡ 0
    → find_active (update_code id (verify_code now) cs) ≡ none
none_verified id now [] e = refl
none_verified id now (c ∷ cs) e = elim (Bool-cases (is_code_active c.status)) [
  | inl a ↦ absurd (ground arith)
  | inr a ↦ elim (Bool-cases (c.id == id)) [
    | inl i ↦ rw (i) (none_verified id now cs (ground arith))
    | inr i ↦ rw (i, a) (none_verified id now cs (ground arith))
  ]
]

single_verified :
    (now : ℕ) (c : SecretCode) (cs : List SecretCode)
    → actives cs ≤ 1
    → find_active cs ≡ some c
    → find_active (update_code c.id (verify_code now) cs) ≡ none
single_verified now c [] le e = cc
single_verified now c (d ∷ cs) le e = elim (Bool-cases (is_code_active d.status)) [
  | inl a ↦
      let same : d ≡ c = ground arith in
      let i : (d.id == c.id) ≡ true = rw same (ground arith) in
      rw i (none_verified c.id now cs (ground arith))
  | inr a ↦ elim (Bool-cases (d.id == c.id)) [
    | inl i ↦ rw i (single_verified now c cs (ground arith) (ground arith))
    | inr i ↦ rw (i, a) (single_verified now c cs (ground arith) (ground arith))
  ]
]

-- createBoardingCode and createTripStartPin leave one code in use, if no code in use was verified
-- before.
pub create_code-single :
    (id hash now ttl max_attempts : ℕ) (cs : List SecretCode)
    → All IsUnused cs
    → actives (create_code id hash now ttl max_attempts cs) ≡ 1
unfolding create_code
create_code-single id hash now ttl max_attempts cs us = rw (replaced_none cs us) refl

fresh_allowed :
    (id hash now ttl max_attempts : ℕ) (cs : List SecretCode)
    → 0 < ttl
    → 0 < max_attempts
    → (c : SecretCode) × (find_active (create_code id hash now ttl max_attempts cs) ≡ some c)
      × (boarding_code_can_attempt c now ≡ attempt_allowed)
unfolding create_code boarding_code_can_attempt
fresh_allowed id hash now ttl max_attempts cs t m = (_, refl, ground arith)

-- activeBoardingCodeForBooking and activeTripStartPinForBooking leave a code with which an attempt is
-- allowed, if codes live for some time and allow an attempt.
pub active_code-allowed :
    (id hash now ttl max_attempts : ℕ) (cs : List SecretCode)
    → 0 < ttl
    → 0 < max_attempts
    → (c : SecretCode) × (find_active (active_code id hash now ttl max_attempts cs) ≡ some c)
      × (boarding_code_can_attempt c now ≡ attempt_allowed)
unfolding active_code
active_code-allowed id hash now ttl max_attempts cs t m = elim (Option-cases (find_active cs)) [
  | inl e ↦ rw (e, active_code) (fresh_allowed id hash now ttl max_attempts cs t m)
  | inr (c, e) ↦ by_guard c e (boarding_code_can_attempt c now) refl
]
  where
    by_guard :
        (c : SecretCode)
        → find_active cs ≡ some c
        → (g : CodeGuard) → boarding_code_can_attempt c now ≡ g
        → (c : SecretCode) × (find_active (active_code id hash now ttl max_attempts cs) ≡ some c)
          × (boarding_code_can_attempt c now ≡ attempt_allowed)
    by_guard c e attempt_allowed a = (c, rw (e, a, active_code) e, a)
    by_guard c e code_inactive a =
        rw (e, a, active_code) (fresh_allowed id hash now ttl max_attempts cs t m)
    by_guard c e code_used a =
        rw (e, a, active_code) (fresh_allowed id hash now ttl max_attempts cs t m)
    by_guard c e code_locked a =
        rw (e, a, active_code) (fresh_allowed id hash now ttl max_attempts cs t m)
    by_guard c e code_expired a =
        rw (e, a, active_code) (fresh_allowed id hash now ttl max_attempts cs t m)
    by_guard c e code_max_attempts a =
        rw (e, a, active_code) (fresh_allowed id hash now ttl max_attempts cs t m)

module _ (hash_secret : String → ℕ) where
  -- What boardBooking has written when it succeeds.
  pub board_booking-ok :
      (code : String) (now : ℕ) (s : BoardingStore)
      → (board_booking hash_secret code now s).1 ≡ ok tt
      → (c : SecretCode) × (is_boarding s ≡ true)
        × (find_active s.codes ≡ some c)
        × ((c.code_hash == hash_secret code) ≡ true)
        × ((board_booking hash_secret code now s).0 ≡ board now c s)
  unfolding board_booking
  board_booking-ok code now s e = elim (Bool-cases (is_boarding s)) [
    | inr h ↦ absurd (refuses (rw (h, board_booking) at e))
    | inl h ↦ elim (Option-cases (find_active s.codes)) [
      | inl f ↦ absurd (refuses (rw (h, f, board_booking) at e))
      | inr (c, f) ↦ by_guard h c f (boarding_code_can_attempt c now) refl
    ]
  ]
    where
      refuses : {x : BoardingError} → ◌≡◌ {A = Result BoardingError (Unit {0})} (err x) (ok tt) → ⊥
      refuses r = cc

      by_guard :
          is_boarding s ≡ true
          → (c : SecretCode) → find_active s.codes ≡ some c
          → (g : CodeGuard) → boarding_code_can_attempt c now ≡ g
          → (c : SecretCode) × (is_boarding s ≡ true)
            × (find_active s.codes ≡ some c)
            × ((c.code_hash == hash_secret code) ≡ true)
            × ((board_booking hash_secret code now s).0 ≡ board now c s)
      by_guard h c f attempt_allowed a = elim (Bool-cases (c.code_hash == hash_secret code)) [
        | inl same ↦ (c, h, f, same, rw (h, f, a, same, board_booking) refl)
        | inr other ↦ absurd (refuses (rw (h, f, a, other, board_booking) at e))
      ]
      by_guard h c f code_inactive a = absurd (refuses (rw (h, f, a, board_booking) at e))
      by_guard h c f code_used a = absurd (refuses (rw (h, f, a, board_booking) at e))
      by_guard h c f code_locked a = absurd (refuses (rw (h, f, a, board_booking) at e))
      by_guard h c f code_expired a = absurd (refuses (rw (h, f, a, board_booking) at e))
      by_guard h c f code_max_attempts a = absurd (refuses (rw (h, f, a, board_booking) at e))

  no_code_throws :
      (code : String) (now : ℕ) (s : BoardingStore)
      → is_boarding s ≡ true
      → find_active s.codes ≡ none
      → (board_booking hash_secret code now s).1 ≡ err boarding_code_not_found
  unfolding board_booking
  no_code_throws code now s h f = rw (h, f, board_booking) refl

  -- After a code has boarded a booking that has no other code in use, the next attempt finds none.
  board_booking-next :
      (code code' : String) (now now' : ℕ) (s : BoardingStore)
      → actives s.codes ≤ 1
      → (board_booking hash_secret code now s).1 ≡ ok tt
      → (board_booking hash_secret code' now' (board_booking hash_secret code now s).0).1
        ≡ err boarding_code_not_found
  board_booking-next code code' now now' s single e =
      let (c, h, f, same, written) = board_booking-ok code now s e in
      rw written
        (no_code_throws code' now' (board now c s) h (single_verified now c s.codes single f))
