-- ===== src/Parcels/Handover.antt =====
-- What a handover and a delivery have checked, and what they leave (driverParcelAction of
-- apps/api/src/main.ts).
use nodex_v.Prelude.{
  ℕ, ◌==◌, ==_iff, ◌<◌, ◌≡◌, ◌⊎◌, refl, sym, ap, ◌∙◌, arith, true, false, List, [], ◌∷◌, String,
  none, same, Bool-cases, inl, inr, Result, ok, err,
}
use nodex_v.Lifecycle.Parcel.{
  ParcelStatus, ParcelStatus-discrete, ParcelAction, handover, deliver, handed_to_driver,
  evaluate_parcel_transition,
}
use nodex_v.Transition.{evaluate, TransitionResult, invalid_transition}
use nodex_v.Operations.{transition_parcel}
use nodex_v.Codes.{
  SecretCode, CodeStatus, CodeGuard, attempt_allowed, code_inactive, code_used, code_locked,
  code_expired, code_max_attempts, parcel_code_can_attempt, update_code, verify_code,
}
use nodex_v.Parcels.{
  ParcelStore, ParcelError, parcel_code_refused, check_code, move, move_if, driver_parcel_action,
}

-- The newest of the codes is in use, unused, not locked, in time and with an attempt left, and it is the
-- one that was entered.
abbrev pub IsEntered : (String → ℕ) → String → ℕ → List SecretCode → Type 0
IsEntered hash_secret code now codes =
    (c : SecretCode) × (rest : List SecretCode) × (codes ≡ c ∷ rest)
    × (c.status ≡ CodeStatus.active)
    × (c.verified_at ≡ none)
    × (c.locked_at ≡ none)
    × (now < c.expires_at)
    × (c.attempts_count < c.max_attempts)
    × (c.code_hash ≡ hash_secret code)

allowed_code :
    (c : SecretCode) (now : ℕ)
    → parcel_code_can_attempt c now ≡ attempt_allowed
    → (c.status ≡ CodeStatus.active)
      × (c.verified_at ≡ none)
      × (c.locked_at ≡ none)
      × (now < c.expires_at)
      × (c.attempts_count < c.max_attempts)
unfolding parcel_code_can_attempt
allowed_code c now e = (ground arith, ground arith, ground arith, ground arith, ground arith)

check_code-IsEntered :
    (hash_secret : String → ℕ) (code : String) (now : ℕ) (codes : List SecretCode)
    → (check_code hash_secret code now codes).1 ≡ ok tt
    → IsEntered hash_secret code now codes
unfolding check_code
check_code-IsEntered hash_secret code now [] e = cc e
check_code-IsEntered hash_secret code now (c ∷ cs) e = by_guard (parcel_code_can_attempt c now) refl
  where
    by_guard :
        (g : CodeGuard)
        → parcel_code_can_attempt c now ≡ g
        → IsEntered hash_secret code now (c ∷ cs)
    by_guard attempt_allowed a = elim (Bool-cases (c.code_hash == hash_secret code)) [
      | inl same ↦
          let (active, unused, free, early, left) = allowed_code c now a in
          (
            c,
            cs,
            refl,
            active,
            unused,
            free,
            early,
            left,
            (==_iff c.code_hash (hash_secret code)).0 same,
          )
      | inr other ↦ absurd (ground (arith, rw (a, other, check_code) at e))
    ]
    by_guard code_inactive a = absurd (ground (arith, rw (a, check_code) at e))
    by_guard code_used a = absurd (ground (arith, rw (a, check_code) at e))
    by_guard code_locked a = absurd (ground (arith, rw (a, check_code) at e))
    by_guard code_expired a = absurd (ground (arith, rw (a, check_code) at e))
    by_guard code_max_attempts a = absurd (ground (arith, rw (a, check_code) at e))

-- The rows that the check of a code leaves when it succeeds refuse every code.
IsUsed : List SecretCode → Type 0
IsUsed codes =
    (hash_secret : String → ℕ) (code : String) (now : ℕ)
    → check_code hash_secret code now codes ≡ (codes, err (parcel_code_refused code_inactive))

verified-IsUsed :
    (now : ℕ) (c : SecretCode) (cs : List SecretCode)
    → IsUsed (update_code c.id (verify_code now) (c ∷ cs))
unfolding IsUsed check_code parcel_code_can_attempt
verified-IsUsed now c cs hash_secret code now' =
    let own : (c.id == c.id) ≡ true = ground arith in rw own refl

check_code-IsUsed :
    (hash_secret : String → ℕ) (code : String) (now : ℕ) (codes : List SecretCode)
    → (check_code hash_secret code now codes).1 ≡ ok tt
    → IsUsed (check_code hash_secret code now codes).0
unfolding check_code
check_code-IsUsed hash_secret code now [] e = cc e
check_code-IsUsed hash_secret code now (c ∷ cs) e = by_guard (parcel_code_can_attempt c now) refl
  where
    by_guard :
        (g : CodeGuard)
        → parcel_code_can_attempt c now ≡ g
        → IsUsed (check_code hash_secret code now (c ∷ cs)).0
    by_guard attempt_allowed a = elim (Bool-cases (c.code_hash == hash_secret code)) [
      | inl same ↦ rw (a, same, check_code) (verified-IsUsed now c cs)
      | inr other ↦ absurd (ground (arith, rw (a, other, check_code) at e))
    ]
    by_guard code_inactive a = absurd (ground (arith, rw (a, check_code) at e))
    by_guard code_used a = absurd (ground (arith, rw (a, check_code) at e))
    by_guard code_locked a = absurd (ground (arith, rw (a, check_code) at e))
    by_guard code_expired a = absurd (ground (arith, rw (a, check_code) at e))
    by_guard code_max_attempts a = absurd (ground (arith, rw (a, check_code) at e))

moved_checked :
    (r : Result ParcelError (Unit {0})) (action : ParcelAction) (s : ParcelStore)
    → (move_if r action s).1 ≡ ok tt
    → r ≡ ok tt
moved_checked (ok u) action s e = refl
moved_checked (err x) action s e = cc e

evaluate-waiting :
    (st : ParcelStatus)
    → st ≡ ParcelStatus.accepted
    → evaluate_parcel_transition st handover ≡ TransitionResult.accepted handed_to_driver false
unfolding evaluate_parcel_transition evaluate ParcelStatus-discrete
evaluate-waiting st e = rw e refl

evaluate-handed :
    (st : ParcelStatus)
    → st ≡ handed_to_driver
    → evaluate_parcel_transition st handover ≡ TransitionResult.accepted handed_to_driver true
unfolding evaluate_parcel_transition evaluate ParcelStatus-discrete
evaluate-handed st e = rw e refl

evaluate-elsewhere :
    (st : ParcelStatus)
    → same ParcelStatus-discrete st handed_to_driver ≡ false
    → same ParcelStatus-discrete ParcelStatus.accepted st ≡ false
    → evaluate_parcel_transition st handover ≡ invalid_transition
unfolding evaluate_parcel_transition evaluate
evaluate-elsewhere st a b = ground arith

moved-handed :
    (s : ParcelStore)
    → (move handover s).1 ≡ ok tt
    → ((s.row.status ≡ ParcelStatus.accepted) ⊎ (s.row.status ≡ handed_to_driver))
      × ((move handover s).0.row.status ≡ handed_to_driver)
      × ((move handover s).0.handover_codes ≡ s.handover_codes)
unfolding move transition_parcel
moved-handed s e = elim (Bool-cases (same ParcelStatus-discrete s.row.status handed_to_driver)) [
  | inl there ↦
      let at : s.row.status ≡ handed_to_driver = ground arith in
      let step = evaluate-handed s.row.status at in
      (inr at, rw (step, move) at, rw (step, move) refl)
  | inr away ↦ elim (Bool-cases (same ParcelStatus-discrete ParcelStatus.accepted s.row.status)) [
    | inl waits ↦
        let at : s.row.status ≡ ParcelStatus.accepted = ground arith in
        let step = evaluate-waiting s.row.status at in
        let own : (s.row.version == s.row.version) ≡ true = ground arith in
        (inl at, rw (step, own, move) refl, rw (step, own, move) refl)
    | inr stays ↦
        let step = evaluate-elsewhere s.row.status away stays in
        absurd (ground (arith, rw (step, move) at e))
  ]
]

-- A handover succeeds only with the newest handover code of the parcel, which is in use, unused, not
-- locked, in time and with an attempt left; the parcel was ACCEPTED, or with the driver already, and
-- is HANDED_TO_DRIVER afterwards; and if a handover is what is requested next, it is refused with
-- whatever code and at whatever time, as the code is in use no more.
pub driver_parcel_action-handover :
    (hash_secret : String → ℕ) (code : String) (id hash now ttl max_attempts : ℕ)
    (s t : ParcelStore) (code' : String) (now' : ℕ)
    → driver_parcel_action hash_secret handover code id hash now ttl max_attempts s ≡ (t, ok tt)
    → IsEntered hash_secret code now s.handover_codes
      × ((s.row.status ≡ ParcelStatus.accepted) ⊎ (s.row.status ≡ handed_to_driver))
      × (t.row.status ≡ handed_to_driver)
      × ((driver_parcel_action hash_secret handover code' id hash now' ttl max_attempts t).1
          ≡ err (parcel_code_refused code_inactive))
unfolding driver_parcel_action IsUsed
driver_parcel_action-handover hash_secret code id hash now ttl max_attempts s t code' now' e =
    let checked = check_code hash_secret code now s.handover_codes in
    let s' = record s { handover_codes = checked.0 } in
    let passed = moved_checked checked.1 handover s' (ap (λ r. r.1) e) in
    let moved : move handover s' ≡ (t, ok tt) = ap (λ r. move_if r handover s') (sym passed) ∙ e in
    let (before, after, codes) = moved-handed s' (ap (λ r. r.1) moved) in
    let left : t.handover_codes ≡ checked.0 = ap (λ r. r.0.handover_codes) (sym moved) ∙ codes in
    let used =
      check_code-IsUsed hash_secret code now s.handover_codes passed hash_secret code' now' in
    (
      check_code-IsEntered hash_secret code now s.handover_codes passed,
      before,
      ap (λ r. r.0.row.status) (sym moved) ∙ after,
      rw (left, used) refl,
    )

-- A delivery succeeds only with the newest pickup code of the parcel, in the same way.
driver_parcel_action-deliver :
    (hash_secret : String → ℕ) (code : String) (id hash now ttl max_attempts : ℕ) (s : ParcelStore)
    → (driver_parcel_action hash_secret deliver code id hash now ttl max_attempts s).1 ≡ ok tt
    → IsEntered hash_secret code now s.pickup_codes
unfolding driver_parcel_action
driver_parcel_action-deliver hash_secret code id hash now ttl max_attempts s e =
    check_code-IsEntered hash_secret code now s.pickup_codes (moved_checked _ deliver _ e)
