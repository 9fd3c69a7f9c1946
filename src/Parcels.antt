-- ===== src/Parcels.antt =====
-- The driver's actions on a parcel: driverParcelAction and createParcelCode of apps/api/src/main.ts.
-- That the parcel is the driver's is checked before; timeline events, audits and the outbox are left
-- out. The hash of a code and the digits of a new one are the crypto library's.
pub mod Handover
use nodex_v.Prelude.{
  ℕ, suc, ◌+◌, ◌==◌, leb, Bool, true, false, List, [], ◌∷◌, String, Option, none, some,
  if◌then◌else◌, Result, ok, err,
}
use nodex_v.Lifecycle.Parcel.{ParcelStatus, ParcelAction, handover, deliver}
use nodex_v.Operations.{Versioned, OperationError, transition_parcel}
use nodex_v.Codes.{
  SecretCode, CodeStatus, locked, CodeGuard, attempt_allowed, parcel_code_can_attempt, update_code,
  verify_code, create_code,
}

pub record ParcelStore : Type 0 where
  pub row : Versioned ParcelStatus
  -- The codes, the newest first.
  pub handover_codes : List SecretCode
  pub pickup_codes : List SecretCode

pub data ParcelError : Type 0 where
  parcel_code_not_found parcel_code_invalid : ParcelError
  parcel_code_refused : CodeGuard → ParcelError
  parcel_refused : OperationError → ParcelError

-- What a wrong code writes.
abbrev pub fail_parcel_code : ℕ → SecretCode → SecretCode
fail_parcel_code now c = record c {
  attempts_count = suc c.attempts_count;
  status = if leb c.max_attempts (suc c.attempts_count) then locked else CodeStatus.active;
  locked_at = if leb c.max_attempts (suc c.attempts_count) then some now else none;
}

-- The codes afterwards, and whether the attempt succeeded.
unfoldable pub check_code :
    (String → ℕ) → String → ℕ → List SecretCode → List SecretCode × Result ParcelError (Unit {0})
unfolding parcel_code_can_attempt
check_code hash_secret code now [] = ([], err parcel_code_not_found)
check_code hash_secret code now (c ∷ cs) = elim (parcel_code_can_attempt c now) [
  | attempt_allowed ↦
      if c.code_hash == hash_secret code
      then (update_code c.id (verify_code now) (c ∷ cs), ok tt)
      else (update_code c.id (fail_parcel_code now) (c ∷ cs), err parcel_code_invalid)
  | refused ↦ (c ∷ cs, err (parcel_code_refused refused))
]

-- `transitionParcel(tx, current, action, actor)`.
unfoldable pub move : ParcelAction → ParcelStore → ParcelStore × Result ParcelError (Unit {0})
unfolding transition_parcel
move action s = elim (transition_parcel s.row action s.row) [
  | err e ↦ (s, err (parcel_refused e))
  | ok row ↦ (record s { row = row }, ok tt)
]

abbrev pub move_if :
    Result ParcelError (Unit {0})
    → ParcelAction
    → ParcelStore
    → ParcelStore × Result ParcelError (Unit {0})
move_if (err e) action s = (s, err e)
move_if (ok u) action s = move action s

-- A new pickup code, when the parcel has become ready.
abbrev pub add_pickup_code :
    (id hash now ttl max_attempts : ℕ)
    → ParcelStore × Result ParcelError (Unit {0})
    → ParcelStore × Result ParcelError (Unit {0})
add_pickup_code id hash now ttl max_attempts (s, err e) = (s, err e)
add_pickup_code id hash now ttl max_attempts (s, ok u) =
    (record s { pickup_codes = create_code id hash now ttl max_attempts s.pickup_codes }, ok u)

-- The body of the transaction; `code` is the code of the request.
unfoldable pub driver_parcel_action :
    (String → ℕ)
    → ParcelAction
    → (code : String) → (id hash now ttl max_attempts : ℕ) → ParcelStore
    → ParcelStore × Result ParcelError (Unit {0})
unfolding check_code move
driver_parcel_action hash_secret handover code id hash now ttl max_attempts s =
    let (codes, checked) = check_code hash_secret code now s.handover_codes in
    move_if checked handover (record s { handover_codes = codes })
driver_parcel_action hash_secret deliver code id hash now ttl max_attempts s =
    let (codes, checked) = check_code hash_secret code now s.pickup_codes in
    move_if checked deliver (record s { pickup_codes = codes })
driver_parcel_action hash_secret ParcelAction.ready_for_pickup code id hash now ttl max_attempts s =
    add_pickup_code id hash now ttl max_attempts (move ParcelAction.ready_for_pickup s)
driver_parcel_action hash_secret action code id hash now ttl max_attempts s = move action s
