-- ===== src/Codes.antt =====
-- The codes that passengers and senders tell the driver: boardingCodeCanAttempt, boardingCodeIsExpired
-- and parcelCodeCanAttempt of packages/validation/src/index.ts; boardBooking,
-- verifyTripStartPinForBooking, createBoardingCode and createTripStartPin of apps/api/src/main.ts.
-- Time is in milliseconds. `hashSecret` and the random digits are the crypto library's. That the driver
-- owns the booking is checked before; events, audits, the outbox and the location point are left out.
pub mod Transactions
pub mod Attempts
pub mod Once
pub mod Spent
use nodex_v.Prelude.{
  ℕ, suc, ◌+◌, ◌==◌, leb, Bool, true, false, not, ◌&&◌, ◌||◌, List, [], ◌∷◌, String, Option, none,
  some, any, map, if◌then◌else◌, Result, ok, err,
}
use nodex_v.Lifecycle.Trip.{TripStatus}
use nodex_v.Booking.Store.{SeatStatus, BookingSeatStatus, BookingStatus, has}

pub data CodeStatus : Type 0 where
  active verified locked replaced : CodeStatus

pub record SecretCode : Type 0 where
  pub id : ℕ
  pub code_hash : ℕ
  pub status : CodeStatus
  pub expires_at : ℕ
  pub attempts_count : ℕ
  pub max_attempts : ℕ
  pub locked_at : Option ℕ
  pub verified_at : Option ℕ

pub data CodeGuard : Type 0 where
  code_inactive code_used code_locked code_expired code_max_attempts attempt_allowed : CodeGuard

abbrev pub is_code_active : CodeStatus → Bool
is_code_active active = true
is_code_active _ = false

abbrev pub is_set : Option ℕ → Bool
is_set none = false
is_set (some _) = true

abbrev pub boarding_code_is_expired : ℕ → ℕ → Bool
boarding_code_is_expired expires_at now = leb expires_at now

-- boardingCodeCanAttempt.
unfoldable pub boarding_code_can_attempt : SecretCode → ℕ → CodeGuard
boarding_code_can_attempt c now =
    if not (is_code_active c.status)
    then code_inactive
    else if is_set c.verified_at
    then code_used
    else if is_set c.locked_at
    then code_locked
    else if boarding_code_is_expired c.expires_at now
    then code_expired
    else if leb c.max_attempts c.attempts_count
    then code_max_attempts
    else attempt_allowed

-- parcelCodeCanAttempt: the same conditions in the same order.
unfoldable pub parcel_code_can_attempt : SecretCode → ℕ → CodeGuard
parcel_code_can_attempt c now =
    if not (is_code_active c.status)
    then code_inactive
    else if is_set c.verified_at
    then code_used
    else if is_set c.locked_at
    then code_locked
    else if leb c.expires_at now
    then code_expired
    else if leb c.max_attempts c.attempts_count
    then code_max_attempts
    else attempt_allowed

-- `findFirst({ where: { status: ACTIVE } })` of rows from the newest on.
abbrev pub find_active : List SecretCode → Option SecretCode
find_active [] = none
find_active (c ∷ cs) = if is_code_active c.status then some c else find_active cs

abbrev pub update_code : ℕ → (SecretCode → SecretCode) → List SecretCode → List SecretCode
update_code id f cs = map (λ c. if c.id == id then f c else c) cs

-- What a wrong code writes, and what the right one does.
abbrev pub fail_code : ℕ → SecretCode → SecretCode
fail_code now c = record c {
  attempts_count = suc c.attempts_count;
  status = if leb c.max_attempts (suc c.attempts_count) then locked else active;
  locked_at = if leb c.max_attempts (suc c.attempts_count) then some now else c.locked_at;
}

abbrev pub verify_code : ℕ → SecretCode → SecretCode
verify_code now c = record c {
  attempts_count = suc c.attempts_count;
  verified_at = some now;
  status = verified;
}

-- The codes that createBoardingCode and createTripStartPin leave, with the new one first.
abbrev pub replace_code : SecretCode → SecretCode
replace_code c =
    if is_code_active c.status && not (is_set c.verified_at)
    then record c { status = replaced }
    else c

unfoldable pub create_code : (id hash now ttl max_attempts : ℕ) → List SecretCode → List SecretCode
create_code id hash now ttl max_attempts cs =
    record {
      id = id;
      code_hash = hash;
      status = active;
      expires_at = now + ttl;
      attempts_count = 0;
      max_attempts = max_attempts;
      locked_at = none;
      verified_at = none;
    }
    ∷ map replace_code cs

-- activeBoardingCodeForBooking and activeTripStartPinForBooking: the code in use, or a new one.
unfoldable pub active_code : (id hash now ttl max_attempts : ℕ) → List SecretCode → List SecretCode
unfolding boarding_code_can_attempt create_code
active_code id hash now ttl max_attempts cs = elim (find_active cs) [
  | none ↦ create_code id hash now ttl max_attempts cs
  | some c ↦ elim (boarding_code_can_attempt c now) [
    | attempt_allowed ↦ cs
    | _ ↦ create_code id hash now ttl max_attempts cs
  ]
]

-- One booking at boarding.
pub record BoardingStore : Type 0 where
  pub trip_status : TripStatus
  pub booking_status : BookingStatus
  -- The keys of the booking's rows, the seats of the trip and the booking's rows.
  pub seats : List String
  pub seat_status : String → SeatStatus
  pub row_status : String → Option BookingSeatStatus
  pub codes : List SecretCode
  pub pins : List SecretCode
  -- The BoardingAttempt rows: was the attempt a success?
  pub attempts : List Bool

pub data BoardingError : Type 0 where
  boarding_not_allowed boarding_code_not_found boarding_code_invalid : BoardingError
  trip_start_pin_not_available passenger_not_boarded trip_start_pin_not_found : BoardingError
  trip_start_pin_invalid : BoardingError
  code_refused : CodeGuard → BoardingError

abbrev pub is_boarding : BoardingStore → Bool
is_boarding s = elim s.trip_status [
  | TripStatus.boarding ↦ elim s.booking_status [ BookingStatus.boarding ↦ true | _ ↦ false ]
  | _ ↦ false
]

abbrev pub is_occupied : Option BookingSeatStatus → Bool
is_occupied (some BookingSeatStatus.occupied) = true
is_occupied _ = false

abbrev pub occupy_row : Option BookingSeatStatus → Option BookingSeatStatus
occupy_row (some BookingSeatStatus.booked) = some BookingSeatStatus.occupied
occupy_row row = row

abbrev pub board : ℕ → SecretCode → BoardingStore → BoardingStore
board now c s = record s {
  codes = update_code c.id (verify_code now) s.codes;
  attempts = true ∷ s.attempts;
  seat_status = λ k. if has s.seats k then SeatStatus.occupied else s.seat_status k;
  row_status = λ k. if has s.seats k then occupy_row (s.row_status k) else s.row_status k;
}

module _ (hash_secret : String → ℕ) where
  -- The body of boardBooking's transaction: what it has written, and how it ends.
  unfoldable pub board_booking :
      String → ℕ → BoardingStore → BoardingStore × Result BoardingError (Unit {0})
  unfolding boarding_code_can_attempt
  board_booking code now s =
      if not (is_boarding s) then (s, err boarding_not_allowed) else elim (find_active s.codes) [
        | none ↦ (s, err boarding_code_not_found)
        | some c ↦ elim (boarding_code_can_attempt c now) [
          | attempt_allowed ↦ if c.code_hash == hash_secret code then (board now c s, ok tt) else (
            record s {
              codes = update_code c.id (fail_code now) s.codes;
              attempts = false ∷ s.attempts;
            },
            err boarding_code_invalid,
          )
          | refused ↦ (s, err (code_refused refused))
        ]
      ]

  -- The body of verifyTripStartPinForBooking's transaction.
  unfoldable pub verify_trip_start_pin :
      String → ℕ → BoardingStore → BoardingStore × Result BoardingError (Unit {0})
  unfolding boarding_code_can_attempt
  verify_trip_start_pin pin now s =
      if not (is_boarding s)
      then (s, err trip_start_pin_not_available)
      else if not (any (λ k. is_occupied (s.row_status k)) s.seats)
      then (s, err passenger_not_boarded)
      else elim (find_active s.pins) [
        | none ↦ (s, err trip_start_pin_not_found)
        | some c ↦ elim (boarding_code_can_attempt c now) [
          | attempt_allowed ↦
              if c.code_hash == hash_secret pin
              then (record s { pins = update_code c.id (verify_code now) s.pins }, ok tt)
              else (
                record s { pins = update_code c.id (fail_code now) s.pins },
                err trip_start_pin_invalid,
              )
          | refused ↦ (s, err (code_refused refused))
        ]
      ]
