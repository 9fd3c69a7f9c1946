-- ===== src/Booking/Store.antt =====
-- The rows of one trip that the booking code of apps/api/src/main.ts reads and writes (the models
-- Trip, TripSeat, Booking, BookingSeat, SeatHold, SeatHoldItem and IdempotencyRecord of
-- packages/database/prisma/schema.prisma). Time is in milliseconds. A seat stands for its row by its
-- key, which the unique index on trip and key allows; a table of rows under an id is a function.
use text.Mathlib.Text.{◌==◌ as str_eq}
use nodex_v.Prelude.{
  ℕ, ◌==◌, Bool, true, false, ◌&&◌, List, ◌∷◌, String, Option, none, some, any, if◌then◌else◌,
}
use nodex_v.Prelude.Int.{ℤ}
use nodex_v.Lifecycle.Trip.{TripStatus}

pub data SeatStatus : Type 0 where
  available held booked occupied blocked unavailable : SeatStatus

pub data BookingSeatStatus : Type 0 where
  held booked occupied released cancelled : BookingSeatStatus

pub data SeatHoldStatus : Type 0 where
  active confirmed expired released cancelled : SeatHoldStatus

pub data BookingStatus : Type 0 where
  draft hold pending_confirmation confirmed payment_pending paid boarding in_progress :
      BookingStatus
  completed no_show_client no_show_driver cancelled_by_client cancelled_by_driver : BookingStatus
  cancelled_by_admin expired refund_pending refunded disputed : BookingStatus

pub data BookingType : Type 0 where
  seat multi_seat whole_car : BookingType

pub data PaymentMethod : Type 0 where
  cash online wallet bank_transfer manual_transfer : PaymentMethod

pub record Trip : Type 0 where
  pub status : TripStatus
  pub is_cancelled : Bool
  pub is_blocked : Bool
  pub departure_at : ℕ
  -- The driver profile is APPROVED; the vehicle is APPROVED, not archived and not suspended.
  pub is_driver_approved : Bool
  pub is_vehicle_approved : Bool
  pub driver_user_id : ℕ
  pub passenger_seat_capacity : ℤ
  pub price_per_seat_minor : ℤ
  pub whole_car_price_minor : Option ℤ
  pub available_seat_count : ℤ
  pub version : ℕ

pub record SeatHold : Type 0 where
  pub client_id : ℕ
  pub booking_id : Option ℕ
  pub status : SeatHoldStatus
  pub expires_at : ℕ
  pub version : ℕ
  pub items : List String

pub record Booking : Type 0 where
  pub client_id : ℕ
  pub type : BookingType
  pub status : BookingStatus
  pub payment_method : PaymentMethod
  pub total_minor : ℤ
  pub passenger_count : ℕ
  pub expires_at : ℕ
  -- The keys of the BookingSeat rows.
  pub seats : List String

pub data BookingEvent : Type 0 where
  hold_created hold_expired hold_released booking_confirmed booking_cancelled : ℕ → BookingEvent
  driver_approved payment_succeeded payment_expired : ℕ → BookingEvent

pub record IdempotencyRecord : Type 0 where
  pub client_id : ℕ
  pub key : String
  pub request_hash : ℕ
  pub booking_id : ℕ

pub record Store : Type 0 where
  pub trip : Trip
  pub seat_keys : List String
  pub seat_status : String → SeatStatus
  pub seat_price : String → ℤ
  pub hold_ids : List ℕ
  pub holds : ℕ → Option SeatHold
  pub bookings : ℕ → Option Booking
  -- The status of the BookingSeat row of a booking and a seat.
  pub booking_seats : ℕ → String → Option BookingSeatStatus
  pub idempotency : List IdempotencyRecord
  pub events : List BookingEvent
  pub next_id : ℕ

-- `keys.includes(key)`, and `{ in: keys }` of a query.
abbrev pub has : List String → String → Bool
has keys key = any (str_eq key) keys

-- Writes of rows under an id.
abbrev pub update {ℓ} : {A : Type ℓ} → (ℕ → A) → ℕ → A → ℕ → A
update f i a j = if i == j then a else f j

abbrev pub is_seat_available : SeatStatus → Bool
is_seat_available SeatStatus.available = true
is_seat_available _ = false

abbrev pub is_seat_held : SeatStatus → Bool
is_seat_held SeatStatus.held = true
is_seat_held _ = false

abbrev pub is_held : Option BookingSeatStatus → Bool
is_held (some BookingSeatStatus.held) = true
is_held _ = false

-- `updateMany({ where: { key in keys, status: HELD }, data: { status } })` on the trip's seats.
abbrev pub move_held_seats : List String → SeatStatus → (String → SeatStatus) → String → SeatStatus
move_held_seats keys status seats key =
    if has keys key && is_seat_held (seats key) then status else seats key

-- The same on the rows of one booking.
abbrev pub move_held_rows :
    ℕ
    → List String
    → BookingSeatStatus
    → (ℕ → String → Option BookingSeatStatus)
    → ℕ
    → String
    → Option BookingSeatStatus
move_held_rows booking keys status rows b key =
    if b == booking && has keys key && is_held (rows b key) then some status else rows b key

abbrev pub is_active : SeatHoldStatus → Bool
is_active active = true
is_active _ = false

-- `booking.update({ where: { id }, data: { status } })`.
abbrev pub set_booking_status : ℕ → BookingStatus → (ℕ → Option Booking) → ℕ → Option Booking
set_booking_status id status bookings b = elim (bookings b) [
  | none ↦ none
  | some row ↦ some (if id == b then record row { status = status } else row)
]

abbrev pub log : BookingEvent → Store → Store
log e s = record s { events = e ∷ s.events }
