-- ===== src/Booking/Changes.antt =====
-- What happens to a booking after its hold was made: cancelBooking, driverDecideBooking, and the parts
-- of markPaymentSucceeded and of POST /payments/intents that write bookings, seats and holds
-- (apps/api/src/main.ts). Audits, the outbox and cancellation rows are left out.
pub mod Availability
use nodex_v.Prelude.{
  ℕ, suc, ◌==◌, ltb, Bool, true, false, not, ◌&&◌, ◌||◌, ◌∷◌, Option, none, some, keep, length,
  if◌then◌else◌, Result, ok, err, ◌>>◌, throw_if,
}
use nodex_v.Prelude.Int.{pos, ◌+ℤ◌}
use nodex_v.Booking.Store.{
  SeatStatus, BookingSeatStatus, SeatHoldStatus, BookingStatus, pending_confirmation,
  payment_pending, PaymentMethod, online, SeatHold, Booking, booking_cancelled, driver_approved,
  payment_succeeded, Store, has, is_held, is_active, set_booking_status, log, cancelled_by_client,
  cancelled_by_driver, cancelled_by_admin,
}
use nodex_v.Booking.Holds.{BookingError, booking_not_found, booking_transition_invalid, close_hold}
use nodex_v.Booking.Routes.{is_booking_confirmed}

pub data ActorRole : Type 0 where
  client driver admin : ActorRole

abbrev pub cancel_status : ActorRole → BookingStatus
cancel_status driver = cancelled_by_driver
cancel_status admin = cancelled_by_admin
cancel_status client = cancelled_by_client

-- The statuses at which cancelBooking returns the booking as it is.
abbrev pub is_closed : BookingStatus → Bool
is_closed cancelled_by_client = true
is_closed cancelled_by_driver = true
is_closed cancelled_by_admin = true
is_closed BookingStatus.expired = true
is_closed _ = false

abbrev pub is_booked : Option BookingSeatStatus → Bool
is_booked (some BookingSeatStatus.booked) = true
is_booked _ = false

abbrev pub is_held_or_booked : Option BookingSeatStatus → Bool
is_held_or_booked row = is_held row || is_booked row

abbrev pub is_seat_held_or_booked : SeatStatus → Bool
is_seat_held_or_booked SeatStatus.held = true
is_seat_held_or_booked SeatStatus.booked = true
is_seat_held_or_booked _ = false

abbrev pub is_of_booking : ℕ → Option ℕ → Bool
is_of_booking b none = false
is_of_booking b (some b') = b == b'

-- `seatHold.updateMany({ where: { bookingId, status: ACTIVE } })`.
abbrev pub close_active_holds :
    ℕ → (SeatHold → SeatHold) → (ℕ → Option SeatHold) → ℕ → Option SeatHold
close_active_holds b close holds h = elim (holds h) [
  | none ↦ none
  | some row ↦
      some (if is_of_booking b row.booking_id && is_active row.status then close row else row)
]

-- The rows that cancelBooking writes.
unfoldable pub release_booking : ℕ → Booking → BookingStatus → Store → Store
release_booking b row status s =
    let taken = keep (λ k. is_held_or_booked (s.booking_seats b k)) row.seats in
    let booked = length (keep (λ k. is_booked (s.booking_seats b k)) row.seats) in
    record s {
      seat_status = λ k.
          if has taken k && is_seat_held_or_booked (s.seat_status k)
          then SeatStatus.available
          else s.seat_status k;
      booking_seats = λ b' k.
          if b' == b && is_held_or_booked (s.booking_seats b' k)
          then some BookingSeatStatus.cancelled
          else s.booking_seats b' k;
      holds = close_active_holds b (close_hold SeatHoldStatus.cancelled) s.holds;
      trip =
          if ltb 0 booked
          then record (s.trip) {
            available_seat_count = s.trip.available_seat_count +ℤ pos booked;
            version = suc s.trip.version;
          }
          else s.trip;
      bookings = set_booking_status b status s.bookings;
      events = booking_cancelled b ∷ s.events;
    }

abbrev pub is_foreign : ActorRole → ℕ → Booking → Bool
is_foreign client user row = not (row.client_id == user)
is_foreign _ user row = false

unfoldable pub cancel_booking : ℕ → ActorRole → ℕ → Store → Result BookingError Store
unfolding release_booking
cancel_booking b role user s = elim (s.bookings b) [
  | none ↦ err booking_not_found
  | some row ↦ do
    throw_if (is_foreign role user row) booking_not_found
    ok (if is_closed row.status then s else release_booking b row (cancel_status role) s)
]

abbrev pub is_pending_confirmation : BookingStatus → Bool
is_pending_confirmation pending_confirmation = true
is_pending_confirmation _ = false

-- driverDecideBooking; `owns` says whether the trip is the driver's.
unfoldable pub driver_decide_booking : ℕ → Bool → Bool → ℕ → Store → Result BookingError Store
unfolding cancel_booking
driver_decide_booking b owns approved user s =
    if not owns
    then err booking_not_found
    else if not approved
    then cancel_booking b driver user s
    else elim (s.bookings b) [
      | none ↦ err booking_not_found
      | some row ↦ if is_booking_confirmed row.status then ok s else do
        throw_if (not (is_pending_confirmation row.status)) booking_transition_invalid
        ok (
            log (driver_approved b)
              (record s { bookings = set_booking_status b BookingStatus.confirmed s.bookings }))
    ]

-- The statuses that markPaymentSucceeded confirms.
abbrev pub awaits_payment : BookingStatus → Bool
awaits_payment payment_pending = true
awaits_payment pending_confirmation = true
awaits_payment BookingStatus.hold = true
awaits_payment BookingStatus.draft = true
awaits_payment _ = false

abbrev pub confirm_paid : ℕ → PaymentMethod → (ℕ → Option Booking) → ℕ → Option Booking
confirm_paid id method bookings b = elim (bookings b) [
  | none ↦ none
  | some row ↦ some (
      if id == b && awaits_payment row.status
      then record row { status = BookingStatus.confirmed; payment_method = method }
      else row)
]

-- The part of markPaymentSucceeded for a payment of booking `b`.
unfoldable pub settle_booking : ℕ → PaymentMethod → Store → Store
settle_booking b method s = record s {
  bookings = confirm_paid b method s.bookings;
  booking_seats = λ b' k.
      if b' == b && is_held (s.booking_seats b' k)
      then some BookingSeatStatus.booked
      else s.booking_seats b' k;
  holds = close_active_holds b (λ row. record row { status = SeatHoldStatus.confirmed }) s.holds;
  events = payment_succeeded b ∷ s.events;
}

-- The part of POST /payments/intents for a booking: an online payment makes it wait, any other method
-- confirms it.
abbrev pub intent_status : PaymentMethod → BookingStatus
intent_status online = payment_pending
intent_status _ = BookingStatus.confirmed

unfoldable pub start_payment : ℕ → PaymentMethod → Store → Store
start_payment b method s = record s {
  bookings = λ b'. elim (s.bookings b') [
    | none ↦ none
    | some row ↦ some (
        if b == b'
        then record row { status = intent_status method; payment_method = method }
        else row)
  ];
}
