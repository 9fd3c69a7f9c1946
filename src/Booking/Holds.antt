-- ===== src/Booking/Holds.antt =====
-- Seat holds: releaseActiveSeatHold, expireSeatHolds and assertSeatSelection of apps/api/src/main.ts.
-- A body runs inside one transaction, so an `err` leaves the store as it was.
pub mod Draining
pub mod Once
use text.Mathlib.Text.{◌==◌ as str_eq}
use nodex_v.Prelude.{
  ℕ, zero, suc, ◌+◌, ◌==◌, leb, ltb, Bool, true, false, not, ◌&&◌, ◌||◌, List, [], ◌∷◌, ◌++◌,
  String, Option, none, some, any, keep, map, length, if◌then◌else◌, Result, ok, err, ◌>>=◌, ◌>>◌,
  throw_if,
}
use nodex_v.Prelude.Int.{ℤ, pos, ◌+ℤ◌, ◌-ℤ◌, eq_ℤ, ltb_ℤ}
use nodex_v.Lifecycle.Trip.{TripStatus, published, booking_open}
use nodex_v.Booking.Layout.{SeatLayoutItem, generate_seat_layout}
use nodex_v.Booking.Store.{
  SeatStatus, BookingSeatStatus, SeatHoldStatus, active, BookingStatus, BookingType, multi_seat,
  whole_car, PaymentMethod, Trip, SeatHold, Booking, BookingEvent, hold_created, hold_expired,
  hold_released, booking_confirmed, IdempotencyRecord, Store, has, update, is_seat_available,
  is_seat_held, is_held, move_held_seats, move_held_rows, is_active, set_booking_status, log,
}

pub data BookingError : Type 0 where
  seat_selection_invalid idempotency_key_reused trip_not_available own_trip_booking_forbidden :
      BookingError
  seat_not_available seat_hold_not_found seat_hold_expired passenger_count_mismatch : BookingError
  seat_hold_ownership_conflict booking_not_found booking_transition_invalid : BookingError
  unique_constraint_failed : BookingError

-- The claim of releaseActiveSeatHold: the row is still ACTIVE and has the version that was read.
abbrev pub is_claimable : SeatHold → Option SeatHold → Bool
is_claimable read none = false
is_claimable read (some row) = is_active row.status && row.version == read.version

abbrev pub close_hold : SeatHoldStatus → SeatHold → SeatHold
close_hold status row = record row { status = status; version = suc row.version }

abbrev pub update_hold : ℕ → (SeatHold → SeatHold) → (ℕ → Option SeatHold) → ℕ → Option SeatHold
update_hold id f holds h = elim (holds h) [
  | none ↦ none
  | some row ↦ some (if id == h then f row else row)
]

abbrev pub release_rows :
    Option ℕ
    → List String
    → (ℕ → String → Option BookingSeatStatus)
    → ℕ
    → String
    → Option BookingSeatStatus
release_rows none keys rows = rows
release_rows (some b) keys rows = move_held_rows b keys BookingSeatStatus.released rows

-- The rows that releaseActiveSeatHold writes once it has claimed the hold.
unfoldable pub release_hold_rows : ℕ → SeatHold → SeatHoldStatus → Store → Store
release_hold_rows id read status s = record s {
  holds = update_hold id (close_hold status) s.holds;
  seat_status = move_held_seats read.items SeatStatus.available s.seat_status;
  booking_seats = release_rows read.booking_id read.items s.booking_seats;
}

-- `read` is the row as it was read, with its items; the flag says whether the claim succeeded.
unfoldable pub release_active_seat_hold : ℕ → SeatHold → SeatHoldStatus → Store → Store × Bool
unfolding release_hold_rows
release_active_seat_hold id read status s =
    if is_claimable read (s.holds id)
    then (release_hold_rows id read status s, true)
    else (s, false)

-- `booking.update({ where: { id }, data: { status: EXPIRED, expiresAt } })`.
abbrev pub end_booking : ℕ → ℕ → (ℕ → Option Booking) → ℕ → Option Booking
end_booking id expires_at bookings b = elim (bookings b) [
  | none ↦ none
  | some row ↦ some (
      if id == b
      then record row { status = BookingStatus.expired; expires_at = expires_at }
      else row)
]

abbrev pub expire_booking : Option ℕ → ℕ → Store → Store
expire_booking none expires_at s = s
expire_booking (some b) expires_at s =
    log (hold_expired b) (record s { bookings = end_booking b expires_at s.bookings })

-- One round of expireSeatHolds.
unfoldable pub expire_hold : ℕ × SeatHold → Store → Store
unfolding release_active_seat_hold
expire_hold (id, read) s =
    let (released, done) = release_active_seat_hold id read SeatHoldStatus.expired s in
    if done then expire_booking read.booking_id read.expires_at released else s

unfoldable pub expire_holds : List (ℕ × SeatHold) → Store → Store
expire_holds [] s = s
expire_holds (h ∷ hs) s = expire_holds hs (expire_hold h s)

-- `findMany`: the ACTIVE holds whose time is over, with their rows.
abbrev pub is_due : ℕ → Option SeatHold → Bool
is_due now none = false
is_due now (some row) = is_active row.status && leb row.expires_at now

unfoldable pub due_holds : ℕ → (ℕ → Option SeatHold) → List ℕ → List (ℕ × SeatHold)
due_holds now holds [] = []
due_holds now holds (id ∷ ids) = elim (holds id) [
  | none ↦ due_holds now holds ids
  | some row ↦
      if is_due now (some row) then (id, row) ∷ due_holds now holds ids else due_holds now holds ids
]

abbrev pub take_holds : ℕ → List (ℕ × SeatHold) → List (ℕ × SeatHold)
take_holds zero hs = []
take_holds (suc n) [] = []
take_holds (suc n) (h ∷ hs) = h ∷ take_holds n hs

unfoldable pub expire_seat_holds : ℕ → Store → Store
unfolding expire_holds due_holds
expire_seat_holds now s = expire_holds (take_holds 100 (due_holds now s.holds s.hold_ids)) s

unfoldable pub assert_seat_selection :
    BookingType → List String → ℕ → Result BookingError (Unit {0})
assert_seat_selection BookingType.seat keys passengers =
    throw_if (not (length keys == 1)) seat_selection_invalid
assert_seat_selection multi_seat keys passengers =
    throw_if (not (length keys == passengers)) seat_selection_invalid
assert_seat_selection whole_car keys passengers = ok tt
