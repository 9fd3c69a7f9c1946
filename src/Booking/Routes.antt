-- ===== src/Booking/Routes.antt =====
-- The hold routes of apps/api/src/main.ts: POST /bookings/holds, POST /bookings/holds/:id/confirm and
-- DELETE /bookings/holds/:id. The body of each transaction is one function; the bodies run one after
-- the other here, and an error rolls back. The account restriction is checked before. Passengers,
-- baggage, snapshots, audits, the outbox and the waitlist are left out.
pub mod Replay
use text.Mathlib.Text.{◌==◌ as str_eq}
use nodex_v.Prelude.{
  ℕ, suc, ◌+◌, ◌==◌, leb, ltb, Bool, true, false, not, ◌&&◌, ◌||◌, List, [], ◌∷◌, ◌++◌, String,
  Option, none, some, any, keep, map, length, if◌then◌else◌, Result, ok, err, ◌>>=◌, ◌>>◌, throw_if,
  includes,
}
use nodex_v.Prelude.Int.{ℤ, pos, ◌+ℤ◌, ◌-ℤ◌, eq_ℤ, ltb_ℤ}
use nodex_v.Lifecycle.Trip.{TripStatus, TripStatus-discrete, published, booking_open}
use nodex_v.Booking.Layout.{SeatLayoutItem, generate_seat_layout}
use nodex_v.Booking.Store.{
  SeatStatus, BookingSeatStatus, SeatHoldStatus, active, BookingStatus, BookingType, whole_car,
  PaymentMethod, Trip, SeatHold, Booking, BookingEvent, hold_created, hold_expired, hold_released,
  booking_confirmed, IdempotencyRecord, Store, has, update, is_seat_available, is_seat_held,
  is_held, move_held_seats, move_held_rows, is_active, set_booking_status, log,
}
use nodex_v.Booking.Holds.{
  BookingError, idempotency_key_reused, trip_not_available, own_trip_booking_forbidden,
  seat_not_available, unique_constraint_failed, seat_hold_not_found, seat_hold_expired,
  passenger_count_mismatch, seat_hold_ownership_conflict, close_hold, update_hold,
  release_active_seat_hold, expire_seat_holds, assert_seat_selection,
}

-- `request_hash` is the SHA-256 of the request, which the crypto library makes.
pub record HoldRequest : Type 0 where
  pub type : BookingType
  pub seat_keys : List String
  pub passenger_count : ℕ
  pub payment_method : PaymentMethod
  pub request_hash : ℕ
  pub idempotency_key : String

-- `[...new Set(keys)]`: the first of each.
unfoldable pub distinct_keys : List String → List String → List String
distinct_keys seen [] = []
distinct_keys seen (k ∷ ks) =
    let rest = distinct_keys seen ks in
    let longer = k ∷ distinct_keys (k ∷ seen) ks in if has seen k then rest else longer

abbrev pub add_seats : List SeatLayoutItem → Store → Store
add_seats [] s = s
add_seats (item ∷ items) s = add_seats items (
    if has s.seat_keys item.seat_key then s else record s {
      seat_keys = s.seat_keys ++ item.seat_key ∷ [];
      seat_status = λ k. if str_eq item.seat_key k then SeatStatus.available else s.seat_status k;
      seat_price =
          λ k. if str_eq item.seat_key k then s.trip.price_per_seat_minor else s.seat_price k;
    })

-- ensureTripSeats: the rows that the layout has and the trip lacks are made.
unfoldable pub ensure_trip_seats : Store → Store
ensure_trip_seats s =
    if not (ltb_ℤ (pos (length s.seat_keys)) s.trip.passenger_seat_capacity)
    then s
    else add_seats (generate_seat_layout s.trip.passenger_seat_capacity) s

unfoldable pub find_record : ℕ → String → List IdempotencyRecord → Option IdempotencyRecord
find_record client key [] = none
find_record client key (r ∷ rs) =
    if r.client_id == client && str_eq r.key key then some r else find_record client key rs

abbrev pub is_bookable : ℕ → Trip → Bool
is_bookable now t =
    includes TripStatus-discrete (published ∷ booking_open ∷ []) t.status
    && not t.is_cancelled
    && not t.is_blocked
    && ltb now t.departure_at
    && t.is_driver_approved
    && t.is_vehicle_approved

abbrev pub requested_keys : HoldRequest → List String → List String
requested_keys r all_keys = elim r.type [ whole_car ↦ all_keys | _ ↦ distinct_keys [] r.seat_keys ]

abbrev pub sum_prices : (String → ℤ) → List String → ℤ
sum_prices price [] = pos 0
sum_prices price (k ∷ ks) = price k +ℤ sum_prices price ks

-- A price of zero counts as none.
abbrev pub total_of : BookingType → Option ℤ → ℤ → ℤ
total_of whole_car (some price) sum = if eq_ℤ price (pos 0) then sum else price
total_of _ _ sum = sum

abbrev pub new_booking : HoldRequest → ℕ → ℤ → List String → ℕ → Booking
new_booking r client total keys expires_at = record {
  client_id = client;
  type = r.type;
  status = BookingStatus.hold;
  payment_method = r.payment_method;
  total_minor = total;
  passenger_count = r.passenger_count;
  expires_at = expires_at;
  seats = keys;
}

abbrev pub new_hold : ℕ → ℕ → List String → ℕ → SeatHold
new_hold client booking keys expires_at = record {
  client_id = client;
  booking_id = some booking;
  status = active;
  expires_at = expires_at;
  version = 1;
  items = keys;
}

-- The rows that POST /bookings/holds writes for the seats `keys`.
unfoldable pub take_seats : HoldRequest → ℕ → ℕ → List String → Store → Store
take_seats r client expires_at keys s =
    let total = total_of r.type s.trip.whole_car_price_minor (sum_prices s.seat_price keys) in
    record s {
      bookings = update s.bookings s.next_id (some (new_booking r client total keys expires_at));
      holds = update s.holds s.next_id (some (new_hold client s.next_id keys expires_at));
      hold_ids = s.hold_ids ++ s.next_id ∷ [];
      seat_status = λ k.
          if has keys k && is_seat_available (s.seat_status k)
          then SeatStatus.held
          else s.seat_status k;
      booking_seats = λ b k.
          if b == s.next_id && has keys k then some BookingSeatStatus.held else s.booking_seats b k;
      idempotency =
          record {
            client_id = client;
            key = r.idempotency_key;
            request_hash = r.request_hash;
            booking_id = s.next_id;
          }
          ∷ s.idempotency;
      events = hold_created s.next_id ∷ s.events;
      next_id = suc s.next_id;
    }

-- The unique index on the trip and the key of its holds, of which each has a record.
abbrev pub is_key_taken : String → List IdempotencyRecord → Bool
is_key_taken key records = any (λ r. str_eq r.key key) records

-- The part for a new key; `ttl` is BOOKING_HOLD_TTL.
unfoldable pub hold_seats : HoldRequest → ℕ → ℕ → ℕ → Store → Result BookingError (Store × ℕ)
unfolding ensure_trip_seats take_seats distinct_keys TripStatus-discrete
hold_seats r client now ttl s = do
  throw_if (not (is_bookable now s.trip)) trip_not_available
  throw_if (s.trip.driver_user_id == client) own_trip_booking_forbidden
  let s' = ensure_trip_seats s
  let requested = requested_keys r s'.seat_keys
  assert_seat_selection r.type requested r.passenger_count
  let free = keep (λ k. has requested k && is_seat_available (s'.seat_status k)) s'.seat_keys
  throw_if (not (length free == length requested)) seat_not_available
  throw_if (is_key_taken r.idempotency_key s.idempotency) unique_constraint_failed
  ok (take_seats r client (now + ttl) free s', s'.next_id)

-- POST /bookings/holds: the store, and the booking that the response shows.
unfoldable pub create_hold : HoldRequest → ℕ → ℕ → ℕ → Store → Result BookingError (Store × ℕ)
unfolding hold_seats find_record
create_hold r client now ttl s =
    let s' = expire_seat_holds now s in
    elim (find_record client r.idempotency_key s'.idempotency) [
      | some prior ↦ do
        throw_if (not (prior.request_hash == r.request_hash)) idempotency_key_reused
        ok (s', prior.booking_id)
      | none ↦ hold_seats r client now ttl s'
    ]

-- `findFirst({ where: { id, clientId } })`, with a booking.
abbrev pub find_own_hold : ℕ → ℕ → Store → Option (SeatHold × ℕ × Booking)
find_own_hold id client s = elim (s.holds id) [
  | none ↦ none
  | some row ↦ elim (row.booking_id) [
    | none ↦ none
    | some b ↦ elim (s.bookings b) [
      | none ↦ none
      | some booking ↦ if row.client_id == client then some (row, b, booking) else none
    ]
  ]
]

abbrev pub is_hold_confirmed : SeatHoldStatus → Bool
is_hold_confirmed SeatHoldStatus.confirmed = true
is_hold_confirmed _ = false

abbrev pub is_booking_confirmed : BookingStatus → Bool
is_booking_confirmed BookingStatus.confirmed = true
is_booking_confirmed _ = false

abbrev pub all_held : ℕ → List String → Store → Bool
all_held b [] s = true
all_held b (k ∷ ks) s =
    is_seat_held (s.seat_status k) && is_held (s.booking_seats b k) && all_held b ks s

abbrev pub confirm_booking : ℕ → PaymentMethod → (ℕ → Option Booking) → ℕ → Option Booking
confirm_booking id method bookings b = elim (bookings b) [
  | none ↦ none
  | some row ↦ some (
      if id == b
      then record row { status = BookingStatus.confirmed; payment_method = method }
      else row)
]

-- The rows that the confirmation writes.
unfoldable pub book_seats : ℕ → SeatHold → ℕ → PaymentMethod → Store → Store
book_seats id row b method s = record s {
  seat_status = move_held_seats row.items SeatStatus.booked s.seat_status;
  booking_seats = move_held_rows b row.items BookingSeatStatus.booked s.booking_seats;
  holds = update_hold id (close_hold SeatHoldStatus.confirmed) s.holds;
  trip = record (s.trip) {
    available_seat_count = s.trip.available_seat_count -ℤ pos (length row.items);
    version = suc s.trip.version;
  };
  bookings = confirm_booking b method s.bookings;
  events = booking_confirmed b ∷ s.events;
}

-- POST /bookings/holds/:id/confirm. The counts of the two `updateMany` equal the number of items
-- exactly if every item's seat and row are HELD, since the items have distinct keys.
unfoldable pub confirm_hold : ℕ → ℕ → ℕ → PaymentMethod → ℕ → Store → Result BookingError Store
unfolding book_seats
confirm_hold id client passengers method now s = elim (find_own_hold id client s) [
  | none ↦ err seat_hold_not_found
  | some found ↦
      if is_hold_confirmed found.0.status || is_booking_confirmed found.2.status then ok s else do
        throw_if (not (is_active found.0.status) || leb found.0.expires_at now) seat_hold_expired
        throw_if (not (passengers == found.2.passenger_count)) passenger_count_mismatch
        throw_if (not (all_held found.1 found.0.items s)) seat_hold_ownership_conflict
        ok (book_seats id found.0 found.1 method s)
]

-- DELETE /bookings/holds/:id.
unfoldable pub delete_hold : ℕ → ℕ → Store → Result BookingError Store
unfolding release_active_seat_hold
delete_hold id client s = elim (find_own_hold id client s) [
  | none ↦ err seat_hold_not_found
  | some found ↦
      if not (is_active found.0.status)
      then ok s
      else let (released, done) = release_active_seat_hold id found.0 SeatHoldStatus.released s in
        ok (
          if done
          then log (hold_released found.1) (record released {
            bookings = set_booking_status found.1 BookingStatus.expired released.bookings;
          })
          else s)
]
