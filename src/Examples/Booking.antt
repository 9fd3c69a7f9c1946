-- ===== src/Examples/Booking.antt =====
-- Bookings of a trip with two seats.
use nodex_v.Prelude.{
  ℕ, ◌≡◌, ◌≤◌, ◌==◌, if◌then◌else◌, length, arith, refl, true, false, [], ◌∷◌, none, some, Result,
  ok, err,
}
use nodex_v.Prelude.Int.{pos, ◌+ℤ◌}
use nodex_v.Lifecycle.Trip.{TripStatus-discrete, published}
use nodex_v.Booking.Layout.{generate_seat_layout, rear_seats, rear_seat}
use nodex_v.Booking.Store.{BookingType, PaymentMethod, SeatHoldStatus, SeatHold, Trip, Store}
use nodex_v.Booking.Holds.{
  BookingError, assert_seat_selection, release_active_seat_hold, expire_seat_holds, expire_holds,
  due_holds,
}
use nodex_v.Booking.Holds.Once.{release_active_seat_hold_once}
use nodex_v.Booking.Routes.{
  HoldRequest, create_hold, hold_seats, take_seats, ensure_trip_seats, distinct_keys, find_record,
  confirm_hold, book_seats,
}
use nodex_v.Booking.Routes.Replay.{create_hold_replayed}
use nodex_v.Booking.Changes.{client, cancel_booking, settle_booking}
use nodex_v.Booking.Changes.Availability.{confirm_hold_cancelled, settle_booking_cancelled}
use nodex_v.Booking.Maintenance.{Stores, due_of_trips, expire_active_seat_holds}
use nodex_v.Booking.Maintenance.Agreement.{forget, expire_active_seat_holds-agrees}
use nodex_v.Booking.Invariant.{is_live}
use nodex_v.Booking.Store.{Booking, BookingStatus}
use nodex_v.Booking.Invariant.Steps.{
  Reach, here, next, hold, confirm, new_trip, Reach-single, Reach-free,
}

abbrev pub two_seats : Trip
two_seats = record {
  status = published;
  is_cancelled = false;
  is_blocked = false;
  departure_at = 1000;
  is_driver_approved = true;
  is_vehicle_approved = true;
  driver_user_id = 1;
  passenger_seat_capacity = pos 2;
  price_per_seat_minor = pos 500;
  whole_car_price_minor = none;
  available_seat_count = pos 2;
  version = 1;
}

abbrev front_request : HoldRequest
front_request = record {
  type = BookingType.seat;
  seat_keys = "FRONT_RIGHT" ∷ [];
  passenger_count = 1;
  payment_method = PaymentMethod.cash;
  request_hash = 77;
  idempotency_key = "key";
}

abbrev store_of : Result BookingError (Store × ℕ) → Store
store_of (ok (s, b)) = s
store_of (err e) = new_trip two_seats

abbrev held_store : Store
held_store = store_of (create_hold front_request 7 10 600 (new_trip two_seats))

created : create_hold front_request 7 10 600 (new_trip two_seats) ≡ ok (held_store, 0)
unfolding create_hold hold_seats take_seats ensure_trip_seats generate_seat_layout rear_seats
    rear_seat expire_seat_holds expire_holds due_holds distinct_keys find_record TripStatus-discrete
    new_trip assert_seat_selection
created = refl

create_hold_replayed_example :
    create_hold front_request 7 20 600 held_store ≡ ok (expire_seat_holds 20 held_store, 0)
create_hold_replayed_example =
    create_hold_replayed front_request 7 10 600 (new_trip two_seats) held_store 0 20 600 created

abbrev read_hold : SeatHold
read_hold = record {
  client_id = 7;
  booking_id = some 0;
  status = SeatHoldStatus.active;
  expires_at = 610;
  version = 1;
  items = "FRONT_RIGHT" ∷ [];
}

release_active_seat_hold_once_example :
    release_active_seat_hold 0 read_hold SeatHoldStatus.released
      (release_active_seat_hold 0 read_hold SeatHoldStatus.expired held_store).0
    ≡ ((release_active_seat_hold 0 read_hold SeatHoldStatus.expired held_store).0, false)
unfolding release_active_seat_hold create_hold hold_seats take_seats ensure_trip_seats
    generate_seat_layout rear_seats rear_seat expire_seat_holds expire_holds due_holds distinct_keys
    find_record TripStatus-discrete new_trip assert_seat_selection
release_active_seat_hold_once_example =
    release_active_seat_hold_once held_store 0 read_hold SeatHoldStatus.expired
      SeatHoldStatus.released refl

abbrev confirmed_store : Store
confirmed_store = book_seats 0 read_hold 0 PaymentMethod.cash held_store

confirmed : confirm_hold 0 7 1 PaymentMethod.cash 20 held_store ≡ ok confirmed_store
unfolding confirm_hold create_hold hold_seats take_seats ensure_trip_seats generate_seat_layout
    rear_seats rear_seat expire_seat_holds expire_holds due_holds distinct_keys find_record
    TripStatus-discrete new_trip assert_seat_selection
confirmed = refl

reached : Reach (new_trip two_seats) confirmed_store
reached =
    next (next here (hold front_request 7 10 600 0 created))
      (confirm 0 7 1 PaymentMethod.cash 20 confirmed)

Reach-single_example : ◌≡◌ {A = ℕ} 0 0
unfolding confirm_hold book_seats create_hold hold_seats take_seats ensure_trip_seats
    generate_seat_layout rear_seats rear_seat expire_seat_holds expire_holds due_holds distinct_keys
    find_record TripStatus-discrete new_trip assert_seat_selection
Reach-single_example = Reach-single two_seats confirmed_store "FRONT_RIGHT" 0 0 reached refl refl

Reach-free_example : is_live (confirmed_store.booking_seats 0 "ROW_1_LEFT") ≡ false
unfolding confirm_hold book_seats create_hold hold_seats take_seats ensure_trip_seats
    generate_seat_layout rear_seats rear_seat expire_seat_holds expire_holds due_holds distinct_keys
    find_record TripStatus-discrete new_trip assert_seat_selection
Reach-free_example = Reach-free two_seats confirmed_store "ROW_1_LEFT" 0 reached refl

abbrev left_by : Result BookingError Store → Store
left_by (ok s) = s
left_by (err e) = new_trip two_seats

abbrev booked_front : Booking
booked_front = record {
  client_id = 7;
  type = BookingType.seat;
  status = BookingStatus.hold;
  payment_method = PaymentMethod.cash;
  total_minor = pos 500;
  passenger_count = 1;
  expires_at = 610;
  seats = "FRONT_RIGHT" ∷ [];
}

confirm_hold_cancelled_example :
    (left_by (cancel_booking 0 client 7 confirmed_store)).trip.available_seat_count
    ≡ held_store.trip.available_seat_count
unfolding ◌+ℤ◌ book_seats cancel_booking create_hold hold_seats take_seats ensure_trip_seats
    generate_seat_layout rear_seats rear_seat expire_seat_holds expire_holds due_holds distinct_keys
    find_record TripStatus-discrete new_trip assert_seat_selection
confirm_hold_cancelled_example =
    confirm_hold_cancelled 0 7 1 PaymentMethod.cash 20 held_store confirmed_store read_hold 0
      booked_front client 7 (left_by (cancel_booking 0 client 7 confirmed_store)) refl refl refl
      confirmed refl

settle_booking_cancelled_example :
    (left_by (
      cancel_booking 0 client 7
        (settle_booking 0 PaymentMethod.online held_store))).trip.available_seat_count
    ≡ held_store.trip.available_seat_count +ℤ pos 1
unfolding ◌+ℤ◌ cancel_booking settle_booking create_hold hold_seats take_seats ensure_trip_seats
    generate_seat_layout rear_seats rear_seat expire_seat_holds expire_holds due_holds distinct_keys
    find_record TripStatus-discrete new_trip assert_seat_selection
settle_booking_cancelled_example =
    settle_booking_cancelled 0 PaymentMethod.online client 7 held_store
      (left_by (cancel_booking 0 client 7 (settle_booking 0 PaymentMethod.online held_store)))
      booked_front refl refl refl refl

abbrev both_trips : Stores
both_trips trip = if trip == 3 then held_store else new_trip two_seats

few_due : length (due_of_trips 700 (2 ∷ 3 ∷ []) both_trips) ≤ 100
unfolding due_of_trips due_holds create_hold hold_seats take_seats ensure_trip_seats
    generate_seat_layout rear_seats rear_seat expire_seat_holds expire_holds distinct_keys
    find_record TripStatus-discrete new_trip assert_seat_selection
few_due = omega arith

expire_active_seat_holds-agrees_example :
    (forget ((expire_active_seat_holds 700 (2 ∷ 3 ∷ []) both_trips).0 3)
      ≡ forget (expire_seat_holds 700 held_store))
    × ((expire_active_seat_holds 700 (2 ∷ 3 ∷ []) both_trips).1 ≤ 100)
expire_active_seat_holds-agrees_example =
    expire_active_seat_holds-agrees 700 3 (2 ∷ 3 ∷ []) both_trips (refl, (refl, tt)) refl few_due
