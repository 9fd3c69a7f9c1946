-- ===== src/Examples/Journeys.antt =====
-- A trip with two bookings and a parcel.
use nodex_v.Prelude.{ℕ, ◌≡◌, refl, true, false, [], ◌∷◌, none, some, keep, length, All, ok, err}
use nodex_v.Transition.{evaluate}
use nodex_v.Lifecycle.Trip.{
  TripStatus, TripStatus-discrete, start_trip, cancel_trip, evaluate_trip_transition,
}
use nodex_v.Lifecycle.Parcel.{
  ParcelStatus, ParcelStatus-discrete, handed_to_driver, in_transit, evaluate_parcel_transition,
}
use nodex_v.Booking.Store.{SeatStatus, BookingSeatStatus, BookingStatus}
use nodex_v.Operations.{
  Versioned, TripBooking, OperationStore, trip_version_conflict, is_boarding_status, is_boarded,
  has_pin, start_trip_operation, cancel_trip_operational, transition_trip_status,
  transition_parcels, transition_parcel, is_active_booking, is_active_parcel,
}
use nodex_v.Operations.Starting.{start_trip_operation-verified}
use nodex_v.Operations.Ending.{is_taken, cancel_trip_operational-clears}
use nodex_v.Operations.Version.{transition_trip_status_once}

abbrev trip_in : TripStatus → ℕ → Versioned TripStatus
trip_in status version = record { status = status; version = version }

abbrev boarded_booking : BookingStatus → TripBooking
boarded_booking status = record { id = 1; status = status; seats = BookingSeatStatus.occupied ∷ [] }

abbrev absent_booking : TripBooking
absent_booking = record {
  id = 2;
  status = BookingStatus.no_show_client;
  seats = BookingSeatStatus.released ∷ [];
}

abbrev journey : TripStatus → ℕ → BookingStatus → ParcelStatus → OperationStore
journey status version booking parcel = record {
  trip = trip_in status version;
  bookings = boarded_booking booking ∷ absent_booking ∷ [];
  verified_pins = 1 ∷ [];
  seats = SeatStatus.occupied ∷ SeatStatus.available ∷ [];
  parcels = record { status = parcel; version = version } ∷ [];
  summary = none;
}

abbrev waiting : OperationStore
waiting = journey TripStatus.boarding 3 BookingStatus.boarding handed_to_driver

abbrev under_way : OperationStore
under_way = journey TripStatus.in_progress 4 BookingStatus.in_progress in_transit

start_trip_operation-verified_example :
    (length (keep (λ b. is_boarding_status b.status) waiting.bookings)
      ≡ length (keep is_boarded waiting.bookings))
    × All (λ b. has_pin waiting.verified_pins b ≡ true) (keep is_boarded waiting.bookings)
unfolding start_trip_operation transition_trip_status transition_parcels transition_parcel
    evaluate_trip_transition evaluate_parcel_transition evaluate TripStatus-discrete
    ParcelStatus-discrete
start_trip_operation-verified_example = start_trip_operation-verified waiting under_way refl

abbrev arrived : OperationStore
arrived = record (journey TripStatus.completed 5 BookingStatus.completed in_transit) {
  parcels = under_way.parcels;
  summary = some (record {
    boarded_count = 1;
    no_show_client_count = 1;
    cancelled_count = 0;
    total_bookings_count = 2;
  });
}

cancel_trip_operational-clears_example :
    (t : OperationStore) × (cancel_trip_operational BookingStatus.cancelled_by_driver waiting
      ≡ ok t)
    × (t.trip ≡ trip_in TripStatus.cancelled 4)
    × All (λ b. is_active_booking b.status ≡ false) t.bookings
    × All (λ st. is_taken st ≡ false) t.seats
    × All (λ p. is_active_parcel p.status ≡ false) t.parcels
unfolding transition_trip_status evaluate_trip_transition evaluate TripStatus-discrete
cancel_trip_operational-clears_example =
    cancel_trip_operational-clears BookingStatus.cancelled_by_driver waiting
      (trip_in TripStatus.cancelled 4) refl refl

transition_trip_status_once_example :
    transition_trip_status
      (trip_in TripStatus.boarding 3)
      cancel_trip
      (trip_in TripStatus.in_progress 4)
    ≡ err trip_version_conflict
unfolding transition_trip_status evaluate_trip_transition evaluate TripStatus-discrete
transition_trip_status_once_example =
    transition_trip_status_once (trip_in TripStatus.boarding 3) (trip_in TripStatus.boarding 3)
      (trip_in TripStatus.in_progress 4) start_trip cancel_trip refl refl refl
