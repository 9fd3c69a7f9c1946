-- ===== src/Operations.antt =====
-- The driver's operations on a whole trip: transitionTripStatus, transitionParcel, activeBookingWhere,
-- startTripOperation, completeTripOperation, cancelTripOperational and cancelActiveParcelsForTrip of
-- apps/api/src/main.ts. The body of a transaction runs alone here, but for the row that the two
-- transition routines were given. Ownership, events, audits, rewards and the outbox are left out.
pub mod Starting
pub mod Ending
pub mod Version
use nodex_v.Prelude.{
  ℕ, suc, ◌+◌, ◌==◌, ltb, Bool, true, false, not, ◌&&◌, ◌||◌, List, [], ◌∷◌, Option, none, some,
  any, keep, map, length, includes, if◌then◌else◌, Result, ok, err, ◌>>=◌, ◌>>◌, throw_if,
}
use nodex_v.Transition.{TransitionResult, accepted, invalid_transition}
use nodex_v.Lifecycle.Trip.{
  TripStatus, TripOperationAction, start_trip, complete_trip, cancel_trip, evaluate_trip_transition,
}
use nodex_v.Lifecycle.Parcel.{
  ParcelStatus, ParcelAction, handed_to_driver, in_transit, created, pending_driver_acceptance,
  start_transit, cancel_admin, evaluate_parcel_transition,
}
use nodex_v.Booking.Store.{SeatStatus, BookingSeatStatus, BookingStatus}

pub data OperationError : Type 0 where
  trip_invalid_transition trip_version_conflict parcel_invalid_transition : OperationError
  parcel_version_conflict trip_unresolved_passengers trip_start_pin_required : OperationError

-- The columns of a trip and of a parcel that a transition reads and writes.
pub record Versioned (S : Type 0) : Type 0 where
  pub status : S
  pub version : ℕ

pub record TripBooking : Type 0 where
  pub id : ℕ
  pub status : BookingStatus
  -- The statuses of its BookingSeat rows.
  pub seats : List BookingSeatStatus

pub record CompletionSummary : Type 0 where
  pub boarded_count : ℕ
  pub no_show_client_count : ℕ
  pub cancelled_count : ℕ
  pub total_bookings_count : ℕ

pub record OperationStore : Type 0 where
  pub trip : Versioned TripStatus
  pub bookings : List TripBooking
  -- The bookings of the TripStartPin rows that are VERIFIED.
  pub verified_pins : List ℕ
  pub seats : List SeatStatus
  pub parcels : List (Versioned ParcelStatus)
  pub summary : Option CompletionSummary

-- transitionTripStatus: `read` is the row as the caller read it, `row` the one in the table.
unfoldable pub transition_trip_status :
    Versioned TripStatus
    → TripOperationAction
    → Versioned TripStatus
    → Result OperationError (Versioned TripStatus)
unfolding evaluate_trip_transition
transition_trip_status read action row = elim (evaluate_trip_transition read.status action) [
  | invalid_transition ↦ err trip_invalid_transition
  | accepted to true ↦ ok row
  | accepted to false ↦ do
    throw_if (not (row.version == read.version)) trip_version_conflict
    ok (record { status = to; version = suc row.version })
]

-- transitionParcel.
unfoldable pub transition_parcel :
    Versioned ParcelStatus
    → ParcelAction
    → Versioned ParcelStatus
    → Result OperationError (Versioned ParcelStatus)
unfolding evaluate_parcel_transition
transition_parcel read action row = elim (evaluate_parcel_transition read.status action) [
  | invalid_transition ↦ err parcel_invalid_transition
  | accepted to true ↦ ok row
  | accepted to false ↦ do
    throw_if (not (row.version == read.version)) parcel_version_conflict
    ok (record { status = to; version = suc row.version })
]

-- `findMany` with a test on the status, and a transition of each row that it finds.
unfoldable pub transition_parcels :
    (ParcelStatus → Bool)
    → ParcelAction
    → List (Versioned ParcelStatus)
    → Result OperationError (List (Versioned ParcelStatus))
unfolding transition_parcel
transition_parcels test action [] = ok []
transition_parcels test action (p ∷ ps) = do
  p' ← (if test p.status then transition_parcel p action p else ok p)
  ps' ← transition_parcels test action ps
  ok (p' ∷ ps')

abbrev pub is_occupied_seat : BookingSeatStatus → Bool
is_occupied_seat BookingSeatStatus.occupied = true
is_occupied_seat _ = false

abbrev pub is_boarded : TripBooking → Bool
is_boarded b = any is_occupied_seat b.seats

abbrev pub is_boarding_status : BookingStatus → Bool
is_boarding_status BookingStatus.boarding = true
is_boarding_status _ = false

abbrev pub is_in_progress : BookingStatus → Bool
is_in_progress BookingStatus.in_progress = true
is_in_progress _ = false

abbrev pub has_pin : List ℕ → TripBooking → Bool
has_pin pins b = any (λ id. id == b.id) pins

abbrev pub is_handed : ParcelStatus → Bool
is_handed handed_to_driver = true
is_handed _ = false

abbrev pub depart : TripBooking → TripBooking
depart b =
    if is_boarding_status b.status && is_boarded b
    then record b { status = BookingStatus.in_progress }
    else b

-- startTripOperation. `groupBy` counts each boarded booking with a verified PIN once; the ids of the
-- bookings differ.
unfoldable pub start_trip_operation : Bool → OperationStore → Result OperationError OperationStore
unfolding transition_trip_status transition_parcels
start_trip_operation allow_unresolved s = do
  let unresolved = keep (λ b. is_boarding_status b.status) s.bookings
  let boarded = keep is_boarded s.bookings
  throw_if (not allow_unresolved && not (length unresolved == length boarded))
      trip_unresolved_passengers
  throw_if
      (not allow_unresolved
        && ltb 0 (length boarded)
        && not (length (keep (has_pin s.verified_pins) boarded) == length boarded))
      trip_start_pin_required
  trip ← transition_trip_status s.trip start_trip s.trip
  parcels ← transition_parcels is_handed start_transit s.parcels
  ok (record s { trip = trip; bookings = map depart s.bookings; parcels = parcels })

abbrev pub is_cancelled_status : BookingStatus → Bool
is_cancelled_status BookingStatus.cancelled_by_client = true
is_cancelled_status BookingStatus.cancelled_by_driver = true
is_cancelled_status BookingStatus.cancelled_by_admin = true
is_cancelled_status _ = false

abbrev pub is_completed_status : BookingStatus → Bool
is_completed_status BookingStatus.completed = true
is_completed_status _ = false

abbrev pub is_no_show_client : BookingStatus → Bool
is_no_show_client BookingStatus.no_show_client = true
is_no_show_client _ = false

abbrev pub arrive : TripBooking → TripBooking
arrive b =
    if is_in_progress b.status || is_boarding_status b.status
    then record b { status = BookingStatus.completed }
    else b

abbrev pub count : (BookingStatus → Bool) → List TripBooking → ℕ
count test bs = length (keep (λ b. test b.status) bs)

-- The summary's row; an existing row keeps its counts.
abbrev pub summarize : Option CompletionSummary → List TripBooking → Option CompletionSummary
summarize (some summary) bs = some summary
summarize none bs = some (record {
  boarded_count = count is_completed_status bs;
  no_show_client_count = count is_no_show_client bs;
  cancelled_count = count is_cancelled_status bs;
  total_bookings_count = length bs;
})

-- completeTripOperation.
unfoldable pub complete_trip_operation : OperationStore → Result OperationError OperationStore
unfolding transition_trip_status
complete_trip_operation s = do
  trip ← transition_trip_status s.trip complete_trip s.trip
  let bookings = map arrive s.bookings
  ok (record s { trip = trip; bookings = bookings; summary = summarize s.summary bookings })

-- activeBookingWhere.
abbrev pub is_active_booking : BookingStatus → Bool
is_active_booking BookingStatus.pending_confirmation = true
is_active_booking BookingStatus.confirmed = true
is_active_booking BookingStatus.boarding = true
is_active_booking BookingStatus.in_progress = true
is_active_booking _ = false

-- The statuses that cancelActiveParcelsForTrip reads.
abbrev pub is_active_parcel : ParcelStatus → Bool
is_active_parcel created = true
is_active_parcel pending_driver_acceptance = true
is_active_parcel ParcelStatus.accepted = true
is_active_parcel handed_to_driver = true
is_active_parcel in_transit = true
is_active_parcel ParcelStatus.ready_for_pickup = true
is_active_parcel _ = false

abbrev pub free_seat : SeatStatus → SeatStatus
free_seat SeatStatus.held = SeatStatus.available
free_seat SeatStatus.booked = SeatStatus.available
free_seat SeatStatus.occupied = SeatStatus.available
free_seat status = status

-- cancelTripOperational; `status` is CANCELLED_BY_DRIVER or CANCELLED_BY_ADMIN.
unfoldable pub cancel_trip_operational :
    BookingStatus → OperationStore → Result OperationError OperationStore
unfolding transition_trip_status transition_parcels
cancel_trip_operational status s = do
  trip ← transition_trip_status s.trip cancel_trip s.trip
  parcels ← transition_parcels is_active_parcel cancel_admin s.parcels
  ok (record s {
    trip = trip;
    bookings =
        map (λ b. if is_active_booking b.status then record b { status = status } else b)
          s.bookings;
    seats = map free_seat s.seats;
    parcels = parcels;
  })
