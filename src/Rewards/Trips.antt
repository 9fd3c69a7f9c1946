-- ===== src/Rewards/Trips.antt =====
-- A completed trip as qualifyRewardsForCompletedTrip of apps/api/src/main.ts reads it, and what its
-- rewards are judged by.
use nodex_v.Prelude.{
  ℕ, Bool, true, false, ◌&&◌, List, [], ◌∷◌, Option, none, some, any, if◌then◌else◌,
}
use nodex_v.Lifecycle.Trip.{TripStatus}
use nodex_v.Booking.Store.{BookingStatus}
use nodex_v.Rewards.Fraud.{GpsPoint, FraudContext}

pub record StartPin : Type 0 where
  pub is_verified : Bool
  pub verified_at : Option ℕ

pub record PassengerBooking : Type 0 where
  pub id : ℕ
  pub client_id : Option ℕ
  pub status : BookingStatus
  pub start_pins : List StartPin

-- The types that the code looks for.
pub data OperationEventType : Type 0 where
  trip_in_progress trip_started trip_completed other : OperationEventType

pub record OperationEvent : Type 0 where
  pub type : OperationEventType
  pub created_at : ℕ

-- A trip with what `findUnique` includes. `pair_count` counts the completed bookings of a client on
-- completed trips of this driver.
pub record CompletedTrip (D : Type 0) : Type 0 where
  pub id : ℕ
  pub status : TripStatus
  pub driver_profile_id : ℕ
  pub driver_user_id : ℕ
  pub is_driver_approved : Bool
  pub bookings : List PassengerBooking
  pub location_points : List (GpsPoint D)
  pub operation_events : List OperationEvent
  pub summary_completed_at : Option ℕ
  pub pair_count : ℕ → ℕ

abbrev pub is_start_event : OperationEventType → Bool
is_start_event OperationEventType.trip_in_progress = true
is_start_event OperationEventType.trip_started = true
is_start_event _ = false

abbrev pub is_completion_event : OperationEventType → Bool
is_completion_event OperationEventType.trip_completed = true
is_completion_event _ = false

-- `find(…)?.createdAt` and `findLast(…)?.createdAt`.
unfoldable pub started_at : List OperationEvent → Option ℕ
started_at [] = none
started_at (e ∷ es) = if is_start_event e.type then some e.created_at else started_at es

unfoldable pub completed_at : List OperationEvent → Option ℕ
completed_at [] = none
completed_at (e ∷ es) = elim (completed_at es) [
  | some at ↦ some at
  | none ↦ if is_completion_event e.type then some e.created_at else none
]

abbrev pub or_else : Option ℕ → Option ℕ → Option ℕ
or_else none fallback = fallback
or_else (some a) fallback = some a

abbrev pub has_time : Option ℕ → Bool
has_time none = false
has_time (some t) = true

abbrev pub pin_verified : PassengerBooking → Bool
pin_verified b = any (λ p. p.is_verified && has_time p.verified_at) b.start_pins

unfoldable pub trip_context : {D : Type 0} → CompletedTrip D → Bool → Option ℕ → FraudContext D
unfolding started_at completed_at
trip_context trip verified pairs = record {
  is_pin_verified = verified;
  gps_points = trip.location_points;
  trip_started_at = started_at trip.operation_events;
  trip_completed_at = or_else (completed_at trip.operation_events) trip.summary_completed_at;
  completed_trip_duration_minutes = none;
  repeat_pair_completed_trips = pairs;
  is_referral_self = false;
  is_referral_cycle = false;
  is_duplicate_reward = false;
}

unfoldable pub driver_context : {D : Type 0} → CompletedTrip D → FraudContext D
unfolding trip_context
driver_context trip = trip_context trip (any pin_verified trip.bookings) none
