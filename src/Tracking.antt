-- ===== src/Tracking.antt =====
-- Where a trip is: evaluateTripLocationWrite of packages/validation/src/index.ts, and
-- recordTripLocationPoint and POST /api/v1/trips/:tripId/location of apps/api/src/main.ts. The
-- coordinates, the accuracy and the reason of a point, which no decision reads, and the event that is
-- written with it are left out. Times are in milliseconds from 1970.
pub mod Spacing
use nodex_v.Prelude.{
  ℕ, suc, ◌+◌, ◌*◌, ◌==◌, max, ltb, Bool, true, false, not, ◌&&◌, ◌||◌, List, [], ◌∷◌, includes,
  Option, none, some, same, Result, ok, err, ◌>>=◌, ◌>>◌, throw_if, if◌then◌else◌,
}
use nodex_v.Lifecycle.Trip.{TripStatus, TripStatus-discrete}
use nodex_v.Booking.Store.{BookingStatus}

pub data TripLocationSource : Type 0 where
  periodic driver_arrived pin_verified trip_started trip_completed manual : TripLocationSource
  other : TripLocationSource

pub data ActorType : Type 0 where
  driver passenger : ActorType

pub data TrackingError : Type 0 where
  location_trip_not_active location_update_throttled trip_not_found : TrackingError

unfoldable pub TripLocationSource-discrete : Discrete TripLocationSource
TripLocationSource-discrete = hlevel

unfoldable pub ActorType-discrete : Discrete ActorType
ActorType-discrete = hlevel

abbrev pub active_statuses : List TripStatus
active_statuses = TripStatus.boarding ∷ TripStatus.in_progress ∷ []

abbrev pub critical_sources : List TripLocationSource
critical_sources = driver_arrived ∷ pin_verified ∷ trip_started ∷ trip_completed ∷ []

-- `lastRecordedAt && now - lastRecordedAt < minIntervalMs`, where the difference may be negative.
abbrev pub is_throttled : Option ℕ → ℕ → ℕ → Bool
is_throttled none now min_interval = false
is_throttled (some last) now min_interval = ltb now (last + min_interval)

-- What it answers on success is whether the point is critical.
unfoldable pub evaluate_trip_location_write :
    TripStatus → TripLocationSource → Option ℕ → ℕ → ℕ → Result TrackingError Bool
unfolding TripStatus-discrete TripLocationSource-discrete
evaluate_trip_location_write status source last now min_interval =
    let is_periodic = same TripLocationSource-discrete source periodic in
    let is_completion =
      same TripLocationSource-discrete source trip_completed
      && same TripStatus-discrete status TripStatus.completed in
    do
      throw_if (is_periodic && not (same TripStatus-discrete status TripStatus.in_progress))
          location_trip_not_active
      throw_if (not (includes TripStatus-discrete active_statuses status) && not is_completion)
          location_trip_not_active
      throw_if (is_periodic && is_throttled last now min_interval) location_update_throttled
      ok (includes TripLocationSource-discrete critical_sources source)

pub record TripLocationPoint : Type 0 where
  pub trip_id : ℕ
  pub booking_id : Option ℕ
  pub actor_type : ActorType
  pub actor_user_id : ℕ
  pub source : TripLocationSource
  pub recorded_at : ℕ

pub record TrackedTrip : Type 0 where
  pub id : ℕ
  pub status : TripStatus
  pub driver_profile_id : ℕ

-- A booking with its trip, as the query reads both.
pub record TrackedBooking : Type 0 where
  pub id : ℕ
  pub trip : TrackedTrip
  pub client_id : Option ℕ
  pub status : BookingStatus

-- `profiles` gives the driver's profile of a user; the newest row of `points` is in front.
pub record TrackingStore : Type 0 where
  pub profiles : ℕ → Option ℕ
  pub trips : List TrackedTrip
  pub bookings : List TrackedBooking
  pub points : List TripLocationPoint

-- The body of a request, after the schema has filled in MANUAL for a missing source.
pub record PointRequest : Type 0 where
  pub booking_id : Option ℕ
  pub source : TripLocationSource
  pub recorded_at : Option ℕ

-- `findFirst({ where: { tripId, actorUserId, actorType, source: PERIODIC } })`: the rows it is among.
abbrev pub is_periodic_of : ℕ → ℕ → ActorType → TripLocationPoint → Bool
is_periodic_of trip user actor p =
    p.trip_id == trip
    && (p.actor_user_id == user
        && (same ActorType-discrete p.actor_type actor
            && same TripLocationSource-discrete p.source periodic))

abbrev pub later : ℕ → Option ℕ → ℕ
later time none = time
later time (some t) = max time t

-- `orderBy: { recordedAt: desc }`: the time of the last of these rows.
unfoldable pub last_periodic : ℕ → ℕ → ActorType → List TripLocationPoint → Option ℕ
unfolding ActorType-discrete TripLocationSource-discrete
last_periodic trip user actor [] = none
last_periodic trip user actor (p ∷ ps) =
    let rest = last_periodic trip user actor ps in
    if is_periodic_of trip user actor p then some (later p.recorded_at rest) else rest

abbrev pub recorded_time : Option ℕ → ℕ → ℕ
recorded_time none now = now
recorded_time (some time) now = time

abbrev pub new_point : ℕ → ℕ → ActorType → PointRequest → ℕ → TripLocationPoint
new_point trip user actor point recorded_at = record {
  trip_id = trip;
  booking_id = point.booking_id;
  actor_type = actor;
  actor_user_id = user;
  source = point.source;
  recorded_at = recorded_at;
}

unfoldable pub record_trip_location_point :
    ℕ
    → TrackedTrip
    → ℕ
    → ActorType
    → PointRequest
    → ℕ
    → TrackingStore
    → Result TrackingError TrackingStore
unfolding evaluate_trip_location_write last_periodic TripLocationSource-discrete
record_trip_location_point min_interval trip user actor point now s =
    let recorded_at = recorded_time point.recorded_at now in
    let last =
      if same TripLocationSource-discrete point.source periodic
      then last_periodic trip.id user actor s.points
      else none in
    do
      critical ← evaluate_trip_location_write trip.status point.source last recorded_at min_interval
      ok (record s { points = new_point trip.id user actor point recorded_at ∷ s.points })

-- `driverProfileId: profile?.id ?? ""`, which no trip has.
abbrev pub is_driven_by : Option ℕ → TrackedTrip → Bool
is_driven_by none t = false
is_driven_by (some profile) t = t.driver_profile_id == profile

unfoldable pub find_driven : ℕ → Option ℕ → List TrackedTrip → Option TrackedTrip
find_driven id profile [] = none
find_driven id profile (t ∷ ts) =
    let rest = find_driven id profile ts in
    if t.id == id && is_driven_by profile t then some t else rest

abbrev pub is_riding : BookingStatus → Bool
is_riding BookingStatus.boarding = true
is_riding BookingStatus.in_progress = true
is_riding BookingStatus.completed = true
is_riding _ = false

abbrev pub is_client : Option ℕ → ℕ → Bool
is_client none user = false
is_client (some client) user = client == user

-- `if (parsed.bookingId) bookingWhere.id = parsed.bookingId`.
abbrev pub is_asked_for : Option ℕ → ℕ → Bool
is_asked_for none id = true
is_asked_for (some asked) id = asked == id

unfoldable pub find_ride : ℕ → ℕ → Option ℕ → List TrackedBooking → Option TrackedBooking
find_ride trip user asked [] = none
find_ride trip user asked (b ∷ bs) =
    let rest = find_ride trip user asked bs in
    if b.trip.id == trip
      && (is_client b.client_id user && (is_riding b.status && is_asked_for asked b.id))
    then some b
    else rest

-- What is recorded for the trip or the booking that was found.
abbrev pub record_driven :
    ℕ
    → Option TrackedTrip
    → ℕ
    → PointRequest
    → ℕ
    → TrackingStore
    → Result TrackingError TrackingStore
record_driven min_interval none user point now s = err trip_not_found
record_driven min_interval (some trip) user point now s =
    record_trip_location_point min_interval trip user driver point now s

abbrev pub record_ride :
    ℕ
    → Option TrackedBooking
    → ℕ
    → PointRequest
    → ℕ
    → TrackingStore
    → Result TrackingError TrackingStore
record_ride min_interval none user point now s = err trip_not_found
record_ride min_interval (some b) user point now s =
    record_trip_location_point min_interval b.trip user passenger
      (record point { booking_id = some b.id }) now s

-- POST /trips/:tripId/location, by a user with or without the role DRIVER.
unfoldable pub record_location :
    ℕ → ℕ → Bool → ℕ → PointRequest → ℕ → TrackingStore → Result TrackingError TrackingStore
unfolding find_driven find_ride record_trip_location_point
record_location min_interval trip is_driver user point now s =
    if is_driver
    then record_driven min_interval (find_driven trip (s.profiles user) s.trips) user point now s
    else record_ride min_interval (find_ride trip user point.booking_id s.bookings) user point now s
