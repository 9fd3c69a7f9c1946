-- ===== src/Tracking/Spacing/Ahead.antt =====
-- What the date of one point does to the points after it (recordTripLocationPoint of
-- apps/api/src/main.ts).
use nodex_v.Prelude.{
  ℕ, ◌+◌, ◌≤◌, ◌<◌, ◌≡◌, refl, sym, subst, true, List, ◌∷◌, Option, none, some, Bool-cases, inl,
  inr, ok, err, arith, max,
}
use nodex_v.Lifecycle.Trip.{TripStatus, TripStatus-discrete}
use nodex_v.Tracking.{
  TripLocationSource-discrete, ActorType-discrete, periodic, TripLocationPoint, TrackedTrip,
  TrackingStore, PointRequest, ActorType, driver, passenger, location_update_throttled,
  record_trip_location_point, evaluate_trip_location_write, is_periodic_of, last_periodic,
  new_point, later, recorded_time,
}
use nodex_v.Tracking.Spacing.{TrackReach, here, next, TrackStep, locate, verify, change}
use nodex_v.Tracking.Spacing.Rows.{record_point-ok, located-Recorded}

-- The last periodic point of the actor is of this time, or later.
abbrev IsPast : ℕ → ℕ → ℕ → ActorType → List TripLocationPoint → Type 0
IsPast time trip user actor ps =
    (last : ℕ) × (last_periodic trip user actor ps ≡ some last) × (time ≤ last)

cons-IsPast :
    (time trip user : ℕ) (actor : ActorType) (p : TripLocationPoint) (ps : List TripLocationPoint)
    → IsPast time trip user actor ps
    → IsPast time trip user actor (p ∷ ps)
unfolding last_periodic ActorType-discrete TripLocationSource-discrete
cons-IsPast time trip user actor p ps (last, e, l) =
    elim (Bool-cases (is_periodic_of trip user actor p)) [
      | inl h ↦ (max p.recorded_at last, rw (h, e) refl, omega arith)
      | inr h ↦ (last, rw (h, e) refl, l)
    ]

record-IsPast :
    (time trip user : ℕ) (actor : ActorType) (interval : ℕ) (found : TrackedTrip) (by : ℕ)
    (as_actor : ActorType) (point : PointRequest) (now : ℕ) (s t : TrackingStore)
    → record_trip_location_point interval found by as_actor point now s ≡ ok t
    → IsPast time trip user actor s.points
    → IsPast time trip user actor t.points
record-IsPast time trip user actor interval found by as_actor point now s t e past =
    let at = recorded_time point.recorded_at now in
    let (rows, _) = record_point-ok interval found by as_actor point now s t e in
    subst (IsPast time trip user actor) (sym rows)
      (cons-IsPast time trip user actor (new_point found.id by as_actor point at) s.points past)

Reach-IsPast :
    (time trip user : ℕ) (actor : ActorType) (interval : ℕ) (s t : TrackingStore)
    → TrackReach interval s t
    → IsPast time trip user actor s.points
    → IsPast time trip user actor t.points
Reach-IsPast time trip user actor interval s t here past = past
Reach-IsPast time trip user actor interval s t (next {t = m} reached step) past =
    Step-IsPast step (Reach-IsPast time trip user actor interval s m reached past)
  where
    Step-IsPast :
        {a b : TrackingStore}
        → TrackStep interval a b
        → IsPast time trip user actor a.points
        → IsPast time trip user actor b.points
    Step-IsPast {a} {b} (locate id is_driver by point now e) p =
        let (found, role, body, recorded) =
          located-Recorded interval id is_driver by point now a b e in
        record-IsPast time trip user actor interval found by role body now a b recorded p
    Step-IsPast {a} {b} (verify booking by at now e) p =
        record-IsPast time trip user actor interval booking.trip by driver _ now a b e p
    Step-IsPast (change profiles trips bookings) p = p

abbrev pub dated : ℕ → Option ℕ → PointRequest
dated time booking = record { booking_id = booking; source = periodic; recorded_at = some time }

abbrev pub undated : Option ℕ → PointRequest
undated booking = record { booking_id = booking; source = periodic; recorded_at = none }

-- A periodic point is of the actor that recorded it.
pub own-point :
    (trip user : ℕ) (actor : ActorType) (time : ℕ) (booking : Option ℕ)
    → is_periodic_of trip user actor (new_point trip user actor (dated time booking) time) ≡ true
unfolding ActorType-discrete TripLocationSource-discrete
own-point trip user driver time booking = ground arith
own-point trip user passenger time booking = ground arith

later-le : (time : ℕ) (o : Option ℕ) → time ≤ later time o
later-le time none = omega arith
later-le time (some t) = omega arith

start-IsPast :
    (time trip user : ℕ) (actor : ActorType) (booking : Option ℕ) (ps : List TripLocationPoint)
    → IsPast time trip user actor (new_point trip user actor (dated time booking) time ∷ ps)
unfolding last_periodic ActorType-discrete TripLocationSource-discrete
start-IsPast time trip user actor booking ps = (
  later time (last_periodic trip user actor ps),
  rw (own-point trip user actor time booking) refl,
  later-le time (last_periodic trip user actor ps),
)

evaluate-throttled :
    (status : TripStatus) (last now interval : ℕ)
    → status ≡ TripStatus.in_progress
    → now < last + interval
    → evaluate_trip_location_write status periodic (some last) now interval
      ≡ err location_update_throttled
unfolding evaluate_trip_location_write TripStatus-discrete TripLocationSource-discrete
evaluate-throttled status last now interval e early = rw (e) ground arith

record-throttled :
    (interval : ℕ) (trip : TrackedTrip) (user : ℕ) (actor : ActorType) (booking : Option ℕ)
    (last now : ℕ) (s : TrackingStore)
    → trip.status ≡ TripStatus.in_progress
    → now < last + interval
    → last_periodic trip.id user actor s.points ≡ some last
    → record_trip_location_point interval trip user actor (undated booking) now s
      ≡ err location_update_throttled
unfolding record_trip_location_point TripLocationSource-discrete
record-throttled interval trip user actor booking last now s status early found =
    rw (found, evaluate-throttled trip.status last now interval status early) refl

-- A point that a client dates ahead ends its tracking: once a user has recorded a periodic point of
-- any date for a trip, then whatever is recorded meanwhile, a periodic point that the user sends in
-- the same part without a date, less than the interval after that date, is refused while the trip is
-- IN_PROGRESS.
pub record_trip_location_point-ahead :
    (interval : ℕ) (trip : TrackedTrip) (user : ℕ) (actor : ActorType) (booking booking' : Option ℕ)
    (time now now' : ℕ) (s t u : TrackingStore)
    → record_trip_location_point interval trip user actor (dated time booking) now s ≡ ok t
    → TrackReach interval t u
    → trip.status ≡ TripStatus.in_progress
    → now' < time + interval
    → record_trip_location_point interval trip user actor (undated booking') now' u
      ≡ err location_update_throttled
record_trip_location_point-ahead interval trip user actor booking booking' time now now' s t u e
      reached status early =
    let rows = (record_point-ok interval trip user actor (dated time booking) now s t e).0 in
    let (last, found, l) = Reach-IsPast time trip.id user actor interval t u reached (
      subst (IsPast time trip.id user actor) (sym rows)
        (start-IsPast time trip.id user actor booking s.points)) in
    record-throttled interval trip user actor booking' last now' u status (omega arith) found
