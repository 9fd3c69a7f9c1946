-- ===== src/Tracking/Spacing/Burst.antt =====
-- Periodic points in one moment (recordTripLocationPoint of apps/api/src/main.ts).
use nodex_v.Prelude.{
  ℕ, zero, suc, ◌+◌, ◌≤◌, ◌≡◌, refl, arith, ◌∷◌, length, Option, none, some, Result, ok, ◌>>=◌,
  false,
}
use nodex_v.Lifecycle.Trip.{TripStatus, TripStatus-discrete}
use nodex_v.Tracking.{
  TripLocationSource-discrete, ActorType-discrete, periodic, TrackedTrip, TrackingStore, ActorType,
  TrackingError, record_trip_location_point, evaluate_trip_location_write, last_periodic, new_point,
  later,
}
use nodex_v.Tracking.Spacing.Ahead.{dated, own-point}

-- At the time `now`, requests for points that are dated the interval after each other.
unfoldable pub burst :
    ℕ → TrackedTrip → ℕ → ActorType → ℕ → ℕ → ℕ → TrackingStore → Result TrackingError TrackingStore
burst interval trip user actor now first zero s = ok s
burst interval trip user actor now first (suc n) s =
    record_trip_location_point interval trip user actor (dated first none) now s
    >>= burst interval trip user actor now (first + interval) n

-- The last periodic point is far enough from this time.
abbrev pub IsFree : ℕ → ℕ → Option ℕ → Type 0
IsFree interval time none = Unit
IsFree interval time (some last) = last + interval ≤ time

evaluate-IsFree :
    (status : TripStatus) (o : Option ℕ) (now interval : ℕ)
    → status ≡ TripStatus.in_progress
    → IsFree interval now o
    → evaluate_trip_location_write status periodic o now interval ≡ ok false
unfolding evaluate_trip_location_write TripStatus-discrete TripLocationSource-discrete
evaluate-IsFree status none now interval e free = rw (e) refl
evaluate-IsFree status (some last) now interval e free = rw (e) ground arith

abbrev pub with_point : TrackedTrip → ℕ → ActorType → ℕ → TrackingStore → TrackingStore
with_point trip user actor time s = record s {
  points = new_point trip.id user actor (dated time none) time ∷ s.points;
}

record-IsFree :
    (interval : ℕ) (trip : TrackedTrip) (user : ℕ) (actor : ActorType) (time now : ℕ)
    (s : TrackingStore)
    → trip.status ≡ TripStatus.in_progress
    → IsFree interval time (last_periodic trip.id user actor s.points)
    → record_trip_location_point interval trip user actor (dated time none) now s
      ≡ ok (with_point trip user actor time s)
unfolding record_trip_location_point TripLocationSource-discrete
record-IsFree interval trip user actor time now s status free =
    rw
      (evaluate-IsFree trip.status (last_periodic trip.id user actor s.points) time interval status
        free)
      refl

later-IsFree :
    (interval time : ℕ) (o : Option ℕ)
    → IsFree interval time o
    → IsFree interval (time + interval) (some (later time o))
later-IsFree interval time none free = omega arith
later-IsFree interval time (some last) free = omega arith

last-with_point :
    (trip : TrackedTrip) (user : ℕ) (actor : ActorType) (time : ℕ) (s : TrackingStore)
    → last_periodic trip.id user actor (with_point trip user actor time s).points
      ≡ some (later time (last_periodic trip.id user actor s.points))
unfolding last_periodic ActorType-discrete TripLocationSource-discrete
last-with_point trip user actor time s = rw (own-point trip.id user actor time none) refl

-- The dates are the client's, so that the throttle does not bound what is sent in a moment: while a
-- trip is IN_PROGRESS, any number of periodic points of one user, dated the least interval after
-- each other, are recorded at one time, if the first is dated the interval after the user's last
-- one.
pub burst-ok :
    (interval : ℕ) (trip : TrackedTrip) (user : ℕ) (actor : ActorType) (now first n : ℕ)
    (s : TrackingStore)
    → trip.status ≡ TripStatus.in_progress
    → IsFree interval first (last_periodic trip.id user actor s.points)
    → (t : TrackingStore) × (burst interval trip user actor now first n s ≡ ok t)
      × (length t.points ≡ n + length s.points)
unfolding burst
burst-ok interval trip user actor now first zero s status free = (s, refl, omega arith)
burst-ok interval trip user actor now first (suc n) s status free =
    let next = with_point trip user actor first s in
    let far : IsFree interval (first + interval) (last_periodic trip.id user actor next.points) =
      rw (last-with_point trip user actor first s)
        (later-IsFree interval first (last_periodic trip.id user actor s.points) free) in
    let (t, sent, count) =
      burst-ok interval trip user actor now (first + interval) n next status far in
    (
      t,
      rw (record-IsFree interval trip user actor first now s status free) sent,
      omega (arith, count),
    )
