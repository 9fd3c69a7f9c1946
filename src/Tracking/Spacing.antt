-- ===== src/Tracking/Spacing.antt =====
-- The times of the periodic points that recordTripLocationPoint of apps/api/src/main.ts lets through,
-- over sequences of requests. The time of a point is the client's, where the request has one.
pub mod Rows
pub mod Ahead
pub mod Burst
use nodex_v.Prelude.{ℕ, Bool, List, ◌≡◌, sym, subst, [], Option, some, ok}
use nodex_v.Tracking.{
  TripLocationPoint, TrackedTrip, TrackedBooking, TrackingStore, PointRequest, ActorType, driver,
  pin_verified, record_trip_location_point, record_location,
}
use nodex_v.Tracking.Spacing.Rows.{Spaced, record-Spaced, located-Recorded}

-- A request for a point, a point with a verified PIN, and a change of the other tables.
pub data TrackStep (interval : ℕ) (s : TrackingStore) : TrackingStore → Type 0 where
  locate :
      {t : TrackingStore} (trip : ℕ) (is_driver : Bool) (user : ℕ) (point : PointRequest) (now : ℕ)
      → record_location interval trip is_driver user point now s ≡ ok t
      → TrackStep interval s t
  verify :
      {t : TrackingStore} (b : TrackedBooking) (user : ℕ) (recorded_at : Option ℕ) (now : ℕ)
      → record_trip_location_point interval b.trip user driver
          (record { booking_id = some b.id; source = pin_verified; recorded_at = recorded_at })
          now
          s
        ≡ ok t
      → TrackStep interval s t
  change :
      (profiles : ℕ → Option ℕ) (trips : List TrackedTrip) (bookings : List TrackedBooking)
      → TrackStep interval s (record s { profiles = profiles; trips = trips; bookings = bookings })

pub data TrackReach (interval : ℕ) (s : TrackingStore) : TrackingStore → Type 0 where
  here : TrackReach interval s s
  next :
      {t u : TrackingStore}
      → TrackReach interval s t
      → TrackStep interval t u
      → TrackReach interval s u

Step-Spaced :
    (interval : ℕ) {s t : TrackingStore}
    → Spaced interval s.points
    → TrackStep interval s t
    → Spaced interval t.points
Step-Spaced interval {s} {t} v (locate trip is_driver user point now e) =
    let (found, actor, body, recorded) =
      located-Recorded interval trip is_driver user point now s t e in
    record-Spaced interval found user actor body now s t recorded v
Step-Spaced interval {s} {t} v (verify b user recorded_at now e) =
    record-Spaced interval b.trip user driver _ now s t e v
Step-Spaced interval v (change profiles trips bookings) = v

-- Whatever points are recorded for a trip without any, by whomever: a periodic point is dated the
-- least interval after each periodic point that the same user had recorded for the trip in the same
-- part, or later.
pub TrackReach-Spaced :
    (interval : ℕ) (s t : TrackingStore)
    → s.points ≡ []
    → TrackReach interval s t
    → Spaced interval t.points
unfolding Spaced
TrackReach-Spaced interval s t empty here = subst (Spaced interval) (sym empty) tt
TrackReach-Spaced interval s t empty (next reached step) =
    Step-Spaced interval (TrackReach-Spaced interval s _ empty reached) step
