-- ===== src/Examples/Locating.antt =====
-- Points of a driver on a trip, and their dates.
use nodex_v.Prelude.{
  ◌+◌, ◌≡◌, refl, ◌==◌, arith, true, [], ◌∷◌, length, none, some, ok, err, if◌then◌else◌,
}
use nodex_v.Lifecycle.Trip.{TripStatus, TripStatus-discrete}
use nodex_v.Tracking.{
  TripLocationSource-discrete, ActorType-discrete, TrackedTrip, TrackingStore, driver,
  evaluate_trip_location_write, find_driven, last_periodic, record_location,
  record_trip_location_point, location_update_throttled,
}
use nodex_v.Tracking.Spacing.{TrackReach, here, next, locate, TrackReach-Spaced}
use nodex_v.Tracking.Spacing.Rows.{Spaced}
use nodex_v.Tracking.Spacing.Ahead.{dated, undated, record_trip_location_point-ahead}
use nodex_v.Tracking.Spacing.Burst.{burst, burst-ok, with_point}

abbrev moving : TrackedTrip
moving = record { id = 4; status = TripStatus.in_progress; driver_profile_id = 2 }

abbrev untracked : TrackingStore
untracked = record {
  profiles = λ user. if user == 9 then some 2 else none;
  trips = moving ∷ [];
  bookings = [];
  points = [];
}

abbrev once : TrackingStore
once = with_point moving 9 driver 900 untracked

abbrev twice : TrackingStore
twice = with_point moving 9 driver 960 once

first_sent : record_location 60 4 true 9 (dated 900 none) 100 untracked ≡ ok once
unfolding record_location find_driven record_trip_location_point evaluate_trip_location_write
    last_periodic TripStatus-discrete TripLocationSource-discrete ActorType-discrete
first_sent = refl

second_sent : record_location 60 4 true 9 (dated 960 none) 200 once ≡ ok twice
unfolding record_location find_driven record_trip_location_point evaluate_trip_location_write
    last_periodic TripStatus-discrete TripLocationSource-discrete ActorType-discrete
second_sent = refl

both_sent : TrackReach 60 untracked twice
both_sent =
    next (next here (locate 4 true 9 (dated 900 none) 100 first_sent))
      (locate 4 true 9 (dated 960 none) 200 second_sent)

TrackReach-Spaced_example : Spaced 60 twice.points
TrackReach-Spaced_example = TrackReach-Spaced 60 untracked twice refl both_sent

record_trip_location_point-ahead_example :
    record_trip_location_point 60 moving 9 driver (undated none) 300 twice
    ≡ err location_update_throttled
unfolding record_location find_driven record_trip_location_point evaluate_trip_location_write
    last_periodic TripStatus-discrete TripLocationSource-discrete ActorType-discrete
record_trip_location_point-ahead_example =
    record_trip_location_point-ahead 60 moving 9 driver none none 900 100 300 untracked once twice
      refl (next here (locate 4 true 9 (dated 960 none) 200 second_sent)) refl (omega arith)

burst-ok_example :
    (t : TrackingStore) × (burst 60 moving 9 driver 100 900 3 untracked ≡ ok t)
    × (length t.points ≡ 3 + 0)
unfolding last_periodic
burst-ok_example = burst-ok 60 moving 9 driver 100 900 3 untracked refl tt
