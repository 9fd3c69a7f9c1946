-- ===== src/Examples/Sweeping.antt =====
-- A trip with a hold whose time is over.
use nodex_v.Prelude.{◌≡◌, ◌≤◌, ◌*◌, arith, length, none, some, [], ◌∷◌, true, false, Option}
use nodex_v.Prelude.Int.{pos}
use nodex_v.Lifecycle.Trip.{published}
use nodex_v.Booking.Store.{Trip, SeatHold, Store, active}
use nodex_v.Booking.Holds.{due_holds}
use nodex_v.Booking.Holds.Draining.{sweeps, sweeps-drain}
use nodex_v.Booking.Invariant.Steps.{new_trip}

abbrev plain_trip : Trip
plain_trip = record {
  status = published;
  is_cancelled = false;
  is_blocked = false;
  departure_at = 9000;
  is_driver_approved = true;
  is_vehicle_approved = true;
  driver_user_id = 1;
  passenger_seat_capacity = pos 2;
  price_per_seat_minor = pos 100;
  whole_car_price_minor = none;
  available_seat_count = pos 2;
  version = 0;
}

abbrev late_hold : Option SeatHold
late_hold = some (record {
  client_id = 7;
  booking_id = some 0;
  status = active;
  expires_at = 600;
  version = 0;
  items = "FRONT_RIGHT" ∷ [];
})

abbrev with_late_hold : Store
with_late_hold = record (new_trip plain_trip) { hold_ids = 1 ∷ []; holds = λ h. late_hold }

one_due : length (due_holds 700 with_late_hold.holds with_late_hold.hold_ids) ≤ 100 * 1
unfolding new_trip due_holds
one_due = omega arith

sweeps-drain_example :
    length
      (due_holds 700 (sweeps 1 700 with_late_hold).holds (sweeps 1 700 with_late_hold).hold_ids)
    ≡ 0
sweeps-drain_example = sweeps-drain 1 700 with_late_hold one_due
