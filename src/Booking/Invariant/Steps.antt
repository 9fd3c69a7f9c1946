-- ===== src/Booking/Invariant/Steps.antt =====
-- Sequences of the booking routes and of the sweep of apps/api/src/main.ts, and of what
-- apps/worker/src/maintenance.ts does to a trip, in any order and by any clients.
use nodex_v.Prelude.{ℕ, ◌≡◌, refl, Bool, true, false, String, none, some, [], ok}
use nodex_v.Prelude.Int.{pos}
use nodex_v.Booking.Store.{SeatStatus, SeatHold, Trip, Store, PaymentMethod}
use nodex_v.Booking.Holds.{expire_seat_holds}
use nodex_v.Booking.Routes.{HoldRequest, create_hold, confirm_hold, delete_hold}
use nodex_v.Booking.Changes.{
  ActorRole, cancel_booking, driver_decide_booking, settle_booking, start_payment,
}
use nodex_v.Booking.Invariant.{IsExclusive, is_live}
use nodex_v.Booking.Invariant.Release.{IsExclusive-bookings}
use nodex_v.Booking.Invariant.Expiry.{expire_seat_holds-IsExclusive}
use nodex_v.Booking.Invariant.Creating.{create_hold-IsExclusive}
use nodex_v.Booking.Maintenance.{expire_unpaid, expire_active_hold}
use nodex_v.Booking.Invariant.Worker.{expire_active_hold-IsExclusive, same_row-IsSnapshot}
use nodex_v.Booking.Invariant.Unpaid.{expire_unpaid-IsExclusive}
use nodex_v.Booking.Invariant.Closing.{settle_booking-IsExclusive}
use nodex_v.Booking.Invariant.Requests.{
  confirm_hold-IsExclusive, delete_hold-IsExclusive, cancel_booking-IsExclusive,
  driver_decide_booking-IsExclusive,
}

-- One request or one run of the sweep, at any time and by anybody.
pub data Step (s t : Store) : Type 0 where
  hold :
      (r : HoldRequest) (client now ttl b : ℕ)
      → create_hold r client now ttl s ≡ ok (t, b)
      → Step s t
  confirm :
      (id client passengers : ℕ) (method : PaymentMethod) (now : ℕ)
      → confirm_hold id client passengers method now s ≡ ok t
      → Step s t
  drop : (id client : ℕ) → delete_hold id client s ≡ ok t → Step s t
  sweep : (now : ℕ) → t ≡ expire_seat_holds now s → Step s t
  cancel : (b : ℕ) (role : ActorRole) (user : ℕ) → cancel_booking b role user s ≡ ok t → Step s t
  decide :
      (b : ℕ) (owns approved : Bool) (user : ℕ)
      → driver_decide_booking b owns approved user s ≡ ok t
      → Step s t
  start : (b : ℕ) (method : PaymentMethod) → t ≡ start_payment b method s → Step s t
  settle : (b : ℕ) (method : PaymentMethod) → t ≡ settle_booking b method s → Step s t
  unpaid : (b : ℕ) → t ≡ expire_unpaid b s → Step s t
  -- A round of the worker with a row that it read then or before: of the row, seats and booking stay.
  expire :
      (id : ℕ) (read row : SeatHold) (count : ℕ)
      → s.holds id ≡ some row
      → read.items ≡ row.items
      → read.booking_id ≡ row.booking_id
      → t ≡ (expire_active_hold (id, read) (s, count)).0
      → Step s t

pub data Reach (s : Store) : Store → Type 0 where
  here : Reach s s
  next : {t u : Store} → Reach s t → Step t u → Reach s u

-- Every step keeps the invariant.
pub Step-IsExclusive : {s t : Store} → IsExclusive s → Step s t → IsExclusive t
unfolding start_payment
Step-IsExclusive {s} {t} v (hold r client now ttl b e) =
    create_hold-IsExclusive r client now ttl s v e
Step-IsExclusive {s} {t} v (confirm id client passengers method now e) =
    confirm_hold-IsExclusive id client passengers method now s t v e
Step-IsExclusive {s} {t} v (drop id client e) = delete_hold-IsExclusive id client s t v e
Step-IsExclusive {s} {t} v (sweep now e) = rw e (expire_seat_holds-IsExclusive s now v)
Step-IsExclusive {s} {t} v (cancel b role user e) = cancel_booking-IsExclusive b role user s t v e
Step-IsExclusive {s} {t} v (decide b owns approved user e) =
    driver_decide_booking-IsExclusive b owns approved user s t v e
Step-IsExclusive {s} {t} v (start b method e) = rw e (IsExclusive-bookings s _ s.events v)
Step-IsExclusive {s} {t} v (settle b method e) = rw e (settle_booking-IsExclusive s b method v)
Step-IsExclusive {s} {t} v (unpaid b e) = rw e (expire_unpaid-IsExclusive s b v)
Step-IsExclusive {s} {t} v (expire id read row count found items booking e) = rw e (
    expire_active_hold-IsExclusive s id read count v
      (same_row-IsSnapshot s id read row found items booking))

pub Reach-IsExclusive : {s t : Store} → IsExclusive s → Reach s t → IsExclusive t
Reach-IsExclusive v here = v
Reach-IsExclusive v (next r st) = Step-IsExclusive (Reach-IsExclusive v r) st

-- A trip before its first hold: no seat row was made yet.
unfoldable pub new_trip : Trip → Store
new_trip trip = record {
  trip = trip;
  seat_keys = [];
  seat_status = λ k. SeatStatus.unavailable;
  seat_price = λ k. pos 0;
  hold_ids = [];
  holds = λ h. none;
  bookings = λ b. none;
  booking_seats = λ b k. none;
  idempotency = [];
  events = [];
  next_id = 0;
}

pub new_trip-IsExclusive : (trip : Trip) → IsExclusive (new_trip trip)
unfolding new_trip
new_trip-IsExclusive trip = record {
  free = λ k b e. refl;
  single = λ k b b' l l'. cc;
  booked_by = λ h row e a. absurd (cc e);
  owned = λ h row b k e a o i. absurd (cc e);
  known = λ k b l. cc;
  one_hold = λ h h' row row' b e e' o o'. absurd (cc e);
  fresh_rows = λ b k n. refl;
  fresh_holds = λ h n. refl;
  fresh_bookings = λ h b row e o. absurd (cc e);
}

-- Whatever holds, confirmations, deletions, sweeps, cancellations, decisions, payments and expiries of
-- payments a new trip sees, in any order: two bookings for which a seat is held, booked or occupied
-- are the same booking.
pub Reach-single :
    (trip : Trip) (s : Store) (k : String) (b b' : ℕ)
    → Reach (new_trip trip) s
    → is_live (s.booking_seats b k) ≡ true
    → is_live (s.booking_seats b' k) ≡ true
    → b ≡ b'
Reach-single trip s k b b' r = (Reach-IsExclusive (new_trip-IsExclusive trip) r).single k b b'

-- After any such sequence, a seat that the trip offers as available is held, booked or occupied for no
-- booking.
pub Reach-free :
    (trip : Trip) (s : Store) (k : String) (b : ℕ)
    → Reach (new_trip trip) s
    → s.seat_status k ≡ SeatStatus.available
    → is_live (s.booking_seats b k) ≡ false
Reach-free trip s k b r = (Reach-IsExclusive (new_trip-IsExclusive trip) r).free k b
