-- ===== src/Booking/Maintenance.antt =====
-- apps/worker/src/maintenance.ts: releaseActiveWorkerSeatHold, expireActiveSeatHolds and what
-- expireStaleOnlinePayments does to the booking of a payment that it has expired. Over the
-- stores of all trips; each round is one transaction. The payment's own rows and its audit are left out.
pub mod Agreement
use nodex_v.Prelude.{
  ℕ, zero, suc, ◌==◌, ◌++◌, map, Bool, true, false, ◌&&◌, List, [], ◌∷◌, Option, none, some,
  if◌then◌else◌,
}
use nodex_v.Booking.Store.{
  SeatStatus, SeatHoldStatus, SeatHold, BookingStatus, payment_pending, Booking, hold_expired,
  payment_expired, Store, move_held_seats, is_active, set_booking_status, log, update,
}
use nodex_v.Booking.Holds.{is_claimable, close_hold, update_hold, release_rows, due_holds}
use nodex_v.Booking.Changes.{is_of_booking}

unfoldable pub release_active_worker_seat_hold : ℕ → SeatHold → Store → Store × Bool
release_active_worker_seat_hold id read s =
    if is_claimable read (s.holds id)
    then (
      record s {
        holds = update_hold id (close_hold SeatHoldStatus.expired) s.holds;
        seat_status = move_held_seats read.items SeatStatus.available s.seat_status;
        booking_seats = release_rows read.booking_id read.items s.booking_seats;
      },
      true,
    )
    else (s, false)

-- One round of expireActiveSeatHolds, with its count.
unfoldable pub expire_active_hold : ℕ × SeatHold → Store × ℕ → Store × ℕ
unfolding release_active_worker_seat_hold
expire_active_hold (id, read) (s, expired) =
    let (released, done) = release_active_worker_seat_hold id read s in
    if done
    then elim (read.booking_id) [
      | none ↦ (released, expired)
      | some b ↦ (
        log (hold_expired b) (record released {
          bookings = set_booking_status b BookingStatus.expired released.bookings;
        }),
        suc expired,
      )
    ]
    else (released, expired)

-- The stores of all trips, by the trip.
abbrev pub Stores : Type 0
Stores = ℕ → Store

abbrev pub of_trip : ℕ → List (ℕ × SeatHold) → List (ℕ × (ℕ × SeatHold))
of_trip trip hs = map (λ h. (trip, h)) hs

-- `findMany({ where: { status: ACTIVE, expiresAt: { lte: now } } })`, over the holds of all trips.
unfoldable pub due_of_trips : ℕ → List ℕ → Stores → List (ℕ × (ℕ × SeatHold))
due_of_trips now [] stores = []
due_of_trips now (trip ∷ trips) stores =
    of_trip trip (due_holds now (stores trip).holds (stores trip).hold_ids)
    ++ due_of_trips now trips stores

abbrev pub take_due : ℕ → List (ℕ × (ℕ × SeatHold)) → List (ℕ × (ℕ × SeatHold))
take_due zero hs = []
take_due (suc n) [] = []
take_due (suc n) (h ∷ hs) = h ∷ take_due n hs

unfoldable pub expire_active_holds : List (ℕ × (ℕ × SeatHold)) → Stores × ℕ → Stores × ℕ
unfolding expire_active_hold
expire_active_holds [] r = r
expire_active_holds ((trip, h) ∷ hs) (stores, expired) =
    let (s, count) = expire_active_hold h (stores trip, expired) in
    expire_active_holds hs (update stores trip s, count)

unfoldable pub expire_active_seat_holds : ℕ → List ℕ → Stores → Stores × ℕ
unfolding expire_active_holds due_of_trips
expire_active_seat_holds now trips stores =
    expire_active_holds (take_due 100 (due_of_trips now trips stores)) (stores, 0)

-- `findFirst({ where: { bookingId, status: ACTIVE } })`.
abbrev pub is_open_hold : ℕ → SeatHold → Bool
is_open_hold b row = is_of_booking b row.booking_id && is_active row.status

unfoldable pub find_open_hold : ℕ → List ℕ → (ℕ → Option SeatHold) → Option (ℕ × SeatHold)
find_open_hold b [] holds = none
find_open_hold b (id ∷ ids) holds = elim (holds id) [
  | none ↦ find_open_hold b ids holds
  | some row ↦ if is_open_hold b row then some (id, row) else find_open_hold b ids holds
]

abbrev pub is_payment_pending : BookingStatus → Bool
is_payment_pending payment_pending = true
is_payment_pending _ = false

abbrev pub expire_pending : ℕ → (ℕ → Option Booking) → ℕ → Option Booking
expire_pending id bookings b = elim (bookings b) [
  | none ↦ none
  | some row ↦ some (
      if id == b && is_payment_pending row.status
      then record row { status = BookingStatus.expired }
      else row)
]

abbrev pub release_found : Option (ℕ × SeatHold) → Store → Store
release_found none s = s
release_found (some (id, row)) s = (release_active_worker_seat_hold id row s).0

-- The rows of booking `b`, whose payment has just expired.
unfoldable pub expire_unpaid : ℕ → Store → Store
unfolding release_active_worker_seat_hold find_open_hold
expire_unpaid b s =
    let released = release_found (find_open_hold b s.hold_ids s.holds) s in
    log (payment_expired b) (record released { bookings = expire_pending b released.bookings })
