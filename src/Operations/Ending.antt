-- ===== src/Operations/Ending.antt =====
-- About completeTripOperation and cancelTripOperational of apps/api/src/main.ts.
use nodex_v.Prelude.{
  suc, ◌+◌, ◌==◌, ◌≤◌, ◌≡◌, refl, sym, ap, ◌∙◌, subst, arith, Bool, true, false, ◌||◌, List, [],
  ◌∷◌, none, some, map, length, All, Bool-cases, inl, inr, ok, >>=-ok, if◌then◌else◌,
}
use nodex_v.Transition.{accepted, evaluate}
use nodex_v.Booking.Store.{SeatStatus, BookingStatus}
use nodex_v.Lifecycle.Trip.{TripStatus, complete_trip, cancel_trip}
use nodex_v.Lifecycle.Parcel.{
  ParcelStatus, ParcelStatus-discrete, cancel_admin, evaluate_parcel_transition,
}
use nodex_v.Operations.{
  Versioned, TripBooking, CompletionSummary, OperationStore, is_boarding_status, is_in_progress,
  is_completed_status, is_no_show_client, is_cancelled_status, count, arrive, summarize,
  transition_trip_status, complete_trip_operation, is_active_booking, is_active_parcel, free_seat,
  cancel_trip_operational, transition_parcel, transition_parcels,
}

-- The booking is still on its way.
abbrev pub is_on_board : BookingStatus → Bool
is_on_board status = is_in_progress status || is_boarding_status status

arrived_off : (b : TripBooking) → is_on_board (arrive b).status ≡ false
arrived_off b = ground arith

arrived_bookings : (bs : List TripBooking) → All (λ b. is_on_board b.status ≡ false) (map arrive bs)
arrived_bookings [] = tt
arrived_bookings (b ∷ bs) = (arrived_off b, arrived_bookings bs)

count-cons :
    (test : BookingStatus → Bool) (b : TripBooking) (bs : List TripBooking)
    → count test (b ∷ bs) ≡ (if test b.status then suc (count test bs) else count test bs)
count-cons test b bs = ground arith

-- The three counts of a summary are of different bookings.
counts_apart :
    (bs : List TripBooking)
    → count is_completed_status bs + count is_no_show_client bs + count is_cancelled_status bs
      ≤ length bs
counts_apart [] = omega arith
counts_apart (b ∷ bs) = ground (
  arith,
  counts_apart bs,
  count-cons is_completed_status b bs,
  count-cons is_no_show_client b bs,
  count-cons is_cancelled_status b bs,
)

-- After a completion no booking of the trip is on board.
pub complete_trip_operation-settles :
    (s t : OperationStore)
    → complete_trip_operation s ≡ ok t
    → All (λ b. is_on_board b.status ≡ false) t.bookings
unfolding complete_trip_operation
complete_trip_operation-settles s t e =
    let (trip, moved, written) = >>=-ok (transition_trip_status s.trip complete_trip s.trip) _ e in
    let bookings : map arrive s.bookings ≡ t.bookings = ground (arith, written) in
    subst (λ bs. All (λ b. is_on_board b.status ≡ false) bs) bookings (arrived_bookings s.bookings)

-- A completion of a trip that had no summary makes one, which counts all bookings of the trip, and
-- each in one of its three groups at most.
pub complete_trip_operation-summary :
    (s t : OperationStore)
    → s.summary ≡ none
    → complete_trip_operation s ≡ ok t
    → (c : CompletionSummary) × (t.summary ≡ some c)
      × (c.boarded_count + c.no_show_client_count + c.cancelled_count ≤ c.total_bookings_count)
      × (c.total_bookings_count ≡ length t.bookings)
unfolding complete_trip_operation
complete_trip_operation-summary s t n e =
    let (trip, moved, written) = >>=-ok (transition_trip_status s.trip complete_trip s.trip) _ e in
    let bookings : map arrive s.bookings ≡ t.bookings = ground (arith, written) in
    let summary : summarize s.summary (map arrive s.bookings) ≡ t.summary =
      ground (arith, written) in
    (
      _,
      sym summary ∙ ap (λ before. summarize before (map arrive s.bookings)) n,
      counts_apart (map arrive s.bookings),
      ap length bookings,
    )

-- An administrator may cancel what cancelActiveParcelsForTrip finds.
active_status :
    (status : ParcelStatus)
    → is_active_parcel status ≡ true
    → evaluate_parcel_transition status cancel_admin
      ≡ accepted ParcelStatus.cancelled_by_admin false
unfolding evaluate_parcel_transition evaluate ParcelStatus-discrete
active_status ParcelStatus.created a = refl
active_status ParcelStatus.pending_driver_acceptance a = refl
active_status ParcelStatus.accepted a = refl
active_status ParcelStatus.handed_to_driver a = refl
active_status ParcelStatus.in_transit a = refl
active_status ParcelStatus.ready_for_pickup a = refl
active_status ParcelStatus.draft a = absurd (ground arith)
active_status ParcelStatus.delivered a = absurd (ground arith)
active_status ParcelStatus.cancelled_by_sender a = absurd (ground arith)
active_status ParcelStatus.cancelled_by_driver a = absurd (ground arith)
active_status ParcelStatus.cancelled_by_admin a = absurd (ground arith)
active_status ParcelStatus.rejected a = absurd (ground arith)
active_status ParcelStatus.lost a = absurd (ground arith)
active_status ParcelStatus.damaged a = absurd (ground arith)
active_status ParcelStatus.disputed a = absurd (ground arith)
active_status ParcelStatus.expired a = absurd (ground arith)

abbrev cancelled : Versioned ParcelStatus → Versioned ParcelStatus
cancelled p =
    if is_active_parcel p.status
    then record { status = ParcelStatus.cancelled_by_admin; version = suc p.version }
    else p

cancel_one :
    (p : Versioned ParcelStatus)
    → (if is_active_parcel p.status then transition_parcel p cancel_admin p else ok p)
      ≡ ok (cancelled p)
unfolding transition_parcel
cancel_one p = elim (Bool-cases (is_active_parcel p.status)) [
  | inl a ↦
      let moved = active_status p.status a in
      let own : (p.version == p.version) ≡ true = ground arith in
      rw (a, moved, own, transition_parcel) refl
  | inr a ↦ rw a refl
]

cancel_parcels :
    (ps : List (Versioned ParcelStatus))
    → transition_parcels is_active_parcel cancel_admin ps ≡ ok (map cancelled ps)
unfolding transition_parcels
cancel_parcels [] = refl
cancel_parcels (p ∷ ps) = rw (cancel_one p, cancel_parcels ps) refl

none_active :
    (ps : List (Versioned ParcelStatus))
    → All (λ p. is_active_parcel p.status ≡ false) (map cancelled ps)
none_active [] = tt
none_active (p ∷ ps) = (ground arith, none_active ps)

abbrev pub is_taken : SeatStatus → Bool
is_taken SeatStatus.held = true
is_taken SeatStatus.booked = true
is_taken SeatStatus.occupied = true
is_taken _ = false

none_taken : (ss : List SeatStatus) → All (λ st. is_taken st ≡ false) (map free_seat ss)
none_taken [] = tt
none_taken (st ∷ ss) = (ground arith, none_taken ss)

abbrev cancel_active : BookingStatus → TripBooking → TripBooking
cancel_active status b = if is_active_booking b.status then record b { status = status } else b

none_booked :
    (status : BookingStatus) (bs : List TripBooking)
    → is_active_booking status ≡ false
    → All (λ b. is_active_booking b.status ≡ false) (map (cancel_active status) bs)
none_booked status [] i = tt
none_booked status (b ∷ bs) i = (ground arith, none_booked status bs i)

-- A trip whose own row accepts the cancellation is cancelled whole, whatever parcels it carries: if
-- the status for its bookings is not an active one, no active booking, no taken seat and no active
-- parcel is left.
pub cancel_trip_operational-clears :
    (status : BookingStatus) (s : OperationStore) (trip : Versioned TripStatus)
    → is_active_booking status ≡ false
    → transition_trip_status s.trip cancel_trip s.trip ≡ ok trip
    → (t : OperationStore) × (cancel_trip_operational status s ≡ ok t)
      × (t.trip ≡ trip)
      × All (λ b. is_active_booking b.status ≡ false) t.bookings
      × All (λ st. is_taken st ≡ false) t.seats
      × All (λ p. is_active_parcel p.status ≡ false) t.parcels
unfolding cancel_trip_operational
cancel_trip_operational-clears status s trip inactive moved = (
  record s {
    trip = trip;
    bookings = map (cancel_active status) s.bookings;
    seats = map free_seat s.seats;
    parcels = map cancelled s.parcels;
  },
  rw (moved, cancel_parcels s.parcels) refl,
  refl,
  none_booked status s.bookings inactive,
  none_taken s.seats,
  none_active s.parcels,
)
