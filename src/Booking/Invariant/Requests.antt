-- ===== src/Booking/Invariant/Requests.antt =====
-- The invariant and the routes that confirm, drop, cancel and decide (apps/api/src/main.ts).
use nodex_v.Prelude.{
  ℕ, ◌==◌, ◌≡◌, refl, subst, arith, inl, inr, Bool, true, false, not, leb, ◌||◌, some, ◌∷◌,
  Bool-cases, Option-cases, ok, throw_if-ok, Result,
}
use nodex_v.Booking.Store.{
  BookingStatus, SeatHoldStatus, SeatHold, Booking, Store, is_active, PaymentMethod, hold_released,
  set_booking_status,
}
use nodex_v.Booking.Holds.{
  release_hold_rows, is_claimable, seat_hold_expired, passenger_count_mismatch,
  seat_hold_ownership_conflict, booking_not_found, booking_transition_invalid,
}
use nodex_v.Booking.Routes.{
  confirm_hold, delete_hold, find_own_hold, is_hold_confirmed, is_booking_confirmed, all_held,
}
use nodex_v.Booking.Changes.{
  ActorRole, driver, cancel_booking, driver_decide_booking, is_foreign, is_closed, cancel_status,
  is_pending_confirmation,
}
use nodex_v.Booking.Invariant.{IsExclusive}
use nodex_v.Booking.Invariant.Release.{IsExclusive-bookings, release_hold_rows-IsExclusive}
use nodex_v.Booking.Invariant.Expiry.{read_row}
use nodex_v.Booking.Invariant.Closing.{book_seats-IsExclusive, release_booking-IsExclusive}

-- What a success of a body, or what it leaves, is.
same_store :
    {E : Type 0} {s t : Store}
    → IsExclusive s
    → ◌≡◌ {A = Result E Store} (ok s) (ok t)
    → IsExclusive t
same_store v e = subst IsExclusive (ground arith) v

find_own_hold-row :
    (id client : ℕ) (s : Store) {found : SeatHold × ℕ × Booking}
    → find_own_hold id client s ≡ some found
    → (s.holds id ≡ some found.0) × (found.0.booking_id ≡ some found.1)
find_own_hold-row id client s e = ground arith

module _ (id client passengers : ℕ) (method : PaymentMethod) (now : ℕ) (s t : Store)
    (v : IsExclusive s) where
  confirm_found :
      (found : SeatHold × ℕ × Booking)
      → find_own_hold id client s ≡ some found
      → confirm_hold id client passengers method now s ≡ ok t
      → IsExclusive t
  unfolding confirm_hold
  confirm_found found f e =
      let (stands, of) = find_own_hold-row id client s f in
      elim (Bool-cases (is_hold_confirmed found.0.status || is_booking_confirmed found.2.status)) [
        | inl done ↦ same_store v (rw (f, done, confirm_hold) at e)
        | inr open_hold ↦
            let (a, e') =
              throw_if-ok (not (is_active found.0.status) || leb found.0.expires_at now)
                seat_hold_expired _ (rw (f, open_hold, confirm_hold) at e) in
            let (p, e2) =
              throw_if-ok (not (passengers == found.2.passenger_count)) passenger_count_mismatch _
                e' in
            let (h, e3) =
              throw_if-ok (not (all_held found.1 found.0.items s)) seat_hold_ownership_conflict _
                e2 in
            same_store
              (book_seats-IsExclusive s id found.0 found.1 method v stands (ground arith) of) e3
      ]

  pub confirm_hold-IsExclusive :
      confirm_hold id client passengers method now s ≡ ok t → IsExclusive t
  unfolding confirm_hold
  confirm_hold-IsExclusive e = elim (Option-cases (find_own_hold id client s)) [
    | inl f ↦ absurd (ground arith)
    | inr (found, f) ↦ confirm_found found f e
  ]

delete_found :
    (id client : ℕ) (s t : Store)
    → IsExclusive s
    → (found : SeatHold × ℕ × Booking) → find_own_hold id client s ≡ some found
    → delete_hold id client s ≡ ok t
    → IsExclusive t
unfolding delete_hold
delete_found id client s t v found f e =
    let (stands, of) = find_own_hold-row id client s f in
    elim (Bool-cases (not (is_active found.0.status))) [
      | inl closed ↦ same_store v (rw (f, closed, delete_hold) at e)
      | inr open_hold ↦ elim (Bool-cases (is_claimable found.0 (s.holds id))) [
        | inl c ↦
            same_store
              (IsExclusive-bookings (release_hold_rows id found.0 SeatHoldStatus.released s)
                (set_booking_status found.1 BookingStatus.expired s.bookings)
                (hold_released found.1 ∷ s.events)
                (release_hold_rows-IsExclusive s id found.0 SeatHoldStatus.released v
                  (read_row s id found.0 stands) refl c))
              (rw (f, open_hold, c, delete_hold) at e)
        | inr c ↦ same_store v (rw (f, open_hold, c, delete_hold) at e)
      ]
    ]

pub delete_hold-IsExclusive :
    (id client : ℕ) (s t : Store) → IsExclusive s → delete_hold id client s ≡ ok t → IsExclusive t
unfolding delete_hold
delete_hold-IsExclusive id client s t v e = elim (Option-cases (find_own_hold id client s)) [
  | inl f ↦ absurd (ground arith)
  | inr (found, f) ↦ delete_found id client s t v found f e
]

pub cancel_booking-IsExclusive :
    (b : ℕ) (role : ActorRole) (user : ℕ) (s t : Store)
    → IsExclusive s
    → cancel_booking b role user s ≡ ok t
    → IsExclusive t
unfolding cancel_booking
cancel_booking-IsExclusive b role user s t v e = elim (Option-cases (s.bookings b)) [
  | inl f ↦ absurd (ground arith)
  | inr (row, f) ↦
      let (own, e') =
        throw_if-ok (is_foreign role user row) booking_not_found _ (rw (f, cancel_booking) at e) in
      elim (Bool-cases (is_closed row.status)) [
        | inl closed ↦ same_store v (rw closed at e')
        | inr open_booking ↦
            same_store (release_booking-IsExclusive s b row (cancel_status role) v)
              (rw open_booking at e')
      ]
]

pub driver_decide_booking-IsExclusive :
    (b : ℕ) (owns approved : Bool) (user : ℕ) (s t : Store)
    → IsExclusive s
    → driver_decide_booking b owns approved user s ≡ ok t
    → IsExclusive t
unfolding driver_decide_booking
driver_decide_booking-IsExclusive b false approved user s t v e = absurd (ground arith)
driver_decide_booking-IsExclusive b true false user s t v e =
    cancel_booking-IsExclusive b driver user s t v e
driver_decide_booking-IsExclusive b true true user s t v e = elim (Option-cases (s.bookings b)) [
  | inl f ↦ absurd (ground arith)
  | inr (row, f) ↦ elim (Bool-cases (is_booking_confirmed row.status)) [
    | inl done ↦ same_store v (rw (f, done, driver_decide_booking) at e)
    | inr waits ↦
        let (p, e') =
          throw_if-ok (not (is_pending_confirmation row.status)) booking_transition_invalid _
            (rw (f, waits, driver_decide_booking) at e) in
        same_store (IsExclusive-bookings s _ _ v) e'
  ]
]
