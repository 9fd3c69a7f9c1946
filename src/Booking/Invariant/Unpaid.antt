-- ===== src/Booking/Invariant/Unpaid.antt =====
-- The invariant and expireStaleOnlinePayments of apps/worker/src/maintenance.ts.
use nodex_v.Prelude.{
  ℕ, ◌∷◌, [], List, ◌≡◌, refl, arith, Option, none, some, Option-cases, Bool-cases, inl, inr,
}
use nodex_v.Booking.Store.{SeatHoldStatus, SeatHold, payment_expired, Store}
use nodex_v.Booking.Holds.{is_claimable, release_hold_rows}
use nodex_v.Booking.Maintenance.{
  is_open_hold, find_open_hold, release_active_worker_seat_hold, release_found, expire_pending,
  expire_unpaid,
}
use nodex_v.Booking.Invariant.{IsExclusive}
use nodex_v.Booking.Invariant.Release.{IsExclusive-bookings, release_hold_rows-IsExclusive}
use nodex_v.Booking.Invariant.Expiry.{read_row}

find_open_hold-row :
    (b : ℕ) (ids : List ℕ) (holds : ℕ → Option SeatHold) {found : ℕ × SeatHold}
    → find_open_hold b ids holds ≡ some found
    → holds found.0 ≡ some found.1
unfolding find_open_hold
find_open_hold-row b [] holds e = cc
find_open_hold-row b (id ∷ ids) holds e = elim (Option-cases (holds id)) [
  | inl n ↦ find_open_hold-row b ids holds (rw (n, find_open_hold) at e)
  | inr (row, f) ↦ elim (Bool-cases (is_open_hold b row)) [
    | inl o ↦ ground (arith, rw (f, o, find_open_hold) at e)
    | inr o ↦ find_open_hold-row b ids holds (rw (f, o, find_open_hold) at e)
  ]
]

worker_release-IsExclusive :
    (s : Store) (id : ℕ) (row : SeatHold)
    → IsExclusive s
    → s.holds id ≡ some row
    → IsExclusive (release_active_worker_seat_hold id row s).0
unfolding release_active_worker_seat_hold release_hold_rows
worker_release-IsExclusive s id row v stands = elim (Bool-cases (is_claimable row (s.holds id))) [
  | inl c ↦
      rw (c, release_active_worker_seat_hold)
        (release_hold_rows-IsExclusive s id row SeatHoldStatus.expired v (read_row s id row stands)
          refl c)
  | inr c ↦ rw (c, release_active_worker_seat_hold) v
]

pub expire_unpaid-IsExclusive :
    (s : Store) (b : ℕ) → IsExclusive s → IsExclusive (expire_unpaid b s)
unfolding expire_unpaid
expire_unpaid-IsExclusive s b v =
    IsExclusive-bookings released (expire_pending b released.bookings)
      (payment_expired b ∷ released.events) (by_hold (find_open_hold b s.hold_ids s.holds) refl)
  where
    released : Store
    released = release_found (find_open_hold b s.hold_ids s.holds) s

    by_hold :
        (found : Option (ℕ × SeatHold))
        → find_open_hold b s.hold_ids s.holds ≡ found
        → IsExclusive (release_found found s)
    by_hold none e = v
    by_hold (some (id, row)) e =
        worker_release-IsExclusive s id row v (find_open_hold-row b s.hold_ids s.holds e)
