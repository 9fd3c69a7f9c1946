-- ===== src/Booking/Holds/Once.antt =====
-- Two releases of one hold by releaseActiveSeatHold of apps/api/src/main.ts.
use nodex_v.Prelude.{ℕ, ◌≡◌, arith, true, false, Option, Option-cases, Bool-cases, inl, inr}
use nodex_v.Booking.Store.{SeatHoldStatus, SeatHold, Store}
use nodex_v.Booking.Holds.{release_active_seat_hold, is_claimable, update_hold, close_hold}

not_again :
    (id : ℕ) (read : SeatHold) (status : SeatHoldStatus) (holds : ℕ → Option SeatHold)
    → is_claimable read (holds id) ≡ true
    → is_claimable read (update_hold id (close_hold status) holds id) ≡ false
not_again id read status holds c = elim (Option-cases (holds id)) [
  | inl e ↦ absurd (ground arith)
  | inr (row, e) ↦ ground arith
]

-- Of two workers that read the same row of a hold, one at most releases it: once a release with the
-- row has succeeded, a release with the same row changes nothing and says so.
pub release_active_seat_hold_once :
    (s : Store) (id : ℕ) (read : SeatHold) (status status' : SeatHoldStatus)
    → (release_active_seat_hold id read status s).1 ≡ true
    → release_active_seat_hold id read status' (release_active_seat_hold id read status s).0
      ≡ ((release_active_seat_hold id read status s).0, false)
unfolding release_active_seat_hold
release_active_seat_hold_once s id read status status' h =
    elim (Bool-cases (is_claimable read (s.holds id))) [
      | inr c ↦ absurd (ground arith)
      | inl c ↦ rw c (rw (not_again id read status s.holds c))
    ]
