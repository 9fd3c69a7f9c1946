-- ===== src/Booking/Invariant/Worker.antt =====
-- The invariant and a round of expireActiveSeatHolds of apps/worker/src/maintenance.ts.
use nodex_v.Prelude.{◌∷◌, ℕ, ◌≡◌, refl, sym, ◌∙◌, Bool-cases, inl, inr, Option, none, some, ap}
use nodex_v.Booking.Store.{
  BookingStatus, SeatHoldStatus, SeatHold, Store, hold_expired, set_booking_status,
}
use nodex_v.Booking.Holds.{is_claimable}
use nodex_v.Booking.Maintenance.{expire_active_hold}
use nodex_v.Booking.Maintenance.Agreement.{worker-claimed, worker-refused, ended, closed}
use nodex_v.Booking.Invariant.{IsExclusive}
use nodex_v.Booking.Invariant.Release.{
  IsSnapshot, IsExclusive-bookings, release_hold_rows-IsExclusive,
}

value_some : {A : Type 0} {a b : A} → ◌≡◌ {A = Option A} (some a) (some b) → a ≡ b
value_some e = cc

pub same_row-IsSnapshot :
    (s : Store) (id : ℕ) (read row : SeatHold)
    → s.holds id ≡ some row
    → read.items ≡ row.items
    → read.booking_id ≡ row.booking_id
    → IsSnapshot s (id, read)
same_row-IsSnapshot s id read row found items booking row' found' =
    let same : row ≡ row' = value_some (sym found ∙ found') in
    (items ∙ ap (λ r. r.items) same, booking ∙ ap (λ r. r.booking_id) same)

ended-IsExclusive : (b : Option ℕ) (s : Store) → IsExclusive s → IsExclusive (ended b s)
unfolding ended
ended-IsExclusive none s v = v
ended-IsExclusive (some b) s v =
    IsExclusive-bookings s (set_booking_status b BookingStatus.expired s.bookings)
      (hold_expired b ∷ s.events) v

pub expire_active_hold-IsExclusive :
    (s : Store) (id : ℕ) (read : SeatHold) (n : ℕ)
    → IsExclusive s
    → IsSnapshot s (id, read)
    → IsExclusive (expire_active_hold (id, read) (s, n)).0
unfolding closed
expire_active_hold-IsExclusive s id read n v snap =
    elim (Bool-cases (is_claimable read (s.holds id))) [
      | inl h ↦ rw ((worker-claimed id read s n h).0) (
          ended-IsExclusive read.booking_id _
            (release_hold_rows-IsExclusive s id read SeatHoldStatus.expired v snap refl h))
      | inr h ↦ rw (worker-refused id read s n h) v
    ]
