-- ===== src/Booking/Invariant/Closing.antt =====
-- The invariant and the writes of confirmations, cancellations and payments (apps/api/src/main.ts).
use nodex_v.Prelude.{ℕ, ◌≡◌, ◌≢◌, refl, arith, inl, inr, false, Option, some, Option-cases}
use nodex_v.Booking.Store.{
  BookingStatus, SeatHoldStatus, active, SeatHold, Booking, Store, is_active, PaymentMethod,
}
use nodex_v.Booking.Holds.{close_hold}
use nodex_v.Booking.Routes.{book_seats}
use nodex_v.Booking.Changes.{close_active_holds, release_booking, settle_booking, is_held_or_booked}
use nodex_v.Booking.Invariant.{IsExclusive}
use nodex_v.Booking.Invariant.Shrinking.{IsExclusive-of_Shrinks}
use nodex_v.Booking.Invariant.Release.{closed_before, still_open, elsewhere}
use nodex_v.Booking.Invariant.Taking.{has-keep}

pub book_seats-IsExclusive :
    (s : Store) (id : ℕ) (row : SeatHold) (b : ℕ) (method : PaymentMethod)
    → IsExclusive s
    → s.holds id ≡ some row
    → row.status ≡ active
    → row.booking_id ≡ some b
    → IsExclusive (book_seats id row b method s)
unfolding book_seats
book_seats-IsExclusive s id row b method v found open_hold of =
    IsExclusive-of_Shrinks s (book_seats id row b method s) v (record {
      live_before = λ k b' l. ground arith;
      freed = λ k b' e. inl (ground arith);
      hold_before = λ h row' e. closed_before id SeatHoldStatus.confirmed s.holds h row' refl e;
      undisturbed = λ h row' b' k e a o i.
          let (e', other) = still_open id SeatHoldStatus.confirmed s.holds h row' refl e a in
          let out =
            elsewhere s v id row row SeatHoldStatus.confirmed b found open_hold of refl of refl h
              row' b' k e' a o i other in
          (rw out refl, ground (arith, out));
      no_new_row = λ k b' n. ground arith;
      keys_kept = λ k h. h;
      same_next = refl;
    })

-- Closing the ACTIVE holds of a booking.
module _ (b : ℕ) (close : SeatHold → SeatHold)
    (same_booking : (row : SeatHold) → (close row).booking_id ≡ row.booking_id)
    (same_items : (row : SeatHold) → (close row).items ≡ row.items)
    (closes : (row : SeatHold) → is_active (close row).status ≡ false) where
  closed_all_before :
      (holds : ℕ → Option SeatHold) (h : ℕ) (row : SeatHold)
      → close_active_holds b close holds h ≡ some row
      → (old : SeatHold) × (holds h ≡ some old)
        × (row.booking_id ≡ old.booking_id)
        × (row.items ≡ old.items)
        × (row.status ≡ active → old.status ≡ active)
  closed_all_before holds h row e = elim (Option-cases (holds h)) [
    | inl none_there ↦ absurd (ground arith)
    | inr (old, there) ↦ (
      old,
      there,
      ground (arith, same_booking old),
      ground (arith, same_items old),
      λ a. ground (arith, closes old),
    )
  ]

  still_open_elsewhere :
      (holds : ℕ → Option SeatHold) (h : ℕ) (row : SeatHold) (b' : ℕ)
      → close_active_holds b close holds h ≡ some row
      → row.status ≡ active
      → row.booking_id ≡ some b'
      → (holds h ≡ some row) × (b ≢ b')
  still_open_elsewhere holds h row b' e a o = elim (Option-cases (holds h)) [
    | inl none_there ↦ absurd (ground arith)
    | inr (old, there) ↦
        (ground (arith, closes old), λ same. ground (arith, closes old, same_booking old))
  ]

pub release_booking-IsExclusive :
    (s : Store) (b : ℕ) (row : Booking) (status : BookingStatus)
    → IsExclusive s
    → IsExclusive (release_booking b row status s)
unfolding release_booking
release_booking-IsExclusive s b row status v =
    IsExclusive-of_Shrinks s (release_booking b row status s) v (record {
      live_before = λ k b' l. ground arith;
      freed = λ k b' e. ground (
        arith,
        has-keep (λ k'. is_held_or_booked (s.booking_seats b k')) row.seats k,
        v.single k b b',
      );
      hold_before = λ h row' e.
          closed_all_before b (close_hold SeatHoldStatus.cancelled) (λ r. refl) (λ r. refl)
            (λ r. refl) s.holds h row' e;
      undisturbed = λ h row' b' k e a o i.
          let (e', other) =
            still_open_elsewhere b (close_hold SeatHoldStatus.cancelled) (λ r. refl) (λ r. refl)
              (λ r. refl) s.holds h row' b' e a o in
          (
            ground (
              arith,
              other,
              v.owned h row' b' k e' a o i,
              has-keep (λ k'. is_held_or_booked (s.booking_seats b k')) row.seats k,
              v.single k b b',
            ),
            ground (arith, other),
          );
      no_new_row = λ k b' n. ground arith;
      keys_kept = λ k h. h;
      same_next = refl;
    })

pub settle_booking-IsExclusive :
    (s : Store) (b : ℕ) (method : PaymentMethod)
    → IsExclusive s
    → IsExclusive (settle_booking b method s)
unfolding settle_booking
settle_booking-IsExclusive s b method v =
    IsExclusive-of_Shrinks s (settle_booking b method s) v (record {
      live_before = λ k b' l. ground arith;
      freed = λ k b' e. inl e;
      hold_before = λ h row' e.
          closed_all_before b (λ r. record r { status = SeatHoldStatus.confirmed }) (λ r. refl)
            (λ r. refl) (λ r. refl) s.holds h row' e;
      undisturbed = λ h row' b' k e a o i.
          let (e', other) =
            still_open_elsewhere b (λ r. record r { status = SeatHoldStatus.confirmed }) (λ r. refl)
              (λ r. refl) (λ r. refl) s.holds h row' b' e a o in
          (refl, ground (arith, other));
      no_new_row = λ k b' n. ground arith;
      keys_kept = λ k h. h;
      same_next = refl;
    })
