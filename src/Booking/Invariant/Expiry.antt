-- ===== src/Booking/Invariant/Expiry.antt =====
-- The invariant and expireSeatHolds of apps/api/src/main.ts.
use nodex_v.Prelude.{
  ℕ, zero, suc, ◌≡◌, refl, sym, arith, inl, inr, Option, none, some, List, [], ◌∷◌, All, Bool-cases,
  Option-cases, ◌∙◌,
}
use nodex_v.Booking.Store.{SeatHoldStatus, SeatHold, Store, hold_expired}
use nodex_v.Booking.Holds.{
  release_hold_rows, is_claimable, expire_booking, end_booking, expire_hold, expire_holds,
  due_holds, is_due, take_holds, expire_seat_holds,
}
use nodex_v.Booking.Invariant.{IsExclusive}
use nodex_v.Booking.Invariant.Release.{
  closed_before, IsSnapshot, IsExclusive-bookings, release_hold_rows-IsExclusive,
}

expire_booking-IsExclusive :
    (b : Option ℕ) (at : ℕ) (s : Store) → IsExclusive s → IsExclusive (expire_booking b at s)
expire_booking-IsExclusive none at s v = v
expire_booking-IsExclusive (some b) at s v =
    IsExclusive-bookings s (end_booking b at s.bookings) (hold_expired b ∷ s.events) v

expire_hold-IsExclusive :
    (s : Store) (id : ℕ) (read : SeatHold)
    → IsExclusive s
    → IsSnapshot s (id, read)
    → IsExclusive (expire_hold (id, read) s)
unfolding expire_hold
expire_hold-IsExclusive s id read v snap = elim (Bool-cases (is_claimable read (s.holds id))) [
  | inl h ↦ rw h (
      expire_booking-IsExclusive read.booking_id read.expires_at _
        (release_hold_rows-IsExclusive s id read SeatHoldStatus.expired v snap refl h))
  | inr h ↦ rw h v
]

same_holds : (b : Option ℕ) (at : ℕ) (s : Store) → (expire_booking b at s).holds ≡ s.holds
same_holds none at s = refl
same_holds (some b) at s = refl

released-IsSnapshot :
    (s : Store) (id id' : ℕ) (read read' : SeatHold)
    → IsSnapshot s (id', read')
    → IsSnapshot (release_hold_rows id read SeatHoldStatus.expired s) (id', read')
unfolding release_hold_rows
released-IsSnapshot s id id' read read' snap row e =
    let (old, stood, booking, items, was) =
      closed_before id SeatHoldStatus.expired s.holds id' row refl e in
    let (items', booking') = snap old stood in (items' ∙ sym items, booking' ∙ sym booking)

expire_hold-IsSnapshot :
    (s : Store) (h h' : ℕ × SeatHold) → IsSnapshot s h' → IsSnapshot (expire_hold h s) h'
unfolding expire_hold
expire_hold-IsSnapshot s (id, read) (id', read') snap row e =
    elim (Bool-cases (is_claimable read (s.holds id))) [
      | inl c ↦ released-IsSnapshot s id id' read read' snap row (
          ground (
            arith,
            same_holds read.booking_id read.expires_at
                (release_hold_rows id read SeatHoldStatus.expired s),
          ))
      | inr c ↦ snap row (ground arith)
    ]

snapshots_of :
    (s : Store) (h : ℕ × SeatHold) (hs : List (ℕ × SeatHold))
    → All (IsSnapshot s) hs
    → All (IsSnapshot (expire_hold h s)) hs
snapshots_of s h [] a = tt
snapshots_of s h (h' ∷ hs) a = (expire_hold-IsSnapshot s h h' a.0, snapshots_of s h hs a.1)

expire_holds-IsExclusive :
    (s : Store) (hs : List (ℕ × SeatHold))
    → IsExclusive s
    → All (IsSnapshot s) hs
    → IsExclusive (expire_holds hs s)
unfolding expire_holds
expire_holds-IsExclusive s [] v a = v
expire_holds-IsExclusive s ((id, read) ∷ hs) v a =
    expire_holds-IsExclusive (expire_hold (id, read) s) hs (expire_hold-IsExclusive s id read v a.0)
      (snapshots_of s (id, read) hs a.1)

pub read_row :
    (s : Store) (id : ℕ) (read : SeatHold) → s.holds id ≡ some read → IsSnapshot s (id, read)
read_row s id read e row e' = (ground arith, ground arith)

due_holds-IsSnapshot :
    (s : Store) (now : ℕ) (ids : List ℕ) → All (IsSnapshot s) (due_holds now s.holds ids)
unfolding due_holds
due_holds-IsSnapshot s now [] = tt
due_holds-IsSnapshot s now (id ∷ ids) = elim (Option-cases (s.holds id)) [
  | inl e ↦ rw (e, due_holds) (due_holds-IsSnapshot s now ids)
  | inr (row, e) ↦
      rw (e, due_holds)
        (elim (Bool-cases (is_due now (some row))) [
          | inl d ↦ rw d (read_row s id row e, due_holds-IsSnapshot s now ids)
          | inr d ↦ rw d (due_holds-IsSnapshot s now ids)
        ])
]

take_holds-All :
    (P : ℕ × SeatHold → Type 0) (n : ℕ) (hs : List (ℕ × SeatHold))
    → All P hs
    → All P (take_holds n hs)
take_holds-All P zero hs a = tt
take_holds-All P (suc n) [] a = tt
take_holds-All P (suc n) (h ∷ hs) a = (a.0, take_holds-All P n hs a.1)

pub expire_seat_holds-IsExclusive :
    (s : Store) (now : ℕ) → IsExclusive s → IsExclusive (expire_seat_holds now s)
unfolding expire_seat_holds
expire_seat_holds-IsExclusive s now v =
    expire_holds-IsExclusive s _ v
      (take_holds-All (IsSnapshot s) 100 _ (due_holds-IsSnapshot s now s.hold_ids))
