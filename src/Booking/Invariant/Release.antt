-- ===== src/Booking/Invariant/Release.antt =====
-- The invariant and releaseActiveSeatHold of apps/api/src/main.ts.
use nodex_v.Prelude.{
  ℕ, ◌≡◌, ◌≢◌, refl, sym, arith, inl, inr, true, false, String, Option, none, some, List,
  Bool-cases, Option-cases, ◌∙◌, ap,
}
use nodex_v.Booking.Store.{
  SeatHoldStatus, SeatHold, active, Store, has, is_active, Booking, BookingEvent,
}
use nodex_v.Booking.Holds.{
  release_hold_rows, release_active_seat_hold, is_claimable, update_hold, close_hold,
}
use nodex_v.Booking.Invariant.{IsExclusive}
use nodex_v.Booking.Invariant.Shrinking.{Shrinks, IsExclusive-of_Shrinks}

-- The rows of a closed hold's table come from those before.
pub closed_before :
    (id : ℕ) (status : SeatHoldStatus) (holds : ℕ → Option SeatHold) (h : ℕ) (row : SeatHold)
    → is_active status ≡ false
    → update_hold id (close_hold status) holds h ≡ some row
    → (old : SeatHold) × (holds h ≡ some old)
      × (row.booking_id ≡ old.booking_id)
      × (row.items ≡ old.items)
      × (row.status ≡ active → old.status ≡ active)
closed_before id status holds h row closes e = elim (Option-cases (holds h)) [
  | inl none_there ↦ absurd (ground arith)
  | inr (old, there) ↦ (old, there, ground arith, ground arith, λ a. ground arith)
]

pub still_open :
    (id : ℕ) (status : SeatHoldStatus) (holds : ℕ → Option SeatHold) (h : ℕ) (row : SeatHold)
    → is_active status ≡ false
    → update_hold id (close_hold status) holds h ≡ some row
    → row.status ≡ active
    → (holds h ≡ some row) × (id ≢ h)
still_open id status holds h row closes e a = elim (Option-cases (holds h)) [
  | inl none_there ↦ absurd (ground arith)
  | inr (old, there) ↦ (ground arith, λ same. ground arith)
]

module _ (s : Store) (v : IsExclusive s) (id : ℕ) (read row : SeatHold) (status : SeatHoldStatus)
    (b : ℕ) (found : s.holds id ≡ some row) (open_hold : row.status ≡ active)
    (of : row.booking_id ≡ some b) (same_items : read.items ≡ row.items)
    (same_booking : read.booking_id ≡ some b) (closes : is_active status ≡ false) where
  pub elsewhere :
      (h : ℕ) (row' : SeatHold) (b' : ℕ) (k : String)
      → s.holds h ≡ some row'
      → row'.status ≡ active
      → row'.booking_id ≡ some b'
      → has row'.items k ≡ true
      → id ≢ h
      → has read.items k ≡ false
  elsewhere h row' b' k e a o i other = elim (Bool-cases (has read.items k)) [
    | inr out ↦ out
    | inl both ↦
        let mine = v.owned id row b k found open_hold of (rw (← same_items) both) in
        let theirs = v.owned h row' b' k e a o i in
        let same = v.single k b b' (ground (arith, mine)) (ground (arith, theirs)) in
        absurd (other (v.one_hold id h row row' b found e of (o ∙ ap some (sym same))))
  ]

  pub release_hold_rows-Shrinks : Shrinks s (release_hold_rows id read status s)
  unfolding release_hold_rows
  release_hold_rows-Shrinks = record {
    live_before = λ k b' l. ground arith;
    freed = λ k b' e. ground (arith, v.single k b b', v.owned id row b k found open_hold of);
    hold_before = λ h row' e. closed_before id status s.holds h row' closes e;
    undisturbed = λ h row' b' k e a o i.
        let (e', other) = still_open id status s.holds h row' closes e a in
        let out = elsewhere h row' b' k e' a o i other in (rw out refl, ground (arith, out));
    no_new_row = λ k b' n. ground arith;
    keys_kept = λ k h. h;
    same_next = refl;
  }

-- Bookings and events are no part of the invariant.
pub IsExclusive-bookings :
    (s : Store) (bookings : ℕ → Option Booking) (events : List BookingEvent)
    → IsExclusive s
    → IsExclusive (record s { bookings = bookings; events = events })
IsExclusive-bookings s bookings events v = record {
  free = v.free;
  single = v.single;
  booked_by = v.booked_by;
  owned = v.owned;
  known = v.known;
  one_hold = v.one_hold;
  fresh_rows = v.fresh_rows;
  fresh_holds = v.fresh_holds;
  fresh_bookings = v.fresh_bookings;
}

-- What was read of a hold is still true of its row: its items and its booking.
abbrev pub IsSnapshot : Store → ℕ × SeatHold → Type 0
IsSnapshot s (id, read) =
    (row : SeatHold)
    → s.holds id ≡ some row
    → (read.items ≡ row.items) × (read.booking_id ≡ row.booking_id)

claimable_row :
    (read : SeatHold) (found : Option SeatHold)
    → is_claimable read found ≡ true
    → (row : SeatHold) × (found ≡ some row) × (row.status ≡ active)
claimable_row read none h = absurd (ground arith)
claimable_row read (some row) h = (row, refl, ground arith)

pub release_hold_rows-IsExclusive :
    (s : Store) (id : ℕ) (read : SeatHold) (status : SeatHoldStatus)
    → IsExclusive s
    → IsSnapshot s (id, read)
    → is_active status ≡ false
    → is_claimable read (s.holds id) ≡ true
    → IsExclusive (release_hold_rows id read status s)
release_hold_rows-IsExclusive s id read status v snap closes h =
    let (row, found, open_hold) = claimable_row read (s.holds id) h in
    let (b, of) = v.booked_by id row found open_hold in
    let (items, booking) = snap row found in
    IsExclusive-of_Shrinks s (release_hold_rows id read status s) v (
      release_hold_rows-Shrinks s v id read row status b found open_hold of items (booking ∙ of)
        closes)

pub release_active_seat_hold-IsExclusive :
    (s : Store) (id : ℕ) (read : SeatHold) (status : SeatHoldStatus)
    → IsExclusive s
    → IsSnapshot s (id, read)
    → is_active status ≡ false
    → IsExclusive (release_active_seat_hold id read status s).0
unfolding release_active_seat_hold
release_active_seat_hold-IsExclusive s id read status v snap closes =
    elim (Bool-cases (is_claimable read (s.holds id))) [
      | inl h ↦ rw h (release_hold_rows-IsExclusive s id read status v snap closes h)
      | inr h ↦ rw h v
    ]
