-- ===== src/Booking/Maintenance/Agreement.antt =====
-- expireActiveSeatHolds of apps/worker/src/maintenance.ts beside expireSeatHolds of
-- apps/api/src/main.ts. The api writes the end of the hold into the booking, and the worker does not.
pub mod Batch
use nodex_v.Prelude.{
  ==_iff, ℕ, suc, ◌≤◌, ◌==◌, ◌+◌, ◌≡◌, refl, ap, sym, subst, ◌∙◌, arith, Bool, true, false, List,
  [], ◌∷◌, any, Option, none, some, length, Bool-cases, inl, inr, fun_ext,
}
use nodex_v.Booking.Store.{
  SeatHold, Booking, Store, BookingStatus, BookingEvent, hold_expired, SeatHoldStatus, log, update,
  set_booking_status,
}
use nodex_v.Booking.Holds.{
  is_claimable, expire_hold, expire_holds, expire_seat_holds, due_holds, take_holds, end_booking,
  expire_booking, release_hold_rows,
}
use nodex_v.Booking.Maintenance.{
  Stores, expire_active_hold, expire_active_holds, expire_active_seat_holds, due_of_trips, take_due,
}
use nodex_v.Booking.Maintenance.Agreement.Batch.{
  Differ, rows_of, rows_of-due, length-rows_of, take_due-all, take_holds-all, length-take_due,
}

abbrev pub forget_end : (ℕ → Option Booking) → ℕ → Option Booking
forget_end bookings b = elim (bookings b) [
  | none ↦ none
  | some row ↦ some (record row { expires_at = 0 })
]

-- All of a store but the times at which its bookings expire.
abbrev pub forget : Store → Store
forget s = record s { bookings = forget_end s.bookings }

status-forget :
    (id : ℕ) (bookings : ℕ → Option Booking) (b : ℕ)
    → forget_end (set_booking_status id BookingStatus.expired bookings) b
      ≡ set_booking_status id BookingStatus.expired (forget_end bookings) b
status-forget id bookings b = ground arith

end-forget :
    (id at : ℕ) (bookings : ℕ → Option Booking) (b : ℕ)
    → forget_end (end_booking id at bookings) b
      ≡ set_booking_status id BookingStatus.expired (forget_end bookings) b
end-forget id at bookings b = ground arith

-- The worker's writes to the booking of a hold that it has released.
unfoldable pub ended : Option ℕ → Store → Store
ended none s = s
ended (some b) s =
    log (hold_expired b)
      (record s { bookings = set_booking_status b BookingStatus.expired s.bookings })

with_bookings : List BookingEvent → Store → (ℕ → Option Booking) → Store
with_bookings events s bookings = record s { bookings = bookings; events = events }

ended-forget :
    (booking : Option ℕ) (s : Store) → forget (ended booking s) ≡ ended booking (forget s)
unfolding ended with_bookings
ended-forget none s = refl
ended-forget (some b) s =
    ap (with_bookings (hold_expired b ∷ s.events) s) (fun_ext (status-forget b s.bookings))

expire_booking-forget :
    (booking : Option ℕ) (at : ℕ) (s : Store)
    → forget (expire_booking booking at s) ≡ ended booking (forget s)
unfolding ended with_bookings
expire_booking-forget none at s = refl
expire_booking-forget (some b) at s =
    ap (with_bookings (hold_expired b ∷ s.events) s) (fun_ext (end-forget b at s.bookings))

unfoldable pub closed : ℕ → SeatHold → Store → Store
closed id read s = ended read.booking_id (release_hold_rows id read SeatHoldStatus.expired s)

release-forget :
    (id : ℕ) (read : SeatHold) (s : Store)
    → forget (release_hold_rows id read SeatHoldStatus.expired s)
      ≡ release_hold_rows id read SeatHoldStatus.expired (forget s)
unfolding release_hold_rows
release-forget id read s = refl

closed-forget :
    (id : ℕ) (read : SeatHold) (s : Store) → forget (closed id read s) ≡ closed id read (forget s)
unfolding closed
closed-forget id read s =
    ended-forget read.booking_id (release_hold_rows id read SeatHoldStatus.expired s)
    ∙ ap (ended read.booking_id) (release-forget id read s)

pub worker-claimed :
    (id : ℕ) (read : SeatHold) (s : Store) (n : ℕ)
    → is_claimable read (s.holds id) ≡ true
    → ((expire_active_hold (id, read) (s, n)).0 ≡ closed id read s)
      × ((expire_active_hold (id, read) (s, n)).1 ≤ suc n)
unfolding expire_active_hold closed ended release_hold_rows
worker-claimed id read s n c = by_booking read.booking_id refl
  where
    by_booking :
        (booking : Option ℕ)
        → read.booking_id ≡ booking
        → ((expire_active_hold (id, read) (s, n)).0 ≡ closed id read s)
          × ((expire_active_hold (id, read) (s, n)).1 ≤ suc n)
    by_booking none e = (ground arith, ground arith)
    by_booking (some b) e = (ground arith, ground arith)

pub worker-refused :
    (id : ℕ) (read : SeatHold) (s : Store) (n : ℕ)
    → is_claimable read (s.holds id) ≡ false
    → expire_active_hold (id, read) (s, n) ≡ (s, n)
unfolding expire_active_hold
worker-refused id read s n c = rw (c, expire_active_hold) refl

api-claimed :
    (id : ℕ) (read : SeatHold) (s : Store)
    → is_claimable read (s.holds id) ≡ true
    → forget (expire_hold (id, read) s) ≡ closed id read (forget s)
unfolding expire_hold closed
api-claimed id read s c = rw c (
    expire_booking-forget read.booking_id read.expires_at
      (release_hold_rows id read SeatHoldStatus.expired s)
    ∙ ap (ended read.booking_id) (release-forget id read s))

-- A round of the worker and one of the api, on stores that differ in those times alone.
round-forget :
    (h : ℕ × SeatHold) (s t : Store) (n : ℕ)
    → forget s ≡ forget t
    → (forget (expire_active_hold h (s, n)).0 ≡ forget (expire_hold h t))
      × ((expire_active_hold h (s, n)).1 ≤ suc n)
unfolding expire_hold
round-forget (id, read) s t n e =
    let same : is_claimable read (s.holds id) ≡ is_claimable read (t.holds id) =
      ap (λ u. is_claimable read (u.holds id)) e in
    elim (Bool-cases (is_claimable read (s.holds id))) [
      | inl c ↦
          let (made, counted) = worker-claimed id read s n c in
          let c' = sym same ∙ c in
          (
            ap forget made
                ∙ closed-forget id read s
                ∙ ap (closed id read) e
                ∙ sym (api-claimed id read t c'),
            counted,
          )
      | inr c ↦
          let c' = sym same ∙ c in
          (rw (worker-refused id read s n c, c') e, rw (worker-refused id read s n c) (omega arith))
    ]

update_own :
    (stores : Stores) (i trip : ℕ) (s : Store) → (i == trip) ≡ true → update stores i s trip ≡ s
update_own stores i trip s e = rw e refl

update_other :
    (stores : Stores) (i trip : ℕ) (s : Store)
    → (i == trip) ≡ false
    → update stores i s trip ≡ stores trip
update_other stores i trip s e = rw e refl

-- What a batch leaves of one trip.
batch-forget :
    (trip : ℕ) (hs : List (ℕ × (ℕ × SeatHold))) (stores : Stores) (n : ℕ) (t : Store)
    → forget (stores trip) ≡ forget t
    → (forget ((expire_active_holds hs (stores, n)).0 trip)
        ≡ forget (expire_holds (rows_of trip hs) t))
      × ((expire_active_holds hs (stores, n)).1 ≤ n + length hs)
unfolding expire_active_holds expire_holds
batch-forget trip [] stores n t e = (e, omega arith)
batch-forget trip ((i, h) ∷ hs) stores n t e =
    let (s, count) = expire_active_hold h (stores i, n) in
    let counted = (round-forget h (stores i) (stores i) n refl).1 in
    elim (Bool-cases (i == trip)) [
      | inl own ↦
          let at = (==_iff i trip).0 own in
          let before = subst (λ k. forget (stores k) ≡ forget t) (sym at) e in
          let after =
            ap forget (update_own stores i trip s own) ∙ (round-forget h (stores i) t n before).0 in
          let (left, total) =
            batch-forget trip hs (update stores i s) count (expire_hold h t) after in
          (rw own left, omega (arith, total, counted))
      | inr other ↦
          let after = ap forget (update_other stores i trip s other) ∙ e in
          let (left, total) = batch-forget trip hs (update stores i s) count t after in
          (rw other left, omega (arith, total, counted))
    ]

-- When no more than 100 holds of all trips are due, one run of the worker leaves of each trip what the
-- sweep of the api leaves of it, but for the times at which bookings expire, and counts 100 holds at
-- most. The list of the trips has this trip, and none twice.
pub expire_active_seat_holds-agrees :
    (now trip : ℕ) (trips : List ℕ) (stores : Stores)
    → Differ trips
    → any (λ i. i == trip) trips ≡ true
    → length (due_of_trips now trips stores) ≤ 100
    → (forget ((expire_active_seat_holds now trips stores).0 trip)
        ≡ forget (expire_seat_holds now (stores trip)))
      × ((expire_active_seat_holds now trips stores).1 ≤ 100)
unfolding expire_active_seat_holds expire_seat_holds
expire_active_seat_holds-agrees now trip trips stores d m few =
    let all = due_of_trips now trips stores in
    let own = rows_of-due now trip trips stores d m in
    let bound : length (due_holds now (stores trip).holds (stores trip).hold_ids) ≤ 100 =
      subst (λ hs. length hs ≤ 100) own (omega (arith, length-rows_of trip all)) in
    let (left, total) = batch-forget trip all stores 0 (stores trip) refl in
    rw (take_due-all 100 all few, take_holds-all 100 _ bound)
      (left ∙ ap (λ hs. forget (expire_holds hs (stores trip))) own, omega (arith, total))
