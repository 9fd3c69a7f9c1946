-- ===== src/Booking/Changes/Availability.antt =====
-- The count of available seats of a trip, through confirmations, payments and cancellations
-- (apps/api/src/main.ts).
use text.Mathlib.TextEquality.{eq_iff}
use text.Mathlib.TextPositions.{eq_refl}
use nodex_v.Prelude.{
  ℕ, ◌==◌, ◌≡◌, refl, sym, subst, ap, ◌∙◌, arith, leb, ltb, not, ◌||◌, Bool, true, false, List, [],
  ◌∷◌, String, some, keep, length, Bool-cases, inl, inr, ok, throw_if-ok,
}
use nodex_v.Prelude.Int.{ℤ, pos, ◌+ℤ◌, ◌-ℤ◌, +ℤ_parts, -ℤ_parts, eq_of_parts}
use nodex_v.Booking.Store.{
  BookingStatus, PaymentMethod, SeatHold, Booking, Store, has, is_held, is_active,
}
use nodex_v.Booking.Holds.{
  seat_hold_expired, passenger_count_mismatch, seat_hold_ownership_conflict, booking_not_found,
}
use nodex_v.Booking.Routes.{
  find_own_hold, is_hold_confirmed, is_booking_confirmed, all_held, confirm_hold, book_seats,
}
use nodex_v.Booking.Changes.{
  ActorRole, is_booked, is_closed, is_foreign, cancel_status, release_booking, cancel_booking,
  settle_booking, awaits_payment,
}

keep_every :
    (test : String → Bool) (keys : List String)
    → ((k : String) → has keys k ≡ true → test k ≡ true)
    → length (keep test keys) ≡ length keys
keep_every test [] h = refl
keep_every test (x ∷ keys) h =
    let own : test x ≡ true = h x (ground (arith, eq_refl x)) in
    let rest : length (keep test keys) ≡ length keys =
      keep_every test keys (λ k there. h k (ground arith)) in
    ground arith

all_held-row :
    (b : ℕ) (keys : List String) (s : Store) (k : String)
    → all_held b keys s ≡ true
    → has keys k ≡ true
    → is_held (s.booking_seats b k) ≡ true
all_held-row b [] s k a h = absurd (ground arith)
all_held-row b (x ∷ keys) s k a h = ground (arith, eq_iff k x, all_held-row b keys s k)

+ℤ_zero : (a : ℤ) → a +ℤ pos 0 ≡ a
+ℤ_zero a = omega (arith, +ℤ_parts, eq_of_parts)

back_again : (a : ℤ) (n : ℕ) → a -ℤ pos n +ℤ pos n ≡ a
back_again a n = omega (arith, +ℤ_parts, -ℤ_parts, eq_of_parts)

-- The count after the seats of a booking, all of them booked, were given back.
released_count :
    (b : ℕ) (row : Booking) (status : BookingStatus) (s : Store)
    → length (keep (λ k. is_booked (s.booking_seats b k)) row.seats) ≡ length row.seats
    → (release_booking b row status s).trip.available_seat_count
      ≡ s.trip.available_seat_count +ℤ pos (length row.seats)
unfolding release_booking
released_count b row status s all =
    elim (Bool-cases (ltb 0 (length (keep (λ k. is_booked (s.booking_seats b k)) row.seats)))) [
      | inl h ↦ rw (h, all) refl
      | inr h ↦
          let none_left : length row.seats ≡ 0 = ground arith in
          rw h (
            sym (
              ap (λ n. s.trip.available_seat_count +ℤ pos n) none_left
              ∙ +ℤ_zero s.trip.available_seat_count))
    ]

booked_count :
    (id b : ℕ) (row : SeatHold) (method : PaymentMethod) (s : Store)
    → all_held b row.items s ≡ true
    → length (keep (λ k. is_booked ((book_seats id row b method s).booking_seats b k)) row.items)
      ≡ length row.items
unfolding book_seats
booked_count id b row method s all =
    keep_every (λ k. is_booked ((book_seats id row b method s).booking_seats b k)) row.items
      (λ k there. let held = all_held-row b row.items s k all there in ground arith)

settled_count :
    (b : ℕ) (row : Booking) (method : PaymentMethod) (s : Store)
    → all_held b row.seats s ≡ true
    → length (keep (λ k. is_booked ((settle_booking b method s).booking_seats b k)) row.seats)
      ≡ length row.seats
unfolding settle_booking
settled_count b row method s all =
    keep_every (λ k. is_booked ((settle_booking b method s).booking_seats b k)) row.seats
      (λ k there. let held = all_held-row b row.seats s k all there in ground arith)

cancelled_count :
    (b : ℕ) (role : ActorRole) (user : ℕ) (s t : Store) (row : Booking)
    → s.bookings b ≡ some row
    → is_closed row.status ≡ false
    → length (keep (λ k. is_booked (s.booking_seats b k)) row.seats) ≡ length row.seats
    → cancel_booking b role user s ≡ ok t
    → t.trip.available_seat_count ≡ s.trip.available_seat_count +ℤ pos (length row.seats)
unfolding cancel_booking
cancelled_count b role user s t row found live all e =
    let (own, e') =
      throw_if-ok (is_foreign role user row) booking_not_found _
        (rw (found, cancel_booking) at e) in
    let left : release_booking b row (cancel_status role) s ≡ t = ground (arith, rw live at e') in
    ap (λ u. u.trip.available_seat_count) (sym left)
    ∙ released_count b row (cancel_status role) s all

-- A booking whose seats are held for it is settled by a payment and then cancelled: the trip counts
-- its seats as available once more, though the payment had not taken them off the count.
pub settle_booking_cancelled :
    (b : ℕ) (method : PaymentMethod) (role : ActorRole) (user : ℕ) (s t : Store) (row : Booking)
    → s.bookings b ≡ some row
    → awaits_payment row.status ≡ true
    → all_held b row.seats s ≡ true
    → cancel_booking b role user (settle_booking b method s) ≡ ok t
    → t.trip.available_seat_count ≡ s.trip.available_seat_count +ℤ pos (length row.seats)
unfolding settle_booking
settle_booking_cancelled b method role user s t row found waits all e =
    cancelled_count b role user (settle_booking b method s) t
      (record row { status = BookingStatus.confirmed; payment_method = method }) (ground arith) refl
      (settled_count b row method s all) e

own_booking :
    (id client : ℕ) (s : Store) (row : SeatHold) (b : ℕ) (booking : Booking)
    → find_own_hold id client s ≡ some (row, b, booking)
    → s.bookings b ≡ some booking
own_booking id client s row b booking found = ground arith

confirmed_row :
    (id b : ℕ) (row : SeatHold) (method : PaymentMethod) (s : Store) (booking : Booking)
    → s.bookings b ≡ some booking
    → (book_seats id row b method s).bookings b
      ≡ some (record booking { status = BookingStatus.confirmed; payment_method = method })
unfolding book_seats
confirmed_row id b row method s booking found = ground arith

confirmed_cancelled :
    (id b : ℕ) (row : SeatHold) (method : PaymentMethod) (s u : Store) (booking : Booking)
    (role : ActorRole) (user : ℕ)
    → s.bookings b ≡ some booking
    → booking.seats ≡ row.items
    → all_held b row.items s ≡ true
    → cancel_booking b role user (book_seats id row b method s) ≡ ok u
    → u.trip.available_seat_count ≡ s.trip.available_seat_count
unfolding book_seats
confirmed_cancelled id b row method s u booking role user found seats held c =
    let every = booked_count id b row method s held in
    let counted =
      cancelled_count b role user (book_seats id row b method s) u
        (record booking { status = BookingStatus.confirmed; payment_method = method })
        (confirmed_row id b row method s booking found) refl (rw seats every) c in
    counted
    ∙ ap (λ ks. s.trip.available_seat_count -ℤ pos (length row.items) +ℤ pos (length ks)) seats
    ∙ back_again s.trip.available_seat_count (length row.items)

module _ (id client passengers : ℕ) (method : PaymentMethod) (now : ℕ) (s t : Store)
    (row : SeatHold) (b : ℕ) (booking : Booking) where
  confirm_hold-ok :
      find_own_hold id client s ≡ some (row, b, booking)
      → (is_hold_confirmed row.status || is_booking_confirmed booking.status) ≡ false
      → confirm_hold id client passengers method now s ≡ ok t
      → (all_held b row.items s ≡ true) × (book_seats id row b method s ≡ t)
  unfolding confirm_hold
  confirm_hold-ok found fresh e =
      let (a, e1) =
        throw_if-ok (not (is_active row.status) || leb row.expires_at now) seat_hold_expired _
          (rw (found, fresh, confirm_hold) at e) in
      let (p, e2) =
        throw_if-ok (not (passengers == booking.passenger_count)) passenger_count_mismatch _ e1 in
      let (h, e3) = throw_if-ok (not (all_held b row.items s)) seat_hold_ownership_conflict _ e2 in
      (ground arith, ground arith)

  -- A hold that has the seats of its booking is confirmed, and the booking is then cancelled: the trip
  -- counts as many available seats as before.
  pub confirm_hold_cancelled :
      (role : ActorRole) (user : ℕ) (u : Store)
      → find_own_hold id client s ≡ some (row, b, booking)
      → (is_hold_confirmed row.status || is_booking_confirmed booking.status) ≡ false
      → booking.seats ≡ row.items
      → confirm_hold id client passengers method now s ≡ ok t
      → cancel_booking b role user t ≡ ok u
      → u.trip.available_seat_count ≡ s.trip.available_seat_count
  confirm_hold_cancelled role user u found fresh seats e c =
      let (held, written) = confirm_hold-ok found fresh e in
      confirmed_cancelled id b row method s u booking role user
        (own_booking id client s row b booking found) seats held
        (subst (λ w. cancel_booking b role user w ≡ ok u) (sym written) c)
