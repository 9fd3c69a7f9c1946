-- ===== src/Booking/Invariant/Taking.antt =====
-- The invariant and the writes of POST /bookings/holds (apps/api/src/main.ts).
use text.Mathlib.Text.{◌==◌ as str_eq}
use text.Mathlib.TextEquality.{eq_iff}
use nodex_v.Prelude.{
  ℕ, ◌<◌, ◌==◌, ◌≡◌, refl, arith, inl, inr, Bool, true, false, String, some, List, [], ◌∷◌, ◌++◌,
  keep, Bool-cases, if◌then◌else◌, not, length,
}
use nodex_v.Prelude.Int.{pos, ltb_ℤ}
use nodex_v.Booking.Layout.{SeatLayoutItem, generate_seat_layout}
use nodex_v.Booking.Store.{
  SeatStatus, BookingSeatStatus, active, SeatHold, Store, has, is_seat_available,
}
use nodex_v.Booking.Routes.{HoldRequest, add_seats, ensure_trip_seats, take_seats}
use nodex_v.Booking.Invariant.{IsExclusive, is_live}
use nodex_v.Booking.Invariant.Shrinking.{IsExclusive-of_Shrinks}

-- What a filtered list has satisfies the test, and stands in the list.
pub has-keep :
    (p : String → Bool) (keys : List String) (k : String)
    → has (keep p keys) k ≡ true
    → (p k ≡ true) × (has keys k ≡ true)
has-keep p [] k h = absurd (ground arith)
has-keep p (x ∷ keys) k h = ground (arith, eq_iff k x, has-keep p keys k)

has-append :
    (keys more : List String) (k : String) → has keys k ≡ true → has (keys ++ more) k ≡ true
has-append [] more k h = absurd (ground arith)
has-append (x ∷ keys) more k h = ground (arith, has-append keys more k)

abbrev add_seat : SeatLayoutItem → Store → Store
add_seat item s = record s {
  seat_keys = s.seat_keys ++ item.seat_key ∷ [];
  seat_status = λ k. if str_eq item.seat_key k then SeatStatus.available else s.seat_status k;
  seat_price = λ k. if str_eq item.seat_key k then s.trip.price_per_seat_minor else s.seat_price k;
}

module _ (s : Store) (v : IsExclusive s) (item : SeatLayoutItem)
    (new_key : has s.seat_keys item.seat_key ≡ false) where
  nobody :
      (k : String) (b : ℕ) → str_eq item.seat_key k ≡ true → is_live (s.booking_seats b k) ≡ false
  nobody k b e = elim (Bool-cases (is_live (s.booking_seats b k))) [
    | inr none_live ↦ none_live
    | inl live ↦
        let there : has s.seat_keys item.seat_key ≡ true =
          rw ((eq_iff item.seat_key k).0 e) (v.known k b live) in
        cc (new_key, there)
  ]

  add_seat-IsExclusive : IsExclusive (add_seat item s)
  add_seat-IsExclusive = IsExclusive-of_Shrinks s (add_seat item s) v (record {
    live_before = λ k b l. l;
    freed = λ k b e. ground (arith, nobody k b);
    hold_before = λ h row e. (row, e, refl, refl, λ a. a);
    undisturbed =
        λ h row b k e a o i. (ground (arith, nobody k b, v.owned h row b k e a o i), refl);
    no_new_row = λ k b n. n;
    keys_kept = λ k h. has-append s.seat_keys (item.seat_key ∷ []) k h;
    same_next = refl;
  })

add_seats-IsExclusive :
    (items : List SeatLayoutItem) (s : Store) → IsExclusive s → IsExclusive (add_seats items s)
add_seats-IsExclusive [] s v = v
add_seats-IsExclusive (item ∷ items) s v = elim (Bool-cases (has s.seat_keys item.seat_key)) [
  | inl old ↦ rw old (add_seats-IsExclusive items s v)
  | inr new_key ↦
      rw new_key
        (add_seats-IsExclusive items (add_seat item s) (add_seat-IsExclusive s v item new_key))
]

pub ensure_trip_seats-IsExclusive : (s : Store) → IsExclusive s → IsExclusive (ensure_trip_seats s)
unfolding ensure_trip_seats
ensure_trip_seats-IsExclusive s v =
    elim (Bool-cases (not (ltb_ℤ (pos (length s.seat_keys)) s.trip.passenger_seat_capacity))) [
      | inl enough ↦ rw enough v
      | inr more ↦
          rw more (add_seats-IsExclusive (generate_seat_layout s.trip.passenger_seat_capacity) s v)
    ]

module _ (r : HoldRequest) (client expires_at : ℕ) (keys : List String) (s : Store)
    (v : IsExclusive s)
    (takes : (k : String)
      → has keys k ≡ true
      → (is_seat_available (s.seat_status k) ≡ true) × (has s.seat_keys k ≡ true)) where
  after : Store
  unfolding take_seats
  after = take_seats r client expires_at keys s

  free_after :
      (k : String) (b : ℕ)
      → after.seat_status k ≡ SeatStatus.available
      → is_live (after.booking_seats b k) ≡ false
  unfolding after
  free_after k b e = ground (arith, takes k, v.free k b)

  single_after :
      (k : String) (b b' : ℕ)
      → is_live (after.booking_seats b k) ≡ true
      → is_live (after.booking_seats b' k) ≡ true
      → b ≡ b'
  unfolding after
  single_after k b b' l l' = ground (arith, takes k, v.free k b, v.free k b', v.single k b b')

  known_after :
      (k : String) (b : ℕ) → is_live (after.booking_seats b k) ≡ true → has after.seat_keys k ≡ true
  unfolding after
  known_after k b l = ground (arith, takes k, v.known k b)

  booked_by_after :
      (h : ℕ) (row : SeatHold)
      → after.holds h ≡ some row
      → row.status ≡ active
      → (b : ℕ) × (row.booking_id ≡ some b)
  unfolding after
  booked_by_after h row e a = elim (Bool-cases (s.next_id == h)) [
    | inl new ↦ (s.next_id, ground arith)
    | inr old ↦ v.booked_by h row (ground arith) a
  ]

  owned_after :
      (h : ℕ) (row : SeatHold) (b : ℕ) (k : String)
      → after.holds h ≡ some row
      → row.status ≡ active
      → row.booking_id ≡ some b
      → has row.items k ≡ true
      → (after.seat_status k ≡ SeatStatus.held)
        × (after.booking_seats b k ≡ some BookingSeatStatus.held)
  unfolding after
  owned_after h row b k e a o i =
      ground (arith, takes k, v.owned h row b k, v.fresh_bookings h b row)

  one_hold_after :
      (h h' : ℕ) (row row' : SeatHold) (b : ℕ)
      → after.holds h ≡ some row
      → after.holds h' ≡ some row'
      → row.booking_id ≡ some b
      → row'.booking_id ≡ some b
      → h ≡ h'
  unfolding after
  one_hold_after h h' row row' b e e' o o' =
      ground
        (arith, v.one_hold h h' row row' b, v.fresh_bookings h b row, v.fresh_bookings h' b row')

  fresh_after :
      (h b : ℕ) (row : SeatHold)
      → after.holds h ≡ some row
      → row.booking_id ≡ some b
      → b < after.next_id
  unfolding after
  fresh_after h b row e o = ground (arith, v.fresh_bookings h b row)

  pub take_seats-IsExclusive : IsExclusive (take_seats r client expires_at keys s)
  unfolding after
  take_seats-IsExclusive = record {
    free = free_after;
    single = single_after;
    booked_by = booked_by_after;
    owned = owned_after;
    known = known_after;
    one_hold = one_hold_after;
    fresh_rows = λ b k n. ground (arith, v.fresh_rows b k);
    fresh_holds = λ h n. ground (arith, v.fresh_holds h);
    fresh_bookings = fresh_after;
  }
