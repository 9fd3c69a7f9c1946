-- ===== src/Booking/Invariant/Creating.antt =====
-- The invariant and POST /bookings/holds (apps/api/src/main.ts).
use nodex_v.Prelude.{
  ℕ, ◌==◌, ◌+◌, ◌≡◌, refl, arith, not, ◌&&◌, String, Option, none, some, keep, length, ok,
  throw_if-ok, >>=-ok, subst, List,
}
use nodex_v.Booking.Store.{Store, has, is_seat_available, IdempotencyRecord}
use nodex_v.Booking.Holds.{
  trip_not_available, own_trip_booking_forbidden, seat_not_available, unique_constraint_failed,
  idempotency_key_reused, expire_seat_holds, assert_seat_selection,
}
use nodex_v.Booking.Routes.{
  HoldRequest, is_bookable, requested_keys, find_record, ensure_trip_seats, take_seats, hold_seats,
  is_key_taken, create_hold,
}
use nodex_v.Booking.Invariant.{IsExclusive}
use nodex_v.Booking.Invariant.Expiry.{expire_seat_holds-IsExclusive}
use nodex_v.Booking.Invariant.Taking.{
  has-keep, ensure_trip_seats-IsExclusive, take_seats-IsExclusive,
}

-- The seats that the route takes, and the store that it takes them from.
pub free_seats : HoldRequest → Store → List String
free_seats r s =
    keep (λ k. has (requested_keys r s.seat_keys) k && is_seat_available (s.seat_status k))
      s.seat_keys

-- A success of the route is the write of the seats that were asked for.
pub hold_seats-ok :
    (r : HoldRequest) (client now ttl : ℕ) (s : Store) {t : Store × ℕ}
    → hold_seats r client now ttl s ≡ ok t
    → (t.0
        ≡ take_seats r client
            (now + ttl)
            (free_seats r (ensure_trip_seats s))
            (ensure_trip_seats s))
      × (length (free_seats r (ensure_trip_seats s))
          ≡ length (requested_keys r (ensure_trip_seats s).seat_keys))
      × (t.1 ≡ (ensure_trip_seats s).next_id)
unfolding hold_seats free_seats
hold_seats-ok r client now ttl s e =
    let (a, e') = throw_if-ok (not (is_bookable now s.trip)) trip_not_available _ e in
    let (b, e'') = throw_if-ok (s.trip.driver_user_id == client) own_trip_booking_forbidden _ e' in
    let (u, c, e3) =
      >>=-ok
        (assert_seat_selection r.type (requested_keys r (ensure_trip_seats s).seat_keys)
          r.passenger_count)
        _ e'' in
    let (d, e4) =
      throw_if-ok
        (not (
          length (free_seats r (ensure_trip_seats s))
          == length (requested_keys r (ensure_trip_seats s).seat_keys)))
        seat_not_available _ e3 in
    let (f, e5) =
      throw_if-ok (is_key_taken r.idempotency_key s.idempotency) unique_constraint_failed _ e4 in
    (ground arith, ground arith, ground arith)

hold_seats-IsExclusive :
    (r : HoldRequest) (client now ttl : ℕ) (s : Store) {t : Store × ℕ}
    → IsExclusive s
    → hold_seats r client now ttl s ≡ ok t
    → IsExclusive t.0
unfolding free_seats
hold_seats-IsExclusive r client now ttl s {t} v e = rw ((hold_seats-ok r client now ttl s e).0) (
    take_seats-IsExclusive r client (now + ttl) (free_seats r (ensure_trip_seats s))
      (ensure_trip_seats s) (ensure_trip_seats-IsExclusive s v)
      (λ k h.
        let (test, there) = has-keep _ (ensure_trip_seats s).seat_keys k h in
        (ground arith, there)))

pub create_hold-IsExclusive :
    (r : HoldRequest) (client now ttl : ℕ) (s : Store) {t : Store × ℕ}
    → IsExclusive s
    → create_hold r client now ttl s ≡ ok t
    → IsExclusive t.0
unfolding create_hold
create_hold-IsExclusive r client now ttl s {t} v e =
    by_record (find_record client r.idempotency_key (expire_seat_holds now s).idempotency) refl
  where
    expired : IsExclusive (expire_seat_holds now s)
    expired = expire_seat_holds-IsExclusive s now v

    by_record :
        (found : Option IdempotencyRecord)
        → find_record client r.idempotency_key (expire_seat_holds now s).idempotency ≡ found
        → IsExclusive t.0
    by_record none f =
        hold_seats-IsExclusive r client now ttl (expire_seat_holds now s) expired
          (rw (f, create_hold) at e)
    by_record (some prior) f =
        let (same, e') =
          throw_if-ok (not (prior.request_hash == r.request_hash)) idempotency_key_reused _
            (rw (f, create_hold) at e) in
        let same_store : expire_seat_holds now s ≡ t.0 = ground (arith, e') in
        subst IsExclusive same_store expired
