-- ===== src/Booking/Routes/Replay.antt =====
-- The idempotency key of POST /bookings/holds (apps/api/src/main.ts).
use text.Mathlib.TextPositions.{eq_refl}
use nodex_v.Prelude.{
  ℕ, ◌==◌, ◌≡◌, refl, arith, ◌∙◌, Option, none, some, List, [], ◌∷◌, Option-cases, Bool-cases, inl,
  inr, ok, throw_if-ok, not, ◌+◌, String, sym, subst,
}
use nodex_v.Booking.Store.{SeatHold, Store, IdempotencyRecord}
use nodex_v.Booking.Holds.{
  idempotency_key_reused, expire_seat_holds, expire_holds, expire_hold, expire_booking,
  is_claimable, take_holds, due_holds,
}
use nodex_v.Booking.Routes.{HoldRequest, create_hold, find_record, take_seats, ensure_trip_seats}
use nodex_v.Booking.Invariant.Creating.{hold_seats-ok, free_seats}

expire_booking_records :
    (b : Option ℕ) (at : ℕ) (s : Store) → (expire_booking b at s).idempotency ≡ s.idempotency
expire_booking_records none at s = refl
expire_booking_records (some b) at s = refl

expire_hold_records : (h : ℕ × SeatHold) (s : Store) → (expire_hold h s).idempotency ≡ s.idempotency
unfolding expire_hold
expire_hold_records (id, read) s = elim (Bool-cases (is_claimable read (s.holds id))) [
  | inl c ↦ rw c (expire_booking_records read.booking_id read.expires_at _)
  | inr c ↦ rw c
]

expire_holds_records :
    (hs : List (ℕ × SeatHold)) (s : Store) → (expire_holds hs s).idempotency ≡ s.idempotency
unfolding expire_holds
expire_holds_records [] s = refl
expire_holds_records (h ∷ hs) s =
    expire_holds_records hs (expire_hold h s) ∙ expire_hold_records h s

expire_seat_holds_records :
    (now : ℕ) (s : Store) → (expire_seat_holds now s).idempotency ≡ s.idempotency
unfolding expire_seat_holds
expire_seat_holds_records now s =
    expire_holds_records (take_holds 100 (due_holds now s.holds s.hold_ids)) s

abbrev IsAnswered : HoldRequest → ℕ → ℕ → Store → Type 0
IsAnswered r client b s =
    (prior : IdempotencyRecord) × (find_record client r.idempotency_key s.idempotency ≡ some prior)
    × (prior.request_hash ≡ r.request_hash)
    × (prior.booking_id ≡ b)

taken-IsAnswered :
    (r : HoldRequest) (client expires_at : ℕ) (keys : List String) (s : Store)
    → IsAnswered r client s.next_id (take_seats r client expires_at keys s)
unfolding take_seats find_record
taken-IsAnswered r client expires_at keys s = (
  record {
    client_id = client;
    key = r.idempotency_key;
    request_hash = r.request_hash;
    booking_id = s.next_id;
  },
  ground (arith, eq_refl r.idempotency_key),
  refl,
  refl,
)

answered_create :
    (r : HoldRequest) (client now ttl b : ℕ) (s : Store)
    → IsAnswered r client b s
    → create_hold r client now ttl s ≡ ok (expire_seat_holds now s, b)
unfolding create_hold
answered_create r client now ttl b s (prior, found, same, at) =
    let found' : find_record client r.idempotency_key (expire_seat_holds now s).idempotency
        ≡ some prior =
      subst (λ rs. find_record client r.idempotency_key rs ≡ some prior)
        (sym (expire_seat_holds_records now s)) found in
    rw (found', create_hold) (ground arith)

-- A client whose request for a hold succeeded and who sends it again, however much later, is answered
-- with the same booking, and nothing but the sweep of expired holds is written.
pub create_hold_replayed :
    (r : HoldRequest) (client now ttl : ℕ) (s t : Store) (b now' ttl' : ℕ)
    → create_hold r client now ttl s ≡ ok (t, b)
    → create_hold r client now' ttl' t ≡ ok (expire_seat_holds now' t, b)
unfolding create_hold
create_hold_replayed r client now ttl s t b now' ttl' e =
    let found = find_record client r.idempotency_key (expire_seat_holds now s).idempotency in
    answered_create r client now' ttl' b t (elim (Option-cases found) [
      | inl f ↦
          let (made, counted, at) =
            hold_seats-ok r client now ttl (expire_seat_holds now s) (rw (f, create_hold) at e) in
          let s' = ensure_trip_seats (expire_seat_holds now s) in
          subst (λ u. IsAnswered r client b u) (sym made)
            (subst
              (λ c. IsAnswered r client c (take_seats r client (now + ttl) (free_seats r s') s'))
              (sym at) (taken-IsAnswered r client (now + ttl) (free_seats r s') s'))
      | inr (prior, f) ↦
          let (same, e') =
            throw_if-ok (not (prior.request_hash == r.request_hash)) idempotency_key_reused _
              (rw (f, create_hold) at e) in
          let left : expire_seat_holds now s ≡ t = ground (arith, e') in
          subst (λ u. IsAnswered r client b u) left (prior, f, ground arith, ground arith)
    ])
