-- ===== src/Booking/Holds/Draining/Rounds.antt =====
-- The rounds of expireSeatHolds of apps/api/src/main.ts, and which holds are due after them.
use nodex_v.Prelude.{
  ℕ, ◌==◌, ◌≡◌, refl, sym, ap, ◌∙◌, subst, arith, ◌⊎◌, inl, inr, true, false, List, [], ◌∷◌, Option,
  none, some, All, Bool-cases, Option-cases,
}
use nodex_v.Booking.Store.{SeatHold, SeatHoldStatus, Store}
use nodex_v.Booking.Holds.{
  is_claimable, close_hold, update_hold, release_hold_rows, expire_booking, expire_hold,
  expire_holds, is_due,
}

-- The hold is as it was read, or is due no more.
abbrev pub IsOld : ℕ → Store → ℕ × SeatHold → Type 0
IsOld now s (id, read) = (s.holds id ≡ some read) ⊎ (is_due now (s.holds id) ≡ false)

expired_booking :
    (b : Option ℕ) (at : ℕ) (s : Store)
    → ((expire_booking b at s).holds ≡ s.holds) × ((expire_booking b at s).hold_ids ≡ s.hold_ids)
expired_booking none at s = (refl, refl)
expired_booking (some b) at s = (refl, refl)

claimed_round :
    (id : ℕ) (read : SeatHold) (s : Store)
    → is_claimable read (s.holds id) ≡ true
    → ((expire_hold (id, read) s).holds
        ≡ update_hold id (close_hold SeatHoldStatus.expired) s.holds)
      × ((expire_hold (id, read) s).hold_ids ≡ s.hold_ids)
unfolding expire_hold release_hold_rows
claimed_round id read s c = rw (c, expire_hold) (expired_booking read.booking_id read.expires_at _)

idle_round :
    (id : ℕ) (read : SeatHold) (s : Store)
    → is_claimable read (s.holds id) ≡ false
    → expire_hold (id, read) s ≡ s
unfolding expire_hold
idle_round id read s c = rw (c, expire_hold) refl

closed_due :
    (now id k : ℕ) (holds : ℕ → Option SeatHold)
    → (update_hold id (close_hold SeatHoldStatus.expired) holds k ≡ holds k)
      ⊎ (is_due now (update_hold id (close_hold SeatHoldStatus.expired) holds k) ≡ false)
closed_due now id k holds = elim (Option-cases (holds k)) [
  | inl n ↦ inl (rw (n, update_hold) refl)
  | inr (row, e) ↦ elim (Bool-cases (id == k)) [
    | inl h ↦ inr (rw (e, h, update_hold) refl)
    | inr h ↦ inl (rw (e, h, update_hold) refl)
  ]
]

closed_own :
    (now id : ℕ) (holds : ℕ → Option SeatHold)
    → is_due now (update_hold id (close_hold SeatHoldStatus.expired) holds id) ≡ false
closed_own now id holds = elim (Option-cases (holds id)) [
  | inl n ↦ rw (n, update_hold) refl
  | inr (row, e) ↦ let own : (id == id) ≡ true = ground arith in rw (e, own, update_hold) refl
]

-- A round leaves each hold, or makes it due no more.
round_holds :
    (now : ℕ) (h : ℕ × SeatHold) (s : Store) (k : ℕ)
    → ((expire_hold h s).holds k ≡ s.holds k) ⊎ (is_due now ((expire_hold h s).holds k) ≡ false)
round_holds now (id, read) s k = elim (Bool-cases (is_claimable read (s.holds id))) [
  | inl c ↦
      subst (λ f. (f k ≡ s.holds k) ⊎ (is_due now (f k) ≡ false))
        (sym (claimed_round id read s c).0) (closed_due now id k s.holds)
  | inr c ↦ inl (ap (λ t. t.holds k) (idle_round id read s c))
]

-- Its own, if it is as read, it makes due no more.
round_own :
    (now id : ℕ) (read : SeatHold) (s : Store)
    → is_due now (some read) ≡ true
    → IsOld now s (id, read)
    → is_due now ((expire_hold (id, read) s).holds id) ≡ false
round_own now id read s d old = elim (Bool-cases (is_claimable read (s.holds id))) [
  | inl c ↦
      subst (λ f. is_due now (f id) ≡ false) (sym (claimed_round id read s c).0)
        (closed_own now id s.holds)
  | inr c ↦ elim old [
    | inl e ↦ absurd (ground (arith, e, c, d))
    | inr n ↦ ap (λ t. is_due now (t.holds id)) (idle_round id read s c) ∙ n
  ]
]

round_ids : (h : ℕ × SeatHold) (s : Store) → (expire_hold h s).hold_ids ≡ s.hold_ids
round_ids (id, read) s = elim (Bool-cases (is_claimable read (s.holds id))) [
  | inl c ↦ (claimed_round id read s c).1
  | inr c ↦ ap (λ t. t.hold_ids) (idle_round id read s c)
]

-- What a row that is due no more stays.
stays :
    (now : ℕ) (h : ℕ × SeatHold) (s : Store) (k : ℕ)
    → is_due now (s.holds k) ≡ false
    → is_due now ((expire_hold h s).holds k) ≡ false
stays now h s k n = elim (round_holds now h s k) [ inl e ↦ ap (is_due now) e ∙ n | inr f ↦ f ]

IsOld-later :
    (now : ℕ) (h h' : ℕ × SeatHold) (s : Store) → IsOld now s h' → IsOld now (expire_hold h s) h'
IsOld-later now h (id, read) s old = elim (round_holds now h s id) [
  | inr f ↦ inr f
  | inl e ↦ elim old [ inl f ↦ inl (e ∙ f) | inr f ↦ inr (ap (is_due now) e ∙ f) ]
]

olds_later :
    (now : ℕ) (h : ℕ × SeatHold) (hs : List (ℕ × SeatHold)) (s : Store)
    → All (IsOld now s) hs
    → All (IsOld now (expire_hold h s)) hs
olds_later now h [] s a = tt
olds_later now h (h' ∷ hs) s (o, a) = (IsOld-later now h h' s o, olds_later now h hs s a)

pub all_stay :
    (now : ℕ) (hs : List (ℕ × SeatHold)) (s : Store) (k : ℕ)
    → is_due now (s.holds k) ≡ false
    → is_due now ((expire_holds hs s).holds k) ≡ false
unfolding expire_holds
all_stay now [] s k n = n
all_stay now (h ∷ hs) s k n = all_stay now hs (expire_hold h s) k (stays now h s k n)

-- The rounds over holds that were read as due.
pub all_closed :
    (now : ℕ) (hs : List (ℕ × SeatHold)) (s : Store)
    → All (λ h. is_due now (some h.1) ≡ true) hs
    → All (IsOld now s) hs
    → All (λ h. is_due now ((expire_holds hs s).holds h.0) ≡ false) hs
unfolding expire_holds
all_closed now [] s d o = tt
all_closed now ((id, read) ∷ hs) s (d, ds) (o, os) = (
  all_stay now hs (expire_hold (id, read) s) id (round_own now id read s d o),
  all_closed now hs (expire_hold (id, read) s) ds (olds_later now (id, read) hs s os),
)

pub all_ids : (hs : List (ℕ × SeatHold)) (s : Store) → (expire_holds hs s).hold_ids ≡ s.hold_ids
unfolding expire_holds
all_ids [] s = refl
all_ids (h ∷ hs) s = all_ids hs (expire_hold h s) ∙ round_ids h s
