-- ===== src/Operations/Starting.antt =====
-- About startTripOperation of apps/api/src/main.ts.
use nodex_v.Prelude.{
  ℕ, ◌==◌, ◌≤◌, ◌≡◌, arith, ltb, Bool, true, false, not, ◌&&◌, List, [], ◌∷◌, keep, length, All,
  Bool-cases, inl, inr, ok, throw_if-ok,
}
use nodex_v.Operations.{
  TripBooking, OperationStore, trip_unresolved_passengers, trip_start_pin_required, is_boarded,
  is_boarding_status, has_pin, start_trip_operation,
}

length-keep_le : {A : Type 0} (test : A → Bool) (xs : List A) → length (keep test xs) ≤ length xs
length-keep_le test [] = omega arith
length-keep_le test (x ∷ xs) = elim (Bool-cases (test x)) [
  | inl h ↦ ground (arith, length-keep_le test xs)
  | inr h ↦ (ground (arith, length-keep_le test xs))
]

-- A filter that leaves the length passes every element.
All-of_keep :
    {A : Type 0} (test : A → Bool) (xs : List A)
    → length (keep test xs) ≡ length xs
    → All (λ x. test x ≡ true) xs
All-of_keep test [] e = tt
All-of_keep test (x ∷ xs) e = elim (Bool-cases (test x)) [
  | inl h ↦ (h, All-of_keep test xs (ground arith))
  | inr h ↦ absurd (ground (arith, length-keep_le test xs))
]

boarded_verified :
    (pins : List ℕ) (bs : List TripBooking)
    → (ltb 0 (length (keep is_boarded bs))
        && not (length (keep (has_pin pins) (keep is_boarded bs)) == length (keep is_boarded bs)))
      ≡ false
    → All (λ b. has_pin pins b ≡ true) (keep is_boarded bs)
boarded_verified pins bs e =
    All-of_keep (has_pin pins) (keep is_boarded bs)
      (ground (arith, length-keep_le (has_pin pins) (keep is_boarded bs)))

-- A start without leave for unresolved passengers: as many bookings have status BOARDING as have an
-- occupied seat, and each booking with an occupied seat has a verified PIN.
pub start_trip_operation-verified :
    (s t : OperationStore)
    → start_trip_operation false s ≡ ok t
    → (length (keep (λ b. is_boarding_status b.status) s.bookings)
        ≡ length (keep is_boarded s.bookings))
      × All (λ b. has_pin s.verified_pins b ≡ true) (keep is_boarded s.bookings)
unfolding start_trip_operation
start_trip_operation-verified s t e =
    let (resolved, e') =
      throw_if-ok
        (not (
          length (keep (λ b. is_boarding_status b.status) s.bookings)
          == length (keep is_boarded s.bookings)))
        trip_unresolved_passengers _ e in
    let (verified, e'') =
      throw_if-ok
        (ltb 0 (length (keep is_boarded s.bookings))
          && not (
              length (keep (has_pin s.verified_pins) (keep is_boarded s.bookings))
              == length (keep is_boarded s.bookings)))
        trip_start_pin_required _ e' in
    (ground arith, boarded_verified s.verified_pins s.bookings verified)
