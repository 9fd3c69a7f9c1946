-- ===== src/Booking/Maintenance/Agreement/Batch.antt =====
-- What of the batch of apps/worker/src/maintenance.ts is of one trip.
use nodex_v.Prelude.{
  ℕ, zero, suc, ◌≤◌, ◌==◌, ◌≡◌, refl, ap, ◌∙◌, arith, true, false, List, [], ◌∷◌, ◌++◌, any, length,
  ==_iff, subst, Bool-cases, inl, inr, if◌then◌else◌,
}
use nodex_v.Booking.Store.{SeatHold}
use nodex_v.Booking.Holds.{due_holds, take_holds}
use nodex_v.Booking.Maintenance.{Stores, of_trip, due_of_trips, take_due}

abbrev pub Differ : List ℕ → Type 0
Differ [] = Unit
Differ (i ∷ is) = (any (λ j. j == i) is ≡ false) × Differ is

abbrev pub rows_of : ℕ → List (ℕ × (ℕ × SeatHold)) → List (ℕ × SeatHold)
rows_of trip [] = []
rows_of trip ((i, h) ∷ hs) = let rest = rows_of trip hs in if i == trip then h ∷ rest else rest

rows_of-append :
    (trip : ℕ) (xs ys : List (ℕ × (ℕ × SeatHold)))
    → rows_of trip (xs ++ ys) ≡ rows_of trip xs ++ rows_of trip ys
rows_of-append trip [] ys = refl
rows_of-append trip ((i, h) ∷ xs) ys = ground (arith, rows_of-append trip xs ys)

own-rows : (trip : ℕ) (hs : List (ℕ × SeatHold)) → rows_of trip (of_trip trip hs) ≡ hs
own-rows trip [] = refl
own-rows trip (h ∷ hs) = ground (arith, own-rows trip hs)

foreign-rows :
    (trip i : ℕ) (hs : List (ℕ × SeatHold)) → (i == trip) ≡ false → rows_of trip (of_trip i hs) ≡ []
foreign-rows trip i [] n = refl
foreign-rows trip i (h ∷ hs) n = ground (arith, foreign-rows trip i hs n)

absent-rows :
    (now trip : ℕ) (trips : List ℕ) (stores : Stores)
    → any (λ i. i == trip) trips ≡ false
    → rows_of trip (due_of_trips now trips stores) ≡ []
unfolding due_of_trips
absent-rows now trip [] stores n = refl
absent-rows now trip (i ∷ trips) stores n =
    let hs = due_holds now (stores i).holds (stores i).hold_ids in
    rows_of-append trip (of_trip i hs) (due_of_trips now trips stores)
    ∙ rw (foreign-rows trip i hs (ground arith)) (absent-rows now trip trips stores (ground arith))

append-nil : {A : Type 0} (xs : List A) → xs ++ [] ≡ xs
append-nil [] = refl
append-nil (x ∷ xs) = ap (λ ys. x ∷ ys) (append-nil xs)

-- The due holds of a trip in the list of all of them.
pub rows_of-due :
    (now trip : ℕ) (trips : List ℕ) (stores : Stores)
    → Differ trips
    → any (λ i. i == trip) trips ≡ true
    → rows_of trip (due_of_trips now trips stores)
      ≡ due_holds now (stores trip).holds (stores trip).hold_ids
unfolding due_of_trips
rows_of-due now trip [] stores d m = absurd (ground arith)
rows_of-due now trip (i ∷ trips) stores (n, d) m = elim (Bool-cases (i == trip)) [
  | inl e ↦
      let same = (==_iff i trip).0 e in
      let out = subst (λ k. any (λ j. j == k) trips ≡ false) same n in
      let hs = due_holds now (stores trip).holds (stores trip).hold_ids in
      rw same (
        rows_of-append trip (of_trip trip hs) (due_of_trips now trips stores)
        ∙ rw (own-rows trip hs, absent-rows now trip trips stores out) (append-nil hs))
  | inr e ↦
      let hs = due_holds now (stores i).holds (stores i).hold_ids in
      rows_of-append trip (of_trip i hs) (due_of_trips now trips stores)
      ∙ rw (foreign-rows trip i hs e) (rows_of-due now trip trips stores d (ground arith))
]

pub length-rows_of :
    (trip : ℕ) (hs : List (ℕ × (ℕ × SeatHold))) → length (rows_of trip hs) ≤ length hs
length-rows_of trip [] = omega arith
length-rows_of trip ((i, h) ∷ hs) = ground (arith, length-rows_of trip hs)

pub take_due-all : (n : ℕ) (hs : List (ℕ × (ℕ × SeatHold))) → length hs ≤ n → take_due n hs ≡ hs
take_due-all zero [] l = refl
take_due-all zero (h ∷ hs) l = absurd (omega arith)
take_due-all (suc n) [] l = refl
take_due-all (suc n) (h ∷ hs) l = ap (λ x. h ∷ x) (take_due-all n hs (omega arith))

pub take_holds-all : (n : ℕ) (hs : List (ℕ × SeatHold)) → length hs ≤ n → take_holds n hs ≡ hs
take_holds-all zero [] l = refl
take_holds-all zero (h ∷ hs) l = absurd (omega arith)
take_holds-all (suc n) [] l = refl
take_holds-all (suc n) (h ∷ hs) l = ap (λ x. h ∷ x) (take_holds-all n hs (omega arith))

pub length-take_due : (n : ℕ) (hs : List (ℕ × (ℕ × SeatHold))) → length (take_due n hs) ≤ n
length-take_due zero hs = omega arith
length-take_due (suc n) [] = omega arith
length-take_due (suc n) (h ∷ hs) = ground (arith, length-take_due n hs)
