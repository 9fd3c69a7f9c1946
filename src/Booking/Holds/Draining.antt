-- ===== src/Booking/Holds/Draining.antt =====
-- Repeated runs of expireSeatHolds of apps/api/src/main.ts, which takes 100 holds at a time.
mod Rounds
use nodex_v.Prelude.{
  ℕ, zero, suc, ◌≤◌, ◌+◌, ◌-◌, ◌*◌, ◌==◌, ◌≡◌, refl, sym, ap, ◌∙◌, subst, arith, ◌⊎◌, inl, inr,
  Bool, true, false, List, [], ◌∷◌, Option, none, some, length, All, Bool-cases, Option-cases, min,
  if◌then◌else◌,
}
use nodex_v.Booking.Store.{SeatHold, SeatHoldStatus, Store}
use nodex_v.Booking.Holds.{
  is_claimable, close_hold, update_hold, release_hold_rows, expire_booking, expire_hold,
  expire_holds, is_due, due_holds, take_holds, expire_seat_holds,
}
use nodex_v.Booking.Holds.Draining.Rounds.{IsOld, all_stay, all_closed, all_ids}

skipped :
    (now id : ℕ) (holds : ℕ → Option SeatHold) (ids : List ℕ)
    → is_due now (holds id) ≡ false
    → due_holds now holds (id ∷ ids) ≡ due_holds now holds ids
unfolding due_holds
skipped now id holds ids n = elim (Option-cases (holds id)) [
  | inl e ↦ rw (e, due_holds) refl
  | inr (row, e) ↦
      let late : is_due now (some row) ≡ false = ap (is_due now) (sym e) ∙ n in
      rw (e, late, due_holds) refl
]

listed :
    (now id : ℕ) (holds : ℕ → Option SeatHold) (ids : List ℕ)
    → is_due now (holds id) ≡ true
    → (row : SeatHold) × (due_holds now holds (id ∷ ids) ≡ (id, row) ∷ due_holds now holds ids)
unfolding due_holds
listed now id holds ids d = elim (Option-cases (holds id)) [
  | inl e ↦ absurd (ground (arith, e, d))
  | inr (row, e) ↦
      let late : is_due now (some row) ≡ true = ap (is_due now) (sym e) ∙ d in
      (row, rw (e, late, due_holds) refl)
]

-- Of two tables, the second of which has no due holds but those of the first, and not the first `n` of
-- these.
abbrev IsFewer : ℕ → (ℕ → Option SeatHold) → (ℕ → Option SeatHold) → ℕ → List ℕ → Type 0
IsFewer now holds holds' n ids =
    All (λ h. is_due now (holds' h.0) ≡ false) (take_holds n (due_holds now holds ids))
    → length (due_holds now holds' ids) ≤ length (due_holds now holds ids) - n

IsFewer-by_one :
    (now id : ℕ) (holds holds' : ℕ → Option SeatHold) (ids : List ℕ)
    → is_due now (holds id) ≡ true
    → ((m : ℕ) → IsFewer now holds holds' m ids)
    → (n : ℕ) → IsFewer now holds holds' n (id ∷ ids)
IsFewer-by_one now id holds holds' ids d rest zero closed =
    let (row, e) = listed now id holds ids d in
    elim (Bool-cases (is_due now (holds' id))) [
      | inl d' ↦
          let (row', e') = listed now id holds' ids d' in
          omega (arith, rest 0 tt, ap length e, ap length e')
      | inr late ↦ omega (arith, rest 0 tt, ap length e, ap length (skipped now id holds' ids late))
    ]
IsFewer-by_one now id holds holds' ids d rest (suc m) closed =
    let (row, e) = listed now id holds ids d in
    let (late, others) =
      subst (λ hs. All (λ h. is_due now (holds' h.0) ≡ false) (take_holds (suc m) hs)) e closed in
    omega (arith, rest m others, ap length e, ap length (skipped now id holds' ids late))

fewer :
    (now : ℕ) (holds holds' : ℕ → Option SeatHold)
    → ((k : ℕ) → is_due now (holds k) ≡ false → is_due now (holds' k) ≡ false)
    → (ids : List ℕ) (n : ℕ) → IsFewer now holds holds' n ids
unfolding due_holds
fewer now holds holds' stay [] n closed = omega arith
fewer now holds holds' stay (id ∷ ids) n closed = elim (Bool-cases (is_due now (holds id))) [
  | inr late ↦
      let rest = fewer now holds holds' stay ids n (
        subst (λ hs. All (λ h. is_due now (holds' h.0) ≡ false) (take_holds n hs))
          (skipped now id holds ids late) closed) in
      omega (
        arith,
        rest,
        ap length (skipped now id holds ids late),
        ap length (skipped now id holds' ids (stay id late)),
      )
  | inl d ↦ IsFewer-by_one now id holds holds' ids d (fewer now holds holds' stay ids) n closed
]

due_read :
    (now : ℕ) (s : Store) (ids : List ℕ)
    → All (λ h. (is_due now (some h.1) ≡ true) × IsOld now s h) (due_holds now s.holds ids)
unfolding due_holds
due_read now s [] = tt
due_read now s (id ∷ ids) = elim (Option-cases (s.holds id)) [
  | inl e ↦ rw (e, due_holds) (due_read now s ids)
  | inr (row, e) ↦ elim (Bool-cases (is_due now (some row))) [
    | inl d ↦ rw (e, d, due_holds) ((d, inl e), due_read now s ids)
    | inr d ↦ rw (e, d, due_holds) (due_read now s ids)
  ]
]

taken_read :
    (now n : ℕ) (s : Store) (hs : List (ℕ × SeatHold))
    → All (λ h. (is_due now (some h.1) ≡ true) × IsOld now s h) hs
    → All (λ h. is_due now (some h.1) ≡ true) (take_holds n hs)
      × All (IsOld now s) (take_holds n hs)
taken_read now zero s hs a = (tt, tt)
taken_read now (suc n) s [] a = (tt, tt)
taken_read now (suc n) s (h ∷ hs) ((d, o), a) =
    let (ds, os) = taken_read now n s hs a in ((d, ds), (o, os))

abbrev pub due_count : ℕ → Store → ℕ
due_count now s = length (due_holds now s.holds s.hold_ids)

-- One run leaves a hundred due holds fewer, or none.
sweep-due_count :
    (now : ℕ) (s : Store) → due_count now (expire_seat_holds now s) ≤ due_count now s - 100
unfolding expire_seat_holds
sweep-due_count now s =
    let due = take_holds 100 (due_holds now s.holds s.hold_ids) in
    let (ds, os) =
      taken_read now 100 s (due_holds now s.holds s.hold_ids) (due_read now s s.hold_ids) in
    let after = expire_holds due s in
    let less =
      fewer now s.holds after.holds (all_stay now due s) s.hold_ids 100
        (all_closed now due s ds os) in
    subst (λ ids. length (due_holds now after.holds ids) ≤ due_count now s - 100)
      (sym (all_ids due s)) less

-- The runs of the sweep, one after the other.
unfoldable pub sweeps : ℕ → ℕ → Store → Store
sweeps zero now s = s
sweeps (suc n) now s = sweeps n now (expire_seat_holds now s)

-- However many holds are due, the sweeps end them all: as many runs as there are hundreds of due holds
-- leave none that is due at that time.
pub sweeps-drain :
    (n now : ℕ) (s : Store)
    → length (due_holds now s.holds s.hold_ids) ≤ 100 * n
    → length (due_holds now (sweeps n now s).holds (sweeps n now s).hold_ids) ≡ 0
unfolding sweeps
sweeps-drain zero now s h = omega arith
sweeps-drain (suc n) now s h =
    sweeps-drain n now (expire_seat_holds now s) (omega (arith, sweep-due_count now s))
