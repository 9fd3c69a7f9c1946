-- ===== src/Booking/Layout/Keys.antt =====
-- The number and the keys of the seats that generateSeatLayout of packages/validation/src/index.ts
-- makes.
use text.Mathlib.Text.{◌==◌ as str_eq}
use nodex_v.Prelude.{
  ℕ, zero, suc, ◌+◌, ◌-◌, ◌≤◌, ◌≡◌, refl, arith, Bool, true, not, ◌&&◌, any, List, [], ◌∷◌, String,
  length, map,
}
use nodex_v.Prelude.Int.{ℤ}
use nodex_v.Booking.Layout.{
  SeatLayoutItem, front_seat, rear_seat, rear_seats, clamped, generate_seat_layout,
}

abbrev pub all_differ : List String → Bool
all_differ [] = true
all_differ (k ∷ ks) = not (any (str_eq k) ks) && all_differ ks

abbrev pub keys_of : List SeatLayoutItem → List String
keys_of items = map (λ item. item.seat_key) items

rear_seats-length : (rounds rear_index : ℕ) → length (rear_seats rounds rear_index) ≡ rounds
unfolding rear_seats
rear_seats-length zero rear_index = refl
rear_seats-length (suc rounds) rear_index =
    ground (arith, rear_seats-length rounds (rear_index + 1))

table : (n : ℕ) → n ≤ 15 → all_differ (keys_of (front_seat ∷ rear_seats n 0)) ≡ true
unfolding rear_seats rear_seat
table zero le = refl
table (suc zero) le = refl
table (suc (suc zero)) le = refl
table (suc (suc (suc zero))) le = refl
table (suc (suc (suc (suc zero)))) le = refl
table (suc (suc (suc (suc (suc zero))))) le = refl
table (suc (suc (suc (suc (suc (suc zero)))))) le = refl
table (suc (suc (suc (suc (suc (suc (suc zero))))))) le = refl
table (suc (suc (suc (suc (suc (suc (suc (suc zero)))))))) le = refl
table (suc (suc (suc (suc (suc (suc (suc (suc (suc zero))))))))) le = refl
table (suc (suc (suc (suc (suc (suc (suc (suc (suc (suc zero)))))))))) le = refl
table (suc (suc (suc (suc (suc (suc (suc (suc (suc (suc (suc zero))))))))))) le = refl
table (suc (suc (suc (suc (suc (suc (suc (suc (suc (suc (suc (suc zero)))))))))))) le = refl
table (suc (suc (suc (suc (suc (suc (suc (suc (suc (suc (suc (suc (suc zero))))))))))))) le = refl
table (suc (suc (suc (suc (suc (suc (suc (suc (suc (suc (suc (suc (suc (suc zero)))))))))))))) le =
    refl
table (suc (suc (suc (suc (suc (suc (suc (suc (suc (suc (suc (suc (suc (suc (suc zero)))))))))))))))
      le =
    refl
table
      (suc
        (suc (suc (suc (suc (suc (suc (suc (suc (suc (suc (suc (suc (suc (suc (suc n))))))))))))))))
      le =
    absurd (omega arith)

-- A layout has as many seats as the count that is asked for, from 1 to 16, and no two of its seats
-- have the same key.
pub generate_seat_layout-differ :
    (count : ℤ)
    → (length (generate_seat_layout count) ≡ clamped count)
      × (all_differ (keys_of (generate_seat_layout count)) ≡ true)
unfolding generate_seat_layout
generate_seat_layout-differ count = (
  ground (arith, rear_seats-length (clamped count - 1) 0),
  table (clamped count - 1) (ground arith),
)
