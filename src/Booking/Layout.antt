-- ===== src/Booking/Layout.antt =====
-- packages/validation/src/index.ts: generateSeatLayout. The count is an integer, as the database and
-- the schemas make it, so that `Math.floor` leaves it.
pub mod Keys
use Prim.Native.String
use nodex_v.Prelude.{
  ℕ, zero, suc, ◌+◌, ◌-◌, ◌/◌, ◌%◌, ◌==◌, min, max, List, [], ◌∷◌, ◌++◌, String, if◌then◌else◌, ◌≡◌,
  ltb, Bool, true, false,
}
use nodex_v.Prelude.Int.{ℤ, pos, negsuc, pos_part}

pub data SeatType : Type 0 where
  front rear standard : SeatType

pub record SeatLayoutItem : Type 0 where
  pub seat_key : String
  pub label : String
  pub row : ℕ
  pub column : ℕ
  pub seat_type : SeatType

-- A row number as text. A layout has at most eight rows behind the first.
abbrev pub digit : ℕ → String
digit zero = "0"
digit (suc zero) = "1"
digit (suc (suc zero)) = "2"
digit (suc (suc (suc zero))) = "3"
digit (suc (suc (suc (suc zero)))) = "4"
digit (suc (suc (suc (suc (suc zero))))) = "5"
digit (suc (suc (suc (suc (suc (suc zero)))))) = "6"
digit (suc (suc (suc (suc (suc (suc (suc zero))))))) = "7"
digit (suc (suc (suc (suc (suc (suc (suc (suc zero)))))))) = "8"
digit _ = "9"

-- The loop's round for `rearIndex`.
unfoldable pub rear_seat : ℕ → SeatLayoutItem
rear_seat rear_index =
    let row = rear_index / 2 + 1 in
    let is_left = rear_index % 2 == 0 in
    record {
      seat_key =
          String.◌++◌ "ROW_" (String.◌++◌ (digit row) (if is_left then "_LEFT" else "_RIGHT"));
      label = String.◌++◌ "Row " (String.◌++◌ (digit row) (if is_left then " left" else " right"));
      row = row;
      column = rear_index % 2;
      seat_type = if row == 1 then rear else standard;
    }

-- The rounds from `rear_index` on, `rounds` of them.
unfoldable pub rear_seats : ℕ → ℕ → List SeatLayoutItem
unfolding rear_seat
rear_seats zero rear_index = []
rear_seats (suc rounds) rear_index = rear_seat rear_index ∷ rear_seats rounds (rear_index + 1)

abbrev pub front_seat : SeatLayoutItem
front_seat = record {
  seat_key = "FRONT_RIGHT";
  label = "Front right";
  row = 0;
  column = 1;
  seat_type = front;
}

-- `Math.max(1, Math.min(16, count))`.
abbrev pub clamped : ℤ → ℕ
clamped count = max 1 (min 16 (pos_part count))

unfoldable pub generate_seat_layout : ℤ → List SeatLayoutItem
unfolding rear_seats
generate_seat_layout passenger_seat_count =
    front_seat ∷ rear_seats (clamped passenger_seat_count - 1) 0
