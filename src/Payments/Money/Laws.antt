-- ===== src/Payments/Money/Laws.antt =====
-- Sums and differences of amounts.
use text.Mathlib.TextEquality.{eq_iff}
use nodex_v.Prelude.{◌≡◌, arith, ok}
use nodex_v.Prelude.Int.{pos, ◌+ℤ◌, ◌-ℤ◌, ◌≤ℤ◌, +ℤ_parts, -ℤ_parts, eq_of_parts}
use nodex_v.Payments.Money.{Money, add_money, subtract_money}

-- Taking away what was added gives the first amount back, where the currencies agree and the amount
-- that is added to is not negative.
pub subtract_money-add_money :
    (left right sum : Money)
    → pos 0 ≤ℤ left.amount_minor
    → add_money left right ≡ ok sum
    → subtract_money sum right ≡ ok left
unfolding add_money subtract_money
subtract_money-add_money left right sum h e = ground (
  arith,
  eq_iff left.currency right.currency,
  +ℤ_parts left.amount_minor right.amount_minor,
  -ℤ_parts (left.amount_minor +ℤ right.amount_minor) right.amount_minor,
  eq_of_parts (left.amount_minor +ℤ right.amount_minor -ℤ right.amount_minor) left.amount_minor,
)
