-- ===== src/Payments/Pricing.antt =====
-- packages/payments/src/index.ts: calculateBps and calculatePricing.
pub mod Laws
use nodex_v.Prelude.{
  ℕ, ◌*◌, ◌+◌, ◌/◌, Bool, true, false, Option, none, some, String, Result, ok, err, ◌>>=◌, ◌>>◌,
  throw_if,
}
use nodex_v.Prelude.Int.{ℤ, pos, negsuc, ◌+ℤ◌, ltb_ℤ, trunc_div, sub_ℕ}
use nodex_v.Payments.Money.{PaymentError, basis_points, fixed_fee_negative, Money, money}

-- A JavaScript `number`: an integer, or one for which `Number.isInteger` is false.
pub data Number : Type 0 where
  integer : ℤ → Number
  not_integer : Number

pub data PaymentTargetType : Type 0 where
  booking parcel_order driver_payout adjustment : PaymentTargetType

pub record PricingInput : Type 0 where
  pub target_type : PaymentTargetType
  pub base_minor : ℤ
  pub currency : String
  pub fee_rate_bps : Option Number
  pub fixed_fee_minor : Option ℤ

-- `ruleSnapshot` repeats three of the inputs, and is left out.
pub record PricingResult : Type 0 where
  pub subtotal_minor : ℤ
  pub fee_minor : ℤ
  pub total_minor : ℤ
  pub currency : String

abbrev pub times : ℤ → ℕ → ℤ
times (pos n) b = pos (n * b)
times (negsuc n) b = sub_ℕ 0 ((n + 1) * b)

unfoldable pub calculate_bps : ℤ → Number → Result PaymentError ℤ
calculate_bps amount_minor (integer (pos bps)) =
    ok (trunc_div (times amount_minor bps +ℤ pos 9999) 10000)
calculate_bps amount_minor (integer (negsuc bps)) = err basis_points
calculate_bps amount_minor not_integer = err basis_points

abbrev pub value_or {ℓ} : {A : Type ℓ} → Option A → A → A
value_or none d = d
value_or (some a) d = a

unfoldable pub calculate_pricing : PricingInput → Result PaymentError PricingResult
calculate_pricing input = do
  base ← money input.base_minor input.currency
  throw_if (ltb_ℤ (value_or input.fixed_fee_minor (pos 0)) (pos 0)) fixed_fee_negative
  bps ← calculate_bps base.amount_minor (value_or input.fee_rate_bps (integer (pos 0)))
  let fee = bps +ℤ value_or input.fixed_fee_minor (pos 0)
  ok (record {
    subtotal_minor = base.amount_minor;
    fee_minor = fee;
    total_minor = base.amount_minor +ℤ fee;
    currency = base.currency;
  })
