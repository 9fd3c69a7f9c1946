-- ===== src/Payments/Money.antt =====
-- packages/payments/src/index.ts: Money, assertCurrency, money, addMoney, subtractMoney. An amount
-- is a `bigint`; a currency is any text, as the casts of the callers allow.
pub mod Laws
use text.Mathlib.Text.{◌==◌ as str_eq}
use nodex_v.Prelude.{
  Bool, true, false, not, List, [], ◌∷◌, String, any, Result, ok, err, ◌>>=◌, ◌>>◌, throw_if,
}
use nodex_v.Prelude.Int.{ℤ, pos, ◌+ℤ◌, ◌-ℤ◌, ltb_ℤ}

pub data PaymentError : Type 0 where
  unsupported_currency : String → PaymentError
  negative_money subtraction_negative currency_mismatch basis_points fixed_fee_negative :
      PaymentError
  refunded_exceeds_paid refund_status refund_not_positive refund_exceeds_refundable : PaymentError
  too_few_entries currency_required mixed_currencies entry_not_positive not_balanced : PaymentError
  invalid_payment_transition : PaymentError

abbrev pub supported_currencies : List String
supported_currencies = "UZS" ∷ []

pub record Money : Type 0 where
  pub amount_minor : ℤ
  pub currency : String

unfoldable pub assert_currency : String → Result PaymentError (Unit {0})
assert_currency currency =
    throw_if (not (any (str_eq currency) supported_currencies)) (unsupported_currency currency)

unfoldable pub money : ℤ → String → Result PaymentError Money
unfolding assert_currency
money amount_minor currency = do
  assert_currency currency
  throw_if (ltb_ℤ amount_minor (pos 0)) negative_money
  ok (record { amount_minor = amount_minor; currency = currency })

unfoldable pub assert_same_currency : Money → Money → Result PaymentError (Unit {0})
assert_same_currency left right =
    throw_if (not (str_eq left.currency right.currency)) currency_mismatch

unfoldable pub add_money : Money → Money → Result PaymentError Money
unfolding assert_same_currency
add_money left right = do
  assert_same_currency left right
  ok (record { amount_minor = left.amount_minor +ℤ right.amount_minor; currency = left.currency })

unfoldable pub subtract_money : Money → Money → Result PaymentError Money
unfolding assert_same_currency
subtract_money left right = do
  assert_same_currency left right
  throw_if (ltb_ℤ left.amount_minor right.amount_minor) subtraction_negative
  ok (record { amount_minor = left.amount_minor -ℤ right.amount_minor; currency = left.currency })
