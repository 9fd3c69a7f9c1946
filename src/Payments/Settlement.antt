-- ===== src/Payments/Settlement.antt =====
-- apps/api/src/main.ts: markPaymentSucceeded, which every way of paying ends in. The driver of the
-- booking or parcel (driverProfileIdForPayment) is read before and given; analytics, the outbox and
-- the audit are left out. An `err` rolls the transaction back.
pub mod Split
pub mod Nothing
use nodex_v.Prelude.{
  ℕ, suc, Bool, true, false, List, [], ◌∷◌, ◌&&◌, String, Option, none, some, includes, Result, ok,
  err, ◌>>=◌, ◌>>◌, if◌then◌else◌,
}
use nodex_v.Prelude.Int.{ℤ, pos, ◌-ℤ◌, ltb_ℤ}
use nodex_v.Payments.Money.{PaymentError}
use nodex_v.Payments.Pricing.{
  PaymentTargetType, PricingInput, PricingResult, Number, integer, calculate_pricing,
}
use nodex_v.Payments.Ledger.{
  FinancialTransaction, FinancialTransactionType, LedgerInput, EntryType, debit, credit,
  payment_success, ledger_post,
}
use nodex_v.Payments.Status.{
  PaymentStatus, PaymentStatus-discrete, partially_refunded, refunded, transition_payment_status,
}
use nodex_v.Booking.Store.{PaymentMethod, cash, Store}
use nodex_v.Booking.Changes.{settle_booking}

pub record PaymentRow : Type 0 where
  pub id : ℕ
  pub status : PaymentStatus
  pub method : PaymentMethod
  pub target_type : PaymentTargetType
  pub currency : String
  pub amount_minor : ℤ
  pub paid_minor : ℤ
  pub booking_id : Option ℕ

pub record DriverEarning : Type 0 where
  pub driver_profile_id : ℕ
  pub gross_minor : ℤ
  pub fee_minor : ℤ
  pub net_minor : ℤ

pub record SettlementStore : Type 0 where
  pub payment : PaymentRow
  pub fees : List ℤ
  pub earnings : List DriverEarning
  pub ledger : List FinancialTransaction
  -- The tables of the trip that a booking is of.
  pub trip : Store

abbrev pub is_paid : PaymentStatus → Bool
is_paid status =
    includes PaymentStatus-discrete (PaymentStatus.succeeded ∷ partially_refunded ∷ refunded ∷ [])
      status

abbrev pub fee_rate_bps : ℕ
fee_rate_bps = 1000

abbrev pub settlement_pricing : PaymentRow → PricingInput
settlement_pricing payment = record {
  target_type = payment.target_type;
  base_minor = payment.amount_minor;
  currency = payment.currency;
  fee_rate_bps = some (integer (pos fee_rate_bps));
  fixed_fee_minor = none;
}

abbrev pub capped_fee : PaymentRow → ℤ → ℤ
capped_fee payment fee = if ltb_ℤ payment.amount_minor fee then payment.amount_minor else fee

abbrev pub payment_account : PaymentMethod → String
payment_account cash = "cash_receivable"
payment_account _ = "provider_clearing"

abbrev pub settlement_posting : PaymentRow → ℤ → ℤ → LedgerInput
settlement_posting payment fee net = record {
  type = FinancialTransactionType.payment;
  reference_id = payment.id;
  currency = payment.currency;
  idempotency_key = payment_success payment.id;
  entries =
      (payment_account payment.method, debit, payment.amount_minor)
      ∷ ("platform_fee_revenue", credit, fee)
      ∷ ("driver_earnings_payable", credit, net)
      ∷ [];
}

abbrev pub add_earning : Option ℕ → PaymentRow → ℤ → ℤ → List DriverEarning → List DriverEarning
add_earning none payment fee net earnings = earnings
add_earning (some driver) payment fee net earnings =
    if ltb_ℤ (pos 0) net
    then record {
      driver_profile_id = driver;
      gross_minor = payment.amount_minor;
      fee_minor = fee;
      net_minor = net;
    }
      ∷ earnings
    else earnings

abbrev pub settle_target : PaymentRow → Store → Store
settle_target payment trip = elim payment.booking_id [
  | none ↦ trip
  | some b ↦ settle_booking b payment.method trip
]

-- The rows after the ledger has taken the posting.
unfoldable pub settled_rows :
    Option ℕ → ℤ → ℤ → List FinancialTransaction → SettlementStore → SettlementStore
settled_rows driver fee net ledger s = record {
  payment = record (s.payment) {
    status = PaymentStatus.succeeded;
    paid_minor = s.payment.amount_minor;
  };
  fees = fee ∷ s.fees;
  earnings = add_earning driver s.payment fee net s.earnings;
  ledger = ledger;
  trip = settle_target s.payment s.trip;
}

unfoldable pub mark_payment_succeeded :
    Option ℕ → SettlementStore → Result PaymentError SettlementStore
unfolding PaymentStatus-discrete transition_payment_status calculate_pricing ledger_post
    settled_rows
mark_payment_succeeded driver s = if is_paid s.payment.status then ok s else do
  next ← transition_payment_status s.payment.status PaymentStatus.succeeded
  pricing ← calculate_pricing (settlement_pricing s.payment)
  let fee = capped_fee s.payment pricing.fee_minor
  let net = s.payment.amount_minor -ℤ fee
  posted ← ledger_post s.ledger (settlement_posting s.payment fee net)
  ok (settled_rows driver fee net posted.1 s)
