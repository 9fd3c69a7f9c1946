-- ===== src/Examples/Finance.antt =====
-- Payments, refunds and ledger entries.
use nodex_v.Prelude.{
  ℕ, ◌+◌, ◌*◌, ◌≤◌, ◌<◌, ◌≡◌, ◌↔◌, inl, refl, arith, List, [], ◌∷◌, some, ok, err,
}
use nodex_v.Prelude.Int.{pos, ◌+ℤ◌}
use nodex_v.Booking.Store.{PaymentMethod}
use nodex_v.Booking.Invariant.Steps.{new_trip}
use nodex_v.Examples.Booking.{two_seats}
use nodex_v.Payments.Money.{Money, too_few_entries, add_money, subtract_money, assert_same_currency}
use nodex_v.Payments.Money.Laws.{subtract_money-add_money}
use nodex_v.Payments.Pricing.{PaymentTargetType, integer, calculate_bps}
use nodex_v.Payments.Pricing.Laws.{calculate_bps_ceiling}
use nodex_v.Payments.Ledger.{
  LedgerEntry, EntryType, assert_balanced_ledger, posted_entries, transaction_of, find_transaction,
}
use nodex_v.Payments.Ledger.Balance.{IsBalanced, assert_balanced_ledger_iff}
use nodex_v.Payments.Status.{PaymentStatus, PaymentStatus-discrete, transition_payment_status}
use nodex_v.Payments.Status.Paid.{IsPaid, request_all, request_all-IsPaid}
use nodex_v.Payments.Refund.{
  Payment, RefundStatus, PaymentRefund, RefundStore, refund_job, refund_transaction,
}
use nodex_v.Payments.Refund.Job.{refund_job_two}
use nodex_v.Payments.Settlement.{
  SettlementStore, settled_rows, settlement_posting, mark_payment_succeeded,
}
use nodex_v.Payments.Settlement.Split.{mark_payment_succeeded_split}
use nodex_v.Payments.Settlement.Nothing.{mark_payment_succeeded_zero}

abbrev sum_of : ℕ → Money
sum_of n = record { amount_minor = pos n; currency = "UZS" }

subtract_money-add_money_example : subtract_money (sum_of 7) (sum_of 4) ≡ ok (sum_of 3)
unfolding add_money assert_same_currency ◌+ℤ◌
subtract_money-add_money_example =
    subtract_money-add_money (sum_of 3) (sum_of 4) (sum_of 7) (omega arith) refl

calculate_bps_ceiling_example :
    (fee : ℕ) × (calculate_bps (pos 101) (integer (pos 1000)) ≡ ok (pos fee))
    × (101 * 1000 ≤ fee * 10000)
    × (fee * 10000 < 101 * 1000 + 10000)
calculate_bps_ceiling_example = calculate_bps_ceiling 101 1000

abbrev entry_of : EntryType → LedgerEntry
entry_of side = record {
  account = "account";
  entry_type = side;
  amount_minor = pos 5;
  currency = "UZS";
}

abbrev two_entries : List LedgerEntry
two_entries = entry_of EntryType.debit ∷ entry_of EntryType.credit ∷ []

assert_balanced_ledger_iff_example :
    (assert_balanced_ledger two_entries ≡ ok tt) ↔ IsBalanced two_entries
assert_balanced_ledger_iff_example = assert_balanced_ledger_iff two_entries

abbrev paid_hundred : Payment
paid_hundred = record {
  id = 1;
  status = PaymentStatus.succeeded;
  currency = "UZS";
  paid_minor = pos 100;
  refunded_minor = pos 0;
}

abbrev request_of : ℕ → ℕ → PaymentRefund
request_of id amount = record {
  id = id;
  amount_minor = pos amount;
  status = RefundStatus.requested;
}

abbrev waiting_refunds : List PaymentRefund → RefundStore
waiting_refunds refunds = record { payment = paid_hundred; refunds = refunds; ledger = [] }

refund_job_two_example :
    ((refund_job (waiting_refunds (request_of 1 40 ∷ request_of 2 30 ∷ []))).refunds
      ≡ record (request_of 1 40) { status = RefundStatus.succeeded }
        ∷ record (request_of 2 30) { status = RefundStatus.succeeded }
        ∷ [])
    × ((refund_job (waiting_refunds (request_of 1 40 ∷ request_of 2 30 ∷ []))).ledger
        ≡ refund_transaction paid_hundred (request_of 2 30)
          ∷ refund_transaction paid_hundred (request_of 1 40)
          ∷ [])
    × ((refund_job
          (waiting_refunds (request_of 1 40 ∷ request_of 2 30 ∷ []))).payment.refunded_minor
        ≡ pos 0 +ℤ pos 30)
refund_job_two_example =
    refund_job_two (waiting_refunds (request_of 1 40 ∷ request_of 2 30 ∷ [])) (request_of 1 40)
      (request_of 2 30) refl refl refl (λ e. omega arith)

request_all-IsPaid_example :
    IsPaid
      (request_all PaymentStatus.succeeded (PaymentStatus.failed ∷ PaymentStatus.refunded ∷ []))
request_all-IsPaid_example =
    request_all-IsPaid PaymentStatus.succeeded (PaymentStatus.failed ∷ PaymentStatus.refunded ∷ [])
      (inl refl)

abbrev online_payment : ℕ → SettlementStore
online_payment amount = record {
  payment = record {
    id = 1;
    status = PaymentStatus.processing;
    method = PaymentMethod.online;
    target_type = PaymentTargetType.booking;
    currency = "UZS";
    amount_minor = pos amount;
    paid_minor = pos 0;
    booking_id = some 0;
  };
  fees = [];
  earnings = [];
  ledger = [];
  trip = new_trip two_seats;
}

mark_payment_succeeded_split_example :
    (fee : ℕ) × (net : ℕ) × (fee + net ≡ 101)
    × (101 ≤ fee * 10)
    × (fee * 10 < 101 + 10)
    × (assert_balanced_ledger
          (posted_entries (settlement_posting (online_payment 101).payment (pos fee) (pos net)))
        ≡ ok tt)
    × (mark_payment_succeeded (some 9) (online_payment 101)
        ≡ ok (
            settled_rows
              (some 9)
              (pos fee)
              (pos net)
              (transaction_of (settlement_posting (online_payment 101).payment (pos fee) (pos net))
                ∷ [])
              (online_payment 101)))
unfolding PaymentStatus-discrete transition_payment_status find_transaction
mark_payment_succeeded_split_example =
    mark_payment_succeeded_split (some 9) (online_payment 101) 101 refl refl (omega arith) refl refl
      refl

mark_payment_succeeded_zero_example :
    mark_payment_succeeded (some 9) (online_payment 0) ≡ err too_few_entries
unfolding PaymentStatus-discrete transition_payment_status find_transaction
mark_payment_succeeded_zero_example =
    mark_payment_succeeded_zero (some 9) (online_payment 0) refl refl refl refl refl
