-- ===== src/Payments/Refund.antt =====
-- Refunds of one payment: packages/payments/src/index.ts (refundableAmount, assertRefundAllowed), the
-- refund route of apps/api/src/main.ts and the refund loop of the finance job in
-- apps/worker/src/main.ts. The rows are those of the one payment; an idempotency key is new.
pub mod Guard
pub mod Job
use nodex_v.Prelude.{
  ℕ, zero, suc, ◌==◌, Bool, true, false, not, List, [], ◌∷◌, ◌++◌, Option, none, some, String,
  includes, keep, Result, ok, err, ◌>>=◌, ◌>>◌, throw_if, if◌then◌else◌,
}
use nodex_v.Prelude.Int.{ℤ, pos, ◌+ℤ◌, ◌-ℤ◌, ltb_ℤ}
use nodex_v.Payments.Money.{
  PaymentError, negative_money, refunded_exceeds_paid, refund_status, refund_not_positive,
  refund_exceeds_refundable,
}
use nodex_v.Payments.Ledger.{
  FinancialTransaction, FinancialTransactionType, LedgerEntry, EntryType, refund_ledger,
}
use nodex_v.Payments.Status.{PaymentStatus, PaymentStatus-discrete, partially_refunded}

pub record Payment : Type 0 where
  pub id : ℕ
  pub status : PaymentStatus
  pub currency : String
  pub paid_minor : ℤ
  pub refunded_minor : ℤ

unfoldable pub refundable_amount : Payment → Result PaymentError ℤ
refundable_amount payment = do
  throw_if (ltb_ℤ payment.paid_minor payment.refunded_minor) refunded_exceeds_paid
  ok (payment.paid_minor -ℤ payment.refunded_minor)

unfoldable pub assert_refund_allowed : Payment → ℤ → Result PaymentError (Unit {0})
unfolding refundable_amount PaymentStatus-discrete
assert_refund_allowed payment amount_minor = do
  throw_if
      (not (
        includes PaymentStatus-discrete (PaymentStatus.succeeded ∷ partially_refunded ∷ [])
          payment.status))
      refund_status
  throw_if (not (ltb_ℤ (pos 0) amount_minor)) refund_not_positive
  refundable ← refundable_amount payment
  throw_if (ltb_ℤ refundable amount_minor) refund_exceeds_refundable

pub data RefundStatus : Type 0 where
  requested processing succeeded failed cancelled rejected partial : RefundStatus

pub record PaymentRefund : Type 0 where
  pub id : ℕ
  pub amount_minor : ℤ
  pub status : RefundStatus

-- The refunds stand in the order of their creation.
pub record RefundStore : Type 0 where
  pub payment : Payment
  pub refunds : List PaymentRefund
  pub ledger : List FinancialTransaction

-- packages/validation/src/index.ts: normalizeMinorUnit, of a `bigint`.
abbrev pub normalize_minor_unit : ℤ → Result PaymentError ℤ
normalize_minor_unit value = do throw_if (ltb_ℤ value (pos 0)) negative_money; ok value

abbrev pub requested_amount : Payment → Option ℤ → Result PaymentError ℤ
requested_amount payment none = refundable_amount payment
requested_amount payment (some amount) = normalize_minor_unit amount

-- The refund route. `id` is the new row's id, which the database makes.
unfoldable pub request_refund : RefundStore → ℕ → Option ℤ → Result PaymentError RefundStore
unfolding assert_refund_allowed
request_refund store id amount = do
  amount_minor ← requested_amount store.payment amount
  assert_refund_allowed store.payment amount_minor
  ok (record store {
    refunds =
        store.refunds ++ record { id = id; amount_minor = amount_minor; status = requested } ∷ [];
  })

abbrev pub is_requested : PaymentRefund → Bool
is_requested r = elim r.status [ requested ↦ true | _ ↦ false ]

pub succeed : ℕ → List PaymentRefund → List PaymentRefund
succeed id [] = []
succeed id (r ∷ rs) = (if r.id == id then record r { status = succeeded } else r) ∷ succeed id rs

abbrev pub refund_transaction : Payment → PaymentRefund → FinancialTransaction
refund_transaction payment refund = record {
  type = FinancialTransactionType.refund;
  reference_id = refund.id;
  currency = payment.currency;
  amount_minor = refund.amount_minor;
  idempotency_key = refund_ledger refund.id;
  entries = row "client_refunds" EntryType.debit ∷ row "provider_cash" EntryType.credit ∷ [];
}
  where
    row : String → EntryType → LedgerEntry
    row account entry_type = record {
      account = account;
      entry_type = entry_type;
      amount_minor = refund.amount_minor;
      currency = payment.currency;
    }

-- One round of the loop: `payment` is the row that `findMany` read with the refund.
unfoldable pub process_refund : Payment → PaymentRefund → RefundStore → RefundStore
process_refund payment refund store =
    let refunded = payment.refunded_minor +ℤ refund.amount_minor in
    record {
      payment = record (store.payment) {
        refunded_minor = refunded;
        status =
            if ltb_ℤ refunded payment.paid_minor
            then partially_refunded
            else PaymentStatus.refunded;
      };
      refunds = succeed refund.id store.refunds;
      ledger = refund_transaction payment refund ∷ store.ledger;
    }

unfoldable pub process_refunds : Payment → List PaymentRefund → RefundStore → RefundStore
unfolding process_refund
process_refunds payment [] store = store
process_refunds payment (r ∷ rs) store = process_refunds payment rs (process_refund payment r store)

abbrev pub take_first : ℕ → List PaymentRefund → List PaymentRefund
take_first zero rs = []
take_first (suc n) [] = []
take_first (suc n) (r ∷ rs) = r ∷ take_first n rs

-- The whole job: all the rows are read before the first round.
unfoldable pub refund_job : RefundStore → RefundStore
unfolding process_refunds
refund_job store =
    process_refunds store.payment (take_first 50 (keep is_requested store.refunds)) store
