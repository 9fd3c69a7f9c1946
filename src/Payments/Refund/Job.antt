-- ===== src/Payments/Refund/Job.antt =====
-- What the finance job makes of the requests.
use nodex_v.Prelude.{◌≡◌, ◌≢◌, [], ◌∷◌, arith, if◌then◌else◌}
use nodex_v.Prelude.Int.{◌+ℤ◌, ◌≤ℤ◌, ltb_ℤ}
use nodex_v.Payments.Status.{PaymentStatus, partially_refunded}
use nodex_v.Payments.Refund.{
  PaymentRefund, RefundStore, requested, succeeded, succeed, refund_transaction, refund_job,
}
use nodex_v.Payments.Refund.Guard.{IsRefundable}

-- The only refund of a payment, if it waits and is within what is left, is paid out: what was refunded
-- grows by its amount, stays within what was paid, the payment counts as refunded exactly if all of
-- it was, and the ledger gets the transaction of the request.
pub refund_job_one :
    (s : RefundStore) (r : PaymentRefund)
    → s.refunds ≡ r ∷ []
    → r.status ≡ requested
    → IsRefundable s.payment r.amount_minor
    → ((refund_job s).payment.refunded_minor ≡ s.payment.refunded_minor +ℤ r.amount_minor)
      × ((refund_job s).payment.refunded_minor ≤ℤ s.payment.paid_minor)
      × ((refund_job s).payment.status ≡ (
          if ltb_ℤ (s.payment.refunded_minor +ℤ r.amount_minor) s.payment.paid_minor
          then partially_refunded
          else PaymentStatus.refunded))
      × ((refund_job s).refunds ≡ record r { status = succeeded } ∷ [])
      × ((refund_job s).ledger ≡ refund_transaction s.payment r ∷ s.ledger)
unfolding refund_job succeed
refund_job_one s r e w h = ground arith

-- Two requests of one payment with different ids, its only refunds, that wait in the same run are both paid out and posted, each for its
-- own amount, but the payment counts the second one alone: the first is forgotten.
pub refund_job_two :
    (s : RefundStore) (r q : PaymentRefund)
    → s.refunds ≡ r ∷ q ∷ []
    → r.status ≡ requested
    → q.status ≡ requested
    → r.id ≢ q.id
    → ((refund_job s).refunds
        ≡ record r { status = succeeded } ∷ record q { status = succeeded } ∷ [])
      × ((refund_job s).ledger
          ≡ refund_transaction s.payment q ∷ refund_transaction s.payment r ∷ s.ledger)
      × ((refund_job s).payment.refunded_minor ≡ s.payment.refunded_minor +ℤ q.amount_minor)
unfolding refund_job succeed
refund_job_two s r q e w w' d = ground arith
