-- ===== src/Payments/Settlement/Nothing.antt =====
-- markPaymentSucceeded of apps/api/src/main.ts for an amount of zero.
use nodex_v.Prelude.{ℕ, ◌≡◌, refl, false, Option, none, ok, err}
use nodex_v.Prelude.Int.{pos, ◌+ℤ◌, ◌-ℤ◌}
use nodex_v.Payments.Money.{PaymentError, too_few_entries}
use nodex_v.Payments.Pricing.{PricingResult, integer, calculate_bps, calculate_pricing}
use nodex_v.Payments.Ledger.{
  find_transaction, payment_success, posted_entries, assert_balanced_ledger, ledger_post,
}
use nodex_v.Payments.Status.{PaymentStatus, transition_payment_status}
use nodex_v.Payments.Settlement.{
  PaymentRow, SettlementStore, is_paid, settlement_pricing, capped_fee, settlement_posting,
  mark_payment_succeeded,
}
use nodex_v.Payments.Settlement.Split.{pricing_of}

marked_refused :
    (driver : Option ℕ) (s : SettlementStore) (p : PricingResult) (e : PaymentError)
    → is_paid s.payment.status ≡ false
    → transition_payment_status s.payment.status PaymentStatus.succeeded
      ≡ ok PaymentStatus.succeeded
    → calculate_pricing (settlement_pricing s.payment) ≡ ok p
    → find_transaction (payment_success s.payment.id) s.ledger ≡ none
    → assert_balanced_ledger (
        posted_entries (
          settlement_posting s.payment
            (capped_fee s.payment p.fee_minor)
            (s.payment.amount_minor -ℤ capped_fee s.payment p.fee_minor)))
      ≡ err e
    → mark_payment_succeeded driver s ≡ err e
unfolding mark_payment_succeeded ledger_post
marked_refused driver s p e unpaid allowed priced new refused =
    rw (unpaid, allowed, priced, new, refused, mark_payment_succeeded, ledger_post) refl

no_fee : calculate_bps (pos 0) (integer (pos 1000)) ≡ ok (pos 0)
unfolding calculate_bps ◌+ℤ◌
no_fee = refl

nothing_posted :
    (payment : PaymentRow)
    → payment.amount_minor ≡ pos 0
    → assert_balanced_ledger (
        posted_entries (
          settlement_posting payment
            (capped_fee payment (pos 0))
            (payment.amount_minor -ℤ capped_fee payment (pos 0))))
      ≡ err too_few_entries
unfolding assert_balanced_ledger ◌-ℤ◌
nothing_posted payment a = rw a refl

-- A payment in UZS of nothing that may succeed and has no posting yet does not succeed: none of its
-- entries is posted, and the check of the ledger refuses the empty posting.
pub mark_payment_succeeded_zero :
    (driver : Option ℕ) (s : SettlementStore)
    → s.payment.currency ≡ "UZS"
    → s.payment.amount_minor ≡ pos 0
    → is_paid s.payment.status ≡ false
    → transition_payment_status s.payment.status PaymentStatus.succeeded
      ≡ ok PaymentStatus.succeeded
    → find_transaction (payment_success s.payment.id) s.ledger ≡ none
    → mark_payment_succeeded driver s ≡ err too_few_entries
mark_payment_succeeded_zero driver s c a unpaid allowed new =
    marked_refused driver s _ too_few_entries unpaid allowed (pricing_of s.payment 0 0 c a no_fee)
      new (nothing_posted s.payment a)
