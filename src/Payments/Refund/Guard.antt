-- ===== src/Payments/Refund/Guard.antt =====
-- When a refund may be requested.
use nodex_v.Prelude.{◌≡◌, ◌⊎◌, ◌↔◌, ok, arith}
use nodex_v.Prelude.Int.{ℤ, pos, ◌+ℤ◌, ◌≤ℤ◌, +ℤ_parts, -ℤ_parts}
use nodex_v.Payments.Status.{PaymentStatus, partially_refunded}
use nodex_v.Payments.Refund.{Payment, assert_refund_allowed}

-- Part of the paid amount of a paid payment, beyond what was refunded.
abbrev pub IsRefundable : Payment → ℤ → Type 0
IsRefundable p amount =
    ((p.status ≡ PaymentStatus.succeeded) ⊎ (p.status ≡ partially_refunded))
    × (pos 1 ≤ℤ amount)
    × (p.refunded_minor +ℤ amount ≤ℤ p.paid_minor)

-- A refund is allowed exactly if the payment succeeded or was refunded in part, the amount is
-- positive, and with what was refunded before it is at most what was paid; the code refuses no other
-- request, and accepts no other.
pub assert_refund_allowed_iff :
    (p : Payment) (amount : ℤ) → (assert_refund_allowed p amount ≡ ok tt) ↔ IsRefundable p amount
unfolding assert_refund_allowed
assert_refund_allowed_iff p amount = (
  (λ h. ground (arith, +ℤ_parts p.refunded_minor amount, -ℤ_parts p.paid_minor p.refunded_minor)),
  (λ h. ground (arith, +ℤ_parts p.refunded_minor amount, -ℤ_parts p.paid_minor p.refunded_minor)),
)
