-- ===== src/Payments.antt =====
-- packages/payments/src/index.ts, and the parts of the finance routes of apps/api/src/main.ts that
-- post to the ledger and request refunds.
pub mod Money
pub mod Payouts
pub mod Pricing
pub mod Ledger
pub mod Status
pub mod Refund
pub mod Settlement
