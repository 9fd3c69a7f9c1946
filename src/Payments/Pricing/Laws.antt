-- ===== src/Payments/Pricing/Laws.antt =====
-- The rounding of calculateBps of packages/payments/src/index.ts.
use nodex_v.Prelude.{ℕ, ◌*◌, ◌+◌, ◌/◌, ◌≤◌, ◌<◌, ◌≡◌, ok, arith}
use nodex_v.Prelude.Int.{pos, ◌+ℤ◌}
use nodex_v.Payments.Pricing.{calculate_bps, integer}

-- For an amount that is not negative the fee is the least number of minor units that covers the
-- share: the exact share is at most the fee, and less than one unit below it.
pub calculate_bps_ceiling :
    (amount bps : ℕ)
    → (fee : ℕ) × (calculate_bps (pos amount) (integer (pos bps)) ≡ ok (pos fee))
      × (amount * bps ≤ fee * 10000)
      × (fee * 10000 < amount * bps + 10000)
unfolding calculate_bps ◌+ℤ◌
calculate_bps_ceiling amount bps =
    ((amount * bps + 9999) / 10000, ground arith, omega arith, omega arith)
