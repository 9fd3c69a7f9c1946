-- ===== src/Payments/Payouts/Funding.antt =====
-- The amount of a payout beside the earnings that carry its id (apps/api/src/main.ts).
mod Assigning
mod Keeping
pub mod Writes
pub mod Steps
use nodex_v.Prelude.{
  ℕ, ◌==◌, ◌<◌, ◌≡◌, ◌∙◌, sym, ap, subst, refl, arith, Bool, true, false, not, ◌&&◌, List, [], ◌∷◌,
  map, keep, length, All, Bool-cases, inl, inr, ok, some, none, Option, if◌then◌else◌, leb, ltb,
}
use nodex_v.Payments.Payouts.{Earning, Payout, PayoutStore, is_of_payout, sum_net}
use nodex_v.Payments.Payouts.Payable.{DistinctIds}

-- The payout of a row is one that was made.
abbrev pub is_before : ℕ → Option ℕ → Bool
is_before n none = true
is_before n (some p) = ltb p n

abbrev pub of_payout : ℕ → Earning → Bool
of_payout p e = is_of_payout p e.payout_id

-- The amount of a payout is what its earnings come to, and it was made before.
pub record IsFunded (s : PayoutStore) : Type 0 where
  pub distinct : DistinctIds s.earnings
  pub fresh : All (λ e. e.id < s.next_id) s.earnings
  pub before : All (λ e. is_before s.next_id e.payout_id ≡ true) s.earnings
  pub funded :
      All
        (λ p. (p.id < s.next_id) × (p.gross_minor ≡ sum_net (keep (of_payout p.id) s.earnings)))
        s.payouts
