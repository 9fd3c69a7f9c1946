-- ===== src/Payments/Payouts/Funding/Steps.antt =====
-- Sequences of earnings, releases, payouts and their statuses (apps/api/src/main.ts and
-- apps/worker/src/main.ts).
use nodex_v.Prelude.{ℕ, ◌≡◌, sym, subst, List, [], ◌∷◌, keep, All, ok}
use nodex_v.Prelude.Int.{ℤ}
use nodex_v.Payments.Payouts.{
  Earning, Payout, PayoutStore, RequestedStatus, sum_net, create_payout, set_payout_status,
  release_earnings,
}
use nodex_v.Payments.Payouts.Funding.{of_payout, IsFunded}
use nodex_v.Payments.Payouts.Funding.Writes.{
  IsPaidFor, record_earning, create_payout-IsFunded, set_payout_status-IsFunded,
  release_earnings-IsFunded, record_earning-IsFunded,
}

-- One operation, with any arguments.
pub data PayoutStep (s t : PayoutStore) : Type 0 where
  earn : (driver : ℕ) (net : ℤ) (at : ℕ) → t ≡ record_earning driver net at s → PayoutStep s t
  release : (now : ℕ) → t ≡ release_earnings now s → PayoutStep s t
  create : (driver : ℕ) (ids : List ℕ) → create_payout driver ids s ≡ ok t → PayoutStep s t
  set_status :
      (id : ℕ) (status : RequestedStatus) → set_payout_status id status s ≡ ok t → PayoutStep s t

pub data PayoutReach (s : PayoutStore) : PayoutStore → Type 0 where
  here : PayoutReach s s
  next : {t u : PayoutStore} → PayoutReach s t → PayoutStep t u → PayoutReach s u

pub Step-IsFunded : {s t : PayoutStore} → IsFunded s → PayoutStep s t → IsFunded t
Step-IsFunded {s} {t} v (earn driver net at e) =
    subst IsFunded (sym e) (record_earning-IsFunded driver net at s v)
Step-IsFunded {s} {t} v (release now e) = subst IsFunded (sym e) (release_earnings-IsFunded now s v)
Step-IsFunded {s} {t} v (create driver ids e) = create_payout-IsFunded driver ids s t v e
Step-IsFunded {s} {t} v (set_status id status e) = set_payout_status-IsFunded id status s t v e

pub Reach-IsFunded : {s t : PayoutStore} → IsFunded s → PayoutReach s t → IsFunded t
Reach-IsFunded v here = v
Reach-IsFunded v (next r st) = Step-IsFunded (Reach-IsFunded v r) st

-- Before the first earning.
unfoldable pub no_payouts : PayoutStore
no_payouts = record { earnings = []; payouts = []; ledger = []; next_id = 0 }

pub no_payouts-IsFunded : IsFunded no_payouts
unfolding no_payouts
no_payouts-IsFunded = record { distinct = tt; fresh = tt; before = tt; funded = tt }

amounts :
    (n : ℕ) (es : List Earning) (ps : List Payout)
    → All (IsPaidFor n es) ps
    → All (λ p. p.gross_minor ≡ sum_net (keep (of_payout p.id) es)) ps
unfolding IsPaidFor
amounts n es [] a = tt
amounts n es (p ∷ ps) (h, a) = (h.1, amounts n es ps a)

-- Whatever earnings come in and are released, and whatever payouts are made and set to whatever status,
-- in any order: the amount of each payout is the sum of the net amounts of the earnings that carry its
-- id. So no earning counts for two payouts.
pub PayoutReach-funded :
    (s : PayoutStore)
    → PayoutReach no_payouts s
    → All (λ p. p.gross_minor ≡ sum_net (keep (of_payout p.id) s.earnings)) s.payouts
unfolding IsPaidFor
PayoutReach-funded s r =
    amounts s.next_id s.earnings s.payouts (Reach-IsFunded no_payouts-IsFunded r).funded
