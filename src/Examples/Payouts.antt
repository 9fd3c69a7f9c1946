-- ===== src/Examples/Payouts.antt =====
-- A driver earns, is paid out, and the payout fails.
use nodex_v.Prelude.{ℕ, ◌≡◌, refl, true, [], ◌∷◌, none, keep, All, ok, err, List}
use nodex_v.Prelude.Int.{pos, ◌+ℤ◌}
use nodex_v.Payments.Payouts.{
  Earning, EarningStatus, PayoutStatus, PayoutStore, PayoutError, RequestedStatus, among, unique,
  is_payable, sum_net, create_payout, write_payout, set_payout_status, find_payout, write_status,
  release_earnings,
}
use nodex_v.Payments.Payouts.Payable.{create_payout-payable}
use nodex_v.Payments.Payouts.Stranded.{PayoutReach-stranded}
use nodex_v.Payments.Payouts.Funding.{of_payout}
use nodex_v.Payments.Payouts.Funding.Writes.{record_earning}
use nodex_v.Payments.Payouts.Funding.Steps.{
  no_payouts, PayoutReach, here, next, earn, release, create, set_status, PayoutReach-funded,
}

abbrev earning : ℕ → EarningStatus → ℕ → Earning
earning id status net = record {
  id = id;
  driver_profile_id = 41;
  payout_id = none;
  status = status;
  net_minor = pos net;
  available_at = 1000;
}

abbrev earned : PayoutStore
earned = record {
  earnings = earning 1 EarningStatus.available 700 ∷ earning 0 EarningStatus.available 900 ∷ [];
  payouts = [];
  ledger = [];
  next_id = 2;
}

abbrev wanted : List ℕ
wanted = 0 ∷ 1 ∷ []

abbrev prepared : PayoutStore
prepared = write_payout 41 wanted earned

prepared_once : create_payout 41 wanted earned ≡ ok prepared
unfolding create_payout unique write_payout sum_net
prepared_once = refl

create_payout-payable_example :
    All
      (λ e. is_payable 41 (unique wanted) e ≡ true)
      (keep (λ e. among (unique wanted) e.id) earned.earnings)
create_payout-payable_example =
    create_payout-payable 41 wanted earned prepared ((refl, tt), (tt, tt)) prepared_once

abbrev collapsed : PayoutStore
collapsed = record prepared {
  payouts =
      record {
        id = 2;
        driver_profile_id = 41;
        status = PayoutStatus.failed;
        gross_minor = pos 1600;
        items = (1, pos 700) ∷ (0, pos 900) ∷ [];
      }
      ∷ [];
}

collapsed_once : set_payout_status 2 RequestedStatus.failed prepared ≡ ok collapsed
unfolding set_payout_status find_payout write_status write_payout sum_net ◌+ℤ◌
collapsed_once = refl

paid_out : PayoutReach no_payouts collapsed
unfolding no_payouts record_earning release_earnings
paid_out =
    next
      (next
        (next (next (next here (earn 41 (pos 900) 1000 refl)) (earn 41 (pos 700) 1000 refl))
          (release 2000 refl))
        (create 41 wanted prepared_once))
      (set_status 2 RequestedStatus.failed collapsed_once)

PayoutReach-funded_example :
    All (λ p. p.gross_minor ≡ sum_net (keep (of_payout p.id) collapsed.earnings)) collapsed.payouts
PayoutReach-funded_example = PayoutReach-funded collapsed paid_out

paid_in : PayoutReach no_payouts prepared
unfolding no_payouts record_earning release_earnings
paid_in =
    next
      (next (next (next here (earn 41 (pos 900) 1000 refl)) (earn 41 (pos 700) 1000 refl))
        (release 2000 refl))
      (create 41 wanted prepared_once)

PayoutReach-stranded_example : (x : PayoutError) × (create_payout 41 (1 ∷ []) collapsed ≡ err x)
unfolding write_payout unique
PayoutReach-stranded_example =
    PayoutReach-stranded 2 41 (1 ∷ []) prepared collapsed paid_in refl
      (next here (set_status 2 RequestedStatus.failed collapsed_once))
