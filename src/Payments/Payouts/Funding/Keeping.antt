-- ===== src/Payments/Payouts/Funding/Keeping.antt =====
-- Writes that leave the ids, the payouts and the net amounts of the earnings (apps/api/src/main.ts).
use nodex_v.Prelude.{
  ℕ, ◌==◌, ◌≡◌, ◌∙◌, sym, ap, subst, refl, true, false, List, [], ◌∷◌, map, keep, All,
}
use nodex_v.Payments.Payouts.{Earning, sum_net, is_of_payout}
use nodex_v.Payments.Payouts.Payable.{DistinctIds}
use nodex_v.Payments.Payouts.Funding.{is_before, of_payout}
use nodex_v.Payments.Payouts.Funding.Assigning.{sum_net-keep, same_sums}

module _ (change : Earning → Earning) (same_id : (e : Earning) → (change e).id ≡ e.id) where
  pub kept_ids :
      (P : ℕ → Type 0) (es : List Earning)
      → All (λ e. P e.id) es
      → All (λ e. P e.id) (map change es)
  kept_ids P [] a = tt
  kept_ids P (e ∷ es) (p, a) = (subst P (sym (same_id e)) p, kept_ids P es a)

  pub kept-Distinct : (es : List Earning) → DistinctIds es → DistinctIds (map change es)
  kept-Distinct [] d = tt
  kept-Distinct (e ∷ es) (a, d) = (
    subst (λ k. All (λ x. (x.id == k) ≡ false) (map change es)) (sym (same_id e))
        (kept_ids (λ i. (i == e.id) ≡ false) es a),
    kept-Distinct es d,
  )

module _ (change : Earning → Earning)
    (same_payout : (e : Earning) → (change e).payout_id ≡ e.payout_id)
    (same_net : (e : Earning) → (change e).net_minor ≡ e.net_minor) where
  pub kept_before :
      (n : ℕ) (es : List Earning)
      → All (λ e. is_before n e.payout_id ≡ true) es
      → All (λ e. is_before n e.payout_id ≡ true) (map change es)
  kept_before n [] a = tt
  kept_before n (e ∷ es) (h, a) = (ap (is_before n) (same_payout e) ∙ h, kept_before n es a)

  pub kept_sum :
      (p : ℕ) (es : List Earning)
      → sum_net (keep (of_payout p) (map change es)) ≡ sum_net (keep (of_payout p) es)
  kept_sum p [] = refl
  kept_sum p (e ∷ es) =
      sum_net-keep (of_payout p) (change e) (map change es)
      ∙ same_sums (ap (is_of_payout p) (same_payout e)) (same_net e) (kept_sum p es)
      ∙ sym (sum_net-keep (of_payout p) e es)
