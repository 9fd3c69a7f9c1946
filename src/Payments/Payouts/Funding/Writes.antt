-- ===== src/Payments/Payouts/Funding/Writes.antt =====
-- The writes of earnings, releases, payouts and their statuses (apps/api/src/main.ts and
-- apps/worker/src/main.ts).
use nodex_v.Prelude.{
  ℕ, suc, ◌==◌, ◌<◌, ◌≡◌, ◌∙◌, sym, subst, refl, arith, true, false, List, [], ◌∷◌, map, keep, All,
  none, Option-cases, inl, inr, ok, err, value_ok, Result,
}
use nodex_v.Prelude.Int.{ℤ}
use nodex_v.Payments.Ledger.{FinancialTransaction}
use nodex_v.Payments.Money.{PaymentError}
use nodex_v.Payments.Payouts.{
  Earning, EarningStatus, Payout, PayoutStatus, PayoutStore, RequestedStatus, write_status,
  release_earning, sum_net, lock, assign, pay, mark_payout, is_selected, among, is_payable, unique,
  write_payout, create_payout, find_payout, set_payout_status, release_earnings, posted,
}
use nodex_v.Payments.Payouts.Payable.{payable_rows}
use nodex_v.Payments.Payouts.Funding.{is_before, of_payout, IsFunded}
use nodex_v.Payments.Payouts.Funding.Assigning.{
  chosen_ids, sum_net-new, sum_net-other, IsPicked-rows,
}
use nodex_v.Payments.Payouts.Funding.Keeping.{kept_ids, kept-Distinct, kept_before, kept_sum}

unfoldable pub IsPaidFor : ℕ → List Earning → Payout → Type 0
IsPaidFor n es p = (p.id < n) × (p.gross_minor ≡ sum_net (keep (of_payout p.id) es))

refunded :
    (n m : ℕ) (es es' : List Earning) (ps : List Payout)
    → n < suc m
    → ((p : ℕ) → p < n → sum_net (keep (of_payout p) es') ≡ sum_net (keep (of_payout p) es))
    → All (IsPaidFor n es) ps
    → All (IsPaidFor m es') ps
unfolding IsPaidFor
refunded n m es es' [] l f a = tt
refunded n m es es' (p ∷ ps) l f ((b, e), a) =
    ((omega (arith, l, b), e ∙ sym (f p.id b)), refunded n m es es' ps l f a)

assigned_before :
    (n : ℕ) (picked : List ℕ) (es : List Earning)
    → All (λ e. is_before n e.payout_id ≡ true) es
    → All (λ e. is_before (suc n) e.payout_id ≡ true) (map (assign n picked) es)
assigned_before n picked [] a = tt
assigned_before n picked (e ∷ es) (h, a) = (ground arith, assigned_before n picked es a)

next_fresh : (n : ℕ) (es : List Earning) → All (λ e. e.id < n) es → All (λ e. e.id < suc n) es
next_fresh n [] a = tt
next_fresh n (e ∷ es) (h, a) = (omega arith, next_fresh n es a)

write_payout-IsFunded :
    (driver : ℕ) (ids : List ℕ) (s : PayoutStore)
    → IsFunded s
    → All (λ e. among ids e.id ≡ is_payable driver ids e) s.earnings
    → IsFunded (write_payout driver ids s)
unfolding write_payout IsPaidFor
write_payout-IsFunded driver ids s v payable =
    let locked = map (lock driver ids) s.earnings in
    let distinct = kept-Distinct (lock driver ids) (λ e. ground arith) s.earnings v.distinct in
    let picked = map (λ (e : Earning). e.id) (keep (is_selected driver ids) locked) in
    let rows =
      IsPicked-rows s.next_id driver ids picked s.earnings payable
        (chosen_ids (is_selected driver ids) locked distinct) in
    record {
      distinct = kept-Distinct (assign s.next_id picked) (λ e. ground arith) locked distinct;
      fresh = next_fresh s.next_id _ (
          kept_ids (assign s.next_id picked) (λ e. ground arith) (λ i. i < s.next_id) locked
            (kept_ids (lock driver ids) (λ e. ground arith) (λ i. i < s.next_id) s.earnings
              v.fresh));
      before = assigned_before s.next_id picked locked (
          kept_before (lock driver ids) (λ e. ground arith) (λ e. ground arith) s.next_id s.earnings
            v.before);
      funded = (
        (omega arith, sym (sum_net-new s.next_id driver ids picked s.earnings v.before rows)),
        refunded s.next_id (suc s.next_id) s.earnings (map (assign s.next_id picked) locked)
            s.payouts (omega arith)
            (λ p l. sum_net-other s.next_id driver ids picked p s.earnings l rows) v.funded,
      );
    }

pub create_payout-IsFunded :
    (driver : ℕ) (ids : List ℕ) (s t : PayoutStore)
    → IsFunded s
    → create_payout driver ids s ≡ ok t
    → IsFunded t
create_payout-IsFunded driver ids s t v e =
    let (payable, written) = payable_rows driver ids s t v.distinct e in
    subst IsFunded (sym written) (write_payout-IsFunded driver (unique ids) s v payable)

marked :
    (id : ℕ) (status : PayoutStatus) (n : ℕ) (es : List Earning) (ps : List Payout)
    → All (IsPaidFor n es) ps
    → All (IsPaidFor n es) (map (mark_payout id status) ps)
unfolding IsPaidFor
marked id status n es [] a = tt
marked id status n es (p ∷ ps) (h, a) = (ground (arith, h), marked id status n es ps a)

-- A write to the earnings that keeps what the payouts are made of, and a new status of a payout.
changed-IsFunded :
    (change : Earning → Earning)
    → ((e : Earning) → (change e).id ≡ e.id)
    → ((e : Earning) → (change e).payout_id ≡ e.payout_id)
    → ((e : Earning) → (change e).net_minor ≡ e.net_minor)
    → (id : ℕ) (status : PayoutStatus) (ledger : List FinancialTransaction) (s : PayoutStore)
    → IsFunded s
    → IsFunded (record s {
      earnings = map change s.earnings;
      payouts = map (mark_payout id status) s.payouts;
      ledger = ledger;
    })
unfolding IsPaidFor
changed-IsFunded change same_id same_payout same_net id status ledger s v = record {
  distinct = kept-Distinct change same_id s.earnings v.distinct;
  fresh = kept_ids change same_id (λ i. i < s.next_id) s.earnings v.fresh;
  before = kept_before change same_payout same_net s.next_id s.earnings v.before;
  funded = marked id status s.next_id (map change s.earnings) s.payouts (
      refunded s.next_id s.next_id s.earnings (map change s.earnings) s.payouts (omega arith)
        (λ p l. kept_sum change same_payout same_net p s.earnings) v.funded);
}

marked-IsFunded :
    (id : ℕ) (status : PayoutStatus) (s : PayoutStore)
    → IsFunded s
    → IsFunded (record s { payouts = map (mark_payout id status) s.payouts })
unfolding IsPaidFor
marked-IsFunded id status s v = record {
  distinct = v.distinct;
  fresh = v.fresh;
  before = v.before;
  funded = marked id status s.next_id s.earnings s.payouts v.funded;
}

posted-IsFunded :
    (r : Result PaymentError (FinancialTransaction × List FinancialTransaction)) (id : ℕ)
    (s t : PayoutStore)
    → IsFunded s
    → posted r (record s {
      earnings = map (pay id) s.earnings;
      payouts = map (mark_payout id PayoutStatus.paid) s.payouts;
    })
      ≡ ok t
    → IsFunded t
posted-IsFunded (err x) id s t v e = absurd (ground arith)
posted-IsFunded (ok (transaction, ledger)) id s t v e = subst IsFunded (value_ok e) (
    changed-IsFunded (pay id) (λ e. ground arith) (λ e. ground arith) (λ e. ground arith) id
      PayoutStatus.paid ledger s v)

write_status-IsFunded :
    (id : ℕ) (p : Payout) (status : RequestedStatus) (s t : PayoutStore)
    → IsFunded s
    → write_status id p status s ≡ ok t
    → IsFunded t
unfolding write_status
write_status-IsFunded id p RequestedStatus.paid s t v h = posted-IsFunded _ id s t v h
write_status-IsFunded id p RequestedStatus.failed s t v h =
    subst IsFunded (value_ok h) (marked-IsFunded id PayoutStatus.failed s v)
write_status-IsFunded id p RequestedStatus.cancelled s t v h =
    subst IsFunded (value_ok h) (marked-IsFunded id PayoutStatus.cancelled s v)
write_status-IsFunded id p RequestedStatus.on_hold s t v h =
    subst IsFunded (value_ok h) (marked-IsFunded id PayoutStatus.on_hold s v)

pub set_payout_status-IsFunded :
    (id : ℕ) (status : RequestedStatus) (s t : PayoutStore)
    → IsFunded s
    → set_payout_status id status s ≡ ok t
    → IsFunded t
unfolding set_payout_status
set_payout_status-IsFunded id status s t v e = elim (Option-cases (find_payout id s.payouts)) [
  | inl n ↦ absurd (ground (arith, rw (n, set_payout_status) at e))
  | inr (p, f) ↦ write_status-IsFunded id p status s t v (rw (f, set_payout_status) at e)
]

pub release_earnings-IsFunded :
    (now : ℕ) (s : PayoutStore) → IsFunded s → IsFunded (release_earnings now s)
unfolding release_earnings IsPaidFor
release_earnings-IsFunded now s v = record {
  distinct = kept-Distinct (release_earning now) (λ e. ground arith) s.earnings v.distinct;
  fresh =
      kept_ids (release_earning now) (λ e. ground arith) (λ i. i < s.next_id) s.earnings v.fresh;
  before =
      kept_before (release_earning now) (λ e. ground arith) (λ e. ground arith) s.next_id s.earnings
        v.before;
  funded =
      refunded s.next_id s.next_id s.earnings (map (release_earning now) s.earnings) s.payouts
        (omega arith)
        (λ p l. kept_sum (release_earning now) (λ e. ground arith) (λ e. ground arith) p s.earnings)
        v.funded;
}

-- What markPaymentSucceeded adds for a driver.
unfoldable pub record_earning : ℕ → ℤ → ℕ → PayoutStore → PayoutStore
record_earning driver net available_at s = record s {
  earnings =
      record {
        id = s.next_id;
        driver_profile_id = driver;
        payout_id = none;
        status = EarningStatus.pending;
        net_minor = net;
        available_at = available_at;
      }
      ∷ s.earnings;
  next_id = suc s.next_id;
}

others_before :
    (n : ℕ) (es : List Earning) → All (λ e. e.id < n) es → All (λ e. (e.id == n) ≡ false) es
others_before n [] a = tt
others_before n (e ∷ es) (h, a) = (ground arith, others_before n es a)

later_before :
    (n : ℕ) (es : List Earning)
    → All (λ e. is_before n e.payout_id ≡ true) es
    → All (λ e. is_before (suc n) e.payout_id ≡ true) es
later_before n [] a = tt
later_before n (e ∷ es) (h, a) = (ground arith, later_before n es a)

pub record_earning-IsFunded :
    (driver : ℕ) (net : ℤ) (at : ℕ) (s : PayoutStore)
    → IsFunded s
    → IsFunded (record_earning driver net at s)
unfolding record_earning IsPaidFor
record_earning-IsFunded driver net at s v = record {
  distinct = (others_before s.next_id s.earnings v.fresh, v.distinct);
  fresh = (omega arith, next_fresh s.next_id s.earnings v.fresh);
  before = (refl, later_before s.next_id s.earnings v.before);
  funded =
      refunded s.next_id (suc s.next_id) s.earnings (record_earning driver net at s).earnings
        s.payouts (omega arith) (λ p l. refl) v.funded;
}
