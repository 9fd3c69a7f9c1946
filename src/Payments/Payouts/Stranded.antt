-- ===== src/Payments/Payouts/Stranded.antt =====
-- What becomes of the earnings of a payout (apps/api/src/main.ts).
use nodex_v.Prelude.{
  ℕ, ◌==◌, ==_iff, ◌≡◌, sym, ap, subst, refl, arith, Bool, true, false, ◌&&◌, List, [], ◌∷◌, map,
  keep, any, All, Option-cases, Bool-cases, inl, inr, ok, err, value_ok, ◌⊎◌, Result,
}
use nodex_v.Payments.Money.{PaymentError}
use nodex_v.Payments.Ledger.{FinancialTransaction}
use nodex_v.Payments.Payouts.Payable.{payable_rows}
use nodex_v.Payments.Payouts.{
  Earning, Payout, PayoutStore, RequestedStatus, find_payout, write_status, set_payout_status,
  is_of_payout, PayoutError, create_payout, write_payout, among, unique, is_payable, is_selected,
  lock, assign, pay, posted, release_earning, release_earnings,
}
use nodex_v.Payments.Payouts.Funding.{IsFunded}
use nodex_v.Payments.Payouts.Funding.Writes.{record_earning}
use nodex_v.Payments.Payouts.Funding.Steps.{
  PayoutStep, earn, release, create, set_status, PayoutReach, here, next, no_payouts, Step-IsFunded,
  Reach-IsFunded, no_payouts-IsFunded,
}

Result-cases : {E A : Type 0} (m : Result E A) → ((a : A) × (m ≡ ok a)) ⊎ ((x : E) × (m ≡ err x))
Result-cases (ok a) = inl (a, refl)
Result-cases (err x) = inr (x, refl)

module _ (p : ℕ) (ids : List ℕ) where
  abbrev is_asked : Earning → Bool
  is_asked e = among ids e.id && is_of_payout p e.payout_id

  -- Some earning with one of the ids is in the payout.
  abbrev pub has_asked : List Earning → Bool
  has_asked es = any is_asked es

  map-has_asked :
      (change : Earning → Earning)
      → ((e : Earning) → (change e).id ≡ e.id)
      → ((e : Earning) → (change e).payout_id ≡ e.payout_id)
      → (es : List Earning) → has_asked es ≡ true
      → has_asked (map change es) ≡ true
  map-has_asked change same_id same_payout [] h = h
  map-has_asked change same_id same_payout (e ∷ es) h =
      ground (arith, same_id e, same_payout e, map-has_asked change same_id same_payout es)

  picked-among :
      (driver : ℕ) (wanted : List ℕ) (es : List Earning) (x : ℕ)
      → among (map (λ e. e.id) (keep (is_selected driver wanted) es)) x ≡ true
      → among wanted x ≡ true
  picked-among driver wanted [] x h = absurd (ground arith)
  picked-among driver wanted (e ∷ es) x h = elim (Bool-cases (is_selected driver wanted e)) [
    | inr n ↦ picked-among driver wanted es x (ground arith)
    | inl s ↦ elim (Bool-cases (e.id == x)) [
      | inl own ↦ subst (λ i. among wanted i ≡ true) ((==_iff e.id x).0 own) (ground arith)
      | inr other ↦ picked-among driver wanted es x (ground arith)
    ]
  ]

  assigned-has_asked :
      (n driver : ℕ) (wanted picked : List ℕ)
      → ((x : ℕ) → among picked x ≡ true → among wanted x ≡ true)
      → (es : List Earning) → All (λ e. among wanted e.id ≡ is_payable driver wanted e) es
      → has_asked es ≡ true
      → has_asked (map (assign n picked) (map (lock driver wanted) es)) ≡ true
  assigned-has_asked n driver wanted picked i [] a h = h
  assigned-has_asked n driver wanted picked i (e ∷ es) (g, a) h =
      ground (arith, i e.id, assigned-has_asked n driver wanted picked i es a)

  created-has_asked :
      (driver : ℕ) (wanted : List ℕ) (s t : PayoutStore)
      → IsFunded s
      → create_payout driver wanted s ≡ ok t
      → has_asked s.earnings ≡ true
      → has_asked t.earnings ≡ true
  unfolding write_payout
  created-has_asked driver wanted s t v e h =
      let (payable, written) = payable_rows driver wanted s t v.distinct e in
      subst (λ u. has_asked u.earnings ≡ true) (sym written)
        (assigned-has_asked s.next_id driver (unique wanted) _
          (picked-among driver (unique wanted) (map (lock driver (unique wanted)) s.earnings))
          s.earnings payable h)

  posted-has_asked :
      (r : Result PaymentError (FinancialTransaction × List FinancialTransaction))
      (s t : PayoutStore)
      → posted r s ≡ ok t
      → t.earnings ≡ s.earnings
  posted-has_asked (err x) s t e = absurd (ground arith)
  posted-has_asked (ok (transaction, ledger)) s t e = ap (λ x. x.earnings) (sym (value_ok e))

  status-has_asked :
      (id : ℕ) (q : Payout) (status : RequestedStatus) (s t : PayoutStore)
      → write_status id q status s ≡ ok t
      → has_asked s.earnings ≡ true
      → has_asked t.earnings ≡ true
  unfolding write_status
  status-has_asked id q RequestedStatus.paid s t e h =
      subst (λ es. has_asked es ≡ true) (sym (posted-has_asked _ _ t e))
        (map-has_asked (pay id) (λ x. ground arith) (λ x. ground arith) s.earnings h)
  status-has_asked id q RequestedStatus.failed s t e h =
      subst (λ u. has_asked u.earnings ≡ true) (value_ok e) h
  status-has_asked id q RequestedStatus.cancelled s t e h =
      subst (λ u. has_asked u.earnings ≡ true) (value_ok e) h
  status-has_asked id q RequestedStatus.on_hold s t e h =
      subst (λ u. has_asked u.earnings ≡ true) (value_ok e) h

  Step-has_asked :
      {s t : PayoutStore}
      → IsFunded s
      → PayoutStep s t
      → has_asked s.earnings ≡ true
      → has_asked t.earnings ≡ true
  unfolding record_earning release_earnings set_payout_status
  Step-has_asked {s} {t} v (earn driver net at e) h =
      subst (λ u. has_asked u.earnings ≡ true) (sym e) (ground arith)
  Step-has_asked {s} {t} v (release now e) h =
      subst (λ u. has_asked u.earnings ≡ true) (sym e)
        (map-has_asked (release_earning now) (λ x. ground arith) (λ x. ground arith) s.earnings h)
  Step-has_asked {s} {t} v (create driver wanted e) h = created-has_asked driver wanted s t v e h
  Step-has_asked {s} {t} v (set_status id status e) h =
      elim (Option-cases (find_payout id s.payouts)) [
        | inl n ↦ absurd (ground (arith, rw (n, set_payout_status) at e))
        | inr (q, f) ↦ status-has_asked id q status s t (rw (f, set_payout_status) at e) h
      ]

  Reach-has_asked :
      {s t : PayoutStore}
      → IsFunded s
      → PayoutReach s t
      → has_asked s.earnings ≡ true
      → IsFunded t × (has_asked t.earnings ≡ true)
  Reach-has_asked v here h = (v, h)
  Reach-has_asked v (next r st) h =
      let (w, h') = Reach-has_asked v r h in (Step-IsFunded w st, Step-has_asked w st h')

taken_again :
    (p driver : ℕ) (ids : List ℕ) (es : List Earning)
    → All (λ e. among ids e.id ≡ is_payable driver ids e) es
    → has_asked p ids es ≡ false
taken_again p driver ids [] a = refl
taken_again p driver ids (e ∷ es) (h, a) = ground (arith, taken_again p driver ids es a)

-- A payout never gives its earnings back: from the first earning on, once an earning is in a payout,
-- then whatever happens afterwards, also if the payout is set to FAILED or CANCELLED, a request for a
-- new payout with the earning, alone or with others, is refused.
pub PayoutReach-stranded :
    (p driver : ℕ) (ids : List ℕ) (s t : PayoutStore)
    → PayoutReach no_payouts s
    → has_asked p (unique ids) s.earnings ≡ true
    → PayoutReach s t
    → (x : PayoutError) × (create_payout driver ids t ≡ err x)
PayoutReach-stranded p driver ids s t made asked reached =
    let (v, still) =
      Reach-has_asked p (unique ids) (Reach-IsFunded no_payouts-IsFunded made) reached asked in
    elim (Result-cases (create_payout driver ids t)) [
      | inr refused ↦ refused
      | inl (u, paid) ↦
          let free =
            taken_again p driver (unique ids) t.earnings
              (payable_rows driver ids t u v.distinct paid).0 in
          absurd (ground (arith, free, still))
    ]
