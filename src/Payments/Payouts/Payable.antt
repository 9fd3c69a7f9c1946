-- ===== src/Payments/Payouts/Payable.antt =====
-- The count that guards POST /admin/finance/payouts of apps/api/src/main.ts.
use nodex_v.Prelude.{
  ℕ, suc, ◌==◌, ◌≤◌, ◌≡◌, ◌∙◌, sym, refl, arith, Bool, true, false, not, List, [], ◌∷◌, keep,
  length, All, Bool-cases, inl, inr, length-keep-le, ok, throw_if-ok, value_ok,
}
use nodex_v.Payments.Payouts.{
  Earning, PayoutStore, among, is_payable, unique, write_payout, create_payout,
  duplicate_earning_selected, earning_not_payable,
}

abbrev pub DistinctIds : List Earning → Type 0
DistinctIds [] = Unit
DistinctIds (e ∷ es) = All (λ x. (x.id == e.id) ≡ false) es × DistinctIds es

abbrev without : ℕ → List ℕ → List ℕ
without k ids = keep (λ i. not (i == k)) ids

without-length :
    (k : ℕ) (ids : List ℕ) → among ids k ≡ true → suc (length (without k ids)) ≤ length ids
without-length k [] a = absurd (ground arith)
without-length k (i ∷ ids) a = elim (Bool-cases (i == k)) [
  | inl h ↦ ground (arith, length-keep-le (λ j. not (j == k)) ids)
  | inr h ↦ ground (arith, without-length k ids)
]

among-without : (k y : ℕ) (ids : List ℕ) → (y == k) ≡ false → among (without k ids) y ≡ among ids y
among-without k y [] n = refl
among-without k y (i ∷ ids) n = elim (Bool-cases (i == k)) [
  | inl h ↦ ground (arith, among-without k y ids n)
  | inr h ↦ ground (arith, among-without k y ids n)
]

keep-without :
    (k : ℕ) (ids : List ℕ) (es : List Earning)
    → All (λ x. (x.id == k) ≡ false) es
    → length (keep (λ e. among ids e.id) es) ≡ length (keep (λ e. among (without k ids) e.id) es)
keep-without k ids [] a = refl
keep-without k ids (e ∷ es) (n, a) =
    ground (arith, among-without k e.id ids n, keep-without k ids es a)

-- Rows with different ids are no more than the ids.
pigeonhole :
    (ids : List ℕ) (es : List Earning)
    → DistinctIds es
    → length (keep (λ e. among ids e.id) es) ≤ length ids
pigeonhole ids [] d = omega arith
pigeonhole ids (e ∷ es) (a, d) = elim (Bool-cases (among ids e.id)) [
  | inl h ↦ ground (
    arith,
    keep-without e.id ids es a,
    pigeonhole (without e.id ids) es d,
    without-length e.id ids h,
  )
  | inr h ↦ ground (arith, pigeonhole ids es d)
]

weaker-length :
    (strong weak : Earning → Bool) (es : List Earning)
    → ((e : Earning) → strong e ≡ true → weak e ≡ true)
    → length (keep strong es) ≤ length (keep weak es)
weaker-length strong weak [] i = omega arith
weaker-length strong weak (e ∷ es) i = ground (arith, i e, weaker-length strong weak es i)

-- A test that passes as many as a weaker one passes the same.
same_tests :
    (strong weak : Earning → Bool) (es : List Earning)
    → ((e : Earning) → strong e ≡ true → weak e ≡ true)
    → length (keep weak es) ≤ length (keep strong es)
    → All (λ e. weak e ≡ strong e) es
same_tests strong weak [] i l = tt
same_tests strong weak (e ∷ es) i l = elim (Bool-cases (strong e)) [
  | inl s ↦ (ground (arith, i e s), same_tests strong weak es i (ground (arith, i e s)))
  | inr s ↦ elim (Bool-cases (weak e)) [
    | inl w ↦ absurd (ground (arith, weaker-length strong weak es i))
    | inr w ↦ (ground arith, same_tests strong weak es i (ground arith))
  ]
]

kept_payable :
    (driver : ℕ) (ids : List ℕ) (es : List Earning)
    → All (λ e. among ids e.id ≡ is_payable driver ids e) es
    → All (λ e. is_payable driver ids e ≡ true) (keep (λ e. among ids e.id) es)
kept_payable driver ids [] a = tt
kept_payable driver ids (e ∷ es) (h, a) = elim (Bool-cases (among ids e.id)) [
  | inl m ↦ rw (m, keep) (sym h ∙ m, kept_payable driver ids es a)
  | inr m ↦ rw (m, keep) (kept_payable driver ids es a)
]

-- What a success of the route says of the rows.
pub payable_rows :
    (driver : ℕ) (ids : List ℕ) (s t : PayoutStore)
    → DistinctIds s.earnings
    → create_payout driver ids s ≡ ok t
    → All (λ e. among (unique ids) e.id ≡ is_payable driver (unique ids) e) s.earnings
      × (t ≡ write_payout driver (unique ids) s)
unfolding create_payout
payable_rows driver ids s t d e =
    let (a, e') =
      throw_if-ok (not (length (unique ids) == length ids)) duplicate_earning_selected _ e in
    let (b, e2) =
      throw_if-ok
        (not (length (keep (is_payable driver (unique ids)) s.earnings) == length (unique ids)))
        earning_not_payable _ e' in
    (
      same_tests (is_payable driver (unique ids)) (λ x. among (unique ids) x.id) s.earnings
          (λ x h. ground arith) (ground (arith, pigeonhole (unique ids) s.earnings d)),
      sym (value_ok e2),
    )

-- A payout is made only of earnings that may be paid out: of the earnings with the ids that were asked
-- for, each is this driver's, AVAILABLE, and in no payout yet. The ids of the rows differ.
pub create_payout-payable :
    (driver : ℕ) (ids : List ℕ) (s t : PayoutStore)
    → DistinctIds s.earnings
    → create_payout driver ids s ≡ ok t
    → All
        (λ e. is_payable driver (unique ids) e ≡ true)
        (keep (λ e. among (unique ids) e.id) s.earnings)
create_payout-payable driver ids s t d e =
    kept_payable driver (unique ids) s.earnings (payable_rows driver ids s t d e).0
