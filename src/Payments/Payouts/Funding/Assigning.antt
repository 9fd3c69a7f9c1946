-- ===== src/Payments/Payouts/Funding/Assigning.antt =====
-- The rows that POST /admin/finance/payouts of apps/api/src/main.ts writes the payout's id to.
use nodex_v.Prelude.{
  ℕ, ◌==◌, ◌<◌, ◌≡◌, ◌∙◌, sym, refl, arith, Bool, true, false, ◌&&◌, List, [], ◌∷◌, map, any, keep,
  All, Bool-cases, inl, inr,
}
use nodex_v.Prelude.Int.{ℤ, ◌+ℤ◌}
use nodex_v.Payments.Payouts.{Earning, among, is_selected, is_payable, lock, sum_net, assign}
use nodex_v.Payments.Payouts.Payable.{DistinctIds}
use nodex_v.Payments.Payouts.Funding.{is_before, of_payout}

-- The ids of the rows that pass a test.
among-keep :
    (test : Earning → Bool) (k : ℕ) (es : List Earning)
    → among (map (λ e. e.id) (keep test es)) k ≡ any (λ e. test e && e.id == k) es
among-keep test k [] = refl
among-keep test k (e ∷ es) = ground (arith, among-keep test k es)

none_with :
    (test : Earning → Bool) (k : ℕ) (es : List Earning)
    → All (λ x. (x.id == k) ≡ false) es
    → any (λ e. test e && e.id == k) es ≡ false
none_with test k [] a = refl
none_with test k (e ∷ es) (h, a) = ground (arith, none_with test k es a)

one_with :
    (test : Earning → Bool) (x : Earning) (es : List Earning) (later : List Earning)
    → All (λ y. (y.id == x.id) ≡ false) later
    → All (λ y. any (λ e. test e && e.id == y.id) es ≡ test y) later
    → All (λ y. any (λ e. test e && e.id == y.id) (x ∷ es) ≡ test y) later
one_with test x es [] a b = tt
one_with test x es (y ∷ ys) (n, a) (h, b) = (ground arith, one_with test x es ys a b)

-- With different ids, the ids of the rows that pass a test are those of the rows that pass it.
any_own :
    (test : Earning → Bool) (es : List Earning)
    → DistinctIds es
    → All (λ y. any (λ e. test e && e.id == y.id) es ≡ test y) es
any_own test [] d = tt
any_own test (e ∷ es) (a, d) =
    (ground (arith, none_with test e.id es a), one_with test e es es a (any_own test es d))

own_ids :
    (test : Earning → Bool) (rows es : List Earning)
    → All (λ y. any (λ e. test e && e.id == y.id) rows ≡ test y) es
    → All (λ y. among (map (λ e. e.id) (keep test rows)) y.id ≡ test y) es
own_ids test rows [] a = tt
own_ids test rows (e ∷ es) (h, a) = (among-keep test e.id rows ∙ h, own_ids test rows es a)

pub chosen_ids :
    (test : Earning → Bool) (es : List Earning)
    → DistinctIds es
    → All (λ y. among (map (λ e. e.id) (keep test es)) y.id ≡ test y) es
chosen_ids test es d = own_ids test es es (any_own test es d)

pub add_if : Bool → ℤ → ℤ → ℤ
add_if true x sum = x +ℤ sum
add_if false x sum = sum

pub sum_net-keep :
    (test : Earning → Bool) (e : Earning) (es : List Earning)
    → sum_net (keep test (e ∷ es)) ≡ add_if (test e) e.net_minor (sum_net (keep test es))
unfolding sum_net add_if
sum_net-keep test e es = elim (Bool-cases (test e)) [
  | inl h ↦ rw (h, keep) refl
  | inr h ↦ rw (h, keep) refl
]

pub same_sums :
    {test test' : Bool} {x x' sum sum' : ℤ}
    → test ≡ test'
    → x ≡ x'
    → sum ≡ sum'
    → add_if test x sum ≡ add_if test' x' sum'
same_sums t x s = cc

module _ (n driver : ℕ) (ids : List ℕ) where
  -- The row is locked, and picked, just if it may be paid out; one that may not is not picked.
  abbrev pub IsPicked : List ℕ → Earning → Type 0
  IsPicked picked e =
      (among ids e.id ≡ is_payable driver ids e) × (among picked e.id ≡ is_selected driver ids e)

  abbrev written : List ℕ → Earning → Earning
  written picked e = assign n picked (lock driver ids e)

  locked_net :
      (picked : List ℕ) (e : Earning)
      → (assign n picked (lock driver ids e)).net_minor ≡ (lock driver ids e).net_minor
  locked_net picked e = ground arith

  lock_net : (e : Earning) → (lock driver ids e).net_minor ≡ e.net_minor
  lock_net e = ground arith

  new_test :
      (picked : List ℕ) (e : Earning)
      → is_before n e.payout_id ≡ true
      → IsPicked picked e
      → of_payout n (assign n picked (lock driver ids e))
        ≡ is_selected driver ids (lock driver ids e)
  new_test picked e f (h, g) = ground arith

  other_test :
      (picked : List ℕ) (p : ℕ) (e : Earning)
      → p < n
      → IsPicked picked e
      → of_payout p (assign n picked (lock driver ids e)) ≡ of_payout p e
  other_test picked p e l (h, g) = ground arith

  -- The new payout gets the net amounts of the rows that were chosen.
  pub sum_net-new :
      (picked : List ℕ) (es : List Earning)
      → All (λ e. is_before n e.payout_id ≡ true) es
      → All (IsPicked picked) es
      → sum_net (keep (of_payout n) (map (assign n picked) (map (lock driver ids) es)))
        ≡ sum_net (keep (is_selected driver ids) (map (lock driver ids) es))
  unfolding sum_net
  sum_net-new picked [] b a = refl
  sum_net-new picked (e ∷ es) (f, b) (i, a) =
      sum_net-keep (of_payout n) (assign n picked (lock driver ids e))
        (map (assign n picked) (map (lock driver ids) es))
      ∙ same_sums (new_test picked e f i) (locked_net picked e) (sum_net-new picked es b a)
      ∙ sym (sum_net-keep (is_selected driver ids) (lock driver ids e) (map (lock driver ids) es))

  -- The others keep theirs.
  pub sum_net-other :
      (picked : List ℕ) (p : ℕ) (es : List Earning)
      → p < n
      → All (IsPicked picked) es
      → sum_net (keep (of_payout p) (map (assign n picked) (map (lock driver ids) es)))
        ≡ sum_net (keep (of_payout p) es)
  unfolding sum_net
  sum_net-other picked p [] l a = refl
  sum_net-other picked p (e ∷ es) l (i, a) =
      sum_net-keep (of_payout p) (assign n picked (lock driver ids e))
        (map (assign n picked) (map (lock driver ids) es))
      ∙ same_sums (other_test picked p e l i) (locked_net picked e ∙ lock_net e)
          (sum_net-other picked p es l a)
      ∙ sym (sum_net-keep (of_payout p) e es)

  pub IsPicked-rows :
      (picked : List ℕ) (es : List Earning)
      → All (λ e. among ids e.id ≡ is_payable driver ids e) es
      → All (λ y. among picked y.id ≡ is_selected driver ids y) (map (lock driver ids) es)
      → All (IsPicked picked) es
  IsPicked-rows picked [] a b = tt
  IsPicked-rows picked (e ∷ es) (h, a) (g, b) = ((h, ground arith), IsPicked-rows picked es a b)
