-- ===== src/Transition/Laws.antt =====
-- What the tables of a machine say of every sequence of requests.
use mathlib.Core.List.{append-nil, append_assoc}
use mathlib.Core.Bool.{false≢true}
use nodex_v.Prelude.{
  ℕ, ◌+◌, ◌≤◌, ◌<◌, ◌≡◌, refl, sym, ◌⊎◌, inl, inr, ◌∙◌, ◌++◌, true, false, List, [], ◌∷◌, includes,
  same, arith,
}
use nodex_v.Transition.{
  Machine, TransitionResult, accepted, evaluate, stored, is_write, run, writes,
}

-- `Subsequence xs ys`: the entries of `xs` stand in `ys`, in their order.
pub data Subsequence {A : Type 0} : List A → List A → Type 0 where
  done : Subsequence [] []
  skip : {xs ys : List A} (y : A) → Subsequence xs ys → Subsequence xs (y ∷ ys)
  take : {xs ys : List A} (x : A) → Subsequence xs ys → Subsequence (x ∷ xs) (x ∷ ys)

module _ {A : Type 0} where
  pub Subsequence-nil : (ys : List A) → Subsequence [] ys
  Subsequence-nil [] = done
  Subsequence-nil (y ∷ ys) = skip y (Subsequence-nil ys)

  pub Subsequence-refl : (xs : List A) → Subsequence xs xs
  Subsequence-refl [] = done
  Subsequence-refl (x ∷ xs) = take x (Subsequence-refl xs)

  skip-last : {xs ys : List A} (y : A) → Subsequence xs ys → Subsequence xs (ys ++ y ∷ [])
  skip-last y done = skip y done
  skip-last y (skip z h) = skip z (skip-last y h)
  skip-last y (take z h) = take z (skip-last y h)

  snoc : {xs ys : List A} (a : A) → Subsequence xs ys → Subsequence (xs ++ a ∷ []) (ys ++ a ∷ [])
  snoc a done = take a done
  snoc a (skip z h) = skip z (snoc a h)
  snoc a (take z h) = take z (snoc a h)

  Subsequence-trans :
      {ys zs : List A} → Subsequence ys zs → {xs : List A} → Subsequence xs ys → Subsequence xs zs
  Subsequence-trans done h = h
  Subsequence-trans (skip z k) h = skip z (Subsequence-trans k h)
  Subsequence-trans (take z k) (skip z' h) = skip z (Subsequence-trans k h)
  Subsequence-trans (take z k) (take z' h) = take z (Subsequence-trans k h)

  append-middle : (xs : List A) (a : A) (ys : List A) → (xs ++ a ∷ []) ++ ys ≡ xs ++ a ∷ ys
  append-middle xs a ys = append_assoc xs (a ∷ []) ys

pub ruleset subsequence_rules = (take, skip, done, Subsequence-nil)

module _ {S A : Type 0} (m : Machine S A) where
  -- A status is unchanged by a request, or an edge of the table leads to the new one.
  abbrev Moves : S → A → TransitionResult S → Type 0
  Moves s a r =
      ((stored s r ≡ s) × (is_write r ≡ false))
      ⊎ (includes m.discrete (m.allowed a) s ≡ true) × (r ≡ accepted (m.target a) false)

  same-eq : {x y : S} → same m.discrete x y ≡ true → x ≡ y
  same-eq {x} {y} h = ground arith

  evaluate-Moves : (s : S) (a : A) → Moves s a (evaluate m s a)
  unfolding evaluate
  evaluate-Moves s a = ground arith

  -- Where every edge of the table lowers the rank, the rank bounds the writes of all requests.
  pub writes_bound :
      (rank : S → ℕ)
      → ((a : A) (s : S) → includes m.discrete (m.allowed a) s ≡ true → rank (m.target a) < rank s)
      → (s : S) (actions : List A) → writes m s actions + rank (run m s actions) ≤ rank s
  unfolding writes run
  writes_bound rank falls s [] = omega arith
  writes_bound rank falls s (a ∷ actions) = elim (evaluate-Moves s a) [
    | inl (e, w) ↦ rw (w, e) (writes_bound rank falls s actions)
    | inr (ok, e) ↦ rw e (omega (arith, falls a s ok, writes_bound rank falls (m.target a) actions))
  ]

  -- A set of statuses that no edge leaves is never left.
  pub run_closed :
      {P : S → Type 0}
      → ((a : A) (s : S) → P s → includes m.discrete (m.allowed a) s ≡ true → P (m.target a))
      → (s : S) (actions : List A) → P s
      → P (run m s actions)
  unfolding run
  run_closed keeps s [] p = p
  run_closed {P} keeps s (a ∷ actions) p = elim (evaluate-Moves s a) [
    | inl (e, w) ↦ rw e (run_closed keeps s actions p)
    | inr (ok, e) ↦ rw e (run_closed {P = P} keeps (m.target a) actions (keeps a s p ok))
  ]

  -- A status that is in no row of the table keeps the record for ever, and no request is written.
  pub run_final :
      (s : S)
      → ((a : A) → includes m.discrete (m.allowed a) s ≡ false)
      → (actions : List A) → (run m s actions ≡ s) × (writes m s actions ≡ 0)
  unfolding run writes
  run_final s final [] = (refl, refl)
  run_final s final (a ∷ actions) = elim (evaluate-Moves s a) [
    | inl (e, w) ↦ rw (w, e) (run_final s final actions)
    | inr (ok, e) ↦ absurd (false≢true (sym (final a) ∙ ok))
  ]

  -- `chain s` are actions that must have been taken to come to `s`: each edge keeps what stands at
  -- its source, or adds itself at the end.
  pub Subsequence-chain :
      (chain : S → List A)
      → ((a : A) (s : S)
          → includes m.discrete (m.allowed a) s ≡ true
          → Subsequence (chain (m.target a)) (chain s ++ a ∷ []))
      → (s : S) (past actions : List A) → Subsequence (chain s) past
      → Subsequence (chain (run m s actions)) (past ++ actions)
  unfolding run
  Subsequence-chain chain extends s past [] h = rw (append-nil past) h
  Subsequence-chain chain extends s past (a ∷ actions) h = elim (evaluate-Moves s a) [
    | inl (e, w) ↦
        rw (e, ← append-middle past a actions)
          (Subsequence-chain chain extends s (past ++ a ∷ []) actions (skip-last a h))
    | inr (ok, e) ↦
        rw (e, ← append-middle past a actions)
          (Subsequence-chain chain extends (m.target a) (past ++ a ∷ []) actions
            (Subsequence-trans (snoc a h) (extends a s ok)))
  ]
