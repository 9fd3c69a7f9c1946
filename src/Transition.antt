-- ===== src/Transition.antt =====
-- The evaluators of status transitions. The program writes one routine for each kind of record
-- (packages/validation/src/index.ts: evaluateTripTransition, evaluateParcelTransition,
-- evaluateSupportTransition, evaluateSafetyTransition): it looks up the target of the action,
-- answers with an idempotent success if the record is there already, and else consults a table.
-- The four differ in their tables alone, which are the parameter `Machine` of the one routine here.
pub mod Laws
use nodex_v.Prelude.{
  ℕ, suc, ◌≡◌, ◌≢◌, refl, Bool, true, false, List, [], ◌∷◌, includes, same, arith,
}

-- The two tables of a kind of record.
pub record Machine (S A : Type 0) : Type 0 where
  pub target : A → S
  pub allowed : A → List S
  pub discrete : Discrete S

-- `{ ok: true, toStatus, idempotent }` or `{ ok: false, code, message }`; the code is the same in
-- every refusal of one routine, and the message is made from the arguments.
pub data TransitionResult (S : Type 0) : Type 0 where
  accepted : S → Bool → TransitionResult S
  invalid_transition : TransitionResult S

-- The status that is stored afterwards: a refusal throws, and nothing is written.
abbrev pub stored : {S : Type 0} → S → TransitionResult S → S
stored current (accepted to idempotent) = to
stored current invalid_transition = current

-- Whether a write is made: an idempotent success returns before it.
abbrev pub is_write : {S : Type 0} → TransitionResult S → Bool
is_write (accepted to true) = false
is_write (accepted to false) = true
is_write invalid_transition = false

abbrev pub count_if : Bool → ℕ → ℕ
count_if true n = suc n
count_if false n = n

module _ {S A : Type 0} where
  unfoldable pub evaluate : Machine S A → S → A → TransitionResult S
  evaluate m current action = elim (same m.discrete current (m.target action)) [
    | true ↦ accepted (m.target action) true
    | false ↦ elim (includes m.discrete (m.allowed action) current) [
      | true ↦ accepted (m.target action) false
      | false ↦ invalid_transition
    ]
  ]

  unfoldable pub run : Machine S A → S → List A → S
  run m s [] = s
  run m s (a ∷ more) = run m (stored s (evaluate m s a)) more

  -- How many writes a sequence of requests makes.
  unfoldable pub writes : Machine S A → S → List A → ℕ
  writes m s [] = 0
  writes m s (a ∷ more) =
      count_if (is_write (evaluate m s a)) (writes m (stored s (evaluate m s a)) more)
