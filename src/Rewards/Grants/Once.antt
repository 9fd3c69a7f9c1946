-- ===== src/Rewards/Grants/Once.antt =====
-- createRewardWithEvaluation of apps/api/src/main.ts beside a map from keys to rewards, into which a
-- key is put once.
use nodex_v.Prelude.{
  ℕ, ◌≡◌, refl, arith, true, List, [], ◌∷◌, ◌++◌, Option, none, some, inl, inr, Bool-cases,
  Option-cases, if◌then◌else◌, ap, ◌∙◌,
}
use nodex_v.Prelude.Double.{Double}
use nodex_v.Rewards.{RewardConfig, RewardKey, RewardTransaction, RewardStore}
use nodex_v.Rewards.Grants.{
  RewardInput, same_key, find_reward, write_reward, create_reward_with_evaluation,
}

pub same_key_refl : (k : RewardKey) → same_key k k ≡ true
unfolding same_key
same_key_refl k = ground arith

pub same_key-eq : (a b : RewardKey) → same_key a b ≡ true → a ≡ b
unfolding same_key
same_key-eq a b h = ground arith

pub find_reward-append :
    (key : RewardKey) (rs : List RewardTransaction) (r : RewardTransaction)
    → find_reward key (rs ++ (r ∷ [])) ≡ elim (find_reward key rs) [
      | some found ↦ some found
      | none ↦ if same_key key r.key then some r else none
    ]
unfolding find_reward
find_reward-append key [] r = refl
find_reward-append key (x ∷ xs) r = elim (Bool-cases (same_key key x.key)) [
  | inl h ↦ rw h refl
  | inr h ↦ rw h (find_reward-append key xs r)
]

-- The abstract table: a key that has a reward keeps it, another is given `r`.
abbrev pub put_if_absent :
    RewardKey
    → RewardTransaction
    → (RewardKey → Option RewardTransaction)
    → RewardKey
    → Option RewardTransaction
put_if_absent key r table k = elim (table k) [
  | some found ↦ some found
  | none ↦ if same_key k key then some r else none
]

abbrev pub table_of : RewardStore → RewardKey → Option RewardTransaction
table_of s key = find_reward key s.rewards

put_if_absent-present :
    (key k : RewardKey) (r r' : RewardTransaction) (table : RewardKey → Option RewardTransaction)
    → table key ≡ some r
    → table k ≡ put_if_absent key r' table k
put_if_absent-present key k r r' table e = elim (Option-cases (table k)) [
  | inr (found, f) ↦ rw (f, put_if_absent) refl
  | inl n ↦ elim (Bool-cases (same_key k key)) [
    | inl same_keys ↦ absurd (ground (arith, n, e, ap table (same_key-eq k key same_keys)))
    | inr other ↦ rw (n, other, put_if_absent) refl
  ]
]

module _ (F : Double) (config : RewardConfig) (now : ℕ) (input : RewardInput F.D)
    (s : RewardStore) where
  pub create-existing :
      (r : RewardTransaction)
      → find_reward input.key s.rewards ≡ some r
      → create_reward_with_evaluation F config now input s ≡ (s, r)
  unfolding create_reward_with_evaluation
  create-existing r e = rw (e, create_reward_with_evaluation) refl

  pub create-absent :
      find_reward input.key s.rewards ≡ none
      → create_reward_with_evaluation F config now input s ≡ write_reward F config now input s
  unfolding create_reward_with_evaluation
  create-absent e = rw (e, create_reward_with_evaluation) refl

  write_reward-table :
      (k : RewardKey)
      → find_reward k (write_reward F config now input s).0.rewards
        ≡ put_if_absent input.key (write_reward F config now input s).1 (table_of s) k
  unfolding write_reward
  write_reward-table k = find_reward-append k s.rewards _

  -- createRewardWithEvaluation on the list of rows is put_if_absent on the table that a key is looked
  -- up in: whatever was there under the key of the input stays, and what it returns is what the table
  -- has under that key afterwards.
  pub create_reward_with_evaluation-put_if_absent :
      (k : RewardKey)
      → (table_of (create_reward_with_evaluation F config now input s).0 k
          ≡ put_if_absent input.key (write_reward F config now input s).1 (table_of s) k)
        × (table_of (create_reward_with_evaluation F config now input s).0 input.key
            ≡ some (create_reward_with_evaluation F config now input s).1)
  create_reward_with_evaluation-put_if_absent k =
      elim (Option-cases (find_reward input.key s.rewards)) [
        | inr (r, e) ↦ (
          rw (create-existing r e) (put_if_absent-present input.key k r _ (table_of s) e),
          rw (create-existing r e) e,
        )
        | inl e ↦ (
          rw (create-absent e) (write_reward-table k),
          rw (create-absent e)
              (write_reward-table input.key ∙ rw (e, same_key_refl input.key, put_if_absent) refl),
        )
      ]
