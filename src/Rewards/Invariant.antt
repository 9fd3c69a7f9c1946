-- ===== src/Rewards/Invariant.antt =====
-- The tables of rewards and evaluations over sequences of completed trips and reviews
-- (apps/api/src/main.ts).
mod Rows
pub mod Steps
use nodex_v.Prelude.{◌==◌, ◌≡◌, Bool, true, false, List, [], ◌∷◌, Option, none, some, All}
use nodex_v.Rewards.{RewardTransaction, FraudEvaluation, RewardStore}
use nodex_v.Rewards.Fraud.{reward_status_for_fraud_status}
use nodex_v.Rewards.Grants.{same_key, is_confirmed, is_rejected}

-- No two rows have one key.
abbrev pub Distinct : List RewardTransaction → Type 0
Distinct [] = Unit
Distinct (r ∷ rs) = All (λ x. same_key x.key r.key ≡ false) rs × Distinct rs

abbrev pub has_value {ℓ} : {A : Type ℓ} → Option A → Bool
has_value none = false
has_value (some a) = true

-- The row of a reward and its evaluation say the same, and the times say the same as the status.
pub record Agrees (r : RewardTransaction) (e : FraudEvaluation) : Type 0 where
  pub same_reward : e.reward_transaction_id ≡ r.id
  pub same_status : reward_status_for_fraud_status e.status ≡ r.status
  pub confirmed_time : has_value r.confirmed_at ≡ is_confirmed r.status
  pub rejected_time : has_value r.rejected_at ≡ is_rejected r.status

abbrev pub Paired : List RewardTransaction → List FraudEvaluation → Type 0
Paired [] [] = Unit
Paired [] (e ∷ es) = ⊥
Paired (r ∷ rs) [] = ⊥
Paired (r ∷ rs) (e ∷ es) = Agrees r e × Paired rs es

pub record IsSound (s : RewardStore) : Type 0 where
  pub distinct : Distinct s.rewards
  pub paired : Paired s.rewards s.evaluations
