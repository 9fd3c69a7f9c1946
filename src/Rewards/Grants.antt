-- ===== src/Rewards/Grants.antt =====
-- apps/api/src/main.ts: createRewardWithEvaluation and POST /admin/rewards/:rewardId/review. One
-- clock reading stands for all of a request. The audit rows are left out.
pub mod Once
use nodex_v.Prelude.{
  ℕ, suc, ◌==◌, Bool, true, false, ◌&&◌, List, [], ◌∷◌, ◌++◌, Option, none, some, map, any, same,
  Result, ok, err, if◌then◌else◌,
}
use nodex_v.Prelude.Double.{Double}
use nodex_v.Rewards.{
  RewardStatus, FraudEvaluationStatus, RoleContext, RewardConfig, RewardKey, RewardTransaction,
  FraudEvaluation, RewardStore, RewardType-discrete, RewardSourceType-discrete,
}
use nodex_v.Rewards.Fraud.{
  FraudContext, Verdict, reward_status_for_fraud_status, evaluate_reward_fraud,
}

pub record RewardInput (D : Type 0) : Type 0 where
  pub key : RewardKey
  pub driver_profile_id : Option ℕ
  pub role_context : RoleContext
  pub amount : ℕ
  pub trip_id : Option ℕ
  pub referral_id : Option ℕ
  pub fraud_context : FraudContext D

unfoldable pub same_key : RewardKey → RewardKey → Bool
same_key a b =
    a.user_id == b.user_id
    && same RewardType-discrete a.type b.type
    && same RewardSourceType-discrete a.source_type b.source_type
    && a.source_id == b.source_id

-- `findUnique({ where: { userId_type_sourceType_sourceId } })`.
unfoldable pub find_reward : RewardKey → List RewardTransaction → Option RewardTransaction
find_reward key [] = none
find_reward key (r ∷ rs) =
    let rest = find_reward key rs in if same_key key r.key then some r else rest

abbrev pub is_confirmed : RewardStatus → Bool
is_confirmed RewardStatus.confirmed = true
is_confirmed _ = false

abbrev pub is_rejected : RewardStatus → Bool
is_rejected RewardStatus.rejected = true
is_rejected _ = false

-- `test ? now : null`.
abbrev pub time_if : Bool → ℕ → Option ℕ
time_if test now = if test then some now else none

abbrev pub new_reward : {D : Type 0} → ℕ → ℕ → RewardInput D → RewardStatus → RewardTransaction
new_reward id now input status = record {
  id = id;
  key = input.key;
  driver_profile_id = input.driver_profile_id;
  role_context = input.role_context;
  amount = input.amount;
  status = status;
  trip_id = input.trip_id;
  referral_id = input.referral_id;
  confirmed_at = time_if (is_confirmed status) now;
  rejected_at = time_if (is_rejected status) now;
  reviewed_at = none;
}

abbrev pub new_evaluation : {D : Type 0} → ℕ → Verdict D → FraudEvaluation
new_evaluation id fraud = record {
  reward_transaction_id = id;
  risk_level = fraud.risk_level;
  status = fraud.status;
  score = fraud.score;
  reasons = fraud.reasons;
  reviewed_at = none;
}

-- The two `create` calls.
unfoldable pub write_reward :
    (F : Double)
    → RewardConfig
    → ℕ
    → RewardInput F.D
    → RewardStore
    → RewardStore × RewardTransaction
unfolding evaluate_reward_fraud reward_status_for_fraud_status
write_reward F config now input s =
    let fraud = evaluate_reward_fraud F input.fraud_context config in
    let reward = new_reward s.next_id now input (reward_status_for_fraud_status fraud.status) in
    (
      record s {
        rewards = s.rewards ++ (reward ∷ []);
        evaluations = s.evaluations ++ (new_evaluation s.next_id fraud ∷ []);
        next_id = suc s.next_id;
      },
      reward,
    )

unfoldable pub create_reward_with_evaluation :
    (F : Double)
    → RewardConfig
    → ℕ
    → RewardInput F.D
    → RewardStore
    → RewardStore × RewardTransaction
unfolding write_reward find_reward
create_reward_with_evaluation F config now input s = elim (find_reward input.key s.rewards) [
  | some existing ↦ (s, existing)
  | none ↦ write_reward F config now input s
]

pub data ReviewDecision : Type 0 where
  approve reject : ReviewDecision

-- `update` of a row that does not exist throws.
pub data ReviewError : Type 0 where
  record_not_found : ReviewError

abbrev pub decided_status : ReviewDecision → RewardStatus
decided_status approve = RewardStatus.confirmed
decided_status reject = RewardStatus.rejected

abbrev pub decided_evaluation : ReviewDecision → FraudEvaluationStatus
decided_evaluation approve = FraudEvaluationStatus.approved
decided_evaluation reject = FraudEvaluationStatus.rejected

abbrev pub review_row : ℕ → ReviewDecision → ℕ → RewardTransaction → RewardTransaction
review_row id decision now r =
    if r.id == id
    then record r {
      status = decided_status decision;
      confirmed_at = time_if (is_confirmed (decided_status decision)) now;
      rejected_at = time_if (is_rejected (decided_status decision)) now;
      reviewed_at = some now;
    }
    else r

abbrev pub review_evaluation : ℕ → ReviewDecision → ℕ → FraudEvaluation → FraudEvaluation
review_evaluation id decision now e =
    if e.reward_transaction_id == id
    then record e { status = decided_evaluation decision; reviewed_at = some now }
    else e

unfoldable pub review_reward : ℕ → ReviewDecision → ℕ → RewardStore → Result ReviewError RewardStore
review_reward id decision now s =
    if any (λ r. r.id == id) s.rewards
    then ok (record s {
      rewards = map (review_row id decision now) s.rewards;
      evaluations = map (review_evaluation id decision now) s.evaluations;
    })
    else err record_not_found
