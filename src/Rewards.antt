-- ===== src/Rewards.antt =====
-- The rewards of packages/validation/src/index.ts and apps/api/src/main.ts: their enumerations, and
-- the rows of RewardTransaction, FraudEvaluation, Referral, RewardMilestoneDefinition and
-- DriverMilestoneProgress (packages/database/prisma/schema.prisma) that the code reads and writes.
-- `reason`, `metadata` and `code` are text for people, and are left out.
pub mod Fraud
pub mod Grants
pub mod Invariant
pub mod Milestones
pub mod Qualifying
pub mod Trips
use nodex_v.Prelude.{ℕ, List, Option}

pub data RewardStatus : Type 0 where
  pending confirmed rejected revoked pending_review : RewardStatus

pub data RewardType : Type 0 where
  client_trip_ticket driver_trip_ticket client_referral_ticket driver_referral_ticket : RewardType
  driver_milestone_bonus manual_admin_adjustment : RewardType

pub data RewardSourceType : Type 0 where
  trip booking referral milestone admin : RewardSourceType

pub data RewardRiskLevel : Type 0 where
  low medium high critical : RewardRiskLevel

pub data FraudEvaluationStatus : Type 0 where
  auto_approved pending_review approved rejected : FraudEvaluationStatus

pub data ReferralStatus : Type 0 where
  invited registered qualified rewarded rejected : ReferralStatus

pub data RoleContext : Type 0 where
  client driver : RoleContext

pub data MilestoneStatus : Type 0 where
  in_progress reached : MilestoneStatus

pub data FraudReason : Type 0 where
  duplicate_reward_source start_pin_not_verified no_gps_points insufficient_movement : FraudReason
  abnormal_trip_duration timeline_order_invalid repeat_pair_pattern : FraudReason
  self_referral referral_cycle : FraudReason

unfoldable pub RewardType-discrete : Discrete RewardType
RewardType-discrete = hlevel

unfoldable pub RewardSourceType-discrete : Discrete RewardSourceType
RewardSourceType-discrete = hlevel

pub record RewardConfig : Type 0 where
  pub client_trip_tickets : ℕ
  pub driver_trip_tickets : ℕ
  pub client_referral_tickets : ℕ
  pub driver_referral_tickets : ℕ
  pub milestone_target_count : ℕ
  pub milestone_reward_value : ℕ
  pub min_trip_duration_minutes : ℕ
  pub min_movement_meters : ℕ
  pub medium_review_threshold : ℕ
  pub high_review_threshold : ℕ

-- The unique index `[userId, type, sourceType, sourceId]`.
pub record RewardKey : Type 0 where
  pub user_id : ℕ
  pub type : RewardType
  pub source_type : RewardSourceType
  pub source_id : ℕ

pub record RewardTransaction : Type 0 where
  pub id : ℕ
  pub key : RewardKey
  pub driver_profile_id : Option ℕ
  pub role_context : RoleContext
  pub amount : ℕ
  pub status : RewardStatus
  pub trip_id : Option ℕ
  pub referral_id : Option ℕ
  pub confirmed_at : Option ℕ
  pub rejected_at : Option ℕ
  pub reviewed_at : Option ℕ

pub record FraudEvaluation : Type 0 where
  pub reward_transaction_id : ℕ
  pub risk_level : RewardRiskLevel
  pub status : FraudEvaluationStatus
  pub score : ℕ
  pub reasons : List FraudReason
  pub reviewed_at : Option ℕ

pub record Referral : Type 0 where
  pub id : ℕ
  pub referrer_user_id : ℕ
  pub status : ReferralStatus
  pub qualified_at : Option ℕ
  pub rewarded_at : Option ℕ
  pub rejected_at : Option ℕ

pub record MilestoneDefinition : Type 0 where
  pub id : ℕ
  pub target_count : ℕ
  pub reward_amount : ℕ

pub record MilestoneProgress : Type 0 where
  pub qualifying_trip_count : ℕ
  pub status : MilestoneStatus
  pub reached_at : Option ℕ
  pub reward_transaction_id : Option ℕ

-- A referral stands under the user it brought and the role, by its unique index; there is one
-- milestone definition, and a progress stands under the driver's profile.
pub record RewardStore : Type 0 where
  pub rewards : List RewardTransaction
  pub evaluations : List FraudEvaluation
  pub referrals : ℕ → RoleContext → Option Referral
  pub definition : Option MilestoneDefinition
  pub progress : ℕ → Option MilestoneProgress
  pub next_id : ℕ
