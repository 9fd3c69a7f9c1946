-- ===== src/Rewards/Milestones.antt =====
-- calculateDriverMilestoneProgress of packages/validation/src/index.ts, and
-- ensureDriverMilestoneDefinition and updateDriverMilestoneProgress of apps/api/src/main.ts.
pub mod Bonus
use nodex_v.Prelude.{
  ℕ, suc, ◌+◌, ◌-◌, ◌==◌, Bool, true, false, ◌&&◌, List, [], ◌∷◌, Option, none, some, keep, length,
  leb, max, if◌then◌else◌, same,
}
use nodex_v.Prelude.Double.{Double}
use nodex_v.Maps.{Place}
use nodex_v.Rewards.{
  RewardType, RewardSourceType, RoleContext, RewardConfig, RewardTransaction, MilestoneDefinition,
  MilestoneStatus, MilestoneProgress, RewardStore, RewardType-discrete, driver,
}
use nodex_v.Rewards.Fraud.{GpsPoint, FraudContext}
use nodex_v.Rewards.Grants.{RewardInput, create_reward_with_evaluation, is_confirmed}

pub record DriverProgress : Type 0 where
  pub completed : ℕ
  pub target : ℕ
  pub remaining : ℕ
  pub is_reached : Bool

-- Both inputs are counts, which `Math.floor` leaves.
unfoldable pub calculate_driver_milestone_progress : ℕ → ℕ → DriverProgress
calculate_driver_milestone_progress qualifying_trips target_count =
    let target = max 1 target_count in
    record {
      completed = qualifying_trips;
      target = target;
      remaining = target - qualifying_trips;
      is_reached = leb target qualifying_trips;
    }

unfoldable pub ensure_driver_milestone_definition :
    RewardConfig → RewardStore → RewardStore × MilestoneDefinition
ensure_driver_milestone_definition config s = elim (s.definition) [
  | none ↦
      let created : MilestoneDefinition = record {
        id = s.next_id;
        target_count = config.milestone_target_count;
        reward_amount = config.milestone_reward_value;
      } in
      (record s { definition = some created; next_id = suc s.next_id }, created)
  | some d ↦
      let updated : MilestoneDefinition = record d {
        target_count = config.milestone_target_count;
        reward_amount = config.milestone_reward_value;
      } in
      (record s { definition = some updated }, updated)
]

abbrev pub is_profile : ℕ → Option ℕ → Bool
is_profile profile none = false
is_profile profile (some p) = p == profile

-- `count({ where: { driverProfileId, type: DRIVER_TRIP_TICKET, status: CONFIRMED } })`.
abbrev pub is_qualifying : ℕ → RewardTransaction → Bool
is_qualifying profile r =
    is_profile profile r.driver_profile_id
    && same RewardType-discrete r.key.type RewardType.driver_trip_ticket
    && is_confirmed r.status

abbrev pub qualifying_trip_count : ℕ → List RewardTransaction → ℕ
qualifying_trip_count profile rewards = length (keep (is_qualifying profile) rewards)

-- 0.01 of a degree.
abbrev pub hundredth : (F : Double) → F.D
hundredth F = F.over (F.of_nat 1) (F.of_nat 100)

unfoldable pub milestone_context : (F : Double) → RewardConfig → ℕ → FraudContext F.D
milestone_context F config now = record {
  is_pin_verified = true;
  gps_points =
      record { place = record { lat = F.of_nat 0; lng = F.of_nat 0 }; recorded_at = now }
      ∷ record {
        place = record { lat = hundredth F; lng = hundredth F };
        recorded_at = now + 3600000;
      }
      ∷ [];
  trip_started_at = none;
  trip_completed_at = none;
  completed_trip_duration_minutes = some config.min_trip_duration_minutes;
  repeat_pair_completed_trips = none;
  is_referral_self = false;
  is_referral_cycle = false;
  is_duplicate_reward = false;
}

abbrev pub milestone_input :
    (F : Double) → RewardConfig → ℕ → ℕ → ℕ → MilestoneDefinition → RewardInput F.D
milestone_input F config now profile user definition = record {
  key = record {
    user_id = user;
    type = RewardType.driver_milestone_bonus;
    source_type = RewardSourceType.milestone;
    source_id = definition.id;
  };
  driver_profile_id = some profile;
  role_context = driver;
  amount = definition.reward_amount;
  trip_id = none;
  referral_id = none;
  fraud_context = milestone_context F config now;
}

abbrev pub linked_reward : Option MilestoneProgress → Option ℕ
linked_reward none = none
linked_reward (some p) = p.reward_transaction_id

-- `existing?.reachedAt ?? new Date()`.
abbrev pub reached_time : ℕ → Option MilestoneProgress → ℕ
reached_time now none = now
reached_time now (some p) = elim (p.reached_at) [ none ↦ now | some at ↦ at ]

-- The bonus of a milestone that is reached and has none, and the id that its row is to hold.
unfoldable pub grant_bonus :
    (F : Double)
    → RewardConfig
    → ℕ
    → ℕ
    → ℕ
    → MilestoneDefinition
    → Option ℕ
    → Bool
    → RewardStore
    → RewardStore × Option ℕ
unfolding create_reward_with_evaluation milestone_context
grant_bonus F config now profile user definition (some id) reached s = (s, some id)
grant_bonus F config now profile user definition none false s = (s, none)
grant_bonus F config now profile user definition none true s =
    let (t, reward) =
      create_reward_with_evaluation F config now
        (milestone_input F config now profile user definition) s in
    (t, some reward.id)

abbrev pub milestone_status : Bool → MilestoneStatus
milestone_status reached = if reached then MilestoneStatus.reached else MilestoneStatus.in_progress

abbrev pub write_progress : ℕ → ℕ → ℕ → Bool → Option ℕ → RewardStore → RewardStore
write_progress profile now trips reached reward s = record s {
  progress = λ p.
      if p == profile
      then some (record {
        qualifying_trip_count = trips;
        status = milestone_status reached;
        reached_at = if reached then some (reached_time now (s.progress profile)) else none;
        reward_transaction_id = reward;
      })
      else s.progress p;
}

unfoldable pub update_driver_milestone_progress :
    (F : Double) → RewardConfig → ℕ → ℕ → ℕ → RewardStore → RewardStore
unfolding ensure_driver_milestone_definition calculate_driver_milestone_progress grant_bonus
update_driver_milestone_progress F config now profile user s =
    let (s', definition) = ensure_driver_milestone_definition config s in
    let trips = qualifying_trip_count profile s'.rewards in
    let progress = calculate_driver_milestone_progress trips definition.target_count in
    let (t, reward) =
      grant_bonus F config now profile user definition (linked_reward (s'.progress profile))
        progress.is_reached s' in
    write_progress profile now trips progress.is_reached reward t
