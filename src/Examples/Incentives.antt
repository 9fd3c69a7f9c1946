-- ===== src/Examples/Incentives.antt =====
-- A completed trip with one passenger, who was referred by another user.
use nodex_v.Prelude.{
  ℕ, ◌+◌, ◌-◌, ◌*◌, ◌/◌, ◌^◌, ◌<◌, ◌≡◌, ◌↔◌, ◌⊎◌, refl, arith, ltb, true, false, [], ◌∷◌, Option,
  none, some, length, All,
}
use nodex_v.Prelude.Double.{Double}
use nodex_v.Lifecycle.Trip.{TripStatus}
use nodex_v.Booking.Store.{BookingStatus}
use nodex_v.Maps.{distance_meters_between}
use nodex_v.Rewards.{
  RewardStatus, ReferralStatus, RoleContext, RewardConfig, RewardStore, Referral, MilestoneStatus,
  MilestoneProgress, RewardType-discrete, RewardType, RewardSourceType, RewardTransaction,
}
use nodex_v.Rewards.Fraud.{
  GpsPoint, FraudContext, reward_status_for_fraud_status, evaluate_reward_fraud,
}
use nodex_v.Rewards.Fraud.Deciding.{count_false, assurances, evaluate_reward_fraud-decided}
use nodex_v.Rewards.Grants.{
  RewardInput, write_reward, create_reward_with_evaluation, find_reward, same_key,
}
use nodex_v.Rewards.Grants.Once.{
  table_of, put_if_absent, create_reward_with_evaluation-put_if_absent,
}
use nodex_v.Rewards.Milestones.{
  ensure_driver_milestone_definition, qualifying_trip_count, update_driver_milestone_progress,
}
use nodex_v.Rewards.Milestones.Bonus.{update_driver_milestone_progress-reached}
use nodex_v.Rewards.Qualifying.{qualify_rewards_for_completed_trip, client_input}
use nodex_v.Rewards.Trips.{
  CompletedTrip, PassengerBooking, trip_started, trip_completed, trip_context,
}
use nodex_v.Rewards.Qualifying.Replay.{qualify_rewards_for_completed_trip-replayed}
use nodex_v.Rewards.Invariant.{Paired}
use nodex_v.Rewards.Invariant.Steps.{
  here, next, complete, RewardReach, new_store, RewardReach-unique, RewardReach-Paired,
}

-- Whole meters: the arithmetic of ℕ, in which every angle is its own sine.
abbrev pub meters : Double
meters = record {
  D = ℕ;
  of_nat = λ n. n;
  plus = λ a b. a + b;
  minus = λ a b. a - b;
  times = λ a b. a * b;
  over = λ a b. a / b;
  pow = λ a b. a ^ b;
  pi = 3;
  round = λ a. a;
  sin = λ a. a;
  cos = λ a. 1;
  sqrt = λ a. a;
  atan2 = λ a b. a;
  less = λ a b. ltb a b;
}

abbrev usual : RewardConfig
usual = record {
  client_trip_tickets = 1;
  driver_trip_tickets = 1;
  client_referral_tickets = 1;
  driver_referral_tickets = 1;
  milestone_target_count = 1;
  milestone_reward_value = 20000000;
  min_trip_duration_minutes = 20;
  min_movement_meters = 500;
  medium_review_threshold = 2;
  high_review_threshold = 3;
}

abbrev point : ℕ → ℕ → GpsPoint ℕ
point degrees at = record { place = record { lat = degrees; lng = 0 }; recorded_at = at }

abbrev passenger : PassengerBooking
passenger = record {
  id = 21;
  client_id = some 7;
  status = BookingStatus.completed;
  start_pins = record { is_verified = true; verified_at = some 1000 } ∷ [];
}

abbrev ride : CompletedTrip ℕ
ride = record {
  id = 31;
  status = TripStatus.completed;
  driver_profile_id = 41;
  driver_user_id = 42;
  is_driver_approved = true;
  bookings = passenger ∷ [];
  location_points = point 120 5000 ∷ point 0 2000 ∷ [];
  operation_events =
      record { type = trip_started; created_at = 2000 }
      ∷ record { type = trip_completed; created_at = 3602000 }
      ∷ [];
  summary_completed_at = none;
  pair_count = λ u. 1;
}

abbrev one_referral : ℕ → RoleContext → Option Referral
one_referral user role = elim (ltb user 8) [
  | true ↦ some (record {
    id = 51;
    referrer_user_id = 9;
    status = ReferralStatus.invited;
    qualified_at = none;
    rewarded_at = none;
    rejected_at = none;
  })
  | false ↦ none
]

abbrev start : RewardStore
start = new_store one_referral

abbrev finished : RewardStore
finished = (qualify_rewards_for_completed_trip meters usual 4000000 ride start).0

qualify_rewards_for_completed_trip-replayed_example :
    (qualify_rewards_for_completed_trip meters usual 9000000 ride finished).0.rewards
    ≡ finished.rewards
qualify_rewards_for_completed_trip-replayed_example =
    qualify_rewards_for_completed_trip-replayed meters usual ride 4000000 9000000 start

rewards_made : length finished.rewards ≡ 4
unfolding qualify_rewards_for_completed_trip new_store same_key RewardType-discrete
    distance_meters_between
rewards_made = refl

abbrev context : FraudContext ℕ
context = trip_context ride true (some 1)

abbrev ticket : RewardInput ℕ
ticket = client_input usual ride passenger 7

create_reward_with_evaluation-put_if_absent_example :
    (table_of (create_reward_with_evaluation meters usual 4000000 ticket start).0 ticket.key
      ≡ put_if_absent ticket.key
          (write_reward meters usual 4000000 ticket start).1
          (table_of start)
          ticket.key)
    × (table_of (create_reward_with_evaluation meters usual 4000000 ticket start).0 ticket.key
        ≡ some (create_reward_with_evaluation meters usual 4000000 ticket start).1)
create_reward_with_evaluation-put_if_absent_example =
    create_reward_with_evaluation-put_if_absent meters usual 4000000 ticket start ticket.key

evaluate_reward_fraud-decided_example :
    ((reward_status_for_fraud_status (evaluate_reward_fraud meters context usual).status
        ≡ RewardStatus.confirmed)
      ↔ ((context.is_duplicate_reward ≡ false)
          × (context.is_referral_self ≡ false)
          × (context.is_referral_cycle ≡ false)
          × (count_false (
                assurances meters context usual
                  (evaluate_reward_fraud meters context usual).movement_meters)
              < 3)
          × (count_false (
                assurances meters context usual
                  (evaluate_reward_fraud meters context usual).movement_meters)
              < 2)))
    × ((reward_status_for_fraud_status (evaluate_reward_fraud meters context usual).status
          ≡ RewardStatus.rejected)
        ↔ ((context.is_duplicate_reward ≡ true)
            ⊎ (context.is_referral_self ≡ true)
            ⊎ (context.is_referral_cycle ≡ true)))
evaluate_reward_fraud-decided_example = evaluate_reward_fraud-decided meters context usual

abbrev unlinked : RewardStore
unlinked = record finished { progress = λ profile. none }

update_driver_milestone_progress-reached_example :
    (p : MilestoneProgress) × (r : RewardTransaction) × ((update_driver_milestone_progress meters
          usual 5000000 41 42 unlinked).progress
        41
      ≡ some p)
    × (p.status ≡ MilestoneStatus.reached)
    × (p.qualifying_trip_count ≡ qualifying_trip_count 41 finished.rewards)
    × (p.reward_transaction_id ≡ some r.id)
    × (find_reward
          (record {
            user_id = 42;
            type = RewardType.driver_milestone_bonus;
            source_type = RewardSourceType.milestone;
            source_id = (ensure_driver_milestone_definition usual unlinked).1.id;
          })
          (update_driver_milestone_progress meters usual 5000000 41 42 unlinked).rewards
        ≡ some r)
unfolding qualify_rewards_for_completed_trip new_store same_key RewardType-discrete
    distance_meters_between
update_driver_milestone_progress-reached_example =
    update_driver_milestone_progress-reached meters usual 5000000 41 42 unlinked (omega arith)
      (omega arith) refl

completed_once : RewardReach meters start finished
completed_once = next here (complete usual 4000000 ride refl)

RewardReach-unique_example : All (λ r. find_reward r.key finished.rewards ≡ some r) finished.rewards
RewardReach-unique_example = RewardReach-unique meters one_referral finished completed_once

RewardReach-Paired_example : Paired finished.rewards finished.evaluations
RewardReach-Paired_example = RewardReach-Paired meters one_referral finished completed_once
