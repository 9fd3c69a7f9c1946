-- ===== src/Rewards/Fraud.antt =====
-- packages/validation/src/index.ts: evaluateRewardFraud and rewardStatusForFraudStatus. Times are in
-- milliseconds; the arithmetic of coordinates and meters is the parameter `Double`.
pub mod Deciding
use nodex_v.Prelude.{
  ℕ, ◌*◌, ◌+◌, Bool, true, false, not, ◌&&◌, ◌||◌, List, [], ◌∷◌, Option, none, some, length, ltb,
  leb, ◌==◌, if◌then◌else◌,
}
use nodex_v.Prelude.Double.{Double}
use nodex_v.Maps.{Place, distance_meters_between}
use nodex_v.Rewards.{
  RewardStatus, RewardRiskLevel, FraudEvaluationStatus, FraudReason, RewardConfig,
}

pub record GpsPoint (D : Type 0) : Type 0 where
  pub place : Place D
  pub recorded_at : ℕ

pub record FraudContext (D : Type 0) : Type 0 where
  pub is_pin_verified : Bool
  pub gps_points : List (GpsPoint D)
  pub trip_started_at : Option ℕ
  pub trip_completed_at : Option ℕ
  pub completed_trip_duration_minutes : Option ℕ
  pub repeat_pair_completed_trips : Option ℕ
  pub is_referral_self : Bool
  pub is_referral_cycle : Bool
  pub is_duplicate_reward : Bool

pub record Verdict (D : Type 0) : Type 0 where
  pub risk_level : RewardRiskLevel
  pub status : FraudEvaluationStatus
  pub score : ℕ
  pub reasons : List FraudReason
  pub movement_meters : D

unfoldable pub reward_status_for_fraud_status : FraudEvaluationStatus → RewardStatus
reward_status_for_fraud_status FraudEvaluationStatus.auto_approved = RewardStatus.confirmed
reward_status_for_fraud_status FraudEvaluationStatus.approved = RewardStatus.confirmed
reward_status_for_fraud_status FraudEvaluationStatus.rejected = RewardStatus.rejected
reward_status_for_fraud_status FraudEvaluationStatus.pending_review = RewardStatus.pending_review

-- `sort` by the time, which is stable: a point goes after those of its own time.
unfoldable pub insert_point : {D : Type 0} → GpsPoint D → List (GpsPoint D) → List (GpsPoint D)
insert_point p [] = p ∷ []
insert_point p (q ∷ qs) =
    let rest = insert_point p qs in if ltb p.recorded_at q.recorded_at then p ∷ q ∷ qs else q ∷ rest

unfoldable pub insert_points :
    {D : Type 0} → List (GpsPoint D) → List (GpsPoint D) → List (GpsPoint D)
unfolding insert_point
insert_points [] sorted = sorted
insert_points (p ∷ ps) sorted = insert_points ps (insert_point p sorted)

-- `slice(1).reduce(…)`, from the point before.
unfoldable pub travel : (F : Double) → F.D → GpsPoint F.D → List (GpsPoint F.D) → F.D
travel F total previous [] = total
travel F total previous (p ∷ ps) =
    travel F (F.plus total (distance_meters_between F previous.place p.place)) p ps

abbrev pub movement_of : (F : Double) → List (GpsPoint F.D) → F.D
movement_of F [] = F.of_nat 0
movement_of F (p ∷ ps) = travel F (F.of_nat 0) p ps

abbrev pub is_empty {ℓ} : {A : Type ℓ} → List A → Bool
is_empty [] = true
is_empty (x ∷ xs) = false

-- `durationMinutes == null || durationMinutes < min`, without the division by 60000.
unfoldable pub is_duration_abnormal : Option ℕ → Option ℕ → Option ℕ → ℕ → Bool
is_duration_abnormal (some minutes) started completed least = ltb minutes least
is_duration_abnormal none (some started) (some completed) least =
    ltb completed (started + least * 60000)
is_duration_abnormal none none completed least = true
is_duration_abnormal none (some started) none least = true

abbrev pub is_timeline_invalid : Option ℕ → Option ℕ → Bool
is_timeline_invalid (some started) (some completed) = leb completed started
is_timeline_invalid none completed = false
is_timeline_invalid (some started) none = false

abbrev pub is_repeated_pair : Option ℕ → Bool
is_repeated_pair none = false
is_repeated_pair (some trips) = leb 10 trips

-- `if (test) reasons.push(reason)`, before the pushes that follow.
abbrev pub push_if : Bool → FraudReason → List FraudReason → List FraudReason
push_if test reason later = if test then reason ∷ later else later

unfoldable pub fraud_reasons :
    (F : Double) → FraudContext F.D → RewardConfig → F.D → List FraudReason
unfolding is_duration_abnormal
fraud_reasons F c rules movement =
    push_if c.is_duplicate_reward FraudReason.duplicate_reward_source (
      push_if (not c.is_pin_verified) FraudReason.start_pin_not_verified (
        push_if (is_empty c.gps_points) FraudReason.no_gps_points (
          push_if
            (not (is_empty c.gps_points) && F.less movement (F.of_nat rules.min_movement_meters))
            FraudReason.insufficient_movement
            (push_if
              (is_duration_abnormal c.completed_trip_duration_minutes c.trip_started_at
                c.trip_completed_at rules.min_trip_duration_minutes)
              FraudReason.abnormal_trip_duration
              (push_if (is_timeline_invalid c.trip_started_at c.trip_completed_at)
                FraudReason.timeline_order_invalid
                (push_if (is_repeated_pair c.repeat_pair_completed_trips)
                  FraudReason.repeat_pair_pattern
                  (push_if c.is_referral_self FraudReason.self_referral
                    (push_if c.is_referral_cycle FraudReason.referral_cycle []))))))))

-- The early returns: from a context that is refused outright, and from the score.
unfoldable pub decide_risk : Bool → ℕ → RewardConfig → RewardRiskLevel × FraudEvaluationStatus
decide_risk refused score rules =
    if refused
    then (RewardRiskLevel.critical, FraudEvaluationStatus.rejected)
    else if leb rules.high_review_threshold score
    then (RewardRiskLevel.high, FraudEvaluationStatus.pending_review)
    else if leb rules.medium_review_threshold score
    then (RewardRiskLevel.medium, FraudEvaluationStatus.pending_review)
    else (RewardRiskLevel.low, FraudEvaluationStatus.auto_approved)

abbrev pub is_refused : {D : Type 0} → FraudContext D → Bool
is_refused c = c.is_duplicate_reward || c.is_referral_self || c.is_referral_cycle

unfoldable pub evaluate_reward_fraud : (F : Double) → FraudContext F.D → RewardConfig → Verdict F.D
unfolding fraud_reasons insert_points travel decide_risk
evaluate_reward_fraud F c rules =
    let movement = movement_of F (insert_points c.gps_points []) in
    let reasons = fraud_reasons F c rules movement in
    let (risk_level, status) = decide_risk (is_refused c) (length reasons) rules in
    record {
      risk_level = risk_level;
      status = status;
      score = length reasons;
      reasons = reasons;
      movement_meters = movement;
    }
