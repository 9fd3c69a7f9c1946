-- ===== src/Rewards/Fraud/Deciding.antt =====
-- The decision of evaluateRewardFraud of packages/validation/src/index.ts.
use nodex_v.Prelude.{
  ℕ, suc, ◌+◌, ◌*◌, ◌<◌, ◌≡◌, ◌↔◌, ◌⊎◌, refl, arith, Bool, true, false, not, ◌&&◌, List, [], ◌∷◌,
  Option, none, some, length, ltb, leb,
}
use nodex_v.Prelude.Double.{Double}
use nodex_v.Rewards.{RewardStatus, RewardConfig, FraudReason}
use nodex_v.Rewards.Fraud.{
  FraudContext, GpsPoint, reward_status_for_fraud_status, decide_risk, is_refused, push_if,
  is_duration_abnormal, is_timeline_invalid, is_repeated_pair, is_empty, fraud_reasons,
  evaluate_reward_fraud,
}

-- What speaks for a trip: it has points, and moved as far as it must.
abbrev pub has_moved : (F : Double) → List (GpsPoint F.D) → F.D → ℕ → Bool
has_moved F [] movement least = false
has_moved F (p ∷ ps) movement least = not (F.less movement (F.of_nat least))

-- It took long enough, by its minutes if they are given, else from its start to its completion.
abbrev pub has_lasted : Option ℕ → Option ℕ → Option ℕ → ℕ → Bool
has_lasted (some minutes) started completed least = leb least minutes
has_lasted none (some started) (some completed) least = leb (started + least * 60000) completed
has_lasted none _ _ least = false

-- It was not completed before it was started, or at that time.
abbrev pub is_in_order : Option ℕ → Option ℕ → Bool
is_in_order (some started) (some completed) = ltb started completed
is_in_order _ _ = true

-- The two have fewer than ten trips in common.
abbrev pub is_new_pair : Option ℕ → Bool
is_new_pair none = true
is_new_pair (some trips) = ltb trips 10

abbrev pub assurances : (F : Double) → FraudContext F.D → RewardConfig → F.D → List Bool
assurances F c rules movement =
    c.is_pin_verified
    ∷ has_moved F c.gps_points movement rules.min_movement_meters
    ∷ has_lasted c.completed_trip_duration_minutes c.trip_started_at c.trip_completed_at
        rules.min_trip_duration_minutes
    ∷ is_in_order c.trip_started_at c.trip_completed_at
    ∷ is_new_pair c.repeat_pair_completed_trips
    ∷ []

abbrev pub count_false : List Bool → ℕ
count_false [] = 0
count_false (true ∷ bs) = count_false bs
count_false (false ∷ bs) = suc (count_false bs)

-- What the thresholds and the three grounds for a refusal decide.
decided :
    (refused : Bool) (score : ℕ) (rules : RewardConfig)
    → ((reward_status_for_fraud_status (decide_risk refused score rules).1 ≡ RewardStatus.confirmed)
        ↔ ((refused ≡ false)
            × (score < rules.high_review_threshold)
            × (score < rules.medium_review_threshold)))
      × ((reward_status_for_fraud_status (decide_risk refused score rules).1
            ≡ RewardStatus.rejected)
          ↔ (refused ≡ true))
unfolding decide_risk reward_status_for_fraud_status
decided refused score rules = (ground arith, ground arith)

lasted-abnormal :
    (minutes started completed : Option ℕ) (least : ℕ)
    → is_duration_abnormal minutes started completed least
      ≡ not (has_lasted minutes started completed least)
unfolding is_duration_abnormal
lasted-abnormal (some minutes) started completed least = ground arith
lasted-abnormal none (some started) (some completed) least = ground arith
lasted-abnormal none none completed least = refl
lasted-abnormal none (some started) none least = refl

order-invalid :
    (started completed : Option ℕ)
    → is_timeline_invalid started completed ≡ not (is_in_order started completed)
order-invalid (some started) (some completed) = ground arith
order-invalid none completed = refl
order-invalid (some started) none = refl

pair-repeated : (trips : Option ℕ) → is_repeated_pair trips ≡ not (is_new_pair trips)
pair-repeated none = refl
pair-repeated (some trips) = ground arith

length-push_if :
    (b : Bool) (r : FraudReason) (xs : List FraudReason) (bs : List Bool)
    → length xs ≡ count_false bs
    → length (push_if (not b) r xs) ≡ count_false (b ∷ bs)
length-push_if true r xs bs h = h
length-push_if false r xs bs h = omega (arith, h)

push_none :
    (b : Bool) (r : FraudReason) (xs : List FraudReason) (n : ℕ)
    → b ≡ false
    → length xs ≡ n
    → length (push_if b r xs) ≡ n
push_none b r xs n e h = rw e h

push_moved :
    (F : Double) (points : List (GpsPoint F.D)) (movement : F.D) (least : ℕ) (r r' : FraudReason)
    (xs : List FraudReason) (bs : List Bool)
    → length xs ≡ count_false bs
    → length (
        push_if
          (is_empty points)
          r
          (push_if (not (is_empty points) && F.less movement (F.of_nat least)) r' xs))
      ≡ count_false (has_moved F points movement least ∷ bs)
push_moved F [] movement least r r' xs bs h = omega (arith, h)
push_moved F (p ∷ ps) movement least r r' xs bs h = by_less (F.less movement (F.of_nat least))
  where
    by_less : (less : Bool) → length (push_if less r' xs) ≡ count_false (not less ∷ bs)
    by_less true = omega (arith, h)
    by_less false = h

-- Without a ground for a refusal there are as many reasons as assurances that are missing.
reasons-count :
    (F : Double) (c : FraudContext F.D) (rules : RewardConfig) (movement : F.D)
    → is_refused c ≡ false
    → length (fraud_reasons F c rules movement) ≡ count_false (assurances F c rules movement)
unfolding fraud_reasons
reasons-count F c rules movement e =
    let lasted =
      has_lasted c.completed_trip_duration_minutes c.trip_started_at c.trip_completed_at
        rules.min_trip_duration_minutes in
    let ordered = is_in_order c.trip_started_at c.trip_completed_at in
    let fresh = is_new_pair c.repeat_pair_completed_trips in
    let circle = push_if c.is_referral_cycle FraudReason.referral_cycle [] in
    let own = push_if c.is_referral_self FraudReason.self_referral circle in
    let pair = push_if (not fresh) FraudReason.repeat_pair_pattern own in
    let order = push_if (not ordered) FraudReason.timeline_order_invalid pair in
    let duration = push_if (not lasted) FraudReason.abnormal_trip_duration order in
    let none_refused : length own ≡ 0 =
      push_none c.is_referral_self FraudReason.self_referral circle 0 (ground arith)
        (push_none c.is_referral_cycle FraudReason.referral_cycle [] 0 (ground arith) refl) in
    let counted : length duration ≡ count_false (lasted ∷ ordered ∷ fresh ∷ []) =
      length-push_if lasted FraudReason.abnormal_trip_duration order (ordered ∷ fresh ∷ []) (
        length-push_if ordered FraudReason.timeline_order_invalid pair (fresh ∷ [])
          (length-push_if fresh FraudReason.repeat_pair_pattern own [] none_refused)) in
    let moved =
      push_moved F c.gps_points movement rules.min_movement_meters FraudReason.no_gps_points
        FraudReason.insufficient_movement duration (lasted ∷ ordered ∷ fresh ∷ []) counted in
    rw
      (
        lasted-abnormal c.completed_trip_duration_minutes c.trip_started_at c.trip_completed_at
            rules.min_trip_duration_minutes,
        order-invalid c.trip_started_at c.trip_completed_at,
        pair-repeated c.repeat_pair_completed_trips,
      )
      (push_none c.is_duplicate_reward FraudReason.duplicate_reward_source _ _ (ground arith) (
        length-push_if c.is_pin_verified FraudReason.start_pin_not_verified _
          (has_moved F c.gps_points movement rules.min_movement_meters
            ∷ lasted
            ∷ ordered
            ∷ fresh
            ∷ [])
          moved))

-- A reward is CONFIRMED at once just if its source is no duplicate, its referral is neither to oneself
-- nor in a circle, and the assurances that are missing are fewer than both thresholds: a verified PIN,
-- points with enough movement, a trip that lasted long enough, times in order, and a pair with fewer
-- than ten trips. It is REJECTED just if its source is a duplicate, or its referral to oneself or in a
-- circle.
pub evaluate_reward_fraud-decided :
    (F : Double) (c : FraudContext F.D) (rules : RewardConfig)
    → ((reward_status_for_fraud_status (evaluate_reward_fraud F c rules).status
          ≡ RewardStatus.confirmed)
        ↔ ((c.is_duplicate_reward ≡ false)
            × (c.is_referral_self ≡ false)
            × (c.is_referral_cycle ≡ false)
            × (count_false (assurances F c rules (evaluate_reward_fraud F c rules).movement_meters)
                < rules.high_review_threshold)
            × (count_false (assurances F c rules (evaluate_reward_fraud F c rules).movement_meters)
                < rules.medium_review_threshold)))
      × ((reward_status_for_fraud_status (evaluate_reward_fraud F c rules).status
            ≡ RewardStatus.rejected)
          ↔ ((c.is_duplicate_reward ≡ true)
              ⊎ (c.is_referral_self ≡ true)
              ⊎ (c.is_referral_cycle ≡ true)))
unfolding evaluate_reward_fraud
evaluate_reward_fraud-decided F c rules =
    let verdict = evaluate_reward_fraud F c rules in
    let movement = verdict.movement_meters in
    let (confirms, rejects) = decided (is_refused c) (length verdict.reasons) rules in
    (
      (
        (λ h.
            let (free, high, medium) = confirms.0 h in
            let count = reasons-count F c rules movement free in
            (
              ground arith,
              ground arith,
              ground arith,
              omega (arith, count, high),
              omega (arith, count, medium),
            )),
        (λ (dup, own, circle, high, medium).
            let free : is_refused c ≡ false = ground arith in
            let count = reasons-count F c rules movement free in
            confirms.1 (free, omega (arith, count, high), omega (arith, count, medium))),
      ),
      ((λ h. split (rejects.0 h)), (λ h. rejects.1 (join h))),
    )
  where
    split :
        is_refused c ≡ true
        → (c.is_duplicate_reward ≡ true)
          ⊎ (c.is_referral_self ≡ true)
          ⊎ (c.is_referral_cycle ≡ true)
    split h = ground arith

    join :
        (c.is_duplicate_reward ≡ true) ⊎ (c.is_referral_self ≡ true) ⊎ (c.is_referral_cycle ≡ true)
        → is_refused c ≡ true
    join h = ground arith
