-- ===== src/Rewards/Invariant/Steps.antt =====
-- Sequences of completed trips and reviews (apps/api/src/main.ts), in any order.
use nodex_v.Prelude.{
  ℕ, ◌≡◌, refl, sym, Bool, true, false, List, [], ◌∷◌, Option, none, some, All, inl, inr,
  Option-cases, Bool-cases, ok, subst, length, keep, ltb,
}
use nodex_v.Prelude.Double.{Double}
use nodex_v.Rewards.{
  RewardConfig, RewardTransaction, RewardStore, RoleContext, MilestoneDefinition, Referral, client,
  driver,
}
use nodex_v.Rewards.Fraud.{FraudContext}
use nodex_v.Rewards.Grants.{same_key, find_reward, ReviewDecision, review_reward}
use nodex_v.Rewards.Grants.Once.{same_key_refl}
use nodex_v.Rewards.Milestones.{
  ensure_driver_milestone_definition, grant_bonus, milestone_input,
  update_driver_milestone_progress,
}
use nodex_v.Rewards.Qualifying.{
  referral_input, has_reverse_referral, driver_input, client_input, find_referral,
  qualify_referral_reward_for_user, qualify_booking, qualify_bookings, is_completed,
  qualify_driver_referral, qualify_driver, is_trip_completed, qualify_rewards_for_completed_trip,
}
use nodex_v.Rewards.Trips.{CompletedTrip, PassengerBooking, driver_context}
use nodex_v.Rewards.Invariant.{Distinct, Paired, IsSound}
use nodex_v.Rewards.Invariant.Rows.{create-IsSound, review-IsSound}

refer-IsSound :
    (F : Double) (config : RewardConfig) (now user : ℕ) (role : RoleContext) (trip : ℕ)
    (context : FraudContext F.D) (s : RewardStore)
    → IsSound s
    → IsSound (qualify_referral_reward_for_user F config now user role trip context s).0
unfolding qualify_referral_reward_for_user
refer-IsSound F config now user role trip context s v =
    elim (Option-cases (find_referral user role s)) [
      | inl e ↦ rw (e, qualify_referral_reward_for_user) v
      | inr (r, e) ↦
          let input =
            referral_input config user role trip
              (has_reverse_referral user r.referrer_user_id role s) context r in
          let made = create-IsSound F config now input s v in
          rw (e, qualify_referral_reward_for_user)
            (record { distinct = made.distinct; paired = made.paired })
    ]

grant_bonus-IsSound :
    (F : Double) (config : RewardConfig) (now profile user : ℕ) (definition : MilestoneDefinition)
    (linked : Option ℕ) (reached : Bool) (s : RewardStore)
    → IsSound s
    → IsSound (grant_bonus F config now profile user definition linked reached s).0
unfolding grant_bonus
grant_bonus-IsSound F config now profile user definition (some id) reached s v = v
grant_bonus-IsSound F config now profile user definition none false s v = v
grant_bonus-IsSound F config now profile user definition none true s v =
    create-IsSound F config now (milestone_input F config now profile user definition) s v

ensure-IsSound :
    (config : RewardConfig) (s : RewardStore)
    → IsSound s
    → IsSound (ensure_driver_milestone_definition config s).0
unfolding ensure_driver_milestone_definition
ensure-IsSound config s v = elim (Option-cases s.definition) [
  | inl e ↦
      rw (e, ensure_driver_milestone_definition)
        (record { distinct = v.distinct; paired = v.paired })
  | inr (d, e) ↦
      rw (e, ensure_driver_milestone_definition)
        (record { distinct = v.distinct; paired = v.paired })
]

update-IsSound :
    (F : Double) (config : RewardConfig) (now profile user : ℕ) (s : RewardStore)
    → IsSound s
    → IsSound (update_driver_milestone_progress F config now profile user s)
unfolding update_driver_milestone_progress
update-IsSound F config now profile user s v =
    let granted =
      grant_bonus-IsSound F config now profile user (ensure_driver_milestone_definition config s).1
        _ _ _ (ensure-IsSound config s v) in
    record { distinct = granted.distinct; paired = granted.paired }

module _ (F : Double) (config : RewardConfig) (now : ℕ) (trip : CompletedTrip F.D) where
  booking-IsSound :
      (b : PassengerBooking) (user : ℕ) (s : RewardStore)
      → IsSound s
      → IsSound (qualify_booking F config now trip b user s).0
  unfolding qualify_booking
  booking-IsSound b user s v =
      refer-IsSound F config now user client trip.id (client_input config trip b user).fraud_context
        _ (create-IsSound F config now (client_input config trip b user) s v)

  bookings-IsSound :
      (bs : List PassengerBooking) (s : RewardStore)
      → IsSound s
      → IsSound (qualify_bookings F config now trip bs s).0
  unfolding qualify_bookings
  bookings-IsSound [] s v = v
  bookings-IsSound (b ∷ bs) s v = elim (Option-cases b.client_id) [
    | inl n ↦ rw (n, qualify_bookings) (bookings-IsSound bs s v)
    | inr (user, e) ↦ elim (Bool-cases (is_completed b.status)) [
      | inl c ↦ rw (e, c, qualify_bookings) (bookings-IsSound bs _ (booking-IsSound b user s v))
      | inr c ↦ rw (e, c, qualify_bookings) (bookings-IsSound bs s v)
    ]
  ]

  driver_referral-IsSound :
      (s : RewardStore) → IsSound s → IsSound (qualify_driver_referral F config now trip s).0
  unfolding qualify_driver_referral
  driver_referral-IsSound s v = elim (Bool-cases trip.is_driver_approved) [
    | inl a ↦
        rw a
          (refer-IsSound F config now trip.driver_user_id driver trip.id (driver_context trip) s v)
    | inr a ↦ rw a v
  ]

  driver-IsSound : (s : RewardStore) → IsSound s → IsSound (qualify_driver F config now trip s).0
  unfolding qualify_driver
  driver-IsSound s v =
      update-IsSound F config now _ _ _
        (driver_referral-IsSound _ (create-IsSound F config now (driver_input config trip) s v))

  qualify-IsSound :
      (s : RewardStore)
      → IsSound s
      → IsSound (qualify_rewards_for_completed_trip F config now trip s).0
  unfolding qualify_rewards_for_completed_trip
  qualify-IsSound s v = elim (Bool-cases (is_trip_completed trip.status)) [
    | inr c ↦ rw (c, qualify_rewards_for_completed_trip) v
    | inl c ↦ elim (Bool-cases (ltb 0 (length (keep (λ b. is_completed b.status) trip.bookings)))) [
      | inl h ↦
          rw (c, h, qualify_rewards_for_completed_trip)
            (driver-IsSound _ (bookings-IsSound trip.bookings s v))
      | inr h ↦ rw (c, h, qualify_rewards_for_completed_trip) (bookings-IsSound trip.bookings s v)
    ]
  ]

-- A completed trip under any configuration, or a review of any reward.
pub data RewardStep (F : Double) (s t : RewardStore) : Type 0 where
  complete :
      (config : RewardConfig) (now : ℕ) (trip : CompletedTrip F.D)
      → t ≡ (qualify_rewards_for_completed_trip F config now trip s).0
      → RewardStep F s t
  review :
      (id : ℕ) (decision : ReviewDecision) (now : ℕ)
      → review_reward id decision now s ≡ ok t
      → RewardStep F s t

pub data RewardReach (F : Double) (s : RewardStore) : RewardStore → Type 0 where
  here : RewardReach F s s
  next : {t u : RewardStore} → RewardReach F s t → RewardStep F t u → RewardReach F s u

Step-IsSound : (F : Double) {s t : RewardStore} → IsSound s → RewardStep F s t → IsSound t
Step-IsSound F {s} {t} v (complete config now trip e) =
    subst IsSound (sym e) (qualify-IsSound F config now trip s v)
Step-IsSound F {s} {t} v (review id decision now e) = review-IsSound id decision now s t v e

Reach-IsSound : (F : Double) {s t : RewardStore} → IsSound s → RewardReach F s t → IsSound t
Reach-IsSound F v here = v
Reach-IsSound F v (next r st) = Step-IsSound F (Reach-IsSound F v r) st

-- A database without rewards, with any referrals.
unfoldable pub new_store : (ℕ → RoleContext → Option Referral) → RewardStore
new_store referrals = record {
  rewards = [];
  evaluations = [];
  referrals = referrals;
  definition = none;
  progress = λ p. none;
  next_id = 0;
}

new_store-IsSound : (referrals : ℕ → RoleContext → Option Referral) → IsSound (new_store referrals)
unfolding new_store
new_store-IsSound referrals = record { distinct = tt; paired = tt }

found_later :
    (r : RewardTransaction) (rs found : List RewardTransaction)
    → All (λ x. same_key x.key r.key ≡ false) found
    → All (λ x. find_reward x.key rs ≡ some x) found
    → All (λ x. find_reward x.key (r ∷ rs) ≡ some x) found
unfolding find_reward
found_later r rs [] a u = tt
found_later r rs (x ∷ xs) (h, a) (e, u) = (rw h e, found_later r rs xs a u)

Distinct-found :
    (rs : List RewardTransaction) → Distinct rs → All (λ r. find_reward r.key rs ≡ some r) rs
unfolding find_reward
Distinct-found [] d = tt
Distinct-found (r ∷ rs) (a, d) =
    (rw (same_key_refl r.key) refl, found_later r rs rs a (Distinct-found rs d))

-- Whatever trips are completed and rewards reviewed, in any order, every row of the rewards is the one
-- that is found under its user, type and source: nobody is rewarded twice for one source.
pub RewardReach-unique :
    (F : Double) (referrals : ℕ → RoleContext → Option Referral) (s : RewardStore)
    → RewardReach F (new_store referrals) s
    → All (λ r. find_reward r.key s.rewards ≡ some r) s.rewards
RewardReach-unique F referrals s r =
    Distinct-found s.rewards (Reach-IsSound F (new_store-IsSound referrals) r).distinct

-- After any such sequence the rows of rewards and of evaluations go in pairs: an evaluation is of its
-- reward, its status gives the status of the reward, and the reward has a time of confirmation just
-- if it is CONFIRMED and a time of rejection just if it is REJECTED.
pub RewardReach-Paired :
    (F : Double) (referrals : ℕ → RoleContext → Option Referral) (s : RewardStore)
    → RewardReach F (new_store referrals) s
    → Paired s.rewards s.evaluations
RewardReach-Paired F referrals s r = (Reach-IsSound F (new_store-IsSound referrals) r).paired
