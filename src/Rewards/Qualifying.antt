-- ===== src/Rewards/Qualifying.antt =====
-- apps/api/src/main.ts: qualifyReferralRewardForUser and qualifyRewardsForCompletedTrip. What the
-- queries on other tables answer is part of the trip that is read.
pub mod Keeping
pub mod Drivers
pub mod Passengers
pub mod Referring
pub mod Replay
use nodex_v.Prelude.{
  ℕ, ◌==◌, Bool, true, false, ◌&&◌, ◌||◌, List, [], ◌∷◌, ◌++◌, Option, none, some, any, keep,
  length, ltb, map, if◌then◌else◌,
}
use nodex_v.Prelude.Double.{Double}
use nodex_v.Lifecycle.Trip.{TripStatus}
use nodex_v.Booking.Store.{BookingStatus}
use nodex_v.Rewards.{
  RewardStatus, RewardType, RewardSourceType, ReferralStatus, RoleContext, RewardConfig,
  RewardTransaction, Referral, RewardStore, client, driver,
}
use nodex_v.Rewards.Fraud.{GpsPoint, FraudContext}
use nodex_v.Rewards.Grants.{
  RewardInput, create_reward_with_evaluation, is_confirmed, is_rejected, time_if,
}
use nodex_v.Rewards.Milestones.{update_driver_milestone_progress}
use nodex_v.Rewards.Trips.{
  CompletedTrip, OperationEvent, OperationEventType, PassengerBooking, StartPin, completed_at,
  driver_context, has_time, is_completion_event, is_start_event, or_else, other, pin_verified,
  started_at, trip_completed, trip_context, trip_in_progress, trip_started,
}

abbrev pub is_open_referral : ReferralStatus → Bool
is_open_referral ReferralStatus.invited = true
is_open_referral ReferralStatus.registered = true
is_open_referral ReferralStatus.qualified = true
is_open_referral ReferralStatus.rewarded = false
is_open_referral ReferralStatus.rejected = false

-- The referral of a user in a role with one of the three statuses.
unfoldable pub find_referral : ℕ → RoleContext → RewardStore → Option Referral
find_referral user role s = elim (s.referrals user role) [
  | none ↦ none
  | some r ↦ if is_open_referral r.status then some r else none
]

-- There is a referral of the referrer by the user whom it brought.
unfoldable pub has_reverse_referral : ℕ → ℕ → RoleContext → RewardStore → Bool
has_reverse_referral referred referrer role s = elim (s.referrals referrer role) [
  | none ↦ false
  | some r ↦ r.referrer_user_id == referred
]

abbrev pub referral_outcome : RewardStatus → ReferralStatus
referral_outcome RewardStatus.confirmed = ReferralStatus.rewarded
referral_outcome RewardStatus.rejected = ReferralStatus.rejected
referral_outcome _ = ReferralStatus.qualified

abbrev pub is_role : RoleContext → RoleContext → Bool
is_role client client = true
is_role client driver = false
is_role driver client = false
is_role driver driver = true

abbrev pub close_referral : ℕ → RewardStatus → Referral → Referral
close_referral now status r = record r {
  status = referral_outcome status;
  qualified_at = some now;
  rewarded_at = time_if (is_confirmed status) now;
  rejected_at = time_if (is_rejected status) now;
}

abbrev pub set_referral : ℕ → RoleContext → Referral → RewardStore → RewardStore
set_referral user role r s = record s {
  referrals = λ u c. if u == user && is_role c role then some r else s.referrals u c;
}

abbrev pub referral_type : RoleContext → RewardType
referral_type client = RewardType.client_referral_ticket
referral_type driver = RewardType.driver_referral_ticket

abbrev pub referral_amount : RewardConfig → RoleContext → ℕ
referral_amount config client = config.client_referral_tickets
referral_amount config driver = config.driver_referral_tickets

abbrev pub referral_input :
    {D : Type 0}
    → RewardConfig
    → ℕ
    → RoleContext
    → ℕ
    → Bool
    → FraudContext D
    → Referral
    → RewardInput D
referral_input config referred role trip reverse context r = record {
  key = record {
    user_id = r.referrer_user_id;
    type = referral_type role;
    source_type = RewardSourceType.referral;
    source_id = r.id;
  };
  driver_profile_id = none;
  role_context = role;
  amount = referral_amount config role;
  trip_id = some trip;
  referral_id = some r.id;
  fraud_context = record context {
    is_referral_self = r.referrer_user_id == referred;
    is_referral_cycle = reverse;
  };
}

unfoldable pub qualify_referral_reward_for_user :
    (F : Double)
    → RewardConfig
    → ℕ
    → ℕ
    → RoleContext
    → ℕ
    → FraudContext F.D
    → RewardStore
    → RewardStore × List RewardTransaction
unfolding find_referral has_reverse_referral create_reward_with_evaluation
qualify_referral_reward_for_user F config now referred role trip context s =
    elim (find_referral referred role s) [
      | none ↦ (s, [])
      | some r ↦
          let reverse = has_reverse_referral referred r.referrer_user_id role s in
          let (t, reward) =
            create_reward_with_evaluation F config now
              (referral_input config referred role trip reverse context r) s in
          (set_referral referred role (close_referral now reward.status r) t, reward ∷ [])
    ]

abbrev pub is_completed : BookingStatus → Bool
is_completed BookingStatus.completed = true
is_completed _ = false

unfoldable pub client_input :
    {D : Type 0} → RewardConfig → CompletedTrip D → PassengerBooking → ℕ → RewardInput D
unfolding trip_context
client_input config trip b user = record {
  key = record {
    user_id = user;
    type = RewardType.client_trip_ticket;
    source_type = RewardSourceType.booking;
    source_id = b.id;
  };
  driver_profile_id = none;
  role_context = client;
  amount = config.client_trip_tickets;
  trip_id = some trip.id;
  referral_id = none;
  fraud_context = trip_context trip (pin_verified b) (some (trip.pair_count user));
}

unfoldable pub driver_input : {D : Type 0} → RewardConfig → CompletedTrip D → RewardInput D
unfolding driver_context
driver_input config trip = record {
  key = record {
    user_id = trip.driver_user_id;
    type = RewardType.driver_trip_ticket;
    source_type = RewardSourceType.trip;
    source_id = trip.id;
  };
  driver_profile_id = some trip.driver_profile_id;
  role_context = driver;
  amount = config.driver_trip_tickets;
  trip_id = some trip.id;
  referral_id = none;
  fraud_context = driver_context trip;
}

abbrev pub is_trip_completed : TripStatus → Bool
is_trip_completed TripStatus.completed = true
is_trip_completed _ = false

module _ (F : Double) (config : RewardConfig) (now : ℕ) (trip : CompletedTrip F.D) where
  -- The two rewards of a booking of `user`.
  unfoldable pub qualify_booking :
      PassengerBooking → ℕ → RewardStore → RewardStore × List RewardTransaction
  unfolding client_input create_reward_with_evaluation qualify_referral_reward_for_user
  qualify_booking b user s =
      let input = client_input config trip b user in
      let (s1, reward) = create_reward_with_evaluation F config now input s in
      let (s2, more) =
        qualify_referral_reward_for_user F config now user client trip.id input.fraud_context s1 in
      (s2, reward ∷ more)

  -- The loop over the bookings with a client and status COMPLETED.
  unfoldable pub qualify_bookings :
      List PassengerBooking → RewardStore → RewardStore × List RewardTransaction
  unfolding qualify_booking
  qualify_bookings [] s = (s, [])
  qualify_bookings (b ∷ bs) s = elim (b.client_id) [
    | none ↦ qualify_bookings bs s
    | some user ↦ elim (is_completed b.status) [
      | true ↦
          let (s1, first) = qualify_booking b user s in
          let (s2, later) = qualify_bookings bs s1 in (s2, first ++ later)
      | false ↦ qualify_bookings bs s
    ]
  ]

  unfoldable pub qualify_driver_referral : RewardStore → RewardStore × List RewardTransaction
  unfolding qualify_referral_reward_for_user driver_context
  qualify_driver_referral s =
      if trip.is_driver_approved
      then qualify_referral_reward_for_user F config now trip.driver_user_id driver trip.id
          (driver_context trip) s
      else (s, [])

  unfoldable pub qualify_driver : RewardStore → RewardStore × List RewardTransaction
  unfolding driver_input create_reward_with_evaluation qualify_driver_referral
      update_driver_milestone_progress
  qualify_driver s =
      let (s1, reward) = create_reward_with_evaluation F config now (driver_input config trip) s in
      let (s2, more) = qualify_driver_referral s1 in
      (
        update_driver_milestone_progress F config now trip.driver_profile_id trip.driver_user_id s2,
        reward ∷ more,
      )

  unfoldable pub qualify_rewards_for_completed_trip :
      RewardStore → RewardStore × List RewardTransaction
  unfolding qualify_bookings qualify_driver
  qualify_rewards_for_completed_trip s =
      if is_trip_completed trip.status
      then (let (s1, passengers) = qualify_bookings trip.bookings s in
          if ltb 0 (length (keep (λ b. is_completed b.status) trip.bookings))
          then (let (s2, drivers) = qualify_driver s1 in (s2, passengers ++ drivers))
          else (s1, passengers))
      else (s, [])
