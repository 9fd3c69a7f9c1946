-- ===== src/Rewards/Qualifying/Passengers.antt =====
-- The loop over the bookings in qualifyRewardsForCompletedTrip of apps/api/src/main.ts, run again.
use nodex_v.Prelude.{
  ℕ, ◌≡◌, refl, sym, arith, true, List, [], ◌∷◌, some, inl, inr, Bool-cases, Option-cases, ap, ◌∙◌,
  subst, All,
}
use nodex_v.Prelude.Double.{Double}
use nodex_v.Rewards.{RewardConfig, RewardStore, client}
use nodex_v.Rewards.Grants.{create_reward_with_evaluation}
use nodex_v.Rewards.Qualifying.{
  qualify_referral_reward_for_user, client_input, qualify_booking, qualify_bookings, is_completed,
}
use nodex_v.Rewards.Trips.{CompletedTrip, PassengerBooking}
use nodex_v.Rewards.Qualifying.Keeping.{
  HasReward, IsSettled, Keeps, Keeps-refl, Keeps-trans, create-Keeps, create-has, create-quiet,
  create-referrals,
}
use nodex_v.Rewards.Qualifying.Referring.{refer-Keeps, refer-settles, refer-quiet, refer-progress}

module _ (F : Double) (config : RewardConfig) (now : ℕ) (trip : CompletedTrip F.D) where
  -- What a run of the loop leaves for the booking of `user`.
  abbrev pub IsGranted : PassengerBooking → ℕ → RewardStore → Type 0
  IsGranted b user s = HasReward s (client_input config trip b user).key × IsSettled s user client

  abbrev pub AreGranted : List PassengerBooking → RewardStore → Type 0
  AreGranted bs s =
      All
        (λ b.
          (user : ℕ) → b.client_id ≡ some user → is_completed b.status ≡ true → IsGranted b user s)
        bs

  module _ (b : PassengerBooking) (user : ℕ) (s : RewardStore) where
    abbrev after : RewardStore
    after = (create_reward_with_evaluation F config now (client_input config trip b user) s).0

    booking-store :
        (qualify_booking F config now trip b user s).0
        ≡ (qualify_referral_reward_for_user F config now user client trip.id
            (client_input config trip b user).fraud_context
            after).0
    unfolding qualify_booking
    booking-store = refl

    booking-Keeps : Keeps s (qualify_booking F config now trip b user s).0
    booking-Keeps = rw booking-store (
        Keeps-trans s after _ (create-Keeps F config now (client_input config trip b user) s)
          (refer-Keeps F config now user client trip.id _ after))

    booking-grants : IsGranted b user (qualify_booking F config now trip b user s).0
    booking-grants = rw booking-store (
      (refer-Keeps F config now user client trip.id _ after).has_reward _
          (create-has F config now (client_input config trip b user) s),
      refer-settles F config now user client trip.id _ after,
    )

    booking-quiet :
        IsGranted b user s → (qualify_booking F config now trip b user s).0.rewards ≡ s.rewards
    booking-quiet (has, settled) =
        let same : after ≡ s = create-quiet F config now (client_input config trip b user) s has in
        ap (λ t. t.rewards) booking-store
        ∙ refer-quiet F config now user client trip.id _ after
            (subst (λ t. IsSettled t user client) (sym same) settled)
        ∙ ap (λ t. t.rewards) same

    booking-progress : (qualify_booking F config now trip b user s).0.progress ≡ s.progress
    booking-progress =
        ap (λ t. t.progress) booking-store
        ∙ refer-progress F config now user client trip.id _ after
        ∙ (create-referrals F config now (client_input config trip b user) s).1

  -- The loop passes over the booking, or grants its rewards.
  data Turn (b : PassengerBooking) (bs : List PassengerBooking) (s : RewardStore) : Type 0 where
    passed :
        ((user : ℕ) → b.client_id ≡ some user → is_completed b.status ≡ true → ⊥)
        → (qualify_bookings F config now trip (b ∷ bs) s).0
          ≡ (qualify_bookings F config now trip bs s).0
        → Turn b bs s
    granted :
        (user : ℕ)
        → b.client_id ≡ some user
        → is_completed b.status ≡ true
        → (qualify_bookings F config now trip (b ∷ bs) s).0
          ≡ (qualify_bookings F config now trip bs (qualify_booking F config now trip b user s).0).0
        → Turn b bs s

  turn : (b : PassengerBooking) (bs : List PassengerBooking) (s : RewardStore) → Turn b bs s
  unfolding qualify_bookings
  turn b bs s = elim (Option-cases b.client_id) [
    | inl n ↦ passed (λ user e c. absurd (ground (arith, n, e))) (rw (n, qualify_bookings) refl)
    | inr (user, e) ↦ elim (Bool-cases (is_completed b.status)) [
      | inl c ↦ granted user e c (rw (e, c, qualify_bookings) refl)
      | inr c ↦ passed (λ u f d. absurd (ground (arith, c, d))) (rw (e, c, qualify_bookings) refl)
    ]
  ]

  pub loop-Keeps :
      (bs : List PassengerBooking) (s : RewardStore)
      → Keeps s (qualify_bookings F config now trip bs s).0
  unfolding qualify_bookings
  loop-Keeps [] s = Keeps-refl s
  loop-Keeps (b ∷ bs) s = elim (turn b bs s) [
    | passed out e ↦ rw e (loop-Keeps bs s)
    | granted user c d e ↦ rw e (
        Keeps-trans s (qualify_booking F config now trip b user s).0 _ (booking-Keeps b user s)
          (loop-Keeps bs (qualify_booking F config now trip b user s).0))
  ]

  pub Granted-Keeps :
      (bs : List PassengerBooking) (s t : RewardStore)
      → Keeps s t
      → AreGranted bs s
      → AreGranted bs t
  Granted-Keeps [] s t k g = tt
  Granted-Keeps (b ∷ bs) s t k (first, rest) = (
    λ user e c. (k.has_reward _ (first user e c).0, k.is_settled user client (first user e c).1),
    Granted-Keeps bs s t k rest,
  )

  one-grants :
      (b : PassengerBooking) (bs : List PassengerBooking) (s : RewardStore) (user u : ℕ)
      → user ≡ u
      → IsGranted b u
          (qualify_bookings F config now trip bs (qualify_booking F config now trip b user s).0).0
  one-grants b bs s user u same =
      let t =
        (qualify_bookings F config now trip bs (qualify_booking F config now trip b user s).0).0 in
      let k = loop-Keeps bs (qualify_booking F config now trip b user s).0 in
      let (has, settled) = booking-grants b user s in
      subst (λ v. IsGranted b v t) same (k.has_reward _ has, k.is_settled user client settled)

  pub loop-grants :
      (bs : List PassengerBooking) (s : RewardStore)
      → AreGranted bs (qualify_bookings F config now trip bs s).0
  unfolding qualify_bookings
  loop-grants [] s = tt
  loop-grants (b ∷ bs) s = elim (turn b bs s) [
    | passed out e ↦
        (λ user c d. absurd (out user c d), subst (AreGranted bs) (sym e) (loop-grants bs s))
    | granted user c d e ↦ (
      λ u f d'.
          subst (λ t. IsGranted b u t) (sym e) (one-grants b bs s user u (ground (arith, c, f))),
      subst (AreGranted bs) (sym e) (loop-grants bs (qualify_booking F config now trip b user s).0),
    )
  ]

  pub loop-progress :
      (bs : List PassengerBooking) (s : RewardStore)
      → (qualify_bookings F config now trip bs s).0.progress ≡ s.progress
  unfolding qualify_bookings
  loop-progress [] s = refl
  loop-progress (b ∷ bs) s = elim (turn b bs s) [
    | passed out e ↦ rw e (loop-progress bs s)
    | granted user c d e ↦ rw e (
        loop-progress bs (qualify_booking F config now trip b user s).0 ∙ booking-progress b user s)
  ]

  -- The loop makes no reward where all were granted.
  pub loop-quiet :
      (bs : List PassengerBooking) (s : RewardStore)
      → AreGranted bs s
      → (qualify_bookings F config now trip bs s).0.rewards ≡ s.rewards
  unfolding qualify_bookings
  loop-quiet [] s g = refl
  loop-quiet (b ∷ bs) s g = elim (turn b bs s) [
    | passed out e ↦ rw e (loop-quiet bs s g.1)
    | granted user c d e ↦ rw e (
        loop-quiet bs (qualify_booking F config now trip b user s).0
          (Granted-Keeps bs s _ (booking-Keeps b user s) g.1)
        ∙ booking-quiet b user s (g.0 user c d))
  ]
