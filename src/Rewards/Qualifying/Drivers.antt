-- ===== src/Rewards/Qualifying/Drivers.antt =====
-- The rewards of the driver in qualifyRewardsForCompletedTrip of apps/api/src/main.ts, run again.
use nodex_v.Prelude.{
  ℕ, ◌≡◌, refl, sym, Bool, true, false, Option, none, some, inl, inr, Bool-cases, ap, ◌∙◌, subst,
}
use nodex_v.Prelude.Double.{Double}
use nodex_v.Rewards.{RewardConfig, RewardStore, driver, RewardTransaction, MilestoneDefinition}
use nodex_v.Rewards.Grants.{find_reward, create_reward_with_evaluation}
use nodex_v.Rewards.Milestones.{grant_bonus, milestone_input, update_driver_milestone_progress}
use nodex_v.Rewards.Milestones.Bonus.Granting.{IsLinked, IsLinked-rows, ensured}
use nodex_v.Rewards.Milestones.Bonus.{
  base, granted, written, written_referrals, update-links, update-quiet,
}
use nodex_v.Rewards.Qualifying.{
  find_referral, driver_input, qualify_driver_referral, qualify_driver,
}
use nodex_v.Rewards.Trips.{CompletedTrip, driver_context}
use nodex_v.Rewards.Qualifying.Keeping.{
  HasReward, IsSettled, referral_key, Keeps, Keeps-refl, Keeps-trans, create-Keeps, create-has,
  create-quiet,
}
use nodex_v.Rewards.Qualifying.Referring.{refer-Keeps, refer-settles, refer-quiet, refer-progress}

module _ (F : Double) (config : RewardConfig) (now : ℕ) (trip : CompletedTrip F.D) where
  abbrev pub IsDriverSettled : RewardStore → Type 0
  IsDriverSettled s = trip.is_driver_approved ≡ true → IsSettled s trip.driver_user_id driver

  refer_driver-Keeps : (s : RewardStore) → Keeps s (qualify_driver_referral F config now trip s).0
  unfolding qualify_driver_referral
  refer_driver-Keeps s = elim (Bool-cases trip.is_driver_approved) [
    | inl a ↦
        rw a (refer-Keeps F config now trip.driver_user_id driver trip.id (driver_context trip) s)
    | inr a ↦ rw a (Keeps-refl s)
  ]

  refer_driver-settles :
      (s : RewardStore) → IsDriverSettled (qualify_driver_referral F config now trip s).0
  unfolding qualify_driver_referral
  refer_driver-settles s a =
      rw a (refer-settles F config now trip.driver_user_id driver trip.id (driver_context trip) s)

  refer_driver-progress :
      (s : RewardStore) → (qualify_driver_referral F config now trip s).0.progress ≡ s.progress
  unfolding qualify_driver_referral
  refer_driver-progress s = elim (Bool-cases trip.is_driver_approved) [
    | inl a ↦
        rw a
          (refer-progress F config now trip.driver_user_id driver trip.id (driver_context trip) s)
    | inr a ↦ rw a refl
  ]

  refer_driver-quiet :
      (s : RewardStore)
      → IsDriverSettled s
      → (qualify_driver_referral F config now trip s).0.rewards ≡ s.rewards
  unfolding qualify_driver_referral
  refer_driver-quiet s settled = elim (Bool-cases trip.is_driver_approved) [
    | inl a ↦ rw a (
        refer-quiet F config now trip.driver_user_id driver trip.id (driver_context trip) s
          (settled a))
    | inr a ↦ rw a refl
  ]

  -- Equal rows are kept.
  Keeps-rows : (s t : RewardStore) → t.rewards ≡ s.rewards → t.referrals ≡ s.referrals → Keeps s t
  unfolding find_referral
  Keeps-rows s t rows referrals = record {
    has_reward =
        λ key h. subst (λ rs. (r : RewardTransaction) × (find_reward key rs ≡ some r)) (sym rows) h;
    is_settled = λ user role settled r e.
        subst (λ rs. (x : RewardTransaction) × (find_reward (referral_key role r) rs ≡ some x))
          (sym rows)
          (settled r
            (ap (λ f. find_referral user role (record s { referrals = f })) (sym referrals) ∙ e));
  }

  grant_bonus-Keeps :
      (definition : MilestoneDefinition) (linked : Option ℕ) (reached : Bool) (s : RewardStore)
      → Keeps s
          (grant_bonus F config now trip.driver_profile_id trip.driver_user_id definition linked
            reached s).0
  unfolding grant_bonus
  grant_bonus-Keeps definition (some id) reached s = Keeps-refl s
  grant_bonus-Keeps definition none false s = Keeps-refl s
  grant_bonus-Keeps definition none true s =
      create-Keeps F config now
        (milestone_input F config now trip.driver_profile_id trip.driver_user_id definition) s

  updated : RewardStore → RewardStore
  updated s =
      update_driver_milestone_progress F config now trip.driver_profile_id trip.driver_user_id s

  updated-Keeps : (s : RewardStore) → Keeps s (updated s)
  unfolding updated
  updated-Keeps s =
      let (rows, referrals, progress, target) = ensured config s in
      let before = base F config now trip.driver_profile_id trip.driver_user_id s in
      let after = granted F config now trip.driver_profile_id trip.driver_user_id s in
      Keeps-trans s before _ (Keeps-rows s before rows referrals) (
        Keeps-trans before after.0 _ (grant_bonus-Keeps _ _ _ before) (
          Keeps-rows after.0 _ (written F config now trip.driver_profile_id trip.driver_user_id s)
            (written_referrals F config now trip.driver_profile_id trip.driver_user_id s)))

  -- What a run leaves for the driver.
  pub record IsDriverGranted (s : RewardStore) : Type 0 where
    pub ticket : HasReward s (driver_input config trip).key
    pub settled : IsDriverSettled s
    pub linked : IsLinked F config now trip.driver_profile_id trip.driver_user_id s

  pub IsDriverGranted-rows :
      (s t : RewardStore)
      → Keeps s t
      → t.rewards ≡ s.rewards
      → t.progress ≡ s.progress
      → IsDriverGranted s
      → IsDriverGranted t
  IsDriverGranted-rows s t k rows progress g = record {
    ticket = k.has_reward _ g.ticket;
    settled = λ a. k.is_settled trip.driver_user_id driver (g.settled a);
    linked =
        IsLinked-rows F config now trip.driver_profile_id trip.driver_user_id s t rows progress
          g.linked;
  }

  module _ (s : RewardStore) where
    ticketed : RewardStore
    ticketed = (create_reward_with_evaluation F config now (driver_input config trip) s).0

    referred : RewardStore
    referred = (qualify_driver_referral F config now trip ticketed).0

    driver-store : (qualify_driver F config now trip s).0 ≡ updated referred
    unfolding qualify_driver updated referred ticketed
    driver-store = refl

    referred-Keeps : Keeps s referred
    unfolding referred ticketed
    referred-Keeps =
        Keeps-trans s ticketed _ (create-Keeps F config now (driver_input config trip) s)
          (refer_driver-Keeps ticketed)

    pub driver-Keeps : Keeps s (qualify_driver F config now trip s).0
    driver-Keeps =
        rw driver-store (Keeps-trans s referred _ referred-Keeps (updated-Keeps referred))

    driver-settled : IsDriverSettled (updated referred)
    unfolding referred
    driver-settled a =
        (updated-Keeps referred).is_settled trip.driver_user_id driver
          (refer_driver-settles ticketed a)

    driver-ticket : HasReward (updated referred) (driver_input config trip).key
    unfolding referred ticketed
    driver-ticket = (updated-Keeps referred).has_reward _ (
        (refer_driver-Keeps ticketed).has_reward _
          (create-has F config now (driver_input config trip) s))

    driver-IsLinked :
        IsLinked F config now trip.driver_profile_id trip.driver_user_id (updated referred)
    unfolding updated
    driver-IsLinked = update-links F config now trip.driver_profile_id trip.driver_user_id referred

    pub driver-grants : IsDriverGranted (qualify_driver F config now trip s).0
    driver-grants =
        rw driver-store
          (record { ticket = driver-ticket; settled = driver-settled; linked = driver-IsLinked })

    pub driver-quiet :
        IsDriverGranted s → (qualify_driver F config now trip s).0.rewards ≡ s.rewards
    unfolding updated referred ticketed
    driver-quiet g =
        let one : ticketed ≡ s = create-quiet F config now (driver_input config trip) s g.ticket in
        let two : referred.rewards ≡ s.rewards =
          refer_driver-quiet ticketed (subst IsDriverSettled (sym one) g.settled)
          ∙ ap (λ t. t.rewards) one in
        let same_progress : referred.progress ≡ s.progress =
          refer_driver-progress ticketed ∙ ap (λ t. t.progress) one in
        let linked : IsLinked F config now trip.driver_profile_id trip.driver_user_id referred =
          IsLinked-rows F config now trip.driver_profile_id trip.driver_user_id s referred two
            same_progress g.linked in
        ap (λ t. t.rewards) driver-store
        ∙ update-quiet F config now trip.driver_profile_id trip.driver_user_id referred linked
        ∙ two
