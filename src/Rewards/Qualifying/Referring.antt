-- ===== src/Rewards/Qualifying/Referring.antt =====
-- qualifyReferralRewardForUser of apps/api/src/main.ts, run again.
use nodex_v.Prelude.{
  ℕ, ◌==◌, ◌≡◌, refl, arith, true, false, ◌&&◌, [], none, some, inl, inr, Bool-cases, Option-cases,
  ap, ◌∙◌, subst, Option-cases,
}
use nodex_v.Prelude.Double.{Double}
use nodex_v.Rewards.{RewardStatus, RoleContext, RewardConfig, Referral, RewardStore}
use nodex_v.Rewards.Fraud.{FraudContext}
use nodex_v.Rewards.Grants.{RewardInput, create_reward_with_evaluation}
use nodex_v.Rewards.Qualifying.{
  find_referral, referral_input, close_referral, set_referral, is_role,
  qualify_referral_reward_for_user, has_reverse_referral,
}
use nodex_v.Rewards.Qualifying.Keeping.{
  HasReward, IsSettled, Keeps, Keeps-refl, Keeps-trans, create-Keeps, create-has, create-quiet,
  create-referrals, referral_key,
}

is_role-eq : (a b : RoleContext) → is_role a b ≡ true → a ≡ b
is_role-eq a b e = ground arith

module _ (now referred : ℕ) (role : RoleContext) (r : Referral) (status : RewardStatus)
    (t : RewardStore) (h : HasReward t (referral_key role r)) where
  closed : RewardStore
  closed = set_referral referred role (close_referral now status r) t

  closed-same :
      (user : ℕ) (c : RoleContext)
      → (user == referred && is_role c role) ≡ true
      → IsSettled closed user c
  unfolding closed find_referral
  closed-same user c m found e =
      subst (λ key. HasReward closed key) (ground (arith, is_role-eq c role)) h

  closed-other :
      (user : ℕ) (c : RoleContext)
      → (user == referred && is_role c role) ≡ false
      → IsSettled t user c
      → IsSettled closed user c
  unfolding closed find_referral
  closed-other user c m settled found e = settled found (ground arith)

  closed-Keeps : Keeps t closed
  unfolding closed
  closed-Keeps = record {
    has_reward = λ key has. has;
    is_settled = λ user c settled. elim (Bool-cases (user == referred && is_role c role)) [
      | inl m ↦ closed-same user c m
      | inr m ↦ closed-other user c m settled
    ];
  }

  closed-IsSettled : IsSettled closed referred role
  closed-IsSettled = closed-same referred role (ground arith)

module _ (F : Double) (config : RewardConfig) (now referred : ℕ) (role : RoleContext) (trip : ℕ)
    (context : FraudContext F.D) (s : RewardStore) where
  abbrev input_of : Referral → RewardInput F.D
  input_of r =
      referral_input config referred role trip
        (has_reverse_referral referred r.referrer_user_id role s) context r

  referral_absent :
      find_referral referred role s ≡ none
      → qualify_referral_reward_for_user F config now referred role trip context s ≡ (s, [])
  unfolding qualify_referral_reward_for_user
  referral_absent e = rw (e, qualify_referral_reward_for_user) refl

  referral_found :
      (r : Referral)
      → find_referral referred role s ≡ some r
      → (qualify_referral_reward_for_user F config now referred role trip context s).0
        ≡ closed now referred role r
            (create_reward_with_evaluation F config now (input_of r) s).1.status
            (create_reward_with_evaluation F config now (input_of r) s).0
            (create-has F config now (input_of r) s)
  unfolding qualify_referral_reward_for_user closed
  referral_found r e = rw (e, qualify_referral_reward_for_user) refl

  -- The referral is settled afterwards, and the rest is kept.
  pub refer-Keeps :
      Keeps s (qualify_referral_reward_for_user F config now referred role trip context s).0
  refer-Keeps = elim (Option-cases (find_referral referred role s)) [
    | inl e ↦ rw (referral_absent e) (Keeps-refl s)
    | inr (r, e) ↦ rw (referral_found r e) (
        Keeps-trans s _ _ (create-Keeps F config now (input_of r) s)
          (closed-Keeps now referred role r _ _ (create-has F config now (input_of r) s)))
  ]

  pub refer-settles :
      IsSettled
        (qualify_referral_reward_for_user F config now referred role trip context s).0
        referred
        role
  refer-settles = elim (Option-cases (find_referral referred role s)) [
    | inl e ↦ rw (referral_absent e) (λ r found. absurd (ground (arith, e, found)))
    | inr (r, e) ↦
        rw (referral_found r e)
          (closed-IsSettled now referred role r _ _ (create-has F config now (input_of r) s))
  ]

  closed-rewards :
      (r : Referral) (t : RewardStore) (status : RewardStatus)
      (h : HasReward t (referral_key role r))
      → ((closed now referred role r status t h).rewards ≡ t.rewards)
        × ((closed now referred role r status t h).progress ≡ t.progress)
  unfolding closed
  closed-rewards r t status h = (refl, refl)

  -- A settled referral makes no reward.
  pub refer-quiet :
      IsSettled s referred role
      → (qualify_referral_reward_for_user F config now referred role trip context s).0.rewards
        ≡ s.rewards
  refer-quiet settled = elim (Option-cases (find_referral referred role s)) [
    | inl e ↦ rw (referral_absent e) refl
    | inr (r, e) ↦
        ap (λ t. t.rewards) (referral_found r e)
        ∙ (closed-rewards r _ _ (create-has F config now (input_of r) s)).0
        ∙ ap (λ t. t.rewards) (create-quiet F config now (input_of r) s (settled r e))
  ]

  pub refer-progress :
      (qualify_referral_reward_for_user F config now referred role trip context s).0.progress
      ≡ s.progress
  refer-progress = elim (Option-cases (find_referral referred role s)) [
    | inl e ↦ rw (referral_absent e) refl
    | inr (r, e) ↦
        ap (λ t. t.progress) (referral_found r e)
        ∙ (closed-rewards r _ _ (create-has F config now (input_of r) s)).1
        ∙ (create-referrals F config now (input_of r) s).1
  ]
