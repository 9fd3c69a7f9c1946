-- ===== src/Rewards/Qualifying/Keeping.antt =====
-- What the reward operations of apps/api/src/main.ts leave as it is.
use nodex_v.Prelude.{ℕ, ◌≡◌, refl, [], ◌∷◌, ◌++◌, some, inl, inr, Option-cases, ◌∙◌}
use nodex_v.Prelude.Double.{Double}
use nodex_v.Rewards.{
  RewardSourceType, RoleContext, RewardConfig, RewardKey, RewardTransaction, Referral, RewardStore,
}
use nodex_v.Rewards.Grants.{RewardInput, find_reward, write_reward, create_reward_with_evaluation}
use nodex_v.Rewards.Grants.Once.{
  create-existing, create-absent, create_reward_with_evaluation-put_if_absent, find_reward-append,
}
use nodex_v.Rewards.Qualifying.{referral_type, find_referral}

-- The key has its reward.
abbrev pub HasReward : RewardStore → RewardKey → Type 0
HasReward s key = (r : RewardTransaction) × (find_reward key s.rewards ≡ some r)

abbrev pub referral_key : RoleContext → Referral → RewardKey
referral_key role r = record {
  user_id = r.referrer_user_id;
  type = referral_type role;
  source_type = RewardSourceType.referral;
  source_id = r.id;
}

-- A referral that the next completed trip would find has its reward already.
abbrev pub IsSettled : RewardStore → ℕ → RoleContext → Type 0
IsSettled s user role =
    (r : Referral) → find_referral user role s ≡ some r → HasReward s (referral_key role r)

pub record Keeps (s t : RewardStore) : Type 0 where
  pub has_reward : (key : RewardKey) → HasReward s key → HasReward t key
  pub is_settled : (user : ℕ) (role : RoleContext) → IsSettled s user role → IsSettled t user role

pub Keeps-refl : (s : RewardStore) → Keeps s s
Keeps-refl s = record { has_reward = λ key h. h; is_settled = λ user role h. h }

pub Keeps-trans : (s t u : RewardStore) → Keeps s t → Keeps t u → Keeps s u
Keeps-trans s t u a b = record {
  has_reward = λ key h. b.has_reward key (a.has_reward key h);
  is_settled = λ user role h. b.is_settled user role (a.is_settled user role h);
}

HasReward-append :
    (key : RewardKey) (s : RewardStore) (r : RewardTransaction)
    → HasReward s key
    → (found : RewardTransaction) × (find_reward key (s.rewards ++ (r ∷ [])) ≡ some found)
HasReward-append key s r (found, e) = (found, find_reward-append key s.rewards r ∙ rw e refl)

module _ (F : Double) (config : RewardConfig) (now : ℕ) (input : RewardInput F.D)
    (s : RewardStore) where
  write_reward-has :
      (key : RewardKey) → HasReward s key → HasReward (write_reward F config now input s).0 key
  unfolding write_reward
  write_reward-has key h = HasReward-append key s _ h

  write_reward-Keeps : Keeps s (write_reward F config now input s).0
  unfolding write_reward find_referral
  write_reward-Keeps = record {
    has_reward = write_reward-has;
    is_settled = λ user role h r e. write_reward-has (referral_key role r) (h r e);
  }

  pub create-Keeps : Keeps s (create_reward_with_evaluation F config now input s).0
  create-Keeps = elim (Option-cases (find_reward input.key s.rewards)) [
    | inr (r, e) ↦ rw (create-existing F config now input s r e) (Keeps-refl s)
    | inl e ↦ rw (create-absent F config now input s e) write_reward-Keeps
  ]

  pub create-has : HasReward (create_reward_with_evaluation F config now input s).0 input.key
  create-has = (_, (create_reward_with_evaluation-put_if_absent F config now input s input.key).1)

  write_reward-referrals :
      ((write_reward F config now input s).0.referrals ≡ s.referrals)
      × ((write_reward F config now input s).0.progress ≡ s.progress)
  unfolding write_reward
  write_reward-referrals = (refl, refl)

  -- The other tables.
  pub create-referrals :
      ((create_reward_with_evaluation F config now input s).0.referrals ≡ s.referrals)
      × ((create_reward_with_evaluation F config now input s).0.progress ≡ s.progress)
  create-referrals = elim (Option-cases (find_reward input.key s.rewards)) [
    | inr (r, e) ↦ rw (create-existing F config now input s r e) (refl, refl)
    | inl e ↦ rw (create-absent F config now input s e) write_reward-referrals
  ]

  -- A reward that is there is not made again.
  pub create-quiet :
      HasReward s input.key → (create_reward_with_evaluation F config now input s).0 ≡ s
  create-quiet (r, e) = rw (create-existing F config now input s r e) refl
