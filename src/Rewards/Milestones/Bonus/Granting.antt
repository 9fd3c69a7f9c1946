-- ===== src/Rewards/Milestones/Bonus/Granting.antt =====
-- The bonus that updateDriverMilestoneProgress of apps/api/src/main.ts grants or finds noted.
use nodex_v.Prelude.{
  ℕ, ◌≡◌, refl, sym, arith, Bool, true, false, List, [], ◌∷◌, ◌++◌, Option, none, some, inl, inr,
  Option-cases, ap, subst, length, keep,
}
use nodex_v.Prelude.Double.{Double}
use nodex_v.Rewards.{
  RewardType, RewardConfig, RewardStore, RewardTransaction, RewardType-discrete,
  MilestoneDefinition,
}
use nodex_v.Rewards.Grants.{find_reward, write_reward, create_reward_with_evaluation}
use nodex_v.Rewards.Grants.Once.{
  create-existing, create-absent, create_reward_with_evaluation-put_if_absent,
}
use nodex_v.Rewards.Milestones.{
  calculate_driver_milestone_progress, ensure_driver_milestone_definition, qualifying_trip_count,
  is_qualifying, milestone_input, linked_reward, grant_bonus,
}

-- What the upsert of the definition leaves.
pub ensured :
    (config : RewardConfig) (s : RewardStore)
    → ((ensure_driver_milestone_definition config s).0.rewards ≡ s.rewards)
      × ((ensure_driver_milestone_definition config s).0.referrals ≡ s.referrals)
      × ((ensure_driver_milestone_definition config s).0.progress ≡ s.progress)
      × ((ensure_driver_milestone_definition config s).1.target_count
          ≡ config.milestone_target_count)
unfolding ensure_driver_milestone_definition
ensured config s = elim (Option-cases s.definition) [
  | inl e ↦ rw (e, ensure_driver_milestone_definition) (refl, refl, refl, refl)
  | inr (d, e) ↦ rw (e, ensure_driver_milestone_definition) (refl, refl, refl, refl)
]

keep-append :
    {A : Type 0} (test : A → Bool) (xs : List A) (x : A)
    → test x ≡ false
    → keep test (xs ++ (x ∷ [])) ≡ keep test xs
keep-append test [] x e = rw (e, keep) refl
keep-append test (y ∷ ys) x e = ground (arith, keep-append test ys x e)

-- A bonus is no ticket.
uncounted :
    (profile : ℕ) (r : RewardTransaction)
    → r.key.type ≡ RewardType.driver_milestone_bonus
    → is_qualifying profile r ≡ false
unfolding RewardType-discrete
uncounted profile r e = ground arith

module _ (F : Double) (config : RewardConfig) (now profile user : ℕ) where
  -- The bonus of a driver who has reached the target is noted.
  abbrev pub IsLinked : RewardStore → Type 0
  IsLinked s =
      (calculate_driver_milestone_progress (qualifying_trip_count profile s.rewards)
          config.milestone_target_count).is_reached
        ≡ true
      → (id : ℕ) × (linked_reward (s.progress profile) ≡ some id)

  pub IsLinked-rows :
      (s t : RewardStore)
      → t.rewards ≡ s.rewards
      → t.progress ≡ s.progress
      → IsLinked s
      → IsLinked t
  IsLinked-rows s t rows progress linked h =
      subst (λ p. (id : ℕ) × (linked_reward (p profile) ≡ some id)) (sym progress)
        (linked (
          subst
            (λ rs.
              (calculate_driver_milestone_progress (qualifying_trip_count profile rs)
                config.milestone_target_count).is_reached
              ≡ true)
            rows h))

  create-count :
      (definition : MilestoneDefinition) (s : RewardStore)
      → qualifying_trip_count profile
          (create_reward_with_evaluation F config now
            (milestone_input F config now profile user definition)
            s).0.rewards
        ≡ qualifying_trip_count profile s.rewards
  unfolding write_reward
  create-count definition s =
      let input = milestone_input F config now profile user definition in
      elim (Option-cases (find_reward input.key s.rewards)) [
        | inr (r, e) ↦ rw (create-existing F config now input s r e) refl
        | inl e ↦ rw (create-absent F config now input s e) (
            ap length (
              keep-append (is_qualifying profile) s.rewards _
                (uncounted profile (write_reward F config now input s).1 refl)))
      ]

  pub grant_bonus-count :
      (definition : MilestoneDefinition) (linked : Option ℕ) (reached : Bool) (s : RewardStore)
      → qualifying_trip_count profile
          (grant_bonus F config now profile user definition linked reached s).0.rewards
        ≡ qualifying_trip_count profile s.rewards
  unfolding grant_bonus
  grant_bonus-count definition (some id) reached s = refl
  grant_bonus-count definition none false s = refl
  grant_bonus-count definition none true s = create-count definition s

  -- A bonus that is granted is the row under the key of the milestone.
  pub grant_bonus-row :
      (definition : MilestoneDefinition) (s : RewardStore)
      → (r : RewardTransaction) × ((grant_bonus F config now profile user definition none true s).1
          ≡ some r.id)
        × (find_reward
              (milestone_input F config now profile user definition).key
              (grant_bonus F config now profile user definition none true s).0.rewards
            ≡ some r)
  unfolding grant_bonus
  grant_bonus-row definition s =
      let input = milestone_input F config now profile user definition in
      (_, refl, (create_reward_with_evaluation-put_if_absent F config now input s input.key).1)

  pub grant_bonus-linked :
      (definition : MilestoneDefinition) (linked : Option ℕ) (s : RewardStore)
      → (id : ℕ) × ((grant_bonus F config now profile user definition linked true s).1 ≡ some id)
  unfolding grant_bonus
  grant_bonus-linked definition (some id) s = (id, refl)
  grant_bonus-linked definition none s = (_, refl)

  pub grant_bonus-quiet :
      (definition : MilestoneDefinition) (linked : Option ℕ) (reached : Bool) (s : RewardStore)
      → (reached ≡ true → (id : ℕ) × (linked ≡ some id))
      → (grant_bonus F config now profile user definition linked reached s).0 ≡ s
  unfolding grant_bonus
  grant_bonus-quiet definition (some id) reached s h = refl
  grant_bonus-quiet definition none false s h = refl
  grant_bonus-quiet definition none true s h = absurd (ground (arith, h refl))
