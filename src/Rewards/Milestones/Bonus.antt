-- ===== src/Rewards/Milestones/Bonus.antt =====
-- updateDriverMilestoneProgress of apps/api/src/main.ts.
pub mod Granting
use nodex_v.Prelude.{
  ℕ, ◌≤◌, ◌==◌, ◌≡◌, refl, sym, arith, Bool, true, false, List, [], ◌∷◌, ◌++◌, Option, none, some,
  inl, inr, Option-cases, if◌then◌else◌, ap, ◌∙◌, subst, length, keep,
}
use nodex_v.Prelude.Double.{Double}
use nodex_v.Rewards.{
  RewardType, RewardSourceType, RewardConfig, RewardStore, RewardTransaction, RewardType-discrete,
  MilestoneDefinition, MilestoneStatus, MilestoneProgress,
}
use nodex_v.Rewards.Grants.{find_reward, write_reward, create_reward_with_evaluation}
use nodex_v.Rewards.Grants.Once.{create-existing, create-absent}
use nodex_v.Rewards.Milestones.{
  calculate_driver_milestone_progress, ensure_driver_milestone_definition, qualifying_trip_count,
  is_qualifying, milestone_input, linked_reward, grant_bonus, update_driver_milestone_progress,
  milestone_status, reached_time,
}
use nodex_v.Rewards.Milestones.Bonus.Granting.{
  IsLinked, ensured, grant_bonus-count, grant_bonus-linked, grant_bonus-quiet, grant_bonus-row,
}

-- The count of completed trips and what is missing make up the target, unless it is reached.
pub calculate_driver_milestone_progress-is_reached :
    (trips target : ℕ)
    → (calculate_driver_milestone_progress trips target).is_reached ≡ true
    → ((calculate_driver_milestone_progress trips target).remaining ≡ 0) × (target ≤ trips)
unfolding calculate_driver_milestone_progress
calculate_driver_milestone_progress-is_reached trips target h = ground arith

module _ (F : Double) (config : RewardConfig) (now profile user : ℕ) where
  module _ (s : RewardStore) where
    abbrev pub base : RewardStore
    base = (ensure_driver_milestone_definition config s).0

    abbrev pub definition_of : MilestoneDefinition
    definition_of = (ensure_driver_milestone_definition config s).1

    abbrev pub reached_now : Bool
    reached_now =
        (calculate_driver_milestone_progress (qualifying_trip_count profile base.rewards)
          definition_of.target_count).is_reached

    abbrev pub granted : RewardStore × Option ℕ
    granted =
        grant_bonus F config now profile user definition_of (linked_reward (base.progress profile))
          reached_now base

    same_reached :
        reached_now
        ≡ (calculate_driver_milestone_progress
            (qualifying_trip_count profile s.rewards)
            config.milestone_target_count).is_reached
    unfolding calculate_driver_milestone_progress
    same_reached = let (a, b, c, d) = ensured config s in rw (a, d) refl

    pub written :
        (update_driver_milestone_progress F config now profile user s).rewards ≡ granted.0.rewards
    unfolding update_driver_milestone_progress
    written = refl

    written_link :
        linked_reward
          ((update_driver_milestone_progress F config now profile user s).progress profile)
        ≡ granted.1
    unfolding update_driver_milestone_progress
    written_link = ground arith

    same_tickets :
        qualifying_trip_count profile
          (update_driver_milestone_progress F config now profile user s).rewards
        ≡ qualifying_trip_count profile s.rewards
    same_tickets =
        ap (qualifying_trip_count profile) written
        ∙ grant_bonus-count F config now profile user definition_of
            (linked_reward (base.progress profile)) reached_now base
        ∙ ap (qualifying_trip_count profile) (ensured config s).0

    -- A run notes the bonus of a driver who has reached the target.
    pub update-links :
        IsLinked F config now profile user
          (update_driver_milestone_progress F config now profile user s)
    update-links h =
        let reached_true : reached_now ≡ true =
          same_reached
          ∙ ap
              (λ n.
                (calculate_driver_milestone_progress n config.milestone_target_count).is_reached)
              (sym same_tickets)
          ∙ h in
        let (id, e) =
          grant_bonus-linked F config now profile user definition_of
            (linked_reward (base.progress profile)) base in
        (
          id,
          written_link
              ∙ ap
                  (λ b.
                    (grant_bonus F config now profile user definition_of
                      (linked_reward (base.progress profile)) b base).1)
                  reached_true
              ∙ e,
        )

    -- Where it is noted, no reward is made.
    pub update-quiet :
        IsLinked F config now profile user s
        → (update_driver_milestone_progress F config now profile user s).rewards ≡ s.rewards
    update-quiet linked =
        let (rows, referrals, progress, target) = ensured config s in
        let noted = λ (e : reached_now ≡ true).
          (subst (λ p. (id : ℕ) × (linked_reward (p profile) ≡ some id)) (sym progress)
            (linked (sym same_reached ∙ e))) in
        written
        ∙ ap (λ t. t.rewards)
            (grant_bonus-quiet F config now profile user definition_of
              (linked_reward (base.progress profile)) reached_now base noted)
        ∙ rows

    row : MilestoneProgress
    row = record {
      qualifying_trip_count = qualifying_trip_count profile base.rewards;
      status = milestone_status reached_now;
      reached_at =
          if reached_now then some (reached_time now (granted.0.progress profile)) else none;
      reward_transaction_id = granted.1;
    }

    progress_row :
        (update_driver_milestone_progress F config now profile user s).progress profile ≡ some row
    unfolding update_driver_milestone_progress row
    progress_row = let own : (profile == profile) ≡ true = ground arith in rw own refl

    -- A driver whose progress names no bonus yet, with a confirmed ticket, and with as many of them as
    -- the target, or more: after the update the progress is REACHED, counts these tickets, and names
    -- the reward that is found under the user and the milestone as its bonus.
    pub update_driver_milestone_progress-reached :
        config.milestone_target_count ≤ qualifying_trip_count profile s.rewards
        → 1 ≤ qualifying_trip_count profile s.rewards
        → linked_reward (s.progress profile) ≡ none
        → (p : MilestoneProgress) × (r : RewardTransaction) × ((update_driver_milestone_progress F
                config now profile user s).progress
              profile
            ≡ some p)
          × (p.status ≡ MilestoneStatus.reached)
          × (p.qualifying_trip_count ≡ qualifying_trip_count profile s.rewards)
          × (p.reward_transaction_id ≡ some r.id)
          × (find_reward
                (record {
                  user_id = user;
                  type = RewardType.driver_milestone_bonus;
                  source_type = RewardSourceType.milestone;
                  source_id = (ensure_driver_milestone_definition config s).1.id;
                })
                (update_driver_milestone_progress F config now profile user s).rewards
              ≡ some r)
    unfolding calculate_driver_milestone_progress row
    update_driver_milestone_progress-reached enough some_ticket unlinked =
        let reached_true : reached_now ≡ true = same_reached ∙ ground arith in
        let (rows, referrals, progress, target) = ensured config s in
        let no_link : linked_reward (base.progress profile) ≡ none =
          ap (λ p. linked_reward (p profile)) progress ∙ unlinked in
        let (r, e, found) = grant_bonus-row F config now profile user definition_of base in
        let same : granted ≡ grant_bonus F config now profile user definition_of none true base =
          ap (λ l. grant_bonus F config now profile user definition_of l reached_now base) no_link
          ∙ ap (λ b. grant_bonus F config now profile user definition_of none b base)
              reached_true in
        (
          row,
          r,
          progress_row,
          ap milestone_status reached_true,
          ap (qualifying_trip_count profile) rows,
          ap (λ g. g.1) same ∙ e,
          ap (find_reward (milestone_input F config now profile user definition_of).key)
                (written ∙ ap (λ g. g.0.rewards) same)
              ∙ found,
        )

    pub written_referrals :
        ((update_driver_milestone_progress F config now profile user s).referrals
          ≡ granted.0.referrals)
    unfolding update_driver_milestone_progress
    written_referrals = refl
