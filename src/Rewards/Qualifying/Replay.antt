-- ===== src/Rewards/Qualifying/Replay.antt =====
-- qualifyRewardsForCompletedTrip of apps/api/src/main.ts, run again.
use nodex_v.Prelude.{
  ℕ, ◌≡◌, refl, sym, arith, Bool, true, false, inl, inr, Bool-cases, ap, ◌∙◌, subst, length, keep,
  ltb,
}
use nodex_v.Prelude.Double.{Double}
use nodex_v.Rewards.{RewardConfig, RewardStore}
use nodex_v.Rewards.Qualifying.{
  is_trip_completed, qualify_bookings, is_completed, qualify_driver,
  qualify_rewards_for_completed_trip,
}
use nodex_v.Rewards.Trips.{CompletedTrip}
use nodex_v.Rewards.Qualifying.Drivers.{
  IsDriverGranted, IsDriverGranted-rows, driver-Keeps, driver-grants, driver-quiet,
}
use nodex_v.Rewards.Qualifying.Passengers.{
  AreGranted, loop-Keeps, loop-grants, loop-quiet, Granted-Keeps, loop-progress,
}

module _ (F : Double) (config : RewardConfig) (trip : CompletedTrip F.D) where
  abbrev has_passengers : Bool
  has_passengers = ltb 0 (length (keep (λ b. is_completed b.status) trip.bookings))

  run_driverless :
      (now : ℕ) (s : RewardStore)
      → is_trip_completed trip.status ≡ true
      → has_passengers ≡ false
      → (qualify_rewards_for_completed_trip F config now trip s).0
        ≡ (qualify_bookings F config now trip trip.bookings s).0
  unfolding qualify_rewards_for_completed_trip
  run_driverless now s c h = rw (c, h, qualify_rewards_for_completed_trip) refl

  run_whole :
      (now : ℕ) (s : RewardStore)
      → is_trip_completed trip.status ≡ true
      → has_passengers ≡ true
      → (qualify_rewards_for_completed_trip F config now trip s).0
        ≡ (qualify_driver F config now trip
            (qualify_bookings F config now trip trip.bookings s).0).0
  unfolding qualify_rewards_for_completed_trip
  run_whole now s c h = rw (c, h, qualify_rewards_for_completed_trip) refl

  run_open :
      (now : ℕ) (s : RewardStore)
      → is_trip_completed trip.status ≡ false
      → (qualify_rewards_for_completed_trip F config now trip s).0 ≡ s
  unfolding qualify_rewards_for_completed_trip
  run_open now s c = rw (c, qualify_rewards_for_completed_trip) refl

  module _ (now now' : ℕ) (s : RewardStore) where
    first : RewardStore
    first = (qualify_rewards_for_completed_trip F config now trip s).0

    loop_again : RewardStore
    loop_again = (qualify_bookings F config now' trip trip.bookings first).0

    same_now :
        (t : RewardStore)
        → IsDriverGranted F config now trip t
        → IsDriverGranted F config now' trip t
    same_now t g = record { ticket = g.ticket; settled = g.settled; linked = g.linked }

    -- The run again, if the first has granted what it should.
    quiet_again :
        is_trip_completed trip.status ≡ true
        → (has : Bool) → has_passengers ≡ has
        → AreGranted F config now' trip trip.bookings first
        → (has ≡ true → IsDriverGranted F config now' trip first)
        → (qualify_rewards_for_completed_trip F config now' trip first).0.rewards ≡ first.rewards
    unfolding loop_again qualify_bookings
    quiet_again c true h a g =
        let rows = loop-quiet F config now' trip trip.bookings first a in
        ap (λ t. t.rewards) (run_whole now' first c h)
        ∙ driver-quiet F config now' trip loop_again (
            IsDriverGranted-rows F config now' trip first loop_again
              (loop-Keeps F config now' trip trip.bookings first) rows
              (loop-progress F config now' trip trip.bookings first) (g refl))
        ∙ rows
    quiet_again c false h a g =
        ap (λ t. t.rewards) (run_driverless now' first c h)
        ∙ loop-quiet F config now' trip trip.bookings first a

    grants_first :
        is_trip_completed trip.status ≡ true
        → (has : Bool) → has_passengers ≡ has
        → AreGranted F config now' trip trip.bookings first
          × (has ≡ true → IsDriverGranted F config now' trip first)
    unfolding first
    grants_first c true h =
        let start = (qualify_bookings F config now trip trip.bookings s).0 in
        (
          subst (AreGranted F config now' trip trip.bookings) (sym (run_whole now s c h)) (
              Granted-Keeps F config now trip trip.bookings start _
                (driver-Keeps F config now trip start)
                (loop-grants F config now trip trip.bookings s)),
          λ e.
              subst (IsDriverGranted F config now' trip) (sym (run_whole now s c h))
                (same_now _ (driver-grants F config now trip start)),
        )
    grants_first c false h = (
      subst (AreGranted F config now' trip trip.bookings) (sym (run_driverless now s c h))
          (loop-grants F config now trip trip.bookings s),
      λ e. absurd (ground arith),
    )

    -- The rewards of a trip are granted once: whatever the tables hold, a second run for the same trip,
    -- at any time, adds no reward and changes none.
    pub qualify_rewards_for_completed_trip-replayed :
        (qualify_rewards_for_completed_trip F config now' trip
          (qualify_rewards_for_completed_trip F config now trip s).0).0.rewards
        ≡ (qualify_rewards_for_completed_trip F config now trip s).0.rewards
    unfolding first
    qualify_rewards_for_completed_trip-replayed =
        elim (Bool-cases (is_trip_completed trip.status)) [
          | inr c ↦ ap (λ t. t.rewards) (run_open now' first c)
          | inl c ↦
              let (a, g) = grants_first c has_passengers refl in
              quiet_again c has_passengers refl a g
        ]
