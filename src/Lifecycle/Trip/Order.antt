-- ===== src/Lifecycle/Trip/Order.antt =====
-- In which order the operations of a trip can happen.
use nodex_v.Prelude.{◌≡◌, ◌⊎◌, refl, true, false, List, [], ◌∷◌, ◌++◌, includes, arith, ◌≢◌, subst}
use nodex_v.Transition.{run, writes}
use nodex_v.Transition.Laws.{
  Subsequence, Subsequence-nil, Subsequence-refl, run_final, Subsequence-chain,
}
use nodex_v.Lifecycle.Trip.{
  TripStatus, TripStatus-discrete, published, booking_open, full, cancelled, expired, boarding,
  in_progress, completed, TripOperationAction, start_boarding, start_trip, complete_trip,
  cancel_trip, expire_trip, block_trip, unblock_trip, trip_machine,
}

-- The operations that must have been carried out for a trip to be in a status.
journey : TripStatus → List TripOperationAction
journey boarding = start_boarding ∷ []
journey in_progress = start_boarding ∷ start_trip ∷ []
journey completed = start_boarding ∷ start_trip ∷ complete_trip ∷ []
journey _ = []

journey_extends :
    (a : TripOperationAction) (s : TripStatus)
    → includes TripStatus-discrete (trip_machine.allowed a) s ≡ true
    → Subsequence (journey (trip_machine.target a)) (journey s ++ a ∷ [])
unfolding journey TripStatus-discrete
journey_extends start_boarding published h = Subsequence-refl _
journey_extends start_boarding booking_open h = Subsequence-refl _
journey_extends start_boarding full h = Subsequence-refl _
journey_extends start_boarding _ h = absurd (ground arith)
journey_extends start_trip boarding h = Subsequence-refl _
journey_extends start_trip _ h = absurd (ground arith)
journey_extends complete_trip in_progress h = Subsequence-refl _
journey_extends complete_trip _ h = absurd (ground arith)
journey_extends cancel_trip _ h = Subsequence-nil _
journey_extends expire_trip _ h = Subsequence-nil _
journey_extends block_trip _ h = Subsequence-nil _
journey_extends unblock_trip _ h = Subsequence-nil _

-- From a status before boarding, whatever is requested, a trip is completed only if boarding, the
-- start and the completion were requested, in this order.
pub completed_journey :
    (s : TripStatus) (actions : List TripOperationAction)
    → s ≢ boarding
    → s ≢ in_progress
    → s ≢ completed
    → run trip_machine s actions ≡ completed
    → Subsequence (start_boarding ∷ start_trip ∷ complete_trip ∷ []) actions
unfolding journey
completed_journey s actions b p c e =
    subst (λ t. Subsequence (journey t) actions) e
      (Subsequence-chain trip_machine journey journey_extends s [] actions (fresh s b p c))
  where
    fresh :
        (t : TripStatus)
        → t ≢ boarding
        → t ≢ in_progress
        → t ≢ completed
        → Subsequence (journey t) []
    fresh boarding b p c = absurd (b refl)
    fresh in_progress b p c = absurd (p refl)
    fresh completed b p c = absurd (c refl)
    fresh _ b p c = Subsequence-nil []

abbrev pub IsOver : TripStatus → Type 0
IsOver s = (s ≡ completed) ⊎ (s ≡ cancelled) ⊎ (s ≡ expired)

over_final :
    (s : TripStatus) (a : TripOperationAction)
    → IsOver s
    → includes TripStatus-discrete (trip_machine.allowed a) s ≡ false
unfolding TripStatus-discrete
over_final s a h = ground arith

-- A completed, cancelled or expired trip keeps its status whatever is requested, and nothing is
-- written for it.
pub run-IsOver :
    (s : TripStatus) (actions : List TripOperationAction)
    → IsOver s
    → (run trip_machine s actions ≡ s) × (writes trip_machine s actions ≡ 0)
run-IsOver s actions h = run_final trip_machine s (λ a. over_final s a h) actions
