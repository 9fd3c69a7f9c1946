-- ===== src/Lifecycle/Trip.antt =====
-- packages/validation/src/index.ts: tripStatuses and evaluateTripTransition.
pub mod Order
use nodex_v.Prelude.{List, [], ◌∷◌}
use nodex_v.Transition.{Machine, TransitionResult, evaluate}

pub data TripStatus : Type 0 where
  draft published booking_open full unpublished cancelled expired boarding in_progress : TripStatus
  completed blocked : TripStatus

pub data TripOperationAction : Type 0 where
  start_boarding start_trip complete_trip cancel_trip expire_trip block_trip : TripOperationAction
  unblock_trip : TripOperationAction

unfoldable pub TripStatus-discrete : Discrete TripStatus
TripStatus-discrete = hlevel

abbrev pub trip_transition_targets : TripOperationAction → TripStatus
trip_transition_targets start_boarding = boarding
trip_transition_targets start_trip = in_progress
trip_transition_targets complete_trip = completed
trip_transition_targets cancel_trip = cancelled
trip_transition_targets expire_trip = expired
trip_transition_targets block_trip = blocked
trip_transition_targets unblock_trip = published

abbrev pub trip_allowed_transitions : TripOperationAction → List TripStatus
trip_allowed_transitions start_boarding = published ∷ booking_open ∷ full ∷ []
trip_allowed_transitions start_trip = boarding ∷ []
trip_allowed_transitions complete_trip = in_progress ∷ []
trip_allowed_transitions cancel_trip = published ∷ booking_open ∷ full ∷ boarding ∷ []
trip_allowed_transitions expire_trip = published ∷ booking_open ∷ []
trip_allowed_transitions block_trip = published ∷ booking_open ∷ full ∷ boarding ∷ []
trip_allowed_transitions unblock_trip = blocked ∷ []

abbrev pub trip_machine : Machine TripStatus TripOperationAction
trip_machine = record {
  target = trip_transition_targets;
  allowed = trip_allowed_transitions;
  discrete = TripStatus-discrete;
}

unfoldable pub evaluate_trip_transition :
    TripStatus → TripOperationAction → TransitionResult TripStatus
unfolding evaluate TripStatus-discrete
evaluate_trip_transition = evaluate trip_machine
