-- ===== src/Lifecycle/Parcel.antt =====
-- packages/validation/src/index.ts: parcelStatuses and evaluateParcelTransition.
pub mod Custody
use nodex_v.Prelude.{List, [], ◌∷◌}
use nodex_v.Transition.{Machine, TransitionResult, evaluate}

pub data ParcelStatus : Type 0 where
  draft created pending_driver_acceptance accepted handed_to_driver in_transit : ParcelStatus
  ready_for_pickup delivered cancelled_by_sender cancelled_by_driver cancelled_by_admin :
      ParcelStatus
  rejected lost damaged disputed expired : ParcelStatus

pub data ParcelAction : Type 0 where
  submit driver_accept driver_reject handover start_transit ready_for_pickup deliver : ParcelAction
  cancel_sender cancel_driver cancel_admin mark_lost mark_damaged dispute expire : ParcelAction

unfoldable pub ParcelStatus-discrete : Discrete ParcelStatus
ParcelStatus-discrete = hlevel

abbrev pub parcel_transition_targets : ParcelAction → ParcelStatus
parcel_transition_targets submit = accepted
parcel_transition_targets driver_accept = accepted
parcel_transition_targets driver_reject = rejected
parcel_transition_targets handover = handed_to_driver
parcel_transition_targets start_transit = in_transit
parcel_transition_targets ParcelAction.ready_for_pickup = ParcelStatus.ready_for_pickup
parcel_transition_targets deliver = delivered
parcel_transition_targets cancel_sender = cancelled_by_sender
parcel_transition_targets cancel_driver = cancelled_by_driver
parcel_transition_targets cancel_admin = cancelled_by_admin
parcel_transition_targets mark_lost = lost
parcel_transition_targets mark_damaged = damaged
parcel_transition_targets dispute = disputed
parcel_transition_targets expire = expired

abbrev pub parcel_allowed_transitions : ParcelAction → List ParcelStatus
parcel_allowed_transitions submit = draft ∷ created ∷ []
parcel_allowed_transitions driver_accept = pending_driver_acceptance ∷ []
parcel_allowed_transitions driver_reject = pending_driver_acceptance ∷ created ∷ []
parcel_allowed_transitions handover = accepted ∷ []
parcel_allowed_transitions start_transit = handed_to_driver ∷ []
parcel_allowed_transitions ParcelAction.ready_for_pickup = in_transit ∷ []
parcel_allowed_transitions deliver = ParcelStatus.ready_for_pickup ∷ []
parcel_allowed_transitions cancel_sender =
    draft ∷ created ∷ pending_driver_acceptance ∷ accepted ∷ []
parcel_allowed_transitions cancel_driver = pending_driver_acceptance ∷ accepted ∷ []
parcel_allowed_transitions cancel_admin =
    draft ∷ created ∷ pending_driver_acceptance ∷ accepted ∷ handed_to_driver ∷ in_transit
    ∷ ParcelStatus.ready_for_pickup ∷ []
parcel_allowed_transitions mark_lost =
    handed_to_driver ∷ in_transit ∷ ParcelStatus.ready_for_pickup ∷ []
parcel_allowed_transitions mark_damaged =
    handed_to_driver ∷ in_transit ∷ ParcelStatus.ready_for_pickup ∷ []
parcel_allowed_transitions dispute = ParcelStatus.ready_for_pickup ∷ delivered ∷ damaged ∷ lost ∷ []
parcel_allowed_transitions expire = draft ∷ created ∷ pending_driver_acceptance ∷ accepted ∷ []

abbrev pub parcel_machine : Machine ParcelStatus ParcelAction
parcel_machine = record {
  target = parcel_transition_targets;
  allowed = parcel_allowed_transitions;
  discrete = ParcelStatus-discrete;
}

unfoldable pub evaluate_parcel_transition :
    ParcelStatus → ParcelAction → TransitionResult ParcelStatus
unfolding evaluate ParcelStatus-discrete
evaluate_parcel_transition = evaluate parcel_machine
