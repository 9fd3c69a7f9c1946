-- ===== src/Lifecycle/Safety.antt =====
-- packages/validation/src/index.ts: safetyReportStatuses and evaluateSafetyTransition.
pub mod Closing
use nodex_v.Prelude.{List, [], ◌∷◌}
use nodex_v.Transition.{Machine, TransitionResult, evaluate}

pub data SafetyReportStatus : Type 0 where
  submitted triaged under_review action_required resolved rejected duplicate closed :
      SafetyReportStatus

pub data SafetyAction : Type 0 where
  triage start_review request_action resolve reject duplicate close reopen : SafetyAction

unfoldable pub SafetyReportStatus-discrete : Discrete SafetyReportStatus
SafetyReportStatus-discrete = hlevel

abbrev pub safety_transition_targets : SafetyAction → SafetyReportStatus
safety_transition_targets triage = triaged
safety_transition_targets start_review = under_review
safety_transition_targets request_action = action_required
safety_transition_targets resolve = resolved
safety_transition_targets reject = rejected
safety_transition_targets SafetyAction.duplicate = SafetyReportStatus.duplicate
safety_transition_targets close = closed
safety_transition_targets reopen = under_review

abbrev pub safety_allowed_transitions : SafetyAction → List SafetyReportStatus
safety_allowed_transitions triage = submitted ∷ []
safety_allowed_transitions start_review = submitted ∷ triaged ∷ action_required ∷ []
safety_allowed_transitions request_action = triaged ∷ under_review ∷ []
safety_allowed_transitions resolve = triaged ∷ under_review ∷ action_required ∷ []
safety_allowed_transitions reject = triaged ∷ under_review ∷ []
safety_allowed_transitions SafetyAction.duplicate = submitted ∷ triaged ∷ under_review ∷ []
safety_allowed_transitions close = resolved ∷ rejected ∷ SafetyReportStatus.duplicate ∷ []
safety_allowed_transitions reopen = resolved ∷ rejected ∷ closed ∷ []

abbrev pub safety_machine : Machine SafetyReportStatus SafetyAction
safety_machine = record {
  target = safety_transition_targets;
  allowed = safety_allowed_transitions;
  discrete = SafetyReportStatus-discrete;
}

unfoldable pub evaluate_safety_transition :
    SafetyReportStatus → SafetyAction → TransitionResult SafetyReportStatus
unfolding evaluate SafetyReportStatus-discrete
evaluate_safety_transition = evaluate safety_machine
