-- ===== src/Lifecycle/Support.antt =====
-- packages/validation/src/index.ts: supportTicketStatuses and evaluateSupportTransition.
pub mod Closing
use nodex_v.Prelude.{List, [], ◌∷◌}
use nodex_v.Transition.{Machine, TransitionResult, evaluate}

pub data SupportTicketStatus : Type 0 where
  new in_progress waiting_for_user under_review resolved closed rejected : SupportTicketStatus

pub data SupportAction : Type 0 where
  start_progress wait_for_user user_reply review resolve close reject reopen : SupportAction

unfoldable pub SupportTicketStatus-discrete : Discrete SupportTicketStatus
SupportTicketStatus-discrete = hlevel

abbrev pub support_transition_targets : SupportAction → SupportTicketStatus
support_transition_targets start_progress = in_progress
support_transition_targets wait_for_user = waiting_for_user
support_transition_targets user_reply = in_progress
support_transition_targets review = under_review
support_transition_targets resolve = resolved
support_transition_targets close = closed
support_transition_targets reject = rejected
support_transition_targets reopen = in_progress

abbrev pub support_allowed_transitions : SupportAction → List SupportTicketStatus
support_allowed_transitions start_progress = new ∷ waiting_for_user ∷ under_review ∷ []
support_allowed_transitions wait_for_user = new ∷ in_progress ∷ under_review ∷ []
support_allowed_transitions user_reply = waiting_for_user ∷ []
support_allowed_transitions review = new ∷ in_progress ∷ []
support_allowed_transitions resolve = in_progress ∷ under_review ∷ waiting_for_user ∷ []
support_allowed_transitions close = resolved ∷ rejected ∷ []
support_allowed_transitions reject = new ∷ in_progress ∷ under_review ∷ []
support_allowed_transitions reopen = resolved ∷ closed ∷ []

abbrev pub support_machine : Machine SupportTicketStatus SupportAction
support_machine = record {
  target = support_transition_targets;
  allowed = support_allowed_transitions;
  discrete = SupportTicketStatus-discrete;
}

unfoldable pub evaluate_support_transition :
    SupportTicketStatus → SupportAction → TransitionResult SupportTicketStatus
unfolding evaluate SupportTicketStatus-discrete
evaluate_support_transition = evaluate support_machine
