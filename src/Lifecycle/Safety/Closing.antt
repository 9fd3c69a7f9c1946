-- ===== src/Lifecycle/Safety/Closing.antt =====
-- How a safety report that was marked a duplicate comes back to work.
use nodex_v.Prelude.{◌≡◌, ◌≢◌, refl, true, List, [], ◌∷◌, ◌++◌, includes, arith}
use nodex_v.Transition.{run}
use nodex_v.Transition.Laws.{Subsequence, Subsequence-nil, subsequence_rules, Subsequence-chain}
use nodex_v.Lifecycle.Safety.{
  SafetyReportStatus, SafetyReportStatus-discrete, submitted, triaged, under_review,
  action_required, resolved, rejected, closed, SafetyAction, triage, start_review, request_action,
  resolve, reject, close, reopen, safety_machine,
}

-- The actions between the mark as a duplicate and a status.
since_duplicate : SafetyReportStatus → List SafetyAction
since_duplicate SafetyReportStatus.duplicate = []
since_duplicate closed = close ∷ []
since_duplicate _ = close ∷ reopen ∷ []

since_extends :
    (a : SafetyAction) (s : SafetyReportStatus)
    → includes SafetyReportStatus-discrete (safety_machine.allowed a) s ≡ true
    → Subsequence (since_duplicate (safety_machine.target a)) (since_duplicate s ++ a ∷ [])
unfolding since_duplicate SafetyReportStatus-discrete
since_extends triage submitted h = search subsequence_rules
since_extends triage _ h = absurd (ground arith)
since_extends start_review submitted h = search subsequence_rules
since_extends start_review triaged h = search subsequence_rules
since_extends start_review action_required h = search subsequence_rules
since_extends start_review _ h = absurd (ground arith)
since_extends request_action triaged h = search subsequence_rules
since_extends request_action under_review h = search subsequence_rules
since_extends request_action _ h = absurd (ground arith)
since_extends resolve triaged h = search subsequence_rules
since_extends resolve under_review h = search subsequence_rules
since_extends resolve action_required h = search subsequence_rules
since_extends resolve _ h = absurd (ground arith)
since_extends reject triaged h = search subsequence_rules
since_extends reject under_review h = search subsequence_rules
since_extends reject _ h = absurd (ground arith)
since_extends SafetyAction.duplicate _ h = Subsequence-nil _
since_extends close resolved h = search subsequence_rules
since_extends close rejected h = search subsequence_rules
since_extends close SafetyReportStatus.duplicate h = search subsequence_rules
since_extends close _ h = absurd (ground arith)
since_extends reopen resolved h = search subsequence_rules
since_extends reopen rejected h = search subsequence_rules
since_extends reopen closed h = search subsequence_rules
since_extends reopen _ h = absurd (ground arith)

-- A report marked a duplicate has another status than duplicate or closed only after it was closed
-- and then reopened.
pub duplicate_reopens :
    (actions : List SafetyAction)
    → run safety_machine SafetyReportStatus.duplicate actions ≢ SafetyReportStatus.duplicate
    → run safety_machine SafetyReportStatus.duplicate actions ≢ closed
    → Subsequence (close ∷ reopen ∷ []) actions
unfolding since_duplicate
duplicate_reopens actions r c =
    elsewhere (run safety_machine SafetyReportStatus.duplicate actions) r c (
      Subsequence-chain safety_machine since_duplicate since_extends SafetyReportStatus.duplicate []
        actions (Subsequence-nil []))
  where
    elsewhere :
        (t : SafetyReportStatus)
        → t ≢ SafetyReportStatus.duplicate
        → t ≢ closed
        → Subsequence (since_duplicate t) actions
        → Subsequence (close ∷ reopen ∷ []) actions
    elsewhere SafetyReportStatus.duplicate r c h = absurd (r refl)
    elsewhere closed r c h = absurd (c refl)
    elsewhere _ r c h = h
