-- ===== src/Lifecycle/Support/Closing.antt =====
-- How a support ticket that was rejected comes back to work.
use nodex_v.Prelude.{◌≡◌, ◌≢◌, refl, true, List, [], ◌∷◌, ◌++◌, includes, arith}
use nodex_v.Transition.{run}
use nodex_v.Transition.Laws.{
  Subsequence, Subsequence-nil, subsequence_rules, run_closed, Subsequence-chain,
}
use nodex_v.Lifecycle.Support.{
  SupportTicketStatus, SupportTicketStatus-discrete, new, in_progress, waiting_for_user,
  under_review, resolved, closed, rejected, SupportAction, start_progress, wait_for_user,
  user_reply, review, resolve, close, reject, reopen, support_machine,
}

-- The actions between a rejection and a status.
since_rejected : SupportTicketStatus → List SupportAction
since_rejected rejected = []
since_rejected closed = close ∷ []
since_rejected _ = close ∷ reopen ∷ []

since_extends :
    (a : SupportAction) (s : SupportTicketStatus)
    → includes SupportTicketStatus-discrete (support_machine.allowed a) s ≡ true
    → Subsequence (since_rejected (support_machine.target a)) (since_rejected s ++ a ∷ [])
unfolding since_rejected SupportTicketStatus-discrete
since_extends start_progress new h = search subsequence_rules
since_extends start_progress waiting_for_user h = search subsequence_rules
since_extends start_progress under_review h = search subsequence_rules
since_extends start_progress _ h = absurd (ground arith)
since_extends wait_for_user new h = search subsequence_rules
since_extends wait_for_user in_progress h = search subsequence_rules
since_extends wait_for_user under_review h = search subsequence_rules
since_extends wait_for_user _ h = absurd (ground arith)
since_extends user_reply waiting_for_user h = search subsequence_rules
since_extends user_reply _ h = absurd (ground arith)
since_extends review new h = search subsequence_rules
since_extends review in_progress h = search subsequence_rules
since_extends review _ h = absurd (ground arith)
since_extends resolve in_progress h = search subsequence_rules
since_extends resolve under_review h = search subsequence_rules
since_extends resolve waiting_for_user h = search subsequence_rules
since_extends resolve _ h = absurd (ground arith)
since_extends close resolved h = search subsequence_rules
since_extends close rejected h = search subsequence_rules
since_extends close _ h = absurd (ground arith)
since_extends reject _ h = Subsequence-nil _
since_extends reopen resolved h = search subsequence_rules
since_extends reopen closed h = search subsequence_rules
since_extends reopen _ h = absurd (ground arith)

-- A rejected ticket has another status than rejected or closed only after it was closed and then
-- reopened.
pub rejected_reopens :
    (actions : List SupportAction)
    → run support_machine rejected actions ≢ rejected
    → run support_machine rejected actions ≢ closed
    → Subsequence (close ∷ reopen ∷ []) actions
unfolding since_rejected
rejected_reopens actions r c = elsewhere (run support_machine rejected actions) r c (
    Subsequence-chain support_machine since_rejected since_extends rejected [] actions
      (Subsequence-nil []))
  where
    elsewhere :
        (t : SupportTicketStatus)
        → t ≢ rejected
        → t ≢ closed
        → Subsequence (since_rejected t) actions
        → Subsequence (close ∷ reopen ∷ []) actions
    elsewhere rejected r c h = absurd (r refl)
    elsewhere closed r c h = absurd (c refl)
    elsewhere _ r c h = h

not_new_kept :
    (a : SupportAction) (s : SupportTicketStatus)
    → s ≢ new
    → includes SupportTicketStatus-discrete (support_machine.allowed a) s ≡ true
    → support_machine.target a ≢ new
not_new_kept a s p h = ground arith

-- A ticket that is not new never becomes new again.
pub run-ne-new :
    (s : SupportTicketStatus) (actions : List SupportAction)
    → s ≢ new
    → run support_machine s actions ≢ new
run-ne-new s actions p = run_closed support_machine {P = λ t. t ≢ new} not_new_kept s actions p
