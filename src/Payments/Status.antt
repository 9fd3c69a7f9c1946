-- ===== src/Payments/Status.antt =====
-- packages/payments/src/index.ts: transitionPaymentStatus and transitionIntentStatus. Unlike the
-- other machines a transition names its target, and the table is read by the current status.
pub mod Paid
use nodex_v.Prelude.{Bool, List, [], ◌∷◌, includes, same, Result, ok, err, if◌then◌else◌}
use nodex_v.Payments.Money.{PaymentError, invalid_payment_transition}

pub data PaymentStatus : Type 0 where
  created requires_action processing authorized succeeded failed cancelled : PaymentStatus
  expired partially_refunded refunded : PaymentStatus

unfoldable pub PaymentStatus-discrete : Discrete PaymentStatus
PaymentStatus-discrete = hlevel

abbrev pub payment_targets : PaymentStatus → List PaymentStatus
payment_targets PaymentStatus.created =
    PaymentStatus.requires_action ∷ PaymentStatus.processing ∷ PaymentStatus.succeeded
    ∷ PaymentStatus.failed ∷ PaymentStatus.cancelled ∷ PaymentStatus.expired ∷ []
payment_targets PaymentStatus.requires_action =
    PaymentStatus.processing ∷ PaymentStatus.succeeded ∷ PaymentStatus.failed
    ∷ PaymentStatus.cancelled ∷ PaymentStatus.expired ∷ []
payment_targets PaymentStatus.processing =
    authorized ∷ PaymentStatus.succeeded ∷ PaymentStatus.failed ∷ PaymentStatus.cancelled
    ∷ PaymentStatus.expired ∷ []
payment_targets authorized =
    PaymentStatus.succeeded ∷ PaymentStatus.cancelled ∷ PaymentStatus.expired ∷ []
payment_targets PaymentStatus.succeeded = partially_refunded ∷ refunded ∷ []
payment_targets PaymentStatus.failed = []
payment_targets PaymentStatus.cancelled = []
payment_targets PaymentStatus.expired = []
payment_targets partially_refunded = refunded ∷ []
payment_targets refunded = []

unfoldable pub transition_payment_status :
    PaymentStatus → PaymentStatus → Result PaymentError PaymentStatus
unfolding PaymentStatus-discrete
transition_payment_status current next =
    if same PaymentStatus-discrete current next
    then ok current
    else if includes PaymentStatus-discrete (payment_targets current) next
    then ok next
    else err invalid_payment_transition

pub data PaymentIntentStatus : Type 0 where
  created pending requires_action processing succeeded failed cancelled : PaymentIntentStatus
  expired : PaymentIntentStatus

unfoldable pub PaymentIntentStatus-discrete : Discrete PaymentIntentStatus
PaymentIntentStatus-discrete = hlevel

abbrev pub intent_targets : PaymentIntentStatus → List PaymentIntentStatus
intent_targets PaymentIntentStatus.created =
    pending ∷ PaymentIntentStatus.requires_action ∷ PaymentIntentStatus.processing
    ∷ PaymentIntentStatus.succeeded ∷ PaymentIntentStatus.failed ∷ PaymentIntentStatus.cancelled
    ∷ PaymentIntentStatus.expired ∷ []
intent_targets pending =
    PaymentIntentStatus.requires_action ∷ PaymentIntentStatus.processing
    ∷ PaymentIntentStatus.succeeded ∷ PaymentIntentStatus.failed ∷ PaymentIntentStatus.cancelled
    ∷ PaymentIntentStatus.expired ∷ []
intent_targets PaymentIntentStatus.requires_action =
    PaymentIntentStatus.processing ∷ PaymentIntentStatus.succeeded ∷ PaymentIntentStatus.failed
    ∷ PaymentIntentStatus.cancelled ∷ PaymentIntentStatus.expired ∷ []
intent_targets PaymentIntentStatus.processing =
    PaymentIntentStatus.succeeded ∷ PaymentIntentStatus.failed ∷ PaymentIntentStatus.cancelled
    ∷ PaymentIntentStatus.expired ∷ []
intent_targets PaymentIntentStatus.succeeded = []
intent_targets PaymentIntentStatus.failed = []
intent_targets PaymentIntentStatus.cancelled = []
intent_targets PaymentIntentStatus.expired = []

unfoldable pub transition_intent_status :
    PaymentIntentStatus → PaymentIntentStatus → Result PaymentError PaymentIntentStatus
unfolding PaymentIntentStatus-discrete
transition_intent_status current next =
    if same PaymentIntentStatus-discrete current next
    then ok current
    else if includes PaymentIntentStatus-discrete (intent_targets current) next
    then ok next
    else err invalid_payment_transition
