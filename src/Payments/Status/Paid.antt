-- ===== src/Payments/Status/Paid.antt =====
-- What any sequence of requested statuses can do to a payment.
use nodex_v.Prelude.{◌≡◌, ◌⊎◌, refl, List, [], ◌∷◌, Result, ok, err, arith}
use nodex_v.Payments.Money.{PaymentError}
use nodex_v.Payments.Status.{PaymentStatus, partially_refunded, refunded, transition_payment_status}

-- The status that is stored after a request: a refusal throws, and nothing is written.
abbrev pub status_or : PaymentStatus → Result PaymentError PaymentStatus → PaymentStatus
status_or current (ok next) = next
status_or current (err e) = current

pub request_all : PaymentStatus → List PaymentStatus → PaymentStatus
request_all s [] = s
request_all s (next ∷ more) = request_all (status_or s (transition_payment_status s next)) more

-- The client's money has been taken.
abbrev pub IsPaid : PaymentStatus → Type 0
IsPaid s = (s ≡ PaymentStatus.succeeded) ⊎ (s ≡ partially_refunded) ⊎ (s ≡ refunded)

abbrev pub IsDropped : PaymentStatus → Type 0
IsDropped s =
    (s ≡ PaymentStatus.failed) ⊎ (s ≡ PaymentStatus.cancelled) ⊎ (s ≡ PaymentStatus.expired)

IsPaid-kept :
    (s next : PaymentStatus) → IsPaid s → IsPaid (status_or s (transition_payment_status s next))
unfolding transition_payment_status
IsPaid-kept s next h = ground arith

-- A payment that was paid stays paid or refunded, whatever statuses are requested: it never fails,
-- is cancelled or expires.
pub request_all-IsPaid :
    (s : PaymentStatus) (requests : List PaymentStatus) → IsPaid s → IsPaid (request_all s requests)
unfolding request_all
request_all-IsPaid s [] h = h
request_all-IsPaid s (next ∷ more) h =
    request_all-IsPaid (status_or s (transition_payment_status s next)) more (IsPaid-kept s next h)

IsDropped-kept :
    (s next : PaymentStatus) → IsDropped s → status_or s (transition_payment_status s next) ≡ s
unfolding transition_payment_status
IsDropped-kept s next h = ground arith

-- A payment that failed, was cancelled or expired keeps its status, so that it is never paid.
pub request_all-IsDropped :
    (s : PaymentStatus) (requests : List PaymentStatus) → IsDropped s → request_all s requests ≡ s
unfolding request_all
request_all-IsDropped s [] h = refl
request_all-IsDropped s (next ∷ more) h =
    rw (IsDropped-kept s next h) (request_all-IsDropped s more h)
