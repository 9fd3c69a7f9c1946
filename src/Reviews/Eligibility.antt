-- ===== src/Reviews/Eligibility.antt =====
-- Who may review whom (packages/validation/src/index.ts and POST /reviews of apps/api/src/main.ts).
use nodex_v.Prelude.{
  ℕ, ◌+◌, ◌≤◌, ◌==◌, ◌≡◌, ◌≢◌, sym, ap, subst, arith, ◌∙◌, true, not, ◌||◌, Option, none, some,
  Option-cases, inl, inr, ok, >>=-ok, throw_if-ok, value_ok,
}
use nodex_v.Prelude.Double.{Double}
use nodex_v.Booking.Store.{BookingStatus}
use nodex_v.Reviews.{
  ReviewStore, ReviewBooking, EligibilityContext, evaluate_review_eligibility, review_window,
  review_window_open, driver_by_client, idempotency_payload_mismatch, review_self_forbidden,
  review_entity_not_completed, review_entity_forbidden,
}
use nodex_v.Idempotency.Replay.{ensure_idempotency-replayed}
use nodex_v.Reviews.Routes.{
  records_table, ReviewRequest, review_eligibility_context, submit_review, create_review,
  booking_context, find_under, is_completed_booking, is_user,
}

eligible :
    (reviewer reviewee : ℕ) (c : EligibilityContext) (now : ℕ)
    → evaluate_review_eligibility reviewer reviewee c now ≡ ok tt
    → (reviewer ≢ reviewee)
      × (c.is_entity_completed ≡ true)
      × (c.reviewer_participated ≡ true)
      × (c.reviewee_is_counterpart ≡ true)
      × (now ≤ c.completed_at + review_window)
unfolding evaluate_review_eligibility review_window_open
eligible reviewer reviewee c now e =
    let (a, e1) = throw_if-ok (reviewer == reviewee) review_self_forbidden _ e in
    let (b, e2) = throw_if-ok (not c.is_entity_completed) review_entity_not_completed _ e1 in
    let (d, e3) =
      throw_if-ok (not c.reviewer_participated || not c.reviewee_is_counterpart)
        review_entity_forbidden _ e2 in
    (ground arith, ground arith, ground arith, ground arith, ground arith)

passenger_context :
    {D : Type 0} (s : ReviewStore D) (reviewer : ℕ) (r : ReviewRequest) (c : EligibilityContext)
    → r.type ≡ driver_by_client
    → review_eligibility_context s reviewer r ≡ ok c
    → (id : ℕ) × (b : ReviewBooking) × (r.booking_id ≡ some id)
      × (s.bookings id ≡ some b)
      × (c ≡ booking_context reviewer r.reviewee_user_id true (id, b))
unfolding review_eligibility_context
passenger_context s reviewer r c t e = elim (Option-cases r.booking_id) [
  | inl n ↦ absurd (ground (arith, rw (t, n, review_eligibility_context) at e))
  | inr (id, h) ↦ elim (Option-cases (s.bookings id)) [
    | inl n ↦ absurd (ground (arith, rw (t, h, n, review_eligibility_context, find_under) at e))
    | inr (b, row) ↦ (
      id,
      b,
      h,
      row,
      sym (value_ok (rw (t, h, row, review_eligibility_context, find_under) at e)),
    )
  ]
]

completed_status :
    (status : BookingStatus) → is_completed_booking status ≡ true → status ≡ BookingStatus.completed
completed_status status h = ground arith

user_is : (user : ℕ) (o : Option ℕ) → is_user user o ≡ true → o ≡ some user
user_is user none h = absurd (ground arith)
user_is user (some u) h = ground arith

driver_is : (user d : ℕ) → (user == d) ≡ true → d ≡ user
driver_is user d h = ground arith

-- A review of a driver by a client that POST /reviews lets through is by the client of a completed
-- booking, is of another user, who drives the booking's trip, and comes within 30 days of the
-- booking's last change.
pub submit_review-by_client :
    (F : Double) (s t : ReviewStore F.D) (reviewer : ℕ) (r : ReviewRequest) (now id : ℕ)
    → r.type ≡ driver_by_client
    → submit_review F reviewer r now s ≡ ok (t, id)
    → (b : ℕ) × (booking : ReviewBooking) × (r.booking_id ≡ some b)
      × (s.bookings b ≡ some booking)
      × (booking.status ≡ BookingStatus.completed)
      × (booking.client_id ≡ some reviewer)
      × (booking.driver_user_id ≡ r.reviewee_user_id)
      × (reviewer ≢ r.reviewee_user_id)
      × (now ≤ booking.updated_at + review_window)
unfolding submit_review
submit_review-by_client F s t reviewer r now id k e =
    let (c, found, e1) = >>=-ok (review_eligibility_context s reviewer r) _ e in
    let (u, allowed, e2) =
      >>=-ok (evaluate_review_eligibility reviewer r.reviewee_user_id c now) _ e1 in
    let (b, booking, under, row, same) = passenger_context s reviewer r c k found in
    let (other, completed, took_part, counterpart, early) =
      eligible reviewer r.reviewee_user_id c now allowed in
    (
      b,
      booking,
      under,
      row,
      completed_status booking.status (ap (λ x. x.is_entity_completed) (sym same) ∙ completed),
      user_is reviewer booking.client_id (ap (λ x. x.reviewer_participated) (sym same) ∙ took_part),
      driver_is r.reviewee_user_id booking.driver_user_id
          (ap (λ x. x.reviewee_is_counterpart) (sym same) ∙ counterpart),
      other,
      subst (λ x. now ≤ x.completed_at + review_window) same early,
    )

-- The answer to a request to POST /reviews goes by its key and its hash alone: the same request by
-- anybody else, at any time, gets the id of the first review, and writes nothing.
pub create_review-anyone :
    (F : Double) (s t : ReviewStore F.D) (reviewer other now later : ℕ) (r : ReviewRequest) (id : ℕ)
    → create_review F reviewer r now s ≡ ok (t, id)
    → create_review F other r later t ≡ ok (t, id)
unfolding create_review
create_review-anyone F s t reviewer other now later r id e =
    ensure_idempotency-replayed (records_table F.D) idempotency_payload_mismatch "review:create"
      r.idempotency_key r.request_hash (submit_review F reviewer r now)
      (submit_review F other r later) s t id e
