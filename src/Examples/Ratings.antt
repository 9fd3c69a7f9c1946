-- ===== src/Examples/Ratings.antt =====
-- A passenger reviews the driver of a completed booking.
use nodex_v.Prelude.{
  ℕ, ◌+◌, ◌≤◌, ◌≡◌, ◌≢◌, refl, arith, [], ◌∷◌, Option, none, some, ok, ◌==◌, if◌then◌else◌,
}
use nodex_v.Booking.Store.{BookingStatus}
use nodex_v.Idempotency.{ensure_idempotency, find}
use nodex_v.Reviews.{
  ReviewStatus, ReviewStore, ReviewBooking, driver_by_client, calculate_rating_aggregate,
  distribute, published_ratings, recompute_rating_aggregate, evaluate_review_eligibility,
  review_window, review_window_open,
}
use nodex_v.Reviews.Eligibility.{submit_review-by_client, create_review-anyone}
use nodex_v.Reviews.Routes.{
  ReviewRequest, submit_review, create_review, review_eligibility_context, write_review,
  find_review,
}
use nodex_v.Reviews.Current.Steps.{
  ReviewReach, here, next, create, elsewhere, new_reviews, ReviewReach-aggregate,
}
use nodex_v.Examples.Incentives.{meters}

abbrev trips : ℕ → Option ReviewBooking
trips b = some (record {
  status = BookingStatus.completed;
  client_id = some 7;
  driver_user_id = 42;
  updated_at = 1000;
})

abbrev first_hash : ℕ
first_hash = 99

abbrev opened_reviewer : ℕ
opened_reviewer = 7

abbrev opened : ReviewStore ℕ
opened = record (new_reviews ℕ) { bookings = trips }

abbrev praise : ReviewRequest
praise = record {
  type = driver_by_client;
  booking_id = some 21;
  parcel_order_id = none;
  reviewee_user_id = 42;
  overall_rating = 5;
  idempotency_key = "k1";
  request_hash = 99;
}

abbrev reviewed : ReviewStore ℕ
reviewed = record (new_reviews ℕ) {
  bookings = trips;
  reviews =
      record {
        id = 0;
        type = driver_by_client;
        reviewer_user_id = 7;
        reviewee_user_id = 42;
        booking_id = some 21;
        parcel_order_id = none;
        overall_rating = 5;
        status = ReviewStatus.published;
        version = 0;
      }
      ∷ [];
  aggregates = λ u. if u == 42 then some (calculate_rating_aggregate meters (5 ∷ [])) else none;
  next_id = 1;
}

reviews_once : submit_review meters 7 praise 2000 opened ≡ ok (reviewed, 0)
unfolding submit_review review_eligibility_context evaluate_review_eligibility review_window_open
    write_review find_review recompute_rating_aggregate calculate_rating_aggregate new_reviews
    distribute
reviews_once = refl

abbrev answered : ReviewStore ℕ
answered = record reviewed {
  records = record { scope = "review:create"; key = "k1"; request_hash = 99; response = 0 } ∷ [];
}

created_once : create_review meters 7 praise 2000 opened ≡ ok (answered, 0)
unfolding create_review ensure_idempotency find submit_review review_eligibility_context
    evaluate_review_eligibility review_window_open write_review find_review
    recompute_rating_aggregate calculate_rating_aggregate new_reviews distribute
created_once = refl

submit_review-by_client_example :
    (b : ℕ) × (booking : ReviewBooking) × (praise.booking_id ≡ some b)
    × (opened.bookings b ≡ some booking)
    × (booking.status ≡ BookingStatus.completed)
    × (booking.client_id ≡ some 7)
    × (booking.driver_user_id ≡ 42)
    × (opened_reviewer ≢ praise.reviewee_user_id)
    × (2000 ≤ booking.updated_at + review_window)
submit_review-by_client_example =
    submit_review-by_client meters opened reviewed 7 praise 2000 0 refl reviews_once

create_review-anyone_example : create_review meters 8 praise 9000 answered ≡ ok (answered, 0)
create_review-anyone_example =
    create_review-anyone meters opened answered 7 8 2000 9000 praise 0 created_once

other_hash : first_hash ≢ 98
other_hash e = absurd (omega (arith, e))

reviews_made : ReviewReach meters (new_reviews ℕ) answered
unfolding new_reviews
reviews_made =
    next (next here (elsewhere trips (λ p. none) refl)) (create 7 praise 2000 0 created_once)

ReviewReach-aggregate_example :
    calculate_rating_aggregate meters (5 ∷ [])
    ≡ calculate_rating_aggregate meters (published_ratings 42 answered.reviews)
ReviewReach-aggregate_example =
    ReviewReach-aggregate meters answered 42 (calculate_rating_aggregate meters (5 ∷ []))
      reviews_made refl
