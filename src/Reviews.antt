-- ===== src/Reviews.antt =====
-- packages/validation/src/index.ts: reviewWindowOpen, evaluateReviewEligibility and
-- calculateRatingAggregate; apps/api/src/main.ts: reviewEligibilityContext,
-- recomputeRatingAggregate and POST, PATCH and DELETE under /api/v1/reviews. The text of a review, the
-- scores by criterion and the notification are left out. Times are in milliseconds.
pub mod Counting
pub mod Routes
pub mod Eligibility
pub mod Current
use nodex_v.Prelude.{
  ℕ, suc, ◌+◌, ◌*◌, ◌==◌, Bool, true, false, not, ◌&&◌, ◌||◌, String, List, [], ◌∷◌, map, keep,
  length, Option, none, some, leb, min, max, same, Result, ok, err, ◌>>=◌, ◌>>◌, throw_if,
  if◌then◌else◌,
}
use nodex_v.Prelude.Double.{Double}
use nodex_v.Booking.Store.{BookingStatus}
use nodex_v.Lifecycle.Parcel.{ParcelStatus}
use nodex_v.Idempotency.{Record, Table, ensure_idempotency}

pub data ReviewType : Type 0 where
  driver_by_client client_by_driver parcel_driver_by_sender parcel_sender_by_driver : ReviewType

pub data ReviewStatus : Type 0 where
  draft published hidden under_review rejected deleted_by_author removed_by_admin : ReviewStatus

pub data ReviewError : Type 0 where
  idempotency_payload_mismatch review_self_forbidden review_entity_not_completed : ReviewError
  review_entity_forbidden review_window_closed booking_not_found parcel_not_found : ReviewError
  review_not_editable review_not_found : ReviewError

unfoldable pub ReviewType-discrete : Discrete ReviewType
ReviewType-discrete = hlevel

-- `windowDays * 24 * 60 * 60 * 1000`, of 30 days.
abbrev pub review_window : ℕ
review_window = 30 * 24 * 60 * 60 * 1000

unfoldable pub review_window_open : ℕ → ℕ → Bool
review_window_open completed_at now = leb now (completed_at + review_window)

-- What reviewEligibilityContext finds. The status of the booking or the parcel stands as the test that
-- it is the one that its type of review requires.
pub record EligibilityContext : Type 0 where
  pub is_entity_completed : Bool
  pub completed_at : ℕ
  pub reviewer_participated : Bool
  pub reviewee_is_counterpart : Bool
  pub booking_id : Option ℕ
  pub parcel_order_id : Option ℕ

unfoldable pub evaluate_review_eligibility :
    ℕ → ℕ → EligibilityContext → ℕ → Result ReviewError (Unit {0})
unfolding review_window_open
evaluate_review_eligibility reviewer reviewee c now = do
  throw_if (reviewer == reviewee) review_self_forbidden
  throw_if (not c.is_entity_completed) review_entity_not_completed
  throw_if (not c.reviewer_participated || not c.reviewee_is_counterpart) review_entity_forbidden
  throw_if (not (review_window_open c.completed_at now)) review_window_closed

pub record Distribution : Type 0 where
  pub one : ℕ
  pub two : ℕ
  pub three : ℕ
  pub four : ℕ
  pub five : ℕ

pub record Rating (D : Type 0) : Type 0 where
  pub average_rating : D
  pub rating_count : ℕ
  pub rating_distribution : Distribution

-- `distribution[key] += 1`, for a key from 1 to 5.
abbrev pub add_rating : ℕ → Distribution → Distribution
add_rating key d =
    if key == 1
    then record d { one = suc d.one }
    else if key == 2
    then record d { two = suc d.two }
    else if key == 3
    then record d { three = suc d.three }
    else if key == 4
    then record d { four = suc d.four }
    else record d { five = suc d.five }

unfoldable pub distribute : List ℕ → Distribution → Distribution
distribute [] d = d
distribute (rating ∷ ratings) d = distribute ratings (add_rating (max 1 (min 5 rating)) d)

abbrev pub sum : List ℕ → ℕ
sum [] = 0
sum (rating ∷ ratings) = rating + sum ratings

-- A rating is a whole number, by the schema. The sum of the ratings is exact as a `number`.
unfoldable pub calculate_rating_aggregate : (F : Double) → List ℕ → Rating F.D
unfolding distribute
calculate_rating_aggregate F ratings =
    let rating_count = length ratings in
    let average_rating =
      if rating_count == 0
      then F.of_nat 0
      else F.over (F.of_nat (sum ratings)) (F.of_nat rating_count) in
    record {
      average_rating = F.over (F.round (F.times average_rating (F.of_nat 100))) (F.of_nat 100);
      rating_count = rating_count;
      rating_distribution =
          distribute ratings (record { one = 0; two = 0; three = 0; four = 0; five = 0 });
    }

pub record Review : Type 0 where
  pub id : ℕ
  pub type : ReviewType
  pub reviewer_user_id : ℕ
  pub reviewee_user_id : ℕ
  pub booking_id : Option ℕ
  pub parcel_order_id : Option ℕ
  pub overall_rating : ℕ
  pub status : ReviewStatus
  pub version : ℕ

pub record ReviewBooking : Type 0 where
  pub status : BookingStatus
  pub client_id : Option ℕ
  pub driver_user_id : ℕ
  pub updated_at : ℕ

-- A parcel with a driver; one without is answered as none.
pub record ReviewParcel : Type 0 where
  pub status : ParcelStatus
  pub sender_user_id : ℕ
  pub driver_user_id : ℕ
  pub delivered_at : Option ℕ
  pub updated_at : ℕ

pub record ReviewStore (D : Type 0) : Type 0 where
  pub bookings : ℕ → Option ReviewBooking
  pub parcels : ℕ → Option ReviewParcel
  pub reviews : List Review
  -- The aggregates with scope OVERALL, by user.
  pub aggregates : ℕ → Option (Rating D)
  pub records : List (Record ℕ)
  pub next_id : ℕ

abbrev pub is_published : ReviewStatus → Bool
is_published published = true
is_published _ = false

-- `findMany({ where: { revieweeUserId, status: PUBLISHED } })`, with their ratings.
abbrev pub is_counted : ℕ → Review → Bool
is_counted user r = r.reviewee_user_id == user && is_published r.status

abbrev pub published_ratings : ℕ → List Review → List ℕ
published_ratings user reviews = map (λ r. r.overall_rating) (keep (is_counted user) reviews)

unfoldable pub recompute_rating_aggregate : (F : Double) → ℕ → ReviewStore F.D → ReviewStore F.D
unfolding calculate_rating_aggregate
recompute_rating_aggregate F user s = record s {
  aggregates = λ u.
      if u == user
      then some (calculate_rating_aggregate F (published_ratings user s.reviews))
      else s.aggregates u;
}
