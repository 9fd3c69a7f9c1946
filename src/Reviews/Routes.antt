-- ===== src/Reviews/Routes.antt =====
-- apps/api/src/main.ts: reviewEligibilityContext and the routes POST, PATCH and DELETE under
-- /api/v1/reviews.
use nodex_v.Prelude.{
  ℕ, suc, ◌==◌, refl, Bool, true, false, not, ◌&&◌, String, List, [], ◌∷◌, map, Option, none, some,
  same, Result, ok, err, ◌>>=◌, ◌>>◌, throw_if, if◌then◌else◌,
}
use nodex_v.Prelude.Double.{Double}
use nodex_v.Booking.Store.{BookingStatus}
use nodex_v.Lifecycle.Parcel.{ParcelStatus}
use nodex_v.Idempotency.{Table, ensure_idempotency}
use nodex_v.Reviews.{
  ReviewType, ReviewStatus, ReviewError, ReviewType-discrete, EligibilityContext, Review,
  ReviewBooking, ReviewParcel, ReviewStore, evaluate_review_eligibility, recompute_rating_aggregate,
  idempotency_payload_mismatch, booking_not_found, parcel_not_found, review_not_editable,
  review_not_found, driver_by_client, client_by_driver, parcel_driver_by_sender,
  parcel_sender_by_driver,
}

pub record ReviewRequest : Type 0 where
  pub type : ReviewType
  pub booking_id : Option ℕ
  pub parcel_order_id : Option ℕ
  pub reviewee_user_id : ℕ
  pub overall_rating : ℕ
  pub idempotency_key : String
  pub request_hash : ℕ

abbrev pub is_user : ℕ → Option ℕ → Bool
is_user user none = false
is_user user (some u) = u == user

abbrev pub is_completed_booking : BookingStatus → Bool
is_completed_booking BookingStatus.completed = true
is_completed_booking _ = false

abbrev pub is_delivered_parcel : ParcelStatus → Bool
is_delivered_parcel ParcelStatus.delivered = true
is_delivered_parcel _ = false

-- `findFirst` under an id that may be missing.
abbrev pub find_under : {A : Type 0} → (ℕ → Option A) → Option ℕ → Option (ℕ × A)
find_under table none = none
find_under table (some id) = elim (table id) [ none ↦ none | some row ↦ some (id, row) ]

abbrev pub booking_context : ℕ → ℕ → Bool → ℕ × ReviewBooking → EligibilityContext
booking_context reviewer reviewee by_client (id, b) = record {
  is_entity_completed = is_completed_booking b.status;
  completed_at = b.updated_at;
  reviewer_participated =
      if by_client then is_user reviewer b.client_id else b.driver_user_id == reviewer;
  reviewee_is_counterpart =
      if by_client then reviewee == b.driver_user_id else is_user reviewee b.client_id;
  booking_id = some id;
  parcel_order_id = none;
}

abbrev pub or_at : Option ℕ → ℕ → ℕ
or_at none at = at
or_at (some t) at = t

abbrev pub parcel_context : ℕ → ℕ → Bool → ℕ × ReviewParcel → EligibilityContext
parcel_context reviewer reviewee by_sender (id, p) = record {
  is_entity_completed = is_delivered_parcel p.status;
  completed_at = or_at p.delivered_at p.updated_at;
  reviewer_participated =
      if by_sender then p.sender_user_id == reviewer else p.driver_user_id == reviewer;
  reviewee_is_counterpart =
      if by_sender then reviewee == p.driver_user_id else reviewee == p.sender_user_id;
  booking_id = none;
  parcel_order_id = some id;
}

abbrev pub found_or : {A : Type 0} → ReviewError → Option A → Result ReviewError A
found_or e none = err e
found_or e (some a) = ok a

unfoldable pub review_eligibility_context :
    {D : Type 0} → ReviewStore D → ℕ → ReviewRequest → Result ReviewError EligibilityContext
review_eligibility_context s reviewer r =
    let booking = λ (by_client : Bool). (do
      found ← found_or booking_not_found (find_under s.bookings r.booking_id)
      ok (booking_context reviewer r.reviewee_user_id by_client found)) in
    let parcel = λ (by_sender : Bool). (do
      found ← found_or parcel_not_found (find_under s.parcels r.parcel_order_id)
      ok (parcel_context reviewer r.reviewee_user_id by_sender found)) in
    elim (r.type) [
      | driver_by_client ↦ booking true
      | client_by_driver ↦ booking false
      | parcel_driver_by_sender ↦ parcel true
      | parcel_sender_by_driver ↦ parcel false
    ]

abbrev pub same_option : Option ℕ → Option ℕ → Bool
same_option none none = true
same_option none (some b) = false
same_option (some a) none = false
same_option (some a) (some b) = a == b

-- `findFirst` by type, reviewer, reviewee, booking and parcel.
abbrev pub is_same_review : ℕ → ReviewRequest → EligibilityContext → Review → Bool
is_same_review reviewer r c x =
    same ReviewType-discrete x.type r.type
    && x.reviewer_user_id == reviewer
    && x.reviewee_user_id == r.reviewee_user_id
    && same_option x.booking_id c.booking_id
    && same_option x.parcel_order_id c.parcel_order_id

unfoldable pub find_review : (Review → Bool) → List Review → Option Review
find_review test [] = none
find_review test (x ∷ xs) = let rest = find_review test xs in if test x then some x else rest

-- `update({ where: { id } })`.
abbrev pub update_review : ℕ → (Review → Review) → List Review → List Review
update_review id change reviews = map (λ x. if x.id == id then change x else x) reviews

abbrev pub rerate : ℕ → Review → Review
rerate rating x = record x { overall_rating = rating; version = suc x.version }

abbrev pub new_review : ℕ → ℕ → ReviewRequest → EligibilityContext → Review
new_review id reviewer r c = record {
  id = id;
  type = r.type;
  reviewer_user_id = reviewer;
  reviewee_user_id = r.reviewee_user_id;
  booking_id = c.booking_id;
  parcel_order_id = c.parcel_order_id;
  overall_rating = r.overall_rating;
  status = ReviewStatus.published;
  version = 0;
}

-- The write of the review itself, and its id.
unfoldable pub write_review :
    {D : Type 0} → ℕ → ReviewRequest → EligibilityContext → ReviewStore D → ReviewStore D × ℕ
unfolding find_review
write_review reviewer r c s = elim (find_review (is_same_review reviewer r c) s.reviews) [
  | some existing ↦ (
    record s { reviews = update_review existing.id (rerate r.overall_rating) s.reviews },
    existing.id,
  )
  | none ↦ (
    record s { reviews = new_review s.next_id reviewer r c ∷ s.reviews; next_id = suc s.next_id },
    s.next_id,
  )
]

abbrev pub records_table : (D : Type 0) → Table (ReviewStore D) ℕ
records_table D = record {
  records = λ s. s.records;
  create = λ r s. record s { records = r ∷ s.records };
  created = λ r s. refl;
}

abbrev pub is_own : ℕ → ℕ → Review → Bool
is_own id reviewer x = x.id == id && x.reviewer_user_id == reviewer

abbrev pub is_editable : ReviewStatus → Bool
is_editable ReviewStatus.draft = true
is_editable ReviewStatus.published = true
is_editable _ = false

abbrev pub edit : Option ℕ → Review → Review
edit none x = record x { version = suc x.version }
edit (some rating) x = rerate rating x

abbrev pub delete : Review → Review
delete x = record x { status = ReviewStatus.deleted_by_author; version = suc x.version }

module _ (F : Double) where
  -- The body of POST /reviews.
  unfoldable pub submit_review :
      ℕ → ReviewRequest → ℕ → ReviewStore F.D → Result ReviewError (ReviewStore F.D × ℕ)
  unfolding review_eligibility_context evaluate_review_eligibility write_review
      recompute_rating_aggregate
  submit_review reviewer r now s = do
    context ← review_eligibility_context s reviewer r
    evaluate_review_eligibility reviewer r.reviewee_user_id context now
    let (t, id) = write_review reviewer r context s in
        ok (recompute_rating_aggregate F r.reviewee_user_id t, id)

  unfoldable pub create_review :
      ℕ → ReviewRequest → ℕ → ReviewStore F.D → Result ReviewError (ReviewStore F.D × ℕ)
  unfolding ensure_idempotency submit_review
  create_review reviewer r now s =
      ensure_idempotency (records_table F.D) idempotency_payload_mismatch "review:create"
        r.idempotency_key r.request_hash (submit_review reviewer r now) s

  -- PATCH /reviews/:reviewId.
  unfoldable pub edit_review :
      ℕ → ℕ → Option ℕ → ReviewStore F.D → Result ReviewError (ReviewStore F.D)
  unfolding find_review recompute_rating_aggregate
  edit_review id reviewer rating s = elim (find_review (is_own id reviewer) s.reviews) [
    | none ↦ err review_not_editable
    | some existing ↦ do
      throw_if (not (is_editable existing.status)) review_not_editable
      ok (
          recompute_rating_aggregate F existing.reviewee_user_id
            (record s { reviews = update_review existing.id (edit rating) s.reviews }))
  ]

  -- DELETE /reviews/:reviewId.
  unfoldable pub delete_review : ℕ → ℕ → ReviewStore F.D → Result ReviewError (ReviewStore F.D)
  unfolding find_review recompute_rating_aggregate
  delete_review id reviewer s = elim (find_review (is_own id reviewer) s.reviews) [
    | none ↦ err review_not_found
    | some existing ↦ ok (
        recompute_rating_aggregate F existing.reviewee_user_id
          (record s { reviews = update_review existing.id delete s.reviews }))
  ]
