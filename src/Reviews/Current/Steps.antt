-- ===== src/Reviews/Current/Steps.antt =====
-- Sequences of reviews that are written, edited and deleted (apps/api/src/main.ts).
use nodex_v.Prelude.{
  ℕ, ◌==◌, ◌≡◌, refl, sym, arith, subst, Bool, not, [], Option, none, some, Option-cases, inl, inr,
  ok, >>=-ok, throw_if-ok, pair_ok, value_ok,
}
use nodex_v.Prelude.Double.{Double}
use nodex_v.Reviews.{
  Review, ReviewStore, ReviewBooking, ReviewParcel, EligibilityContext, Rating,
  calculate_rating_aggregate, published_ratings, recompute_rating_aggregate,
  evaluate_review_eligibility, review_not_editable, idempotency_payload_mismatch,
}
use nodex_v.Idempotency.{find, ensure_idempotency}
use nodex_v.Reviews.Routes.{
  ReviewRequest, review_eligibility_context, find_review, is_same_review, update_review, rerate,
  new_review, write_review, submit_review, create_review, is_own, is_editable, edit, edit_review,
  delete, delete_review,
}
use nodex_v.Reviews.Current.{IsAggregate, IsCurrent}
use nodex_v.Reviews.Current.Rows.{
  Writes, recompute-IsCurrent, update-Writes, insert-Writes, found-test,
}

write-Writes :
    (F : Double) (reviewer : ℕ) (r : ReviewRequest) (c : EligibilityContext) (s : ReviewStore F.D)
    → IsCurrent F s
    → Writes F r.reviewee_user_id s (write_review reviewer r c s).0
unfolding write_review
write-Writes F reviewer r c s v =
    elim (Option-cases (find_review (is_same_review reviewer r c) s.reviews)) [
      | inl n ↦ rw (n, write_review) (insert-Writes F s (new_review s.next_id reviewer r c) v refl)
      | inr (e, f) ↦
          let own = found-test (is_same_review reviewer r c) s.reviews e f in
          let user : e.reviewee_user_id ≡ r.reviewee_user_id = ground arith in
          rw (f, write_review)
            (subst
              (λ u.
                Writes F u s
                  (record s { reviews = update_review e.id (rerate r.overall_rating) s.reviews }))
              user
              (update-Writes F s (is_same_review reviewer r c) e (rerate r.overall_rating)
                (λ x. refl) (λ x. refl) v f))
    ]

submit-IsCurrent :
    (F : Double) (reviewer : ℕ) (r : ReviewRequest) (now : ℕ) (s t : ReviewStore F.D) (id : ℕ)
    → IsCurrent F s
    → submit_review F reviewer r now s ≡ ok (t, id)
    → IsCurrent F t
unfolding submit_review
submit-IsCurrent F reviewer r now s t id v e =
    let (c, found, e1) = >>=-ok (review_eligibility_context s reviewer r) _ e in
    let (u, allowed, e2) =
      >>=-ok (evaluate_review_eligibility reviewer r.reviewee_user_id c now) _ e1 in
    let written : recompute_rating_aggregate F r.reviewee_user_id (write_review reviewer r c s).0
        ≡ t =
      (pair_ok e2).0 in
    subst (IsCurrent F) written (
      recompute-IsCurrent F r.reviewee_user_id s (write_review reviewer r c s).0 v
        (write-Writes F reviewer r c s v))

create_review-IsCurrent :
    (F : Double) (reviewer : ℕ) (r : ReviewRequest) (now : ℕ) (s t : ReviewStore F.D) (id : ℕ)
    → IsCurrent F s
    → create_review F reviewer r now s ≡ ok (t, id)
    → IsCurrent F t
unfolding create_review ensure_idempotency
create_review-IsCurrent F reviewer r now s t id v e =
    elim (Option-cases (find "review:create" r.idempotency_key s.records)) [
      | inr (row, f) ↦
          let (same, e') =
            throw_if-ok (not (row.request_hash == r.request_hash)) idempotency_payload_mismatch _
              (rw (f, create_review, ensure_idempotency) at e) in
          subst (IsCurrent F) (pair_ok e').0 v
      | inl f ↦
          let (made, m, e') =
            >>=-ok (submit_review F reviewer r now s) _
              (rw (f, create_review, ensure_idempotency) at e) in
          let after = submit-IsCurrent F reviewer r now s made.0 made.1 v m in
          subst (IsCurrent F) (pair_ok e').0
            (record { current = after.current; distinct = after.distinct; fresh = after.fresh })
    ]

changed-IsCurrent :
    (F : Double) (s t : ReviewStore F.D) (test : Review → Bool) (x : Review)
    (change : Review → Review) (same_id : (y : Review) → (change y).id ≡ y.id)
    (same_user : (y : Review) → (change y).reviewee_user_id ≡ y.reviewee_user_id)
    → IsCurrent F s
    → find_review test s.reviews ≡ some x
    → recompute_rating_aggregate F x.reviewee_user_id
        (record s { reviews = update_review x.id change s.reviews })
      ≡ t
    → IsCurrent F t
changed-IsCurrent F s t test x change same_id same_user v f e = subst (IsCurrent F) e (
    recompute-IsCurrent F x.reviewee_user_id s
      (record s { reviews = update_review x.id change s.reviews }) v
      (update-Writes F s test x change same_id same_user v f))

edit-ids : (rating : Option ℕ) (x : Review) → (edit rating x).id ≡ x.id
edit-ids none x = refl
edit-ids (some rating) x = refl

edit-users :
    (rating : Option ℕ) (x : Review) → (edit rating x).reviewee_user_id ≡ x.reviewee_user_id
edit-users none x = refl
edit-users (some rating) x = refl

edit_review-IsCurrent :
    (F : Double) (id reviewer : ℕ) (rating : Option ℕ) (s t : ReviewStore F.D)
    → IsCurrent F s
    → edit_review F id reviewer rating s ≡ ok t
    → IsCurrent F t
unfolding edit_review
edit_review-IsCurrent F id reviewer rating s t v e =
    elim (Option-cases (find_review (is_own id reviewer) s.reviews)) [
      | inl f ↦ absurd (ground (arith, rw (f, edit_review) at e))
      | inr (x, f) ↦
          let (editable, e') =
            throw_if-ok (not (is_editable x.status)) review_not_editable _
              (rw (f, edit_review) at e) in
          changed-IsCurrent F s t (is_own id reviewer) x (edit rating) (edit-ids rating)
            (edit-users rating) v f (value_ok e')
    ]

delete_review-IsCurrent :
    (F : Double) (id reviewer : ℕ) (s t : ReviewStore F.D)
    → IsCurrent F s
    → delete_review F id reviewer s ≡ ok t
    → IsCurrent F t
unfolding delete_review
delete_review-IsCurrent F id reviewer s t v e =
    elim (Option-cases (find_review (is_own id reviewer) s.reviews)) [
      | inl f ↦ absurd (ground (arith, rw (f, delete_review) at e))
      | inr (x, f) ↦
          changed-IsCurrent F s t (is_own id reviewer) x delete (λ y. refl) (λ y. refl) v f
            (value_ok (rw (f, delete_review) at e))
    ]

-- One request of anybody at any time, or a change of a booking or a parcel, which other parts make.
pub data ReviewStep (F : Double) (s t : ReviewStore F.D) : Type 0 where
  create :
      (reviewer : ℕ) (r : ReviewRequest) (now id : ℕ)
      → create_review F reviewer r now s ≡ ok (t, id)
      → ReviewStep F s t
  change :
      (id reviewer : ℕ) (rating : Option ℕ)
      → edit_review F id reviewer rating s ≡ ok t
      → ReviewStep F s t
  remove : (id reviewer : ℕ) → delete_review F id reviewer s ≡ ok t → ReviewStep F s t
  elsewhere :
      (bookings : ℕ → Option ReviewBooking) (parcels : ℕ → Option ReviewParcel)
      → t ≡ record s { bookings = bookings; parcels = parcels }
      → ReviewStep F s t

pub data ReviewReach (F : Double) (s : ReviewStore F.D) : ReviewStore F.D → Type 0 where
  here : ReviewReach F s s
  next : {t u : ReviewStore F.D} → ReviewReach F s t → ReviewStep F t u → ReviewReach F s u

Step-IsCurrent :
    (F : Double) {s t : ReviewStore F.D} → IsCurrent F s → ReviewStep F s t → IsCurrent F t
Step-IsCurrent F {s} {t} v (create reviewer r now id e) =
    create_review-IsCurrent F reviewer r now s t id v e
Step-IsCurrent F {s} {t} v (change id reviewer rating e) =
    edit_review-IsCurrent F id reviewer rating s t v e
Step-IsCurrent F {s} {t} v (remove id reviewer e) = delete_review-IsCurrent F id reviewer s t v e
Step-IsCurrent F {s} {t} v (elsewhere bookings parcels e) =
    subst (IsCurrent F) (sym e)
      (record { current = v.current; distinct = v.distinct; fresh = v.fresh })

Reach-IsCurrent :
    (F : Double) {s t : ReviewStore F.D} → IsCurrent F s → ReviewReach F s t → IsCurrent F t
Reach-IsCurrent F v here = v
Reach-IsCurrent F v (next r st) = Step-IsCurrent F (Reach-IsCurrent F v r) st

unfoldable pub new_reviews : (D : Type 0) → ReviewStore D
new_reviews D = record {
  bookings = λ b. none;
  parcels = λ p. none;
  reviews = [];
  aggregates = λ u. none;
  records = [];
  next_id = 0;
}

new_reviews-IsCurrent : (F : Double) → IsCurrent F (new_reviews F.D)
unfolding new_reviews
new_reviews-IsCurrent F = record { current = λ u. refl; distinct = tt; fresh = tt }

-- After any reviews, edits and deletions, in any order: the aggregate that is stored for a user is
-- that of the ratings in the published reviews of the user.
pub ReviewReach-aggregate :
    (F : Double) (s : ReviewStore F.D) (user : ℕ) (a : Rating F.D)
    → ReviewReach F (new_reviews F.D) s
    → s.aggregates user ≡ some a
    → a ≡ calculate_rating_aggregate F (published_ratings user s.reviews)
ReviewReach-aggregate F s user a r e =
    subst (IsAggregate F (published_ratings user s.reviews)) e
      ((Reach-IsCurrent F (new_reviews-IsCurrent F) r).current user)

-- After any such sequence a user without a stored aggregate has no published review.
pub ReviewReach-unrated :
    (F : Double) (s : ReviewStore F.D) (user : ℕ)
    → ReviewReach F (new_reviews F.D) s
    → s.aggregates user ≡ none
    → published_ratings user s.reviews ≡ []
ReviewReach-unrated F s user r e =
    subst (IsAggregate F (published_ratings user s.reviews)) e
      ((Reach-IsCurrent F (new_reviews-IsCurrent F) r).current user)
