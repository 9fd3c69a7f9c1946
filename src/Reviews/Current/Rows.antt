-- ===== src/Reviews/Current/Rows.antt =====
-- One write of a review and the aggregate that is made after it (apps/api/src/main.ts).
use nodex_v.Prelude.{
  ℕ, suc, ◌<◌, ◌==◌, ◌≡◌, ◌⊎◌, refl, sym, arith, subst, ap, Bool, true, false, List, [], ◌∷◌, some,
  All, Bool-cases, inl, inr, if◌then◌else◌,
}
use nodex_v.Prelude.Double.{Double}
use nodex_v.Reviews.{
  Review, ReviewStore, calculate_rating_aggregate, published_ratings, recompute_rating_aggregate,
}
use nodex_v.Reviews.Routes.{find_review, update_review}
use nodex_v.Reviews.Current.{Distinct, IsAggregate, IsCurrent}

found-All :
    (P : Review → Type 0) (test : Review → Bool) (xs : List Review) (e : Review)
    → All P xs
    → find_review test xs ≡ some e
    → P e
unfolding find_review
found-All P test [] e a f = absurd (ground arith)
found-All P test (x ∷ xs) e (p, a) f = elim (Bool-cases (test x)) [
  | inl h ↦ (let same : x ≡ e = ground arith in subst P same p)
  | inr h ↦ found-All P test xs e a (ground arith)
]

-- The rows with the id of a row that was found are of the same user.
abbrev OfOne : Review → List Review → Type 0
OfOne e xs = All (λ x. ((x.id == e.id) ≡ false) ⊎ (x.reviewee_user_id ≡ e.reviewee_user_id)) xs

others-OfOne : (x : Review) (xs : List Review) → All (λ y. (y.id == x.id) ≡ false) xs → OfOne x xs
others-OfOne x [] a = tt
others-OfOne x (y ∷ ys) (h, a) = (inl h, others-OfOne x ys a)

pub found-OfOne :
    (test : Review → Bool) (xs : List Review) (e : Review)
    → Distinct xs
    → find_review test xs ≡ some e
    → OfOne e xs
unfolding find_review
found-OfOne test [] e d f = tt
found-OfOne test (x ∷ xs) e (a, d) f = elim (Bool-cases (test x)) [
  | inl h ↦
      (let same : x ≡ e = ground arith in
        subst (λ z. OfOne z (x ∷ xs)) same (inr refl, others-OfOne x xs a))
  | inr h ↦
      let later : find_review test xs ≡ some e = ground arith in
      let other : (e.id == x.id) ≡ false =
        found-All (λ y. (y.id == x.id) ≡ false) test xs e a later in
      (inl (ground arith), found-OfOne test xs e d later)
]

module _ (change : Review → Review) (same_id : (x : Review) → (change x).id ≡ x.id)
    (same_user : (x : Review) → (change x).reviewee_user_id ≡ x.reviewee_user_id) where
  -- The write changes no other user's ratings.
  pub update-others :
      (e : Review) (xs : List Review) (user : ℕ)
      → (e.reviewee_user_id == user) ≡ false
      → OfOne e xs
      → published_ratings user (update_review e.id change xs) ≡ published_ratings user xs
  update-others e [] user n o = refl
  update-others e (x ∷ xs) user n (inl h, o) = ground (arith, update-others e xs user n o)
  update-others e (x ∷ xs) user n (inr h, o) =
      ground (arith, update-others e xs user n o, same_user x)

  kept_ids :
      (id : ℕ) (P : ℕ → Type 0) (xs : List Review)
      → All (λ x. P x.id) xs
      → All (λ x. P x.id) (update_review id change xs)
  kept_ids id P [] a = tt
  kept_ids id P (x ∷ xs) (p, a) = elim (Bool-cases (x.id == id)) [
    | inl h ↦ (rw h (subst P (sym (same_id x)) p), kept_ids id P xs a)
    | inr h ↦ (rw h p, kept_ids id P xs a)
  ]

  one_id : (id : ℕ) (x : Review) → (if x.id == id then change x else x).id ≡ x.id
  one_id id x = ground (arith, same_id x)

  kept-Distinct : (id : ℕ) (xs : List Review) → Distinct xs → Distinct (update_review id change xs)
  kept-Distinct id [] d = tt
  kept-Distinct id (x ∷ xs) (a, d) = (
    subst (λ i. All (λ y. (y.id == i) ≡ false) (update_review id change xs)) (sym (one_id id x))
        (kept_ids id (λ i. (i == x.id) ≡ false) xs a),
    kept-Distinct id xs d,
  )

-- What a write to the reviews of `user` leaves for the others, and the ids.
pub record Writes (F : Double) (user : ℕ) (s t : ReviewStore F.D) : Type 0 where
  pub others :
      (u : ℕ) → (user == u) ≡ false → published_ratings u t.reviews ≡ published_ratings u s.reviews
  pub same_aggregates : t.aggregates ≡ s.aggregates
  pub distinct : Distinct t.reviews
  pub fresh : All (λ x. x.id < t.next_id) t.reviews

-- The aggregate of the user who was written about is made anew: so all are right again.
pub recompute-IsCurrent :
    (F : Double) (user : ℕ) (s t : ReviewStore F.D)
    → IsCurrent F s
    → Writes F user s t
    → IsCurrent F (recompute_rating_aggregate F user t)
unfolding recompute_rating_aggregate
recompute-IsCurrent F user s t v w = record {
  current = λ u. elim (Bool-cases (u == user)) [
    | inl h ↦
        (let same : u ≡ user = ground arith in
          rw h (ap (λ x. calculate_rating_aggregate F (published_ratings x t.reviews)) (sym same)))
    | inr h ↦ rw h (
        subst (λ rs. IsAggregate F rs (t.aggregates u)) (sym (w.others u (ground arith)))
          (subst (λ g. IsAggregate F (published_ratings u s.reviews) (g u)) (sym w.same_aggregates)
            (v.current u)))
  ];
  distinct = w.distinct;
  fresh = w.fresh;
}

pub update-Writes :
    (F : Double) (s : ReviewStore F.D) (test : Review → Bool) (e : Review)
    (change : Review → Review) (same_id : (x : Review) → (change x).id ≡ x.id)
    (same_user : (x : Review) → (change x).reviewee_user_id ≡ x.reviewee_user_id)
    → IsCurrent F s
    → find_review test s.reviews ≡ some e
    → Writes F e.reviewee_user_id s (record s { reviews = update_review e.id change s.reviews })
update-Writes F s test e change same_id same_user v found = record {
  others = λ u n.
      update-others change same_id same_user e s.reviews u n
        (found-OfOne test s.reviews e v.distinct found);
  same_aggregates = refl;
  distinct = kept-Distinct change same_id same_user e.id s.reviews v.distinct;
  fresh = kept_ids change same_id same_user e.id (λ i. i < s.next_id) s.reviews v.fresh;
}

pub found-test :
    (test : Review → Bool) (xs : List Review) (e : Review)
    → find_review test xs ≡ some e
    → test e ≡ true
unfolding find_review
found-test test [] e f = absurd (ground arith)
found-test test (x ∷ xs) e f = elim (Bool-cases (test x)) [
  | inl h ↦ (let same : x ≡ e = ground arith in subst (λ z. test z ≡ true) same h)
  | inr h ↦ found-test test xs e (ground arith)
]

next_ids : (n : ℕ) (xs : List Review) → All (λ x. x.id < n) xs → All (λ x. x.id < suc n) xs
next_ids n [] a = tt
next_ids n (x ∷ xs) (h, a) = (omega arith, next_ids n xs a)

fresh_ids : (n : ℕ) (xs : List Review) → All (λ x. x.id < n) xs → All (λ x. (x.id == n) ≡ false) xs
fresh_ids n [] a = tt
fresh_ids n (x ∷ xs) (h, a) = (ground arith, fresh_ids n xs a)

pub insert-Writes :
    (F : Double) (s : ReviewStore F.D) (x : Review)
    → IsCurrent F s
    → x.id ≡ s.next_id
    → Writes F x.reviewee_user_id s (record s { reviews = x ∷ s.reviews; next_id = suc s.next_id })
insert-Writes F s x v i = record {
  others = λ u n. ground arith;
  same_aggregates = refl;
  distinct = (
    subst (λ n. All (λ y. (y.id == n) ≡ false) s.reviews) (sym i)
        (fresh_ids s.next_id s.reviews v.fresh),
    v.distinct,
  );
  fresh = (omega (arith, i), next_ids s.next_id s.reviews v.fresh);
}
