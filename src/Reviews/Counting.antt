-- ===== src/Reviews/Counting.antt =====
-- The aggregate of calculateRatingAggregate of packages/validation/src/index.ts.
use nodex_v.Prelude.{ℕ, suc, ◌+◌, ◌*◌, ◌≤◌, ◌≡◌, arith, List, [], ◌∷◌, length, All, min, max, ◌∙◌}
use nodex_v.Prelude.Double.{Double}
use nodex_v.Reviews.{Distribution, add_rating, distribute, sum, calculate_rating_aggregate}

abbrev pub total : Distribution → ℕ
total d = d.one + d.two + d.three + d.four + d.five

abbrev pub weight : Distribution → ℕ
weight d = d.one + 2 * d.two + 3 * d.three + 4 * d.four + 5 * d.five

total-add :
    (rating : ℕ) (d : Distribution) → total (add_rating (max 1 (min 5 rating)) d) ≡ suc (total d)
total-add rating d = ground arith

weight-add :
    (rating : ℕ) (d : Distribution)
    → 1 ≤ rating
    → rating ≤ 5
    → weight (add_rating (max 1 (min 5 rating)) d) ≡ rating + weight d
weight-add rating d l u = ground arith

total-distribute :
    (ratings : List ℕ) (d : Distribution) → total (distribute ratings d) ≡ length ratings + total d
unfolding distribute
total-distribute [] d = omega arith
total-distribute (r ∷ rs) d =
    total-distribute rs (add_rating (max 1 (min 5 r)) d) ∙ omega (arith, total-add r d)

weight-distribute :
    (ratings : List ℕ) (d : Distribution)
    → All (λ r. (1 ≤ r) × (r ≤ 5)) ratings
    → weight (distribute ratings d) ≡ sum ratings + weight d
unfolding distribute
weight-distribute [] d a = omega arith
weight-distribute (r ∷ rs) d ((l, u), a) =
    weight-distribute rs (add_rating (max 1 (min 5 r)) d) a ∙ omega (arith, weight-add r d l u)

-- Of ratings from 1 to 5: the five numbers of the distribution add up to the count of the ratings, and
-- with their ratings as weights to the sum of the ratings.
pub calculate_rating_aggregate-sum :
    (F : Double) (ratings : List ℕ)
    → All (λ r. (1 ≤ r) × (r ≤ 5)) ratings
    → (total (calculate_rating_aggregate F ratings).rating_distribution
        ≡ (calculate_rating_aggregate F ratings).rating_count)
      × (weight (calculate_rating_aggregate F ratings).rating_distribution ≡ sum ratings)
unfolding calculate_rating_aggregate
calculate_rating_aggregate-sum F ratings a =
    let start : Distribution = record { one = 0; two = 0; three = 0; four = 0; five = 0 } in
    (total-distribute ratings start ∙ omega arith, weight-distribute ratings start a ∙ omega arith)
