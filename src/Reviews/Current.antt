-- ===== src/Reviews/Current.antt =====
-- The aggregates of ratings beside the reviews that they are made of (apps/api/src/main.ts).
mod Rows
pub mod Steps
use nodex_v.Prelude.{ℕ, ◌<◌, ◌==◌, ◌≡◌, false, List, [], ◌∷◌, Option, none, some, All}
use nodex_v.Prelude.Double.{Double}
use nodex_v.Reviews.{Review, Rating, ReviewStore, calculate_rating_aggregate, published_ratings}

abbrev pub Distinct : List Review → Type 0
Distinct [] = Unit
Distinct (x ∷ xs) = All (λ y. (y.id == x.id) ≡ false) xs × Distinct xs

-- The aggregate of a user is that of the published reviews of the user; a user without one has none.
abbrev pub IsAggregate : (F : Double) → List ℕ → Option (Rating F.D) → Type 0
IsAggregate F ratings none = ratings ≡ []
IsAggregate F ratings (some a) = a ≡ calculate_rating_aggregate F ratings

pub record IsCurrent (F : Double) (s : ReviewStore F.D) : Type 0 where
  pub current : (user : ℕ) → IsAggregate F (published_ratings user s.reviews) (s.aggregates user)
  pub distinct : Distinct s.reviews
  pub fresh : All (λ x. x.id < s.next_id) s.reviews
