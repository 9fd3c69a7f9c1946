-- ===== src/Prelude/Double.antt =====
-- What the code uses of JavaScript's `number` for coordinates and averages: the operations of the
-- language and of `Math`, without laws.
use nodex_v.Prelude.{ℕ, Bool}

pub record Double : Type 1 where
  pub D : Type 0
  pub of_nat : ℕ → D
  pub plus : D → D → D
  pub minus : D → D → D
  pub times : D → D → D
  pub over : D → D → D
  pub pow : D → D → D
  pub pi : D
  pub round : D → D
  pub sin : D → D
  pub cos : D → D
  pub sqrt : D → D
  pub atan2 : D → D → D
  pub less : D → D → Bool
