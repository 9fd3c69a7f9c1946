-- ===== src/Codes/Transactions.antt =====
-- `prisma.$transaction(body)`, which the database library provides: it keeps what a body has written
-- if the body returns, and nothing of it if the body throws.
use nodex_v.Prelude.{◌≡◌, Result, ok, err}

pub record Transaction (S E A : Type 0) : Type 0 where
  pub run : (S → S × Result E A) → S → S × Result E A
  pub commits :
      (body : S → S × Result E A) (s t : S) (a : A) → body s ≡ (t, ok a) → run body s ≡ (t, ok a)
  pub rolls_back :
      (body : S → S × Result E A) (s t : S) (e : E) → body s ≡ (t, err e) → run body s ≡ (s, err e)
