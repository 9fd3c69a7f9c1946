-- ===== src/Prelude/Results.antt =====
-- Code that throws: `err` is the exception, and `do` runs the next statement only after `ok`.
use mathlib.Core.Path.{◌≡◌, refl}
use mathlib.Core.Bool.{Bool, true, false}

pub data Result {ℓ} (E A : Type ℓ) : Type ℓ where
  ok : A → Result E A
  err : E → Result E A

infixl 5 ◌>>=◌ ◌>>◌
abbrev pub ◌>>=◌ {ℓ} : {E A B : Type ℓ} → Result E A → (A → Result E B) → Result E B
ok a >>= f = f a
err e >>= f = err e

abbrev pub ◌>>◌ {ℓ} : {E B : Type ℓ} → Result E (Unit {ℓ}) → Result E B → Result E B
m >> k = m >>= λ _. k

-- `if (bad) throw e`.
abbrev pub throw_if {ℓ} : {E : Type ℓ} → Bool → E → Result E (Unit {ℓ})
throw_if true e = err e
throw_if false e = ok tt

-- What a success of a sequence says of its parts.
pub throw_if-ok {ℓ} :
    {E B : Type ℓ} (b : Bool) (e : E) (k : Result E B) {r : B}
    → (throw_if b e >> k) ≡ ok r
    → (b ≡ false) × (k ≡ ok r)
throw_if-ok true e k h = cc
throw_if-ok false e k h = (refl, h)

pub >>=-ok {ℓ} :
    {E A B : Type ℓ} (m : Result E A) (f : A → Result E B) {r : B}
    → (m >>= f) ≡ ok r
    → (a : A) × (m ≡ ok a) × (f a ≡ ok r)
>>=-ok (ok a) f h = (a, refl, h)
>>=-ok (err e) f h = cc

-- Equal successes have equal values.
pub value_ok {ℓ} : {E A : Type ℓ} {a b : A} → ◌≡◌ {A = Result E A} (ok a) (ok b) → a ≡ b
value_ok e = cc

pub pair_ok {ℓ} :
    {E S A : Type ℓ} {s t : S} {a b : A}
    → ◌≡◌ {A = Result E (S × A)} (ok (s, a)) (ok (t, b))
    → (s ≡ t) × (a ≡ b)
pair_ok e = (cc, cc)
