-- ===== src/Idempotency/Replay.antt =====
-- A request to ensureIdempotency of apps/api/src/main.ts after another with its key.
use text.Mathlib.TextPositions.{eq_refl}
use nodex_v.Prelude.{
  ℕ, ◌==◌, ◌≡◌, ◌≢◌, refl, arith, ◌∙◌, sym, ap, subst, true, false, not, String, some, Option-cases,
  inl, inr, Result, ok, err, >>=-ok, throw_if-ok, pair_ok,
}
use nodex_v.Idempotency.{Record, Table, find, ensure_idempotency}

module _ {S E A : Type 0} (table : Table S A) (mismatch : E) (scope key : String) where
  -- The key has an answer.
  IsRecorded : ℕ → A → S → Type 0
  IsRecorded hash a s =
      (r : Record A) × (find scope key (table.records s) ≡ some r)
      × (r.request_hash ≡ hash)
      × (r.response ≡ a)

  recorded :
      (hash : ℕ) (a : A) (t : S)
      → IsRecorded hash a
          (table.create (record { scope = scope; key = key; request_hash = hash; response = a }) t)
  unfolding IsRecorded find
  recorded hash a t =
      let row : Record A = record { scope = scope; key = key; request_hash = hash; response = a } in
      (
        row,
        subst (λ rs. find scope key rs ≡ some row) (sym (table.created row t))
            (rw (eq_refl scope, eq_refl key) refl),
        refl,
        refl,
      )

  -- A success leaves its answer under the key.
  ensure-IsRecorded :
      (hash : ℕ) (create : S → Result E (S × A)) (s t : S) (a : A)
      → ensure_idempotency table mismatch scope key hash create s ≡ ok (t, a)
      → IsRecorded hash a t
  unfolding ensure_idempotency IsRecorded
  ensure-IsRecorded hash create s t a e = elim (Option-cases (find scope key (table.records s))) [
    | inr (r, f) ↦
        let (same, e') =
          throw_if-ok (not (r.request_hash == hash)) mismatch _ (rw (f, ensure_idempotency) at e) in
        let (same_store, same_answer) = pair_ok e' in
        (
          r,
          subst (λ u. find scope key (table.records u) ≡ some r) same_store f,
          ground arith,
          same_answer,
        )
    | inl f ↦
        let (made, m, e') = >>=-ok (create s) _ (rw (f, ensure_idempotency) at e) in
        let (same_store, same_answer) = pair_ok e' in
        subst (λ u. IsRecorded hash a u) same_store
          (subst
            (λ b. IsRecorded hash b (
              table.create
                (record { scope = scope; key = key; request_hash = hash; response = made.1 })
                made.0))
            same_answer (recorded hash made.1 made.0))
  ]

  answered :
      (hash hash' : ℕ) (create : S → Result E (S × A)) (t : S) (a : A)
      → IsRecorded hash a t
      → hash ≡ hash'
      → ensure_idempotency table mismatch scope key hash' create t ≡ ok (t, a)
  unfolding ensure_idempotency IsRecorded
  answered hash hash' create t a (r, f, h, g) same =
      let equal : (r.request_hash == hash') ≡ true = ground arith in
      rw (f, equal, ensure_idempotency) (ap (λ b. ok (t, b)) g)

  refused :
      (hash hash' : ℕ) (create : S → Result E (S × A)) (t : S) (a : A)
      → IsRecorded hash a t
      → hash ≢ hash'
      → ensure_idempotency table mismatch scope key hash' create t ≡ err mismatch
  unfolding ensure_idempotency IsRecorded
  refused hash hash' create t a (r, f, h, g) other =
      let apart : r.request_hash ≢ hash' = λ e. other (sym h ∙ e) in
      let different : (r.request_hash == hash') ≡ false = ground arith in
      rw (f, different, ensure_idempotency) refl

  -- A request whose answer was recorded is answered again: whatever its body would do now, a request
  -- under the same scope and key with the same hash gets the answer of the first, and writes nothing.
  pub ensure_idempotency-replayed :
      (hash : ℕ) (create create' : S → Result E (S × A)) (s t : S) (a : A)
      → ensure_idempotency table mismatch scope key hash create s ≡ ok (t, a)
      → ensure_idempotency table mismatch scope key hash create' t ≡ ok (t, a)
  ensure_idempotency-replayed hash create create' s t a e =
      answered hash hash create' t a (ensure-IsRecorded hash create s t a e) refl

  -- With another hash the request is refused, and its body does not run.
  pub ensure_idempotency-mismatch :
      (hash hash' : ℕ) (create create' : S → Result E (S × A)) (s t : S) (a : A)
      → hash ≢ hash'
      → ensure_idempotency table mismatch scope key hash create s ≡ ok (t, a)
      → ensure_idempotency table mismatch scope key hash' create' t ≡ err mismatch
  ensure_idempotency-mismatch hash hash' create create' s t a other e =
      refused hash hash' create' t a (ensure-IsRecorded hash create s t a e) other
