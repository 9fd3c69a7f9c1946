-- ===== src/Idempotency.antt =====
-- ensureIdempotency of apps/api/src/main.ts, over any table of records. The hash of a request is
-- `requestHash(payload)`, of node's crypto module.
pub mod Replay
use text.Mathlib.Text.{◌==◌ as str_eq}
use nodex_v.Prelude.{
  ℕ, ◌==◌, ◌≡◌, not, ◌&&◌, String, List, [], ◌∷◌, Option, none, some, Result, ok, err, ◌>>=◌, ◌>>◌,
  throw_if, if◌then◌else◌,
}

pub record Record (A : Type 0) : Type 0 where
  pub scope : String
  pub key : String
  pub request_hash : ℕ
  pub response : A

-- How a store holds the records: `create` adds one.
pub record Table (S A : Type 0) : Type 0 where
  pub records : S → List (Record A)
  pub create : Record A → S → S
  pub created : (r : Record A) (s : S) → records (create r s) ≡ r ∷ records s

unfoldable pub find : {A : Type 0} → String → String → List (Record A) → Option (Record A)
find scope key [] = none
find scope key (r ∷ rs) =
    let rest = find scope key rs in
    if str_eq r.scope scope && str_eq r.key key then some r else rest

abbrev pub record_result :
    {S E A : Type 0} → Table S A → String → String → ℕ → S × A → Result E (S × A)
record_result table scope key hash (t, a) =
    ok (table.create (record { scope = scope; key = key; request_hash = hash; response = a }) t, a)

-- `mismatch` is the error IDEMPOTENCY_PAYLOAD_MISMATCH.
unfoldable pub ensure_idempotency :
    {S E A : Type 0}
    → Table S A
    → E
    → String
    → String
    → ℕ
    → (S → Result E (S × A))
    → S
    → Result E (S × A)
unfolding find
ensure_idempotency table mismatch scope key hash create s =
    elim (find scope key (table.records s)) [
      | some existing ↦ do
        throw_if (not (existing.request_hash == hash)) mismatch
        ok (s, existing.response)
      | none ↦ create s >>= record_result table scope key hash
    ]
