-- ===== src/Rewards/Invariant/Rows.antt =====
-- The rows that createRewardWithEvaluation and a review write (apps/api/src/main.ts).
use nodex_v.Prelude.{
  ℕ, ◌==◌, ◌≡◌, refl, arith, Bool, true, false, List, [], ◌∷◌, ◌++◌, map, none, All, inl, inr,
  Option-cases, Bool-cases, any, Result, ok, subst, ap, sym, ◌∙◌,
}
use nodex_v.Prelude.Double.{Double}
use nodex_v.Rewards.{RewardConfig, RewardKey, RewardTransaction, FraudEvaluation, RewardStore}
use nodex_v.Rewards.Fraud.{reward_status_for_fraud_status}
use nodex_v.Rewards.Grants.{
  RewardInput, same_key, find_reward, write_reward, create_reward_with_evaluation, ReviewDecision,
  ReviewError, review_row, review_evaluation, review_reward, time_if,
}
use nodex_v.Rewards.Grants.Once.{create-existing, create-absent}
use nodex_v.Rewards.Invariant.{Distinct, Agrees, Paired, IsSound, has_value}

All-append :
    (P : RewardTransaction → Type 0) (rs : List RewardTransaction) (r : RewardTransaction)
    → All P rs
    → P r
    → All P (rs ++ (r ∷ []))
All-append P [] r a h = (h, tt)
All-append P (x ∷ xs) r (p, a) h = (p, All-append P xs r a h)

Distinct-append :
    (rs : List RewardTransaction) (r : RewardTransaction)
    → find_reward r.key rs ≡ none
    → Distinct rs
    → Distinct (rs ++ (r ∷ []))
unfolding find_reward
Distinct-append [] r n d = (tt, tt)
Distinct-append (x ∷ xs) r n (a, d) = (
  All-append (λ y. same_key y.key x.key ≡ false) xs r a (ground arith),
  Distinct-append xs r (ground arith) d,
)

Paired-append :
    (rs : List RewardTransaction) (es : List FraudEvaluation) (r : RewardTransaction)
    (e : FraudEvaluation)
    → Paired rs es
    → Agrees r e
    → Paired (rs ++ (r ∷ [])) (es ++ (e ∷ []))
Paired-append [] [] r e p a = (a, tt)
Paired-append [] (y ∷ ys) r e p a = absurd p
Paired-append (x ∷ xs) [] r e p a = absurd p
Paired-append (x ∷ xs) (y ∷ ys) r e (b, p) a = (b, Paired-append xs ys r e p a)

time_if-has : (test : Bool) (now : ℕ) → has_value (time_if test now) ≡ test
time_if-has true now = refl
time_if-has false now = refl

pub create-IsSound :
    (F : Double) (config : RewardConfig) (now : ℕ) (input : RewardInput F.D) (s : RewardStore)
    → IsSound s
    → IsSound (create_reward_with_evaluation F config now input s).0
unfolding write_reward
create-IsSound F config now input s v = elim (Option-cases (find_reward input.key s.rewards)) [
  | inr (r, e) ↦ rw (create-existing F config now input s r e) v
  | inl e ↦ rw (create-absent F config now input s e) (record {
    distinct = Distinct-append s.rewards _ e v.distinct;
    paired = Paired-append s.rewards s.evaluations _ _ v.paired (record {
      same_reward = refl;
      same_status = refl;
      confirmed_time = time_if-has _ now;
      rejected_time = time_if-has _ now;
    });
  })
]

reviewed-key :
    (id : ℕ) (decision : ReviewDecision) (now : ℕ) (r : RewardTransaction)
    → (review_row id decision now r).key ≡ r.key
reviewed-key id decision now r = ground arith

reviewed-All :
    (id : ℕ) (decision : ReviewDecision) (now : ℕ) (key : RewardKey) (rs : List RewardTransaction)
    → All (λ x. same_key x.key key ≡ false) rs
    → All (λ x. same_key x.key key ≡ false) (map (review_row id decision now) rs)
reviewed-All id decision now key [] a = tt
reviewed-All id decision now key (r ∷ rs) (h, a) = (
  ap (λ k. same_key k key) (reviewed-key id decision now r) ∙ h,
  reviewed-All id decision now key rs a,
)

reviewed-Distinct :
    (id : ℕ) (decision : ReviewDecision) (now : ℕ) (rs : List RewardTransaction)
    → Distinct rs
    → Distinct (map (review_row id decision now) rs)
reviewed-Distinct id decision now [] d = tt
reviewed-Distinct id decision now (r ∷ rs) (a, d) = (
  subst (λ k. All (λ x. same_key x.key k ≡ false) (map (review_row id decision now) rs))
      (sym (reviewed-key id decision now r)) (reviewed-All id decision now r.key rs a),
  reviewed-Distinct id decision now rs d,
)

reviewed-Agrees :
    (id : ℕ) (decision : ReviewDecision) (now : ℕ) (r : RewardTransaction) (e : FraudEvaluation)
    → Agrees r e
    → Agrees (review_row id decision now r) (review_evaluation id decision now e)
unfolding reward_status_for_fraud_status
reviewed-Agrees id decision now r e a = record {
  same_reward = ground (arith, a.same_reward);
  same_status = ground (arith, a.same_reward, a.same_status);
  confirmed_time = ground (arith, a.confirmed_time);
  rejected_time = ground (arith, a.rejected_time);
}

reviewed-Paired :
    (id : ℕ) (decision : ReviewDecision) (now : ℕ) (rs : List RewardTransaction)
    (es : List FraudEvaluation)
    → Paired rs es
    → Paired (map (review_row id decision now) rs) (map (review_evaluation id decision now) es)
reviewed-Paired id decision now [] [] p = tt
reviewed-Paired id decision now [] (e ∷ es) p = absurd p
reviewed-Paired id decision now (r ∷ rs) [] p = absurd p
reviewed-Paired id decision now (r ∷ rs) (e ∷ es) (a, p) =
    (reviewed-Agrees id decision now r e a, reviewed-Paired id decision now rs es p)

IsSound-ok :
    {s t : RewardStore}
    → IsSound s
    → ◌≡◌ {A = Result ReviewError RewardStore} (ok s) (ok t)
    → IsSound t
IsSound-ok {s} {t} v e = let same : s ≡ t = ground arith in subst IsSound same v

pub review-IsSound :
    (id : ℕ) (decision : ReviewDecision) (now : ℕ) (s t : RewardStore)
    → IsSound s
    → review_reward id decision now s ≡ ok t
    → IsSound t
unfolding review_reward
review-IsSound id decision now s t v e = elim (Bool-cases (any (λ r. r.id == id) s.rewards)) [
  | inl h ↦
      IsSound-ok
        (record {
          distinct = reviewed-Distinct id decision now s.rewards v.distinct;
          paired = reviewed-Paired id decision now s.rewards s.evaluations v.paired;
        })
        (rw (h, review_reward) at e)
  | inr h ↦ absurd (ground arith)
]
