-- ===== src/Restrictions/Levels.antt =====
-- The levels that are stored for users (apps/api/src/main.ts, apps/worker/src/main.ts), over sequences
-- of restrictions, revocations and runs of the job.
use nodex_v.Prelude.{
  ℕ, ◌==◌, leb, ◌≡◌, refl, arith, sym, Bool, true, false, List, [], ◌∷◌, Option, none, some,
  Bool-cases, inl, inr, subst, keep, any, ok, length,
}
use nodex_v.Restrictions.{
  AccountRestriction, RestrictionType, ReliabilityEventType-discrete, ReliabilityEvent,
  ReliabilityLevel, standard, at_risk, restricted, ReliabilityProfile, RestrictionStore,
  restriction_applied, calculate_reliability_level, counts_of, events_of,
  recompute_reliability_profile, apply_restriction, revoke_restriction, Counts,
}
use nodex_v.Restrictions.Expiry.{
  expire_each, expire_restrictions, take_restrictions, is_due, maintained_level, restriction_count,
  maintain_levels, expire_restriction,
}

abbrev pub is_strict_level : ReliabilityLevel → Bool
is_strict_level standard = true
is_strict_level at_risk = true
is_strict_level restricted = true
is_strict_level _ = false

abbrev pub has_strict_level : Option ReliabilityProfile → Bool
has_strict_level none = true
has_strict_level (some p) = is_strict_level p.reliability_level

calculate-restricted :
    (c : Counts)
    → leb 1 c.account_restriction_count ≡ true
    → calculate_reliability_level c ≡ restricted
unfolding calculate_reliability_level
calculate-restricted c e = rw (e) refl

abbrev with_applied : ℕ → List ReliabilityEvent → List ReliabilityEvent
with_applied user es = record { user_id = user; type = restriction_applied } ∷ es

==-same : (user : ℕ) → (user == user) ≡ true
==-same user = ground arith

counted-applied :
    (user : ℕ) (es : List ReliabilityEvent)
    → leb 1 (counts_of (events_of user (with_applied user es))).account_restriction_count ≡ true
unfolding counts_of ReliabilityEventType-discrete
counted-applied user es = rw (==-same user, keep) ground arith

maintained-is_strict_level : (m n : ℕ) → is_strict_level (maintained_level m n) ≡ true
maintained-is_strict_level m n = ground arith

-- A restriction, a revocation, a run of the expiry and one of the levels.
pub data RestrictionStep (s : RestrictionStore) : RestrictionStore → Type 0 where
  restrict :
      (user : ℕ) (type : RestrictionType) (starts_at : ℕ) (ends_at : Option ℕ)
      → RestrictionStep s (apply_restriction user type starts_at ends_at s)
  revoke : {t : RestrictionStore} (id : ℕ) → revoke_restriction id s ≡ ok t → RestrictionStep s t
  expire : (now : ℕ) → RestrictionStep s (expire_restrictions now s)
  maintain : RestrictionStep s (maintain_levels s)

pub data RestrictionReach (s : RestrictionStore) : RestrictionStore → Type 0 where
  here : RestrictionReach s s
  next :
      {t u : RestrictionStore} → RestrictionReach s t → RestrictionStep t u → RestrictionReach s u

apply-has_strict_level :
    (user : ℕ) (type : RestrictionType) (starts_at : ℕ) (ends_at : Option ℕ) (s : RestrictionStore)
    (u : ℕ)
    → has_strict_level (s.profiles u) ≡ true
    → has_strict_level ((apply_restriction user type starts_at ends_at s).profiles u) ≡ true
unfolding apply_restriction recompute_reliability_profile
apply-has_strict_level user type starts_at ends_at s u h = elim (Bool-cases (u == user)) [
  | inl e ↦ rw (e, calculate-restricted _ (counted-applied user s.events)) refl
  | inr e ↦ rw (e) h
]

revoke-profiles :
    (id : ℕ) (s t : RestrictionStore) (u : ℕ)
    → revoke_restriction id s ≡ ok t
    → t.profiles u ≡ s.profiles u
unfolding revoke_restriction
revoke-profiles id s t u e = ground arith

each-profiles :
    (rs : List AccountRestriction) (s : RestrictionStore) → (expire_each rs s).profiles ≡ s.profiles
unfolding expire_each
each-profiles [] s = refl
each-profiles (r ∷ rs) s = each-profiles rs (expire_restriction r s)

maintain-has_strict_level :
    (s : RestrictionStore) (u : ℕ)
    → has_strict_level (s.profiles u) ≡ true
    → has_strict_level ((maintain_levels s).profiles u) ≡ true
unfolding maintain_levels
maintain-has_strict_level s u h = elim (Bool-cases (any (λ e. e.user_id == u) s.events)) [
  | inl e ↦ rw (e) (
      maintained-is_strict_level (restriction_count u s.restrictions)
        (length (events_of u s.events)))
  | inr e ↦ rw (e) h
]

Step-has_strict_level :
    {s t : RestrictionStore} (u : ℕ)
    → has_strict_level (s.profiles u) ≡ true
    → RestrictionStep s t
    → has_strict_level (t.profiles u) ≡ true
unfolding expire_restrictions
Step-has_strict_level {s} {t} u h (restrict user type starts_at ends_at) =
    apply-has_strict_level user type starts_at ends_at s u h
Step-has_strict_level {s} {t} u h (revoke id e) = rw (revoke-profiles id s t u e) h
Step-has_strict_level {s} {t} u h (expire now) =
    subst (λ profiles. has_strict_level (profiles u) ≡ true)
      (sym (each-profiles (take_restrictions 100 (keep (is_due now) s.restrictions)) s)) h
Step-has_strict_level {s} {t} u h maintain = maintain-has_strict_level s u h

-- Nobody is ever RELIABLE: whatever restrictions are applied, revoked and expired, and however often
-- the job runs, in any order, a level that is stored for a user without one at first is STANDARD,
-- AT_RISK or RESTRICTED.
pub RestrictionReach-has_strict_level :
    (s t : RestrictionStore) (user : ℕ)
    → s.profiles user ≡ none
    → RestrictionReach s t
    → has_strict_level (t.profiles user) ≡ true
RestrictionReach-has_strict_level s t user empty here = rw (empty) refl
RestrictionReach-has_strict_level s t user empty (next reached step) =
    Step-has_strict_level user (RestrictionReach-has_strict_level s _ user empty reached) step
