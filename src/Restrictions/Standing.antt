-- ===== src/Restrictions/Standing.antt =====
-- What the expiry of restrictions (apps/worker/src/main.ts) leaves of those in force
-- (assertNoActiveAccountRestriction of apps/api/src/main.ts).
use nodex_v.Prelude.{
  ℕ, suc, zero, ◌==◌, ◌≤◌, ◌≡◌, refl, arith, ap, ◌∙◌, Bool, true, false, not, ◌||◌, List, [], ◌∷◌,
  ◌++◌, All, Bool-cases, inl, inr, keep, map,
}
use nodex_v.Restrictions.{
  AccountRestriction, RestrictionType, RestrictionType-discrete, RestrictionStore, is_active,
  is_in_force, set_status, expired, active_account_restriction,
  assert_no_active_account_restriction, refusal, suspension_restriction_types,
}
use nodex_v.Restrictions.Expiry.{
  expire_each, expire_restrictions, take_restrictions, is_due, expire_restriction, is_ended,
}

abbrev pub DistinctIds : List AccountRestriction → Type 0
DistinctIds [] = Unit
DistinctIds (r ∷ rs) = All (λ x. (x.id == r.id) ≡ false) rs × DistinctIds rs

-- Not in force at this time, or afterwards.
abbrev is_past : ℕ → AccountRestriction → Bool
is_past now r = not (is_active r.status) || is_ended r.ends_at now

-- The rows with the id of `d` are past.
abbrev Closes : ℕ → AccountRestriction → List AccountRestriction → Type 0
Closes now d rs = All (λ r. (not (r.id == d.id) || is_past now r) ≡ true) rs

expire-Closes :
    (now id : ℕ) (d : AccountRestriction) (rs : List AccountRestriction)
    → Closes now d rs
    → Closes now d (map (set_status id expired) rs)
expire-Closes now id d [] h = tt
expire-Closes now id d (r ∷ rs) (h, hs) = (ground arith, expire-Closes now id d rs hs)

expired-out :
    (user : ℕ) (types : List RestrictionType) (now now' : ℕ) (d r : AccountRestriction)
    → now ≤ now'
    → (not (r.id == d.id) || is_past now r) ≡ true
    → (r.id == d.id) ≡ true
    → (is_in_force user types now' r ≡ false)
      × (is_in_force user types now' (set_status d.id expired r) ≡ false)
unfolding RestrictionType-discrete
expired-out user types now now' d r l h e = (ground arith, ground arith)

expire-found :
    (user : ℕ) (types : List RestrictionType) (now now' : ℕ) (d : AccountRestriction)
    (rs : List AccountRestriction)
    → now ≤ now'
    → Closes now d rs
    → active_account_restriction user types now' (map (set_status d.id expired) rs)
      ≡ active_account_restriction user types now' rs
unfolding active_account_restriction RestrictionType-discrete
expire-found user types now now' d [] l h = refl
expire-found user types now now' d (r ∷ rs) l (h, hs) =
    let rest = expire-found user types now now' d rs l hs in
    elim (Bool-cases (r.id == d.id)) [
      | inl e ↦
          let (before, after) = expired-out user types now now' d r l h e in
          rw (before, after, rest) refl
      | inr e ↦ rw (e, rest) refl
    ]

each-found :
    (user : ℕ) (types : List RestrictionType) (now now' : ℕ) (ds : List AccountRestriction)
    (s : RestrictionStore)
    → now ≤ now'
    → All (λ d. Closes now d s.restrictions) ds
    → active_account_restriction user types now' (expire_each ds s).restrictions
      ≡ active_account_restriction user types now' s.restrictions
unfolding expire_each
each-found user types now now' [] s l h = refl
each-found user types now now' (d ∷ ds) s l (h, hs) =
    each-found user types now now' ds (expire_restriction d s) l (closed ds hs)
    ∙ expire-found user types now now' d s.restrictions l h
  where
    closed :
        (ds : List AccountRestriction)
        → All (λ d'. Closes now d' s.restrictions) ds
        → All (λ d'. Closes now d' (map (set_status d.id expired) s.restrictions)) ds
    closed [] a = tt
    closed (d' ∷ ds) (a, rest) = (expire-Closes now d.id d' s.restrictions a, closed ds rest)

All-take :
    (P : AccountRestriction → Type 0) (n : ℕ) (rs : List AccountRestriction)
    → All P rs
    → All P (take_restrictions n rs)
All-take P zero rs h = tt
All-take P (suc n) [] h = tt
All-take P (suc n) (r ∷ rs) (h, hs) = (h, All-take P n rs hs)

All-keep :
    (P : AccountRestriction → Type 0) (p : AccountRestriction → Bool) (rs : List AccountRestriction)
    → All P rs
    → All P (keep p rs)
All-keep P p [] h = tt
All-keep P p (r ∷ rs) (h, hs) = elim (Bool-cases (p r)) [
  | inl e ↦ rw (e, keep) (h, All-keep P p rs hs)
  | inr e ↦ rw (e, keep) (All-keep P p rs hs)
]

differ-Closes :
    (now : ℕ) (r : AccountRestriction) (rs : List AccountRestriction)
    → (is_past now r ≡ true)
    → All (λ x. (x.id == r.id) ≡ false) rs
    → Closes now r rs
differ-Closes now r [] past h = tt
differ-Closes now r (x ∷ rs) past (h, hs) = (rw (h) refl, differ-Closes now r rs past hs)

cons-Closes :
    (now : ℕ) (r : AccountRestriction) (rs ds : List AccountRestriction)
    → All (λ x. (x.id == r.id) ≡ false) ds
    → All (λ d. Closes now d rs) ds
    → All (λ d. Closes now d (r ∷ rs)) ds
cons-Closes now r rs [] a b = tt
cons-Closes now r rs (d ∷ ds) (a, at) (b, bt) = ((ground arith, b), cons-Closes now r rs ds at bt)

due-Closes :
    (now : ℕ) (rs : List AccountRestriction)
    → DistinctIds rs
    → All (λ d. Closes now d rs) (keep (is_due now) rs)
due-Closes now [] distinct = tt
due-Closes now (r ∷ rs) (a, distinct) =
    let rest =
      cons-Closes now r rs (keep (is_due now) rs)
        (All-keep (λ x. (x.id == r.id) ≡ false) (is_due now) rs a) (due-Closes now rs distinct) in
    elim (Bool-cases (is_due now r)) [
      | inl e ↦
          let past : is_past now r ≡ true = ground arith in
          rw (e, keep) ((ground arith, differ-Closes now r rs past a), rest)
      | inr e ↦ rw (e, keep) rest
    ]

-- The expiry lifts nothing that is in force: at its time or at any later one, an operation is allowed
-- or refused, and with the same error, as if the expiry had not run. The ids of the rows differ.
pub expire_restrictions-assert :
    (user : ℕ) (types : List RestrictionType) (now now' : ℕ) (s : RestrictionStore)
    → DistinctIds s.restrictions
    → now ≤ now'
    → assert_no_active_account_restriction user types now' (expire_restrictions now s)
      ≡ assert_no_active_account_restriction user types now' s
unfolding assert_no_active_account_restriction expire_restrictions
expire_restrictions-assert user types now now' s distinct l =
    let due = keep (is_due now) s.restrictions in
    let closed =
      All-take (λ d. Closes now d s.restrictions) 100 due
        (due-Closes now s.restrictions distinct) in
    ap refusal (
      each-found user (types ++ suspension_restriction_types) now now' (take_restrictions 100 due) s
        l closed)
