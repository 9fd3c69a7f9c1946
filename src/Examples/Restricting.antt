-- ===== src/Examples/Restricting.antt =====
-- Restrictions of a user, and what the job leaves of them.
use nodex_v.Prelude.{◌≡◌, refl, arith, true, [], ◌∷◌, none, some}
use nodex_v.Restrictions.{
  RestrictionStore, chat_restricted, full_suspension, apply_restriction,
  assert_no_active_account_restriction, recompute_reliability_profile,
}
use nodex_v.Restrictions.Expiry.{expire_restrictions, maintain_levels}
use nodex_v.Restrictions.Levels.{
  here, next, restrict, expire, maintain, has_strict_level, RestrictionReach-has_strict_level,
}
use nodex_v.Restrictions.Standing.{expire_restrictions-assert}

abbrev unrestricted : RestrictionStore
unrestricted = record { restrictions = []; events = []; profiles = λ user. none; next_id = 0 }

abbrev suspended_once : RestrictionStore
suspended_once = apply_restriction 7 full_suspension 10 (some 50) unrestricted

abbrev suspended_twice : RestrictionStore
suspended_twice = apply_restriction 7 chat_restricted 20 none suspended_once

RestrictionReach-has_strict_level_example :
    has_strict_level ((maintain_levels (expire_restrictions 60 suspended_twice)).profiles 7) ≡ true
RestrictionReach-has_strict_level_example =
    RestrictionReach-has_strict_level unrestricted
      (maintain_levels (expire_restrictions 60 suspended_twice)) 7 refl
      (next
        (next
          (next (next here (restrict 7 full_suspension 10 (some 50)))
            (restrict 7 chat_restricted 20 none))
          (expire 60))
        maintain)

expire_restrictions-assert_example :
    assert_no_active_account_restriction 7
      (chat_restricted ∷ [])
      70
      (expire_restrictions 60 suspended_twice)
    ≡ assert_no_active_account_restriction 7 (chat_restricted ∷ []) 70 suspended_twice
unfolding apply_restriction recompute_reliability_profile
expire_restrictions-assert_example =
    expire_restrictions-assert 7 (chat_restricted ∷ []) 60 70 suspended_twice ((refl, tt), (tt, tt))
      (omega arith)
