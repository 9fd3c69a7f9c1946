-- ===== src/Restrictions/Expiry.antt =====
-- What the trust and safety job of apps/worker/src/main.ts does to restrictions and levels. The first
-- hundred due rows are those in front.
use nodex_v.Prelude.{
  ℕ, suc, zero, ◌==◌, leb, Bool, false, ◌&&◌, List, [], ◌∷◌, any, keep, map, length, Option, none,
  some, if◌then◌else◌,
}
use nodex_v.Restrictions.{
  AccountRestriction, ReliabilityLevel, standard, at_risk, restricted, ReliabilityProfile,
  RestrictionStore, restriction_removed, expired, Counts, is_active, set_status, events_of,
  next_version,
}

abbrev pub is_ended : Option ℕ → ℕ → Bool
is_ended none now = false
is_ended (some end) now = leb end now

abbrev pub is_due : ℕ → AccountRestriction → Bool
is_due now r = is_active r.status && is_ended r.ends_at now

-- `take: 100`.
abbrev pub take_restrictions : ℕ → List AccountRestriction → List AccountRestriction
take_restrictions zero rs = []
take_restrictions (suc n) [] = []
take_restrictions (suc n) (r ∷ rs) = r ∷ take_restrictions n rs

abbrev pub expire_restriction : AccountRestriction → RestrictionStore → RestrictionStore
expire_restriction r s = record s {
  restrictions = map (set_status r.id expired) s.restrictions;
  events = record { user_id = r.user_id; type = restriction_removed } ∷ s.events;
}

unfoldable pub expire_each : List AccountRestriction → RestrictionStore → RestrictionStore
expire_each [] s = s
expire_each (r ∷ rs) s = expire_each rs (expire_restriction r s)

unfoldable pub expire_restrictions : ℕ → RestrictionStore → RestrictionStore
unfolding expire_each
expire_restrictions now s = expire_each (take_restrictions 100 (keep (is_due now) s.restrictions)) s

abbrev pub restriction_count : ℕ → List AccountRestriction → ℕ
restriction_count user rs = length (keep (λ r. r.user_id == user && is_active r.status) rs)

abbrev pub maintained_level : ℕ → ℕ → ReliabilityLevel
maintained_level restriction_count event_count =
    if leb 1 restriction_count then restricted else if leb 5 event_count then at_risk else standard

-- The counts of a row that the job creates are 0 but for that of the restrictions.
abbrev pub maintained_counts : ℕ → Option ReliabilityProfile → Counts
maintained_counts n none = record {
  completed_trips_count = 0;
  completed_bookings_count = 0;
  client_cancellation_count = 0;
  driver_cancellation_count = 0;
  client_no_show_count = 0;
  driver_no_show_count = 0;
  parcel_delivered_count = 0;
  parcel_issue_count = 0;
  account_restriction_count = n;
}
maintained_counts n (some p) = record p.counts { account_restriction_count = n }

-- The levels of the users that have an event, each from its own rows.
unfoldable pub maintain_levels : RestrictionStore → RestrictionStore
maintain_levels s = record s {
  profiles = λ user.
      if any (λ e. e.user_id == user) s.events
      then some (record {
        reliability_level =
            maintained_level (restriction_count user s.restrictions)
              (length (events_of user s.events));
        counts = maintained_counts (restriction_count user s.restrictions) (s.profiles user);
        version = next_version (s.profiles user);
      })
      else s.profiles user;
}
