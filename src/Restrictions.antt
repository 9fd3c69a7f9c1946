-- ===== src/Restrictions.antt =====
-- Restrictions of accounts and the reliability of users. apps/api/src/main.ts:
-- activeAccountRestriction, assertNoActiveAccountRestriction, recomputeReliabilityProfile and the
-- routes that apply and revoke a restriction; packages/validation/src/index.ts:
-- calculateReliabilityLevel; apps/worker/src/main.ts: the expiry of restrictions and the levels in the
-- trust and safety job. Reasons, keys of deduplication and the log of a restriction are left out. The
-- newest row of a table is in front.
pub mod Levels
pub mod Expiry
pub mod Standing
use nodex_v.Prelude.{
  ℕ, suc, ◌+◌, ◌*◌, ◌==◌, leb, Bool, true, false, not, ◌&&◌, ◌||◌, List, [], ◌∷◌, ◌++◌, includes,
  any, keep, map, length, Option, none, some, same, Result, ok, err, if◌then◌else◌,
}

pub data RestrictionType : Type 0 where
  chat_restricted booking_restricted driver_trip_creation_restricted : RestrictionType
  parcel_restricted temporary_suspension full_suspension : RestrictionType

pub data RestrictionStatus : Type 0 where
  active expired revoked : RestrictionStatus

pub data ReliabilityEventType : Type 0 where
  trip_completed booking_completed client_cancelled driver_cancelled : ReliabilityEventType
  client_no_show driver_no_show parcel_delivered parcel_lost : ReliabilityEventType
  parcel_damaged safety_report_confirmed restriction_applied : ReliabilityEventType
  restriction_removed : ReliabilityEventType

pub data ReliabilityLevel : Type 0 where
  new standard reliable highly_reliable at_risk restricted : ReliabilityLevel

-- `operation` is the code of the operation that a restriction of its own type blocks.
pub data RestrictionError : Type 0 where
  account_suspended operation record_not_found : RestrictionError

unfoldable pub RestrictionType-discrete : Discrete RestrictionType
RestrictionType-discrete = hlevel

unfoldable pub ReliabilityEventType-discrete : Discrete ReliabilityEventType
ReliabilityEventType-discrete = hlevel

pub record AccountRestriction : Type 0 where
  pub id : ℕ
  pub user_id : ℕ
  pub type : RestrictionType
  pub starts_at : ℕ
  pub ends_at : Option ℕ
  pub status : RestrictionStatus

pub record ReliabilityEvent : Type 0 where
  pub user_id : ℕ
  pub type : ReliabilityEventType

pub record Counts : Type 0 where
  pub completed_trips_count : ℕ
  pub completed_bookings_count : ℕ
  pub client_cancellation_count : ℕ
  pub driver_cancellation_count : ℕ
  pub client_no_show_count : ℕ
  pub driver_no_show_count : ℕ
  pub parcel_delivered_count : ℕ
  pub parcel_issue_count : ℕ
  pub account_restriction_count : ℕ

pub record ReliabilityProfile : Type 0 where
  pub reliability_level : ReliabilityLevel
  pub counts : Counts
  pub version : ℕ

pub record RestrictionStore : Type 0 where
  pub restrictions : List AccountRestriction
  pub events : List ReliabilityEvent
  pub profiles : ℕ → Option ReliabilityProfile
  pub next_id : ℕ

unfoldable pub calculate_reliability_level : Counts → ReliabilityLevel
calculate_reliability_level c =
    let negative =
      c.client_cancellation_count
      + c.driver_cancellation_count
      + c.client_no_show_count * 2
      + c.driver_no_show_count * 2
      + c.parcel_issue_count * 2 in
    let completed = c.completed_trips_count + c.completed_bookings_count in
    if leb 1 c.account_restriction_count
    then restricted
    else if leb 4 negative
    then at_risk
    else if leb 30 completed && leb negative 1
    then highly_reliable
    else if leb 10 completed && leb negative 2
    then reliable
    else if leb 2 completed
    then standard
    else new

-- `events.filter((event) => types.includes(event.type)).length`.
abbrev pub count_events : List ReliabilityEventType → List ReliabilityEvent → ℕ
unfolding ReliabilityEventType-discrete
count_events types events =
    length (keep (λ e. includes ReliabilityEventType-discrete types e.type) events)

abbrev pub events_of : ℕ → List ReliabilityEvent → List ReliabilityEvent
events_of user events = keep (λ e. e.user_id == user) events

unfoldable pub counts_of : List ReliabilityEvent → Counts
unfolding ReliabilityEventType-discrete
counts_of es = record {
  completed_trips_count = count_events (trip_completed ∷ []) es;
  completed_bookings_count = count_events (booking_completed ∷ []) es;
  client_cancellation_count = count_events (client_cancelled ∷ []) es;
  driver_cancellation_count = count_events (driver_cancelled ∷ []) es;
  client_no_show_count = count_events (client_no_show ∷ []) es;
  driver_no_show_count = count_events (driver_no_show ∷ []) es;
  parcel_delivered_count = count_events (parcel_delivered ∷ []) es;
  parcel_issue_count = count_events (parcel_lost ∷ parcel_damaged ∷ []) es;
  account_restriction_count = count_events (restriction_applied ∷ []) es;
}

abbrev pub next_version : Option ReliabilityProfile → ℕ
next_version none = 1
next_version (some p) = suc p.version

abbrev pub set_profile : ℕ → ReliabilityProfile → RestrictionStore → RestrictionStore
set_profile user p s = record s { profiles = λ u. if u == user then some p else s.profiles u }

unfoldable pub recompute_reliability_profile : ℕ → RestrictionStore → RestrictionStore
unfolding counts_of calculate_reliability_level
recompute_reliability_profile user s =
    let counts = counts_of (events_of user s.events) in
    set_profile user
      (record {
        reliability_level = calculate_reliability_level counts;
        counts = counts;
        version = next_version (s.profiles user);
      })
      s

abbrev pub is_active : RestrictionStatus → Bool
is_active active = true
is_active _ = false

abbrev pub is_before_end : Option ℕ → ℕ → Bool
is_before_end none now = true
is_before_end (some end) now = not (leb end now)

abbrev pub is_in_force : ℕ → List RestrictionType → ℕ → AccountRestriction → Bool
unfolding RestrictionType-discrete
is_in_force user types now r =
    r.user_id == user
    && (is_active r.status
        && (includes RestrictionType-discrete types r.type
            && (leb r.starts_at now && is_before_end r.ends_at now)))

-- `findFirst({ where, orderBy: { createdAt: "desc" } })`.
unfoldable pub active_account_restriction :
    ℕ → List RestrictionType → ℕ → List AccountRestriction → Option AccountRestriction
unfolding RestrictionType-discrete
active_account_restriction user types now [] = none
active_account_restriction user types now (r ∷ rs) =
    let rest = active_account_restriction user types now rs in
    if is_in_force user types now r then some r else rest

abbrev pub suspension_restriction_types : List RestrictionType
suspension_restriction_types = temporary_suspension ∷ full_suspension ∷ []

abbrev pub is_suspension : RestrictionType → Bool
is_suspension temporary_suspension = true
is_suspension full_suspension = true
is_suspension _ = false

abbrev pub refusal : Option AccountRestriction → Result RestrictionError (Unit {0})
refusal none = ok tt
refusal (some r) = if is_suspension r.type then err account_suspended else err operation

unfoldable pub assert_no_active_account_restriction :
    ℕ → List RestrictionType → ℕ → RestrictionStore → Result RestrictionError (Unit {0})
unfolding active_account_restriction
assert_no_active_account_restriction user types now s =
    refusal
      (active_account_restriction user (types ++ suspension_restriction_types) now s.restrictions)

-- POST /admin/users/:userId/restrictions; a start that the request leaves out is the time.
unfoldable pub apply_restriction :
    ℕ → RestrictionType → ℕ → Option ℕ → RestrictionStore → RestrictionStore
unfolding recompute_reliability_profile
apply_restriction user type starts_at ends_at s = recompute_reliability_profile user (record s {
  restrictions =
      record {
        id = s.next_id;
        user_id = user;
        type = type;
        starts_at = starts_at;
        ends_at = ends_at;
        status = active;
      }
      ∷ s.restrictions;
  events = record { user_id = user; type = restriction_applied } ∷ s.events;
  next_id = suc s.next_id;
})

abbrev pub set_status : ℕ → RestrictionStatus → AccountRestriction → AccountRestriction
set_status id status r = if r.id == id then record r { status = status } else r

-- POST /admin/restrictions/:restrictionId/revoke.
unfoldable pub revoke_restriction : ℕ → RestrictionStore → Result RestrictionError RestrictionStore
revoke_restriction id s =
    if any (λ r. r.id == id) s.restrictions
    then ok (record s { restrictions = map (set_status id revoked) s.restrictions })
    else err record_not_found
