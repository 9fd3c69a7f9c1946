-- ===== src/Tracking/Spacing/Rows.antt =====
-- The rows of the points of apps/api/src/main.ts that one actor records for one trip.
use nodex_v.Prelude.{
  ℕ, ◌+◌, ◌≤◌, ◌≡◌, refl, ap, sym, Bool, true, false, List, [], ◌∷◌, keep, All, max, Option, none,
  some, ok, >>=-ok, value_ok, arith, subst, ◌&&◌, same, Bool-cases, inl, inr, if◌then◌else◌,
}
use nodex_v.Lifecycle.Trip.{TripStatus, TripStatus-discrete}
use nodex_v.Tracking.{
  TripLocationSource, TripLocationSource-discrete, periodic, TripLocationPoint, TrackedTrip,
  TrackingStore, PointRequest, ActorType, ActorType-discrete, driver, passenger,
  record_trip_location_point, evaluate_trip_location_write, record_location, is_periodic_of,
  last_periodic, new_point, recorded_time, is_throttled, find_driven, find_ride, later,
  record_driven, record_ride, TrackedBooking,
}

-- The periodic points of the actor of `p` for the trip of `p`.
unfoldable pub track_of : TripLocationPoint → List TripLocationPoint → List TripLocationPoint
unfolding ActorType-discrete TripLocationSource-discrete
track_of p ps = keep (is_periodic_of p.trip_id p.actor_user_id p.actor_type) ps

unfoldable pub is_periodic : TripLocationPoint → Bool
unfolding TripLocationSource-discrete
is_periodic p = same TripLocationSource-discrete p.source periodic

-- A periodic point comes the interval after each earlier periodic one of its actor, or later.
unfoldable pub Spaced : ℕ → List TripLocationPoint → Type 0
unfolding track_of is_periodic ActorType-discrete TripLocationSource-discrete
Spaced interval [] = Unit
Spaced interval (p ∷ ps) =
    All (λ q. q.recorded_at + interval ≤ p.recorded_at)
      (if is_periodic p then track_of p ps else [])
    × Spaced interval ps

-- Each of these points is no later than the last of them.
abbrev UpTo : Option ℕ → List TripLocationPoint → Type 0
UpTo none ps = ps ≡ []
UpTo (some last) ps = All (λ q. q.recorded_at ≤ last) ps

All-weaken :
    (a b : ℕ) (ps : List TripLocationPoint)
    → a ≤ b
    → All (λ q. q.recorded_at ≤ a) ps
    → All (λ q. q.recorded_at ≤ b) ps
All-weaken a b [] l h = tt
All-weaken a b (p ∷ ps) l (h, hs) = (omega arith, All-weaken a b ps l hs)

UpTo-later :
    (p : TripLocationPoint) (o : Option ℕ) (ps : List TripLocationPoint)
    → UpTo o ps
    → UpTo (some (later p.recorded_at o)) (p ∷ ps)
UpTo-later p none ps h = (omega arith, subst (All (λ q. q.recorded_at ≤ p.recorded_at)) (sym h) tt)
UpTo-later p (some t) ps h = (omega arith, All-weaken t (max p.recorded_at t) ps (omega arith) h)

last_periodic-UpTo :
    (trip user : ℕ) (actor : ActorType) (ps : List TripLocationPoint)
    → UpTo (last_periodic trip user actor ps) (keep (is_periodic_of trip user actor) ps)
unfolding last_periodic ActorType-discrete TripLocationSource-discrete
last_periodic-UpTo trip user actor [] = refl
last_periodic-UpTo trip user actor (p ∷ ps) =
    let rest = last_periodic-UpTo trip user actor ps in
    elim (Bool-cases (is_periodic_of trip user actor p)) [
      | inl e ↦ rw (e, keep) (UpTo-later p (last_periodic trip user actor ps) _ rest)
      | inr e ↦ rw (e, keep) rest
    ]

evaluate-free :
    (status : TripStatus) (source : TripLocationSource) (last : Option ℕ) (now interval : ℕ)
    (critical : Bool)
    → evaluate_trip_location_write status source last now interval ≡ ok critical
    → (same TripLocationSource-discrete source periodic && is_throttled last now interval) ≡ false
unfolding evaluate_trip_location_write TripStatus-discrete TripLocationSource-discrete
evaluate-free status source last now interval critical e = ground arith

same_last :
    (b : Bool) (last : Option ℕ) (now interval : ℕ)
    → (b && is_throttled (if b then last else none) now interval) ≡ false
    → (b && is_throttled last now interval) ≡ false
same_last true last now interval h = h
same_last false last now interval h = refl

-- What a point that was recorded says of the points before it.
pub record_point-ok :
    (interval : ℕ) (trip : TrackedTrip) (user : ℕ) (actor : ActorType) (point : PointRequest)
    (now : ℕ) (s t : TrackingStore)
    → record_trip_location_point interval trip user actor point now s ≡ ok t
    → (t.points
        ≡ new_point trip.id user actor point (recorded_time point.recorded_at now) ∷ s.points)
      × ((same TripLocationSource-discrete point.source periodic
            && is_throttled
                (last_periodic trip.id user actor s.points)
                (recorded_time point.recorded_at now)
                interval)
          ≡ false)
unfolding record_trip_location_point TripLocationSource-discrete
record_point-ok interval trip user actor point now s t e =
    let time = recorded_time point.recorded_at now in
    let is_periodic = same TripLocationSource-discrete point.source periodic in
    let last = last_periodic trip.id user actor s.points in
    let (critical, passed, stored) =
      >>=-ok
        (evaluate_trip_location_write trip.status point.source (if is_periodic then last else none)
          time interval)
        (λ c. ok (record s { points = new_point trip.id user actor point time ∷ s.points })) e in
    (
      sym (ap (λ x. x.points) (value_ok stored)),
      same_last is_periodic last time interval
          (evaluate-free trip.status point.source _ time interval critical passed),
    )

-- A point that is periodic, of one actor, and not throttled is far from the points before it.
far :
    (interval time : ℕ) (o : Option ℕ) (ps : List TripLocationPoint)
    → is_throttled o time interval ≡ false
    → UpTo o ps
    → All (λ q. q.recorded_at + interval ≤ time) ps
far interval time none ps f h = subst (All (λ q. q.recorded_at + interval ≤ time)) (sym h) tt
far interval time (some t) [] f h = tt
far interval time (some t) (p ∷ ps) f (h, hs) = (ground arith, far interval time (some t) ps f hs)

pub record-Spaced :
    (interval : ℕ) (trip : TrackedTrip) (user : ℕ) (actor : ActorType) (point : PointRequest)
    (now : ℕ) (s t : TrackingStore)
    → record_trip_location_point interval trip user actor point now s ≡ ok t
    → Spaced interval s.points
    → Spaced interval t.points
unfolding Spaced track_of is_periodic ActorType-discrete TripLocationSource-discrete
record-Spaced interval trip user actor point now s t e spaced =
    let time = recorded_time point.recorded_at now in
    let (rows, free) = record_point-ok interval trip user actor point now s t e in
    let before = keep (is_periodic_of trip.id user actor) s.points in
    subst (Spaced interval) (sym rows) (
      spread (same TripLocationSource-discrete point.source periodic) time before free
          (last_periodic-UpTo trip.id user actor s.points),
      spaced,
    )
  where
    spread :
        (b : Bool) (time : ℕ) (before : List TripLocationPoint)
        → (b && is_throttled (last_periodic trip.id user actor s.points) time interval) ≡ false
        → UpTo (last_periodic trip.id user actor s.points) before
        → All (λ q. q.recorded_at + interval ≤ time) (if b then before else [])
    spread true time before f h = far interval time _ before f h
    spread false time before f h = tt

-- The point that a request to the route records.
abbrev pub Recorded : ℕ → ℕ → ℕ → TrackingStore → TrackingStore → Type 0
Recorded interval user now s t =
    (trip : TrackedTrip) × (actor : ActorType) × (point : PointRequest)
    × (record_trip_location_point interval trip user actor point now s ≡ ok t)

driven-Recorded :
    (interval : ℕ) (found : Option TrackedTrip) (user : ℕ) (point : PointRequest) (now : ℕ)
    (s t : TrackingStore)
    → record_driven interval found user point now s ≡ ok t
    → Recorded interval user now s t
driven-Recorded interval none user point now s t e = cc
driven-Recorded interval (some trip) user point now s t e = (trip, driver, point, e)

ride-Recorded :
    (interval : ℕ) (found : Option TrackedBooking) (user : ℕ) (point : PointRequest) (now : ℕ)
    (s t : TrackingStore)
    → record_ride interval found user point now s ≡ ok t
    → Recorded interval user now s t
ride-Recorded interval none user point now s t e = cc
ride-Recorded interval (some b) user point now s t e =
    (b.trip, passenger, record point { booking_id = some b.id }, e)

pub located-Recorded :
    (interval trip : ℕ) (is_driver : Bool) (user : ℕ) (point : PointRequest) (now : ℕ)
    (s t : TrackingStore)
    → record_location interval trip is_driver user point now s ≡ ok t
    → Recorded interval user now s t
unfolding record_location
located-Recorded interval trip true user point now s t e =
    driven-Recorded interval (find_driven trip (s.profiles user) s.trips) user point now s t e
located-Recorded interval trip false user point now s t e =
    ride-Recorded interval (find_ride trip user point.booking_id s.bookings) user point now s t e
