-- ===== src/Operations/Version.antt =====
-- The version guard of transitionTripStatus of apps/api/src/main.ts.
use nodex_v.Prelude.{suc, ◌==◌, ◌≡◌, refl, arith, true, false, not, ok, err, throw_if-ok}
use nodex_v.Transition.{TransitionResult, accepted, invalid_transition, is_write}
use nodex_v.Lifecycle.Trip.{TripStatus, TripOperationAction, evaluate_trip_transition}
use nodex_v.Operations.{Versioned, trip_version_conflict, transition_trip_status}

-- Two requests read the same row of a trip. If one writes a new status, then the other, if its
-- transition is a write as well, is refused with the version conflict.
pub transition_trip_status_once :
    (read row row' : Versioned TripStatus) (action action' : TripOperationAction)
    → is_write (evaluate_trip_transition read.status action) ≡ true
    → is_write (evaluate_trip_transition read.status action') ≡ true
    → transition_trip_status read action row ≡ ok row'
    → transition_trip_status read action' row' ≡ err trip_version_conflict
unfolding transition_trip_status
transition_trip_status_once read row row' action action' w w' e =
    by_results (evaluate_trip_transition read.status action) refl
      (evaluate_trip_transition read.status action') refl
  where
    by_results :
        (r : TransitionResult TripStatus)
        → evaluate_trip_transition read.status action ≡ r
        → (r' : TransitionResult TripStatus) → evaluate_trip_transition read.status action' ≡ r'
        → transition_trip_status read action' row' ≡ err trip_version_conflict
    by_results invalid_transition f r' f' = absurd (ground arith)
    by_results (accepted to true) f r' f' = absurd (ground arith)
    by_results (accepted to false) f invalid_transition f' = absurd (ground arith)
    by_results (accepted to false) f (accepted to' true) f' = absurd (ground arith)
    by_results (accepted to false) f (accepted to' false) f' =
        let (same, written) =
          throw_if-ok (not (row.version == read.version)) trip_version_conflict _
            (rw (f, transition_trip_status) at e) in
        let later : row'.version ≡ suc row.version = ground arith in
        let stale : (row'.version == read.version) ≡ false = ground arith in
        rw (f', stale, transition_trip_status) refl
