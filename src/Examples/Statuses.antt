-- ===== src/Examples/Statuses.antt =====
-- Sequences of requests for trips, parcels, tickets and reports.
use nodex_v.Prelude.{inl, refl, List, [], ◌∷◌}
use nodex_v.Transition.{evaluate, run}
use nodex_v.Transition.Laws.{Subsequence}
use nodex_v.Lifecycle.Parcel.{
  ParcelStatus, ParcelStatus-discrete, ParcelAction, submit, handover, start_transit, deliver,
}
use nodex_v.Lifecycle.Parcel.Custody.{delivered_custody}

abbrev delivery : List ParcelAction
delivery = submit ∷ handover ∷ start_transit ∷ ParcelAction.ready_for_pickup ∷ deliver ∷ []

delivered_custody_example :
    Subsequence (handover ∷ start_transit ∷ ParcelAction.ready_for_pickup ∷ deliver ∷ []) delivery
unfolding run evaluate ParcelStatus-discrete
delivered_custody_example = delivered_custody ParcelStatus.draft delivery (inl refl) refl
