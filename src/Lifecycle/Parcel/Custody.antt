-- ===== src/Lifecycle/Parcel/Custody.antt =====
-- How often a parcel can move, and who had it on the way.
use nodex_v.Prelude.{
  ℕ, ◌≡◌, ◌<◌, ◌≤◌, ◌⊎◌, inl, inr, true, List, [], ◌∷◌, ◌++◌, includes, arith, subst,
}
use nodex_v.Transition.{run, writes}
use nodex_v.Transition.Laws.{
  Subsequence, Subsequence-nil, subsequence_rules, writes_bound, run_closed, Subsequence-chain,
}
use nodex_v.Lifecycle.Parcel.{
  ParcelStatus, ParcelStatus-discrete, draft, created, pending_driver_acceptance, accepted,
  handed_to_driver, in_transit, delivered, cancelled_by_sender, cancelled_by_driver, rejected, lost,
  damaged, disputed, expired, ParcelAction, submit, driver_accept, driver_reject, handover,
  start_transit, deliver, cancel_sender, cancel_driver, cancel_admin, mark_lost, mark_damaged,
  dispute, expire, parcel_machine,
}

-- How many more writes a parcel can see.
moves_left : ParcelStatus → ℕ
moves_left draft = 6
moves_left created = 6
moves_left pending_driver_acceptance = 6
moves_left accepted = 5
moves_left handed_to_driver = 4
moves_left in_transit = 3
moves_left ParcelStatus.ready_for_pickup = 2
moves_left delivered = 1
moves_left lost = 1
moves_left damaged = 1
moves_left _ = 0

moves_left_falls :
    (a : ParcelAction) (s : ParcelStatus)
    → includes ParcelStatus-discrete (parcel_machine.allowed a) s ≡ true
    → moves_left (parcel_machine.target a) < moves_left s
unfolding moves_left ParcelStatus-discrete
moves_left_falls submit s h = ground arith
moves_left_falls driver_accept s h = ground arith
moves_left_falls driver_reject s h = ground arith
moves_left_falls handover s h = ground arith
moves_left_falls start_transit s h = ground arith
moves_left_falls ParcelAction.ready_for_pickup s h = ground arith
moves_left_falls deliver s h = ground arith
moves_left_falls cancel_sender s h = ground arith
moves_left_falls cancel_driver s h = ground arith
moves_left_falls cancel_admin s h = ground arith
moves_left_falls mark_lost s h = ground arith
moves_left_falls mark_damaged s h = ground arith
moves_left_falls dispute s h = ground arith
moves_left_falls expire s h = ground arith

moves_left-le : (s : ParcelStatus) → moves_left s ≤ 6
unfolding moves_left
moves_left-le s = ground arith

-- No sequence of requests, of any length, writes the status of a parcel more than six times.
pub writes-le-six :
    (s : ParcelStatus) (actions : List ParcelAction) → writes parcel_machine s actions ≤ 6
writes-le-six s actions =
    omega
      (arith, writes_bound parcel_machine moves_left moves_left_falls s actions, moves_left-le s)

-- The actions that must have happened for a parcel to be where its status says.
custody : ParcelStatus → List ParcelAction
custody handed_to_driver = handover ∷ []
custody in_transit = handover ∷ start_transit ∷ []
custody ParcelStatus.ready_for_pickup =
    handover ∷ start_transit ∷ ParcelAction.ready_for_pickup ∷ []
custody delivered = handover ∷ start_transit ∷ ParcelAction.ready_for_pickup ∷ deliver ∷ []
custody lost = handover ∷ mark_lost ∷ []
custody damaged = handover ∷ mark_damaged ∷ []
custody disputed = handover ∷ dispute ∷ []
custody _ = []

custody_extends :
    (a : ParcelAction) (s : ParcelStatus)
    → includes ParcelStatus-discrete (parcel_machine.allowed a) s ≡ true
    → Subsequence (custody (parcel_machine.target a)) (custody s ++ a ∷ [])
unfolding custody ParcelStatus-discrete
custody_extends submit _ h = Subsequence-nil _
custody_extends driver_accept _ h = Subsequence-nil _
custody_extends driver_reject _ h = Subsequence-nil _
custody_extends handover accepted h = search subsequence_rules
custody_extends handover _ h = absurd (ground arith)
custody_extends start_transit handed_to_driver h = search subsequence_rules
custody_extends start_transit _ h = absurd (ground arith)
custody_extends ParcelAction.ready_for_pickup in_transit h = search subsequence_rules
custody_extends ParcelAction.ready_for_pickup _ h = absurd (ground arith)
custody_extends deliver ParcelStatus.ready_for_pickup h = search subsequence_rules
custody_extends deliver _ h = absurd (ground arith)
custody_extends cancel_sender _ h = Subsequence-nil _
custody_extends cancel_driver _ h = Subsequence-nil _
custody_extends cancel_admin _ h = Subsequence-nil _
custody_extends mark_lost handed_to_driver h = search subsequence_rules
custody_extends mark_lost in_transit h = search subsequence_rules
custody_extends mark_lost ParcelStatus.ready_for_pickup h = search subsequence_rules
custody_extends mark_lost _ h = absurd (ground arith)
custody_extends mark_damaged handed_to_driver h = search subsequence_rules
custody_extends mark_damaged in_transit h = search subsequence_rules
custody_extends mark_damaged ParcelStatus.ready_for_pickup h = search subsequence_rules
custody_extends mark_damaged _ h = absurd (ground arith)
custody_extends dispute ParcelStatus.ready_for_pickup h = search subsequence_rules
custody_extends dispute delivered h = search subsequence_rules depth 8
custody_extends dispute damaged h = search subsequence_rules
custody_extends dispute lost h = search subsequence_rules
custody_extends dispute _ h = absurd (ground arith)
custody_extends expire _ h = Subsequence-nil _

-- A parcel that starts as a draft, as created or as accepted is delivered only if the handover, the
-- start of the transit, the arrival and the delivery were requested, in this order.
pub delivered_custody :
    (s : ParcelStatus) (actions : List ParcelAction)
    → (s ≡ draft) ⊎ (s ≡ created) ⊎ (s ≡ accepted)
    → run parcel_machine s actions ≡ delivered
    → Subsequence (handover ∷ start_transit ∷ ParcelAction.ready_for_pickup ∷ deliver ∷ []) actions
unfolding custody
delivered_custody s actions h e =
    subst (λ t. Subsequence (custody t) actions) e
      (Subsequence-chain parcel_machine custody custody_extends s [] actions (fresh s h))
  where
    fresh :
        (t : ParcelStatus)
        → (t ≡ draft) ⊎ (t ≡ created) ⊎ (t ≡ accepted)
        → Subsequence (custody t) []
    fresh t (inl e) = rw e (Subsequence-nil [])
    fresh t (inr (inl e)) = rw e (Subsequence-nil [])
    fresh t (inr (inr e)) = rw e (Subsequence-nil [])

-- The driver has taken the parcel.
abbrev pub IsHandedOver : ParcelStatus → Type 0
IsHandedOver draft = ⊥
IsHandedOver created = ⊥
IsHandedOver pending_driver_acceptance = ⊥
IsHandedOver accepted = ⊥
IsHandedOver cancelled_by_sender = ⊥
IsHandedOver cancelled_by_driver = ⊥
IsHandedOver rejected = ⊥
IsHandedOver expired = ⊥
IsHandedOver _ = Unit {0}

IsHandedOver-kept :
    (a : ParcelAction) (s : ParcelStatus)
    → IsHandedOver s
    → includes ParcelStatus-discrete (parcel_machine.allowed a) s ≡ true
    → IsHandedOver (parcel_machine.target a)
unfolding ParcelStatus-discrete
IsHandedOver-kept submit s p h = ground arith
IsHandedOver-kept driver_accept s p h = ground arith
IsHandedOver-kept driver_reject s p h = ground arith
IsHandedOver-kept handover s p h = ground arith
IsHandedOver-kept start_transit s p h = ground arith
IsHandedOver-kept ParcelAction.ready_for_pickup s p h = ground arith
IsHandedOver-kept deliver s p h = ground arith
IsHandedOver-kept cancel_sender s p h = ground arith
IsHandedOver-kept cancel_driver s p h = ground arith
IsHandedOver-kept cancel_admin s p h = ground arith
IsHandedOver-kept mark_lost s p h = ground arith
IsHandedOver-kept mark_damaged s p h = ground arith
IsHandedOver-kept dispute s p h = ground arith
IsHandedOver-kept expire s p h = ground arith

-- From the handover on no request makes a parcel one that its sender or its driver has cancelled, a
-- rejected or an expired one, nor takes it back to a status before the handover.
pub run-IsHandedOver :
    (s : ParcelStatus) (actions : List ParcelAction)
    → IsHandedOver s
    → IsHandedOver (run parcel_machine s actions)
run-IsHandedOver s actions p =
    run_closed parcel_machine {P = IsHandedOver} IsHandedOver-kept s actions p
