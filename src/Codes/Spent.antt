-- ===== src/Codes/Spent.antt =====
-- What becomes of a code that has boarded a booking (boardBooking, createBoardingCode and
-- activeBoardingCodeForBooking of apps/api/src/main.ts).
use nodex_v.Prelude.{
  any, ==_iff, ℕ, ◌==◌, ◌≡◌, ◌≢◌, refl, sym, subst, arith, Bool, true, false, not, ◌||◌, List, [],
  ◌∷◌, String, some, All, map, Bool-cases, Option-cases, inl, inr, ok,
}
use nodex_v.Codes.{
  SecretCode, CodeGuard, attempt_allowed, code_inactive, code_used, code_locked, code_expired,
  code_max_attempts, boarding_code_can_attempt, find_active, is_code_active, update_code,
  verify_code, fail_code, replace_code, create_code, active_code, BoardingStore, is_boarding,
  board_booking,
}
use nodex_v.Codes.Once.{board_booking-ok}

-- A row with this id is in use no more.
abbrev is_spent : ℕ → SecretCode → Bool
is_spent id c = not (c.id == id) || not (is_code_active c.status)

abbrev pub Spent : ℕ → List SecretCode → Type 0
Spent id cs = All (λ c. is_spent id c ≡ true) cs

-- What is done to the rows of a booking: an attempt, whose writes may be undone, new codes, and what
-- else happens to the booking.
module _ (hash_secret : String → ℕ) where
  pub data CodeStep (s : BoardingStore) : BoardingStore → Type 0 where
    attempt : (code : String) (now : ℕ) → CodeStep s (board_booking hash_secret code now s).0
    create :
        (id hash now ttl max_attempts : ℕ)
        → All (λ c. (c.id == id) ≡ false) s.codes
        → CodeStep s (record s { codes = create_code id hash now ttl max_attempts s.codes })
    ask :
        (id hash now ttl max_attempts : ℕ)
        → All (λ c. (c.id == id) ≡ false) s.codes
        → CodeStep s (record s { codes = active_code id hash now ttl max_attempts s.codes })
    change : (t : BoardingStore) → t.codes ≡ s.codes → CodeStep s t

  pub data CodeReach (s : BoardingStore) : BoardingStore → Type 0 where
    here : CodeReach s s
    next : {t u : BoardingStore} → CodeReach s t → CodeStep t u → CodeReach s u

-- The row is among the rows.
abbrev Present : ℕ → List SecretCode → Type 0
Present id cs = any (λ c. c.id == id) cs ≡ true

found-Present : (cs : List SecretCode) (c : SecretCode) → find_active cs ≡ some c → Present c.id cs
found-Present [] c e = cc
found-Present (d ∷ cs) c e = elim (Bool-cases (is_code_active d.status)) [
  | inl a ↦
      let same : d ≡ c = ground arith in subst (λ x. Present x.id (d ∷ cs)) same (ground arith)
  | inr a ↦ ground (arith, found-Present cs c)
]

update-Present :
    (id i : ℕ) (f : SecretCode → SecretCode) (cs : List SecretCode)
    → ((c : SecretCode) → (f c).id ≡ c.id)
    → Present id cs
    → Present id (update_code i f cs)
update-Present id i f [] k p = p
update-Present id i f (c ∷ cs) k p = ground (arith, k c, update-Present id i f cs k)

verified-Spent :
    (id now : ℕ) (cs : List SecretCode) → Spent id (update_code id (verify_code now) cs)
verified-Spent id now [] = tt
verified-Spent id now (c ∷ cs) = (ground arith, verified-Spent id now cs)

update-Spent :
    (id i : ℕ) (f : SecretCode → SecretCode) (cs : List SecretCode)
    → ((c : SecretCode) → (f c).id ≡ c.id)
    → (i == id) ≡ false
    → Spent id cs
    → Spent id (update_code i f cs)
update-Spent id i f [] k n sp = tt
update-Spent id i f (c ∷ cs) k n (h, sp) = (ground (arith, k c), update-Spent id i f cs k n sp)

replace-Spent : (id : ℕ) (cs : List SecretCode) → Spent id cs → Spent id (map replace_code cs)
replace-Spent id [] sp = tt
replace-Spent id (c ∷ cs) (h, sp) = (ground arith, replace-Spent id cs sp)

replace-Present : (id : ℕ) (cs : List SecretCode) → Present id cs → Present id (map replace_code cs)
replace-Present id [] p = p
replace-Present id (c ∷ cs) p = ground (arith, replace-Present id cs)

active-other :
    (id : ℕ) (cs : List SecretCode) (c : SecretCode)
    → Spent id cs
    → find_active cs ≡ some c
    → (c.id == id) ≡ false
active-other id [] c sp e = cc
active-other id (d ∷ cs) c (h, sp) e = elim (Bool-cases (is_code_active d.status)) [
  | inl a ↦ let same : d ≡ c = ground arith in subst (λ x. (x.id == id) ≡ false) same (ground arith)
  | inr a ↦ active-other id cs c sp (ground arith)
]

new-other :
    (id i : ℕ) (cs : List SecretCode)
    → All (λ c. (c.id == i) ≡ false) cs
    → Present id cs
    → (i == id) ≡ false
new-other id i [] fresh p = absurd (ground arith)
new-other id i (c ∷ cs) (h, fresh) p = ground (arith, new-other id i cs fresh)

-- The row is there, and in use no more.
record IsSpent (id : ℕ) (cs : List SecretCode) : Type 0 where
  present : Present id cs
  spent : Spent id cs

create-IsSpent :
    (id i hash now ttl max_attempts : ℕ) (cs : List SecretCode)
    → All (λ c. (c.id == i) ≡ false) cs
    → IsSpent id cs
    → IsSpent id (create_code i hash now ttl max_attempts cs)
unfolding create_code
create-IsSpent id i hash now ttl max_attempts cs fresh v =
    let n = new-other id i cs fresh v.present in
    record {
      present = ground (arith, replace-Present id cs v.present);
      spent = (ground arith, replace-Spent id cs v.spent);
    }

active-IsSpent :
    (id i hash now ttl max_attempts : ℕ) (cs : List SecretCode)
    → All (λ c. (c.id == i) ≡ false) cs
    → IsSpent id cs
    → IsSpent id (active_code i hash now ttl max_attempts cs)
unfolding active_code
active-IsSpent id i hash now ttl max_attempts cs fresh v = elim (Option-cases (find_active cs)) [
  | inl e ↦ rw (e, active_code) (create-IsSpent id i hash now ttl max_attempts cs fresh v)
  | inr (c, e) ↦ by_guard c e (boarding_code_can_attempt c now) refl
]
  where
    made : IsSpent id (create_code i hash now ttl max_attempts cs)
    made = create-IsSpent id i hash now ttl max_attempts cs fresh v

    by_guard :
        (c : SecretCode)
        → find_active cs ≡ some c
        → (g : CodeGuard) → boarding_code_can_attempt c now ≡ g
        → IsSpent id (active_code i hash now ttl max_attempts cs)
    by_guard c e attempt_allowed a = rw (e, a, active_code) v
    by_guard c e code_inactive a = rw (e, a, active_code) made
    by_guard c e code_used a = rw (e, a, active_code) made
    by_guard c e code_locked a = rw (e, a, active_code) made
    by_guard c e code_expired a = rw (e, a, active_code) made
    by_guard c e code_max_attempts a = rw (e, a, active_code) made

update-IsSpent :
    (id : ℕ) (f : SecretCode → SecretCode) (c : SecretCode) (cs : List SecretCode)
    → ((x : SecretCode) → (f x).id ≡ x.id)
    → find_active cs ≡ some c
    → IsSpent id cs
    → IsSpent id (update_code c.id f cs)
update-IsSpent id f c cs k found v = record {
  present = update-Present id c.id f cs k v.present;
  spent = update-Spent id c.id f cs k (active-other id cs c v.spent found) v.spent;
}

module _ (hash_secret : String → ℕ) (id : ℕ) where
  attempt-IsSpent :
      (code : String) (now : ℕ) (s : BoardingStore)
      → IsSpent id s.codes
      → IsSpent id (board_booking hash_secret code now s).0.codes
  unfolding board_booking
  attempt-IsSpent code now s v = elim (Bool-cases (is_boarding s)) [
    | inr h ↦ rw (h, board_booking) v
    | inl h ↦ elim (Option-cases (find_active s.codes)) [
      | inl f ↦ rw (h, f, board_booking) v
      | inr (c, f) ↦ by_guard h c f (boarding_code_can_attempt c now) refl
    ]
  ]
    where
      by_guard :
          is_boarding s ≡ true
          → (c : SecretCode) → find_active s.codes ≡ some c
          → (g : CodeGuard) → boarding_code_can_attempt c now ≡ g
          → IsSpent id (board_booking hash_secret code now s).0.codes
      by_guard h c f attempt_allowed a = elim (Bool-cases (c.code_hash == hash_secret code)) [
        | inl same ↦
            rw (h, f, a, same, board_booking)
              (update-IsSpent id (verify_code now) c s.codes (λ x. refl) f v)
        | inr other ↦
            rw (h, f, a, other, board_booking)
              (update-IsSpent id (fail_code now) c s.codes (λ x. refl) f v)
      ]
      by_guard h c f code_inactive a = rw (h, f, a, board_booking) v
      by_guard h c f code_used a = rw (h, f, a, board_booking) v
      by_guard h c f code_locked a = rw (h, f, a, board_booking) v
      by_guard h c f code_expired a = rw (h, f, a, board_booking) v
      by_guard h c f code_max_attempts a = rw (h, f, a, board_booking) v

  Step-IsSpent :
      {s t : BoardingStore} → IsSpent id s.codes → CodeStep hash_secret s t → IsSpent id t.codes
  Step-IsSpent {s} v (attempt code now) = attempt-IsSpent code now s v
  Step-IsSpent {s} v (create i hash now ttl max_attempts fresh) =
      create-IsSpent id i hash now ttl max_attempts s.codes fresh v
  Step-IsSpent {s} v (ask i hash now ttl max_attempts fresh) =
      active-IsSpent id i hash now ttl max_attempts s.codes fresh v
  Step-IsSpent v (change t e) = subst (IsSpent id) (sym e) v

  Reach-IsSpent :
      {s t : BoardingStore} → IsSpent id s.codes → CodeReach hash_secret s t → IsSpent id t.codes
  Reach-IsSpent v here = v
  Reach-IsSpent v (next r st) = Step-IsSpent (Reach-IsSpent v r) st

-- A code boards its booking once: whatever codes are tried, made and asked for after a success, and
-- whatever else happens to the booking, in any order, if the booking is boarded again then it is with
-- another row of a code, whose hash is that of the code entered. A new row has an id of its own.
pub board_booking_once :
    (hash_secret : String → ℕ) (code code' : String) (now now' : ℕ) (s t : BoardingStore)
    → (board_booking hash_secret code now s).1 ≡ ok tt
    → CodeReach hash_secret (board_booking hash_secret code now s).0 t
    → (board_booking hash_secret code' now' t).1 ≡ ok tt
    → (c : SecretCode) × (d : SecretCode) × (find_active s.codes ≡ some c)
      × (find_active t.codes ≡ some d)
      × (d.id ≢ c.id)
      × (d.code_hash ≡ hash_secret code')
board_booking_once hash_secret code code' now now' s t first reached again =
    let (c, h, found, same, written) = board_booking-ok hash_secret code now s first in
    let (d, h', found', same', written') = board_booking-ok hash_secret code' now' t again in
    let start : IsSpent c.id (board_booking hash_secret code now s).0.codes = rw written (record {
      present =
          update-Present c.id c.id (verify_code now) s.codes (λ x. refl)
            (found-Present s.codes c found);
      spent = verified-Spent c.id now s.codes;
    }) in
    let other =
      active-other c.id t.codes d (Reach-IsSpent hash_secret c.id start reached).spent found' in
    (c, d, found, found', (λ e. ground arith), (==_iff d.code_hash (hash_secret code')).0 same')
