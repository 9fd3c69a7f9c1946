-- ===== src/Booking/Invariant/Shrinking.antt =====
-- The common part of the operations of apps/api/src/main.ts that give no seat to anybody.
use nodex_v.Prelude.{
  ℕ, ◌≤◌, ◌≡◌, ◌⊎◌, inl, inr, sym, ◌∙◌, refl, Bool, true, false, String, none, some, Option-cases,
}
use nodex_v.Booking.Store.{SeatStatus, BookingSeatStatus, SeatHold, active, Store, has}
use nodex_v.Booking.Invariant.{IsExclusive, is_live}

pub record Shrinks (s t : Store) : Type 0 where
  pub live_before :
      (k : String) (b : ℕ)
      → is_live (t.booking_seats b k) ≡ true
      → is_live (s.booking_seats b k) ≡ true
  pub freed :
      (k : String) (b : ℕ)
      → t.seat_status k ≡ SeatStatus.available
      → (s.seat_status k ≡ SeatStatus.available) ⊎ (is_live (t.booking_seats b k) ≡ false)
  pub hold_before :
      (h : ℕ) (row : SeatHold)
      → t.holds h ≡ some row
      → (old : SeatHold) × (s.holds h ≡ some old)
        × (row.booking_id ≡ old.booking_id)
        × (row.items ≡ old.items)
        × (row.status ≡ active → old.status ≡ active)
  pub undisturbed :
      (h : ℕ) (row : SeatHold) (b : ℕ) (k : String)
      → t.holds h ≡ some row
      → row.status ≡ active
      → row.booking_id ≡ some b
      → has row.items k ≡ true
      → (t.seat_status k ≡ s.seat_status k) × (t.booking_seats b k ≡ s.booking_seats b k)
  pub no_new_row : (k : String) (b : ℕ) → s.booking_seats b k ≡ none → t.booking_seats b k ≡ none
  pub keys_kept : (k : String) → has s.seat_keys k ≡ true → has t.seat_keys k ≡ true
  pub same_next : t.next_id ≡ s.next_id

module _ (s t : Store) (v : IsExclusive s) (c : Shrinks s t) where
  not_live : (b : Bool) → (b ≡ true → false ≡ true) → b ≡ false
  not_live true h = sym (h refl)
  not_live false h = refl

  kept_free :
      (k : String) (b : ℕ)
      → t.seat_status k ≡ SeatStatus.available
      → is_live (t.booking_seats b k) ≡ false
  kept_free k b e = elim (c.freed k b e) [
    | inl was ↦ not_live _ (λ l. sym (v.free k b was) ∙ c.live_before k b l)
    | inr gone ↦ gone
  ]

  kept_owned :
      (h : ℕ) (row : SeatHold) (b : ℕ) (k : String)
      → t.holds h ≡ some row
      → row.status ≡ active
      → row.booking_id ≡ some b
      → has row.items k ≡ true
      → (t.seat_status k ≡ SeatStatus.held) × (t.booking_seats b k ≡ some BookingSeatStatus.held)
  kept_owned h row b k e a o i =
      let (old, stood, of, its, was) = c.hold_before h row e in
      let (seat, own) = c.undisturbed h row b k e a o i in
      let (held, row_held) = v.owned h old b k stood (was a) (sym of ∙ o) (rw (← its) i) in
      (seat ∙ held, own ∙ row_held)

  kept_fresh : (h : ℕ) → t.next_id ≤ h → t.holds h ≡ none
  kept_fresh h n = elim (Option-cases (t.holds h)) [
    | inl none_there ↦ none_there
    | inr (row, e) ↦
        let (old, stood, of, its, was) = c.hold_before h row e in
        cc (stood, v.fresh_holds h (rw (← c.same_next) n))
  ]

  pub IsExclusive-of_Shrinks : IsExclusive t
  IsExclusive-of_Shrinks = record {
    free = kept_free;
    single = λ k b b' l l'. v.single k b b' (c.live_before k b l) (c.live_before k b' l');
    known = λ k b l. c.keys_kept k (v.known k b (c.live_before k b l));
    booked_by = λ h row e a.
        let (old, stood, of, its, was) = c.hold_before h row e in
        let (b, at) = v.booked_by h old stood (was a) in (b, of ∙ at);
    owned = kept_owned;
    one_hold = λ h h' row row' b e e' o o'.
        let (old, stood, of, its, was) = c.hold_before h row e in
        let (old', stood', of', its', was') = c.hold_before h' row' e' in
        v.one_hold h h' old old' b stood stood' (sym of ∙ o) (sym of' ∙ o');
    fresh_rows = λ b k n. c.no_new_row k b (v.fresh_rows b k (rw (← c.same_next) n));
    fresh_holds = kept_fresh;
    fresh_bookings = λ h b row e o.
        let (old, stood, of, its, was) = c.hold_before h row e in
        rw c.same_next (v.fresh_bookings h b old stood (sym of ∙ o));
  }
