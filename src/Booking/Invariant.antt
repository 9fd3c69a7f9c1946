-- ===== src/Booking/Invariant.antt =====
-- The invariant of the booking tables: which booking has which seat (apps/api/src/main.ts).
mod Shrinking
mod Release
mod Expiry
mod Worker
mod Requests
mod Taking
pub mod Creating
mod Closing
mod Unpaid
pub mod Steps
use nodex_v.Prelude.{ℕ, suc, ◌≤◌, ◌<◌, ◌≡◌, Bool, true, false, String, Option, none, some, List}
use nodex_v.Booking.Store.{SeatStatus, BookingSeatStatus, SeatHold, active, Store, has}

-- The row gives the seat to its booking.
abbrev pub is_live : Option BookingSeatStatus → Bool
is_live (some BookingSeatStatus.held) = true
is_live (some BookingSeatStatus.booked) = true
is_live (some BookingSeatStatus.occupied) = true
is_live _ = false

pub record IsExclusive (s : Store) : Type 0 where
  -- A seat that can be booked is nobody's.
  pub free :
      (k : String) (b : ℕ)
      → s.seat_status k ≡ SeatStatus.available
      → is_live (s.booking_seats b k) ≡ false
  -- A seat is one booking's at most.
  pub single :
      (k : String) (b b' : ℕ)
      → is_live (s.booking_seats b k) ≡ true
      → is_live (s.booking_seats b' k) ≡ true
      → b ≡ b'
  -- An ACTIVE hold is some booking's, and its seats are held for it.
  pub booked_by :
      (h : ℕ) (row : SeatHold)
      → s.holds h ≡ some row
      → row.status ≡ active
      → (b : ℕ) × (row.booking_id ≡ some b)
  pub owned :
      (h : ℕ) (row : SeatHold) (b : ℕ) (k : String)
      → s.holds h ≡ some row
      → row.status ≡ active
      → row.booking_id ≡ some b
      → has row.items k ≡ true
      → (s.seat_status k ≡ SeatStatus.held) × (s.booking_seats b k ≡ some BookingSeatStatus.held)
  -- Who has a seat has one that the trip has a row for.
  pub known : (k : String) (b : ℕ) → is_live (s.booking_seats b k) ≡ true → has s.seat_keys k ≡ true
  -- A booking has one hold.
  pub one_hold :
      (h h' : ℕ) (row row' : SeatHold) (b : ℕ)
      → s.holds h ≡ some row
      → s.holds h' ≡ some row'
      → row.booking_id ≡ some b
      → row'.booking_id ≡ some b
      → h ≡ h'
  -- Rows under ids that are still to come do not exist.
  pub fresh_rows : (b : ℕ) (k : String) → s.next_id ≤ b → s.booking_seats b k ≡ none
  pub fresh_holds : (h : ℕ) → s.next_id ≤ h → s.holds h ≡ none
  pub fresh_bookings :
      (h b : ℕ) (row : SeatHold) → s.holds h ≡ some row → row.booking_id ≡ some b → b < s.next_id
