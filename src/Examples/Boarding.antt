-- ===== src/Examples/Boarding.antt =====
-- Codes of one booking at boarding.
use text.Mathlib.Text.{◌==◌ as str_eq}
use nodex_v.Prelude.{
  if◌then◌else◌, ℕ, ◌≡◌, ◌≢◌, ◌⊎◌, refl, [], ◌∷◌, String, none, some, Result, ok, err,
}
use nodex_v.Lifecycle.Trip.{TripStatus}
use nodex_v.Booking.Store.{SeatStatus, BookingSeatStatus, BookingStatus}
use nodex_v.Codes.{
  SecretCode, CodeStatus, BoardingStore, BoardingError, boarding_code_not_found,
  boarding_code_can_attempt, board_booking, find_active, create_code, code_inactive,
}
use nodex_v.Transition.{evaluate}
use nodex_v.Lifecycle.Parcel.{
  ParcelStatus, ParcelStatus-discrete, handover, handed_to_driver, evaluate_parcel_transition,
}
use nodex_v.Operations.{transition_parcel}
use nodex_v.Codes.{parcel_code_can_attempt}
use nodex_v.Parcels.{parcel_code_refused, ParcelStore, driver_parcel_action, check_code, move}
use nodex_v.Parcels.Handover.{IsEntered, driver_parcel_action-handover}
use nodex_v.Codes.Transactions.{Transaction}
use nodex_v.Codes.Attempts.{try_codes, try_codes-wrong, try_bodies, try_bodies-wrong}
use nodex_v.Codes.Spent.{here, next, create, board_booking_once}

-- A hash that tells the codes used here apart.
abbrev toy_hash : String → ℕ
toy_hash code = if str_eq code "1234" then 1 else 0

abbrev the_code : SecretCode
the_code = record {
  id = 5;
  code_hash = 1;
  status = CodeStatus.active;
  expires_at = 900;
  attempts_count = 0;
  max_attempts = 2;
  locked_at = none;
  verified_at = none;
}

abbrev at_boarding : BoardingStore
at_boarding = record {
  trip_status = TripStatus.boarding;
  booking_status = BookingStatus.boarding;
  seats = "FRONT_RIGHT" ∷ [];
  seat_status = λ k. SeatStatus.booked;
  row_status = λ k. some BookingSeatStatus.booked;
  codes = the_code ∷ [];
  pins = [];
  attempts = [];
}

abbrev run_body :
    (BoardingStore → BoardingStore × Result BoardingError (Unit {0}))
    → BoardingStore
    → BoardingStore × Result BoardingError (Unit {0})
run_body body s = keep_if (body s)
  where
    keep_if :
        BoardingStore × Result BoardingError (Unit {0})
        → BoardingStore × Result BoardingError (Unit {0})
    keep_if (t, ok a) = (t, ok a)
    keep_if (t, err e) = (s, err e)

-- A transaction as the database documents it.
abbrev roll_back : Transaction BoardingStore BoardingError (Unit {0})
roll_back = record {
  run = run_body;
  commits = λ body s t a e. rw e refl;
  rolls_back = λ body s t x e. rw e refl;
}

try_codes-wrong_example :
    try_codes toy_hash roll_back 10 ("0000" ∷ "0001" ∷ "0002" ∷ []) at_boarding ≡ at_boarding
try_codes-wrong_example =
    try_codes-wrong toy_hash roll_back the_code 10 ("0000" ∷ "0001" ∷ "0002" ∷ []) at_boarding refl
      (refl, (refl, (refl, tt)))

try_bodies-wrong_example :
    (board_booking toy_hash "1234" 20 (try_bodies toy_hash 10 ("0000" ∷ "0001" ∷ []) at_boarding)).1
    ≡ err boarding_code_not_found
unfolding boarding_code_can_attempt
try_bodies-wrong_example =
    try_bodies-wrong toy_hash the_code 10 ("0000" ∷ "0001" ∷ []) at_boarding "1234" 20 refl refl
      refl (refl, (refl, tt)) refl

abbrev boarded_once : BoardingStore
boarded_once = (board_booking toy_hash "1234" 10 at_boarding).0

abbrev with_new_code : BoardingStore
with_new_code = record boarded_once { codes = create_code 6 1 15 100 5 boarded_once.codes }

board_booking_once_example :
    (c : SecretCode) × (d : SecretCode) × (find_active at_boarding.codes ≡ some c)
    × (find_active with_new_code.codes ≡ some d)
    × (d.id ≢ c.id)
    × (d.code_hash ≡ 1)
unfolding board_booking boarding_code_can_attempt create_code
board_booking_once_example =
    board_booking_once toy_hash "1234" "1234" 10 20 at_boarding with_new_code refl
      (next here (create 6 1 15 100 5 (refl, tt))) refl

abbrev parcel_at : ParcelStatus → ParcelStore
parcel_at status = record {
  row = record { status = status; version = 3 };
  handover_codes = the_code ∷ [];
  pickup_codes = the_code ∷ [];
}

abbrev handed_over : ParcelStore
handed_over =
    (driver_parcel_action toy_hash handover "1234" 6 8 10 100 5 (parcel_at ParcelStatus.accepted)).0

driver_parcel_action-handover_example :
    IsEntered toy_hash "1234" 10 (the_code ∷ [])
    × ((ParcelStatus.accepted ≡ ParcelStatus.accepted) ⊎ (ParcelStatus.accepted ≡ handed_to_driver))
    × (handed_over.row.status ≡ handed_to_driver)
    × ((driver_parcel_action toy_hash handover "1234" 6 8 20 100 5 handed_over).1
        ≡ err (parcel_code_refused code_inactive))
unfolding driver_parcel_action check_code move transition_parcel evaluate_parcel_transition evaluate
    ParcelStatus-discrete parcel_code_can_attempt
driver_parcel_action-handover_example =
    driver_parcel_action-handover toy_hash "1234" 6 8 10 100 5 (parcel_at ParcelStatus.accepted)
      handed_over "1234" 20 refl
