-- ===== src/Booking.antt =====
-- Seat inventory and bookings of a trip: packages/validation/src/index.ts (generateSeatLayout) and the
-- booking functions and routes of apps/api/src/main.ts.
pub mod Layout
pub mod Store
pub mod Holds
pub mod Routes
pub mod Changes
pub mod Maintenance
pub mod Invariant
