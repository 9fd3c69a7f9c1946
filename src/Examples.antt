-- ===== src/Examples.antt =====
-- Runs at concrete inputs.
mod Booking
mod Boarding
mod Journeys
mod Locating
mod Finance
mod Statuses
mod Sweeping
mod Incentives
mod Payouts
mod Ratings
mod Restricting
