-- ===== src/Lib.antt =====
-- A ride-sharing marketplace: trips with seats that passengers hold, book and pay for, parcels that
-- travel along, and the staff's tickets and reports. The rules stand in packages/validation and
-- packages/payments; apps/api/src/main.ts applies them in transactions on the database, and
-- apps/worker/src/main.ts runs the periodic jobs. This library models the rules and the
-- transactions that move seats, codes, trips, parcels and money.
--
-- The parts, and the files that model them:
-- Transition, Lifecycle: evaluateTripTransition, evaluateParcelTransition, evaluateSupportTransition
--     and evaluateSafetyTransition of packages/validation/src/index.ts. One routine over the two tables
--     of a machine; Transition/Laws holds what the tables say of sequences of requests.
-- Booking/Layout: generateSeatLayout of packages/validation/src/index.ts.
-- Booking/Store: the rows of one trip. Tables under an id are functions, seats go by their key.
-- Booking/Holds, Booking/Routes: releaseActiveSeatHold, expireSeatHolds, assertSeatSelection,
--     ensureTripSeats and the three routes under /api/v1/bookings/holds of apps/api/src/main.ts
--     (create_hold, confirm_hold, delete_hold).
-- Booking/Changes: cancelBooking, driverDecideBooking, and what payments write of bookings.
-- Booking/Maintenance: releaseActiveWorkerSeatHold, expireActiveSeatHolds, over the stores of all
--     trips, and the bookings' part of expireStaleOnlinePayments in apps/worker/src/maintenance.ts.
-- Booking/Holds/Draining: what repeated runs of the sweep come to.
-- Booking/Invariant: the invariant of these tables; its Steps has a step for each operation of
--     the files on holds, routes, changes and maintenance.
-- Codes: boardingCodeCanAttempt and parcelCodeCanAttempt of packages/validation/src/index.ts, and
--     boardBooking, verifyTripStartPinForBooking and the making of codes in apps/api/src/main.ts. The
--     transactions of the database are the interface Codes/Transactions, the hash is a parameter.
-- Operations: startTripOperation, completeTripOperation, cancelTripOperational and the two
--     transition routines with their version guard (apps/api/src/main.ts).
-- Tracking: evaluateTripLocationWrite of packages/validation/src/index.ts, recordTripLocationPoint and
--     POST /trips/:tripId/location of apps/api/src/main.ts; Spacing has a step for each way to record a
--     point.
-- Parcels: driverParcelAction of apps/api/src/main.ts, with the codes of handover and delivery.
-- Payments: Money, Pricing, Status and the checks of Ledger and Refund are
--     packages/payments/src/index.ts; ledgerPost, markPaymentSucceeded (Settlement) and the refund route
--     are apps/api/src/main.ts; the refund loop is apps/worker/src/main.ts. Settlement writes the
--     bookings through Booking/Changes.
-- Payments/Payouts: the two payout routes of apps/api/src/main.ts and the release of earnings by the
--     finance job of apps/worker/src/main.ts.
-- Rewards: evaluateRewardFraud and rewardStatusForFraudStatus of packages/validation/src/index.ts
--     (Fraud), createRewardWithEvaluation and the staff's review of a reward (Grants),
--     updateDriverMilestoneProgress (Milestones), and qualifyReferralRewardForUser and
--     qualifyRewardsForCompletedTrip (Trips) of apps/api/src/main.ts. Maps: distanceMetersBetween of
--     packages/maps/src/index.ts.
-- Reviews: the rules on reviews of packages/validation/src/index.ts and the routes under
--     /api/v1/reviews. Idempotency: ensureIdempotency, which several routes run under.
-- Restrictions: activeAccountRestriction, assertNoActiveAccountRestriction, recomputeReliabilityProfile
--     and the routes that apply and revoke a restriction of apps/api/src/main.ts,
--     calculateReliabilityLevel of packages/validation/src/index.ts, and the trust and safety job of
--     apps/worker/src/main.ts (Expiry) but for its ratings.
-- Prelude: shared names, tests on numbers, lists, results and signed integers. Prelude/Double is the
--     arithmetic of `number` beyond the whole numbers, a parameter of Maps, Rewards and Reviews.
-- Examples: runs at concrete inputs.
--
-- Conventions: a minor unit or another bigint is an integer; ids, versions, counts and times in
-- milliseconds are natural numbers, which the code never takes below zero. A thrown error is `err`,
-- and where it leaves the transaction the store is as before. The code's loops are recursion on the
-- list that they run over; the sweep takes 100 holds and the refund loop 50 requests, as in the code.
-- No definition needs fuel. A request reads the clock once, where the code reads it at each write.
--
-- Not modelled: authentication, the request schemas but for the ranges that a proof uses, audits,
-- analytics, notifications and the outbox, which no modelled decision reads; texts of reviews and
-- reasons, passengers, baggage and snapshots of bookings; the isolation of concurrent transactions,
-- but for the version guards; settlements of cash, chats, the waitlist, the senders' parcel routes
-- and the user interfaces.
mod Prelude
pub mod Transition
pub mod Lifecycle
pub mod Payments
pub mod Booking
pub mod Codes
pub mod Operations
pub mod Idempotency
pub mod Maps
pub mod Parcels
pub mod Restrictions
pub mod Reviews
pub mod Rewards
pub mod Tracking
mod Examples
