-- ===== src/Lifecycle.antt =====
-- The status machines of packages/validation/src/index.ts, one module for each kind of record.
pub mod Trip
pub mod Parcel
pub mod Support
pub mod Safety
