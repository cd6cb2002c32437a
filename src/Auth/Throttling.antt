-- ===== src/Auth/Throttling.antt =====
-- The buckets of auth/repository.py against the counters that they implement.
pub mod Counters
pub mod Purge
pub mod Attempts
pub mod Limit
