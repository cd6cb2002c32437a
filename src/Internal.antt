-- ===== src/Internal.antt =====
-- internal/: what the booking service asks of the core.
pub mod Booking
