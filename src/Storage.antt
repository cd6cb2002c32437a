-- ===== src/Storage.antt =====
-- The database as the services see it, the values that a call draws from outside, and the session
-- with its transactions (the `transaction` context managers).
pub mod Tables
pub mod Exec
pub mod Ensures
pub mod Idle
