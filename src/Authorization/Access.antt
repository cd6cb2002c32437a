-- ===== src/Authorization/Access.antt =====
-- What a member may do and grant, stated without queries: a chain of current rows from the user to
-- the permission. The modules below relate it to the queries and follow it through the writes.
pub mod Chain
pub mod Effective
pub mod Writes
pub mod Loops
pub mod Strip
pub mod Join
pub mod Founding
pub mod Bootstrapped
pub mod Assigning
pub mod Archiving
pub mod Administrator
pub mod Authorize
pub mod Escalation
