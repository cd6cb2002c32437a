-- ===== src/Authorization/Services.antt =====
-- authorization/services.py: the operations of an organization's administration, each in a
-- transaction. The bodies are in the modules below; `FOR UPDATE` locks have no effect on one
-- call at a time.
pub mod Transaction
pub mod Reads
pub mod Rows
pub mod Roles
pub mod Assignments
pub mod Members
pub mod Api
