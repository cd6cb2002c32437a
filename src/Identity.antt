-- ===== src/Identity.antt =====
-- identity/: organizations, users and memberships.
pub mod Models
pub mod Normalization
pub mod Repository
pub mod Services
