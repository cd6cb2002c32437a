-- ===== src/Authorization.antt =====
-- authorization/: roles, permissions, grant authority and their audit.
pub mod Models
pub mod Policy
pub mod Repository
pub mod Guards
pub mod Views
pub mod Services
pub mod Access
pub mod Onboarding
pub mod Bootstrap
