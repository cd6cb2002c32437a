-- ===== src/Auth.antt =====
-- auth/: passwords, sessions, throttling, invitations and password resets.
pub mod Models
pub mod Repository
pub mod Sessions
pub mod Throttling
pub mod SignIn
pub mod Resets
pub mod Changing
pub mod Accepting
pub mod Security
pub mod Services
pub mod Diagnose
pub mod Provision
pub mod Provisioned
