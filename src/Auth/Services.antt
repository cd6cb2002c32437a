-- ===== src/Auth/Services.antt =====
-- auth/services.py: sign-in, sessions, passwords, invitations and resets.
pub mod Transaction
pub mod Attempts
pub mod Login
pub mod Sessions
pub mod Passwords
pub mod Invitations
pub mod Acceptance
pub mod Resets
pub mod Access
