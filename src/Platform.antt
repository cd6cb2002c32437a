-- ===== src/Platform.antt =====
-- platform/: platform administrators, onboarding and module entitlements.
pub mod Models
pub mod Services
pub mod BookingPermissions
pub mod BookingGrants
pub mod Onboarding
