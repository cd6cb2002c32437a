-- ===== src/Tests.antt =====
-- A small tenant, runs of the operations on it, and the theorems at these runs.
mod Tenant
mod Authority
mod Management
mod Changing
mod Companies
mod Assigning
mod Archiving
mod SignIn
mod Account
mod Local
mod Login
mod Booking
mod Invitation
