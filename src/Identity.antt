-- ===== src/Identity.antt =====
-- firstbrief/identity: users, capabilities and scopes, and the local sign-in.
pub mod Model
pub mod Access
pub mod Login
pub mod Passwords
mod Examples
