-- ===== src/Identity.antt =====
-- identity/directory.py, permissions/registry.py and authentication/service.py: who there is, and who
-- may log in.
pub mod Directory
pub mod Permissions
pub mod Passwords
pub mod Service
pub mod Accounts
pub mod Sessions
pub mod Boundaries
pub mod Additions
pub mod Members
pub mod Enrolled
pub mod Principals
pub mod Registered
pub mod Logins
pub mod Tokens
mod Tests
