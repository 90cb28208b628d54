-- ===== src/Access.antt =====
-- Who may use the dashboard: the accounts and sessions, and the limits on login attempts.
pub mod RateLimit
pub mod Users
pub mod Login
pub mod Legacy
pub mod Argon
pub mod Guards
mod Tests
