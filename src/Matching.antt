-- ===== src/Matching.antt =====
-- internal/match: the matchers and the engine that runs them.
pub mod Scan
pub mod Number
pub mod Version
pub mod Aliases
pub mod Cve
pub mod Kev
pub mod Sector
pub mod Tag
pub mod Engine
mod Tests
