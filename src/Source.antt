-- ===== src/Source.antt =====
-- internal/source: where the threat events come from.
pub mod Misp
pub mod Kev
pub mod Poller
pub mod Client
mod Tests
