-- ===== src/Risk.antt =====
-- internal/risk: the score and the SSVC decision of an event.
pub mod Assets
pub mod Ssvc
pub mod Score
pub mod Explain
mod Tests
