-- ===== src/Dashboard.antt =====
-- internal/api/server.go and what it keeps in internal/store: the dashboard beside the pipeline.
pub mod Client
pub mod Settings
pub mod Stack
pub mod Alert
pub mod Routes
pub mod Search
pub mod Overview
mod Tests
