-- ===== src/Notify/Crowdstrike.antt =====
-- internal/notify/crowdstrike.go: which indicators are sent to Crowdstrike Falcon, and their queue.
pub mod Ip
pub mod Validation
pub mod Export
pub mod Queue
pub mod Schedule
pub mod Counting
pub mod Moves
pub mod Once
pub mod Checked
pub mod Token
pub mod Sending
mod Tests
