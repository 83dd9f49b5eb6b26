-- ===== src/Bringup/Campaign.antt =====
-- The qualification campaign (qualification_campaign_core.cc).
pub mod Profile
pub mod Scheduler
pub mod State
pub mod Transitions
pub mod Diagnostics
pub mod Telemetry
pub mod Evidence
pub mod Polling
pub mod Finish
pub mod Latch
pub mod Trace
pub mod History
pub mod Tests
