-- ===== src/Hub.antt =====
-- src/hub.ts, the class `AgentHub`.
pub mod State
pub mod Outcome
pub mod Events
pub mod Matching
pub mod Settling
pub mod Counters
pub mod Notes
pub mod Compose
pub mod Deliver
pub mod Timers
pub mod Failing
pub mod Leases
pub mod Polling
pub mod Registry
pub mod Groups
pub mod History
pub mod Tasks
pub mod Renaming
