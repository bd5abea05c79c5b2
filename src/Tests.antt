-- ===== src/Tests.antt =====
-- The theorems at concrete states, reports and configurations.
pub mod Pressure
pub mod Http
pub mod Sample
pub mod Cloud
pub mod Requests
pub mod Wiring
pub mod Metrics
pub mod Server
pub mod Reports
pub mod Runs
pub mod Memory
pub mod Operator
pub mod Decisions
pub mod Jobs
pub mod Sessions
pub mod Ticks
pub mod Rounds
