-- ===== src/Tests.antt =====
-- A concrete relay, and the theorems at work on it.
pub mod Sorting
pub mod Demo
pub mod Writing
pub mod Membership
pub mod Relay
pub mod Storage
pub mod Users
pub mod Warm
pub mod Registry
pub mod Upkeep
pub mod Schema
pub mod Copy
pub mod Metrics
pub mod Media
pub mod Start
