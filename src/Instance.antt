-- ===== src/Instance.antt =====
-- zooid/instance.go: the handlers that the relay framework calls.
pub mod State
pub mod Requests
pub mod Saved
pub mod Start
pub mod Started
pub mod Users
pub mod Gate
pub mod Served
