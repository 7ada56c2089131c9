-- ===== src/Management.antt =====
-- zooid/management.go: relay members, bans and admins.
pub mod Admins
pub mod Store
pub mod Api
pub mod Warm
pub mod Start
pub mod Lists
pub mod Bans
pub mod Joins
