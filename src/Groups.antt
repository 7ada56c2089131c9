-- ===== src/Groups.antt =====
-- zooid/groups.go: the group store, its caches and its rules.
pub mod Tags
pub mod State
pub mod Members
pub mod Membership
pub mod Metadata
pub mod Publish
pub mod Access
pub mod Deletion
pub mod Latest
pub mod Warm
pub mod Reading
pub mod Flags
pub mod Writes
