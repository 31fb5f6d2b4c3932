-- ===== src/Pools.antt =====
-- internal/pool/manager.go: the changes that the manager makes to the configuration file.
pub mod Edit
pub mod Input
pub mod Ids
pub mod Change
pub mod Switching
pub mod FreshIds
pub mod GoodIds
pub mod Removal
pub mod Addition
pub mod Marks
pub mod Requests
pub mod Marked
pub mod Home
pub mod Sound
mod Tests
