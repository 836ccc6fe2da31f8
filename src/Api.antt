-- ===== src/Api.antt =====
-- The operations of the client protocol (lemmy_api/src).
pub mod Monad
pub mod Auth
pub mod Notify
pub mod Effects
pub mod Steps
pub mod Checks
pub mod Fair
pub mod Comment
pub mod Texts
pub mod TextChecks
pub mod Post
pub mod Community
mod Site
mod Tests
mod PostTests
mod CommunityTests
