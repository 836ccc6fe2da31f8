-- ===== src/Api/Community.antt =====
-- The operations on communities (lemmy_api/src/community.rs), with their requests
-- (lemmy_structs/src/community.rs).
pub mod Requests
pub mod Write
pub mod Members
pub mod Guards
pub mod Outcomes
pub mod Edits
pub mod Changes
pub mod BanSteps
pub mod Bans
pub mod Appointing
pub mod Silence
pub mod Order
pub mod Handover
pub mod Transfers
pub mod Stops
