-- ===== src/Api/Post.antt =====
-- The operations on posts (lemmy_api/src/post.rs), with their requests (lemmy_structs/src/post.rs).
pub mod Requests
pub mod Write
pub mod Moderate
pub mod Votes
pub mod Reports
pub mod Guards
pub mod Edited
pub mod Changes
pub mod Moderating
pub mod Creating
pub mod Voting
pub mod Saving
pub mod Reporting
pub mod Conditions
pub mod Passes
