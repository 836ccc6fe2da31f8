-- ===== src/Api/Comment.antt =====
-- The operations on comments (lemmy_api/src/comment.rs), with their requests
-- (lemmy_structs/src/comment.rs).
pub mod Requests
pub mod Write
pub mod Votes
pub mod Reports
pub mod Quiet
pub mod Changes
pub mod VoteSteps
pub mod Voting
pub mod Replies
pub mod Passes
pub mod Guards
pub mod Saving
pub mod Resolving
