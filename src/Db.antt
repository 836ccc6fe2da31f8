-- ===== src/Db.antt =====
-- The database layer (lemmy_db/src). A table is the list of its rows, a query is a function of the
-- tables, and a statement that fails (no row, a broken constraint) is `none` and changes nothing.
-- The constraints are those of the SQL in migrations/.
pub mod Tables
pub mod Comment
pub mod Likes
pub mod Access
pub mod Reports
pub mod Votes
pub mod Updates
pub mod Saved
pub mod Post
pub mod PostMarks
pub mod PostReports
pub mod PostVotes
pub mod Community
pub mod Members
pub mod Moderators
