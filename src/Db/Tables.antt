-- ===== src/Db/Tables.antt =====
-- The rows (structs of lemmy_db/src) and the tables. Times are numbers. Of users the columns are
-- kept that the handlers read.
use lemmy.Prelude.{ℕ, String, Bool, List, Option, find?, any, not, ◌&&◌, ◌==◌}
use lemmy.Prelude.Int.{ℤ}
pub use lemmy.Structs.{CommentReport, PostReport, CommunityUser}

pub record User : Type 0 where
  pub id : ℕ
  pub name : String
  pub email : Option String
  pub admin : Bool
  pub banned : Bool
  pub local : Bool
  pub deleted : Bool
  pub send_notifications_to_email : Bool

pub record Post : Type 0 where
  pub id : ℕ
  pub name : String
  pub url : Option String
  pub body : Option String
  pub creator_id : ℕ
  pub community_id : ℕ
  pub removed : Bool
  pub locked : Bool
  pub published : ℕ
  pub updated : Option ℕ
  pub deleted : Bool
  pub nsfw : Bool
  pub stickied : Bool
  pub embed_title : Option String
  pub embed_description : Option String
  pub embed_html : Option String
  pub thumbnail_url : Option String
  pub ap_id : String
  pub local : Bool

pub record Comment : Type 0 where
  pub id : ℕ
  pub creator_id : ℕ
  pub post_id : ℕ
  pub parent_id : Option ℕ
  pub content : String
  pub removed : Bool
  pub read : Bool
  pub published : ℕ
  pub updated : Option ℕ
  pub deleted : Bool
  pub ap_id : String
  pub local : Bool

pub record CommentLike : Type 0 where
  pub user_id : ℕ
  pub comment_id : ℕ
  pub post_id : ℕ
  pub score : ℤ

pub record CommentSaved : Type 0 where
  pub comment_id : ℕ
  pub user_id : ℕ

pub record ModRemoveComment : Type 0 where
  pub mod_user_id : ℕ
  pub comment_id : ℕ
  pub reason : Option String
  pub removed : Option Bool

pub record PostLike : Type 0 where
  pub post_id : ℕ
  pub user_id : ℕ
  pub score : ℤ

pub record PostSaved : Type 0 where
  pub post_id : ℕ
  pub user_id : ℕ

pub record ModRemovePost : Type 0 where
  pub mod_user_id : ℕ
  pub post_id : ℕ
  pub reason : Option String
  pub removed : Option Bool

pub record ModLockPost : Type 0 where
  pub mod_user_id : ℕ
  pub post_id : ℕ
  pub locked : Option Bool

pub record ModStickyPost : Type 0 where
  pub mod_user_id : ℕ
  pub post_id : ℕ
  pub stickied : Option Bool

pub record Community : Type 0 where
  pub id : ℕ
  pub name : String
  pub title : String
  pub description : Option String
  pub category_id : ℕ
  pub creator_id : ℕ
  pub removed : Bool
  pub published : ℕ
  pub updated : Option ℕ
  pub deleted : Bool
  pub nsfw : Bool
  pub actor_id : String
  pub local : Bool
  pub private_key : Option String
  pub public_key : Option String
  pub last_refreshed_at : ℕ
  pub icon : Option String
  pub banner : Option String

pub record CommunityFollower : Type 0 where
  pub community_id : ℕ
  pub user_id : ℕ
  pub pending : Option Bool

pub record ModRemoveCommunity : Type 0 where
  pub mod_user_id : ℕ
  pub community_id : ℕ
  pub reason : Option String
  pub removed : Option Bool
  pub expires : Option ℤ

pub record ModAddCommunity : Type 0 where
  pub mod_user_id : ℕ
  pub other_user_id : ℕ
  pub community_id : ℕ
  pub removed : Option Bool

pub record ModBanFromCommunity : Type 0 where
  pub mod_user_id : ℕ
  pub other_user_id : ℕ
  pub community_id : ℕ
  pub reason : Option String
  pub banned : Option Bool
  pub expires : Option ℤ

pub record UserMention : Type 0 where
  pub recipient_id : ℕ
  pub comment_id : ℕ
  pub read : Bool

pub record Db : Type 0 where
  pub users : List User
  pub posts : List Post
  pub comments : List Comment
  pub comment_likes : List CommentLike
  pub comment_saved : List CommentSaved
  pub moderators : List CommunityUser
  pub bans : List CommunityUser
  pub reports : List CommentReport
  pub removals : List ModRemoveComment
  pub mentions : List UserMention
  pub enable_downvotes : Option Bool
  pub next_comment : ℕ
  pub next_report : ℕ
  pub communities : List Community
  pub followers : List CommunityFollower
  pub categories : List ℕ
  pub site_creator : Option ℕ
  pub post_likes : List PostLike
  pub post_saved : List PostSaved
  pub post_reports : List PostReport
  pub post_removals : List ModRemovePost
  pub post_locks : List ModLockPost
  pub post_stickies : List ModStickyPost
  pub community_removals : List ModRemoveCommunity
  pub community_mods : List ModAddCommunity
  pub community_bans : List ModBanFromCommunity
  pub next_post : ℕ
  pub next_post_report : ℕ
  pub next_community : ℕ

-- A row for a foreign key to refer to.
unfoldable pub has_user : Db → ℕ → Bool
has_user db id = any (λ u. u.id == id) db.users

unfoldable pub has_community : Db → ℕ → Bool
has_community db id = any (λ c. c.id == id) db.communities

-- `User_::read` and `Post::read`. A deleted user is not found.
unfoldable pub read_user : Db → ℕ → Option User
read_user db id = find? (λ u. not u.deleted && u.id == id) db.users

unfoldable pub read_post : Db → ℕ → Option Post
read_post db id = find? (λ p. p.id == id) db.posts
