-- ===== src/Structs.antt =====
-- The values that the server sends to its clients: `CommentView` (lemmy_db/src/comment_view.rs),
-- `PostView` (lemmy_db/src/post_view.rs), the responses of lemmy_structs/src/comment.rs and
-- lemmy_structs/src/post.rs, and `UserOperation` (lemmy_websocket/src/lib.rs).
-- A view carries the columns that the server reads or rewrites. The columns that it only passes on
-- to the client (names, icons, counts, ranks) are left out.
mod Operation
pub use Operation.*
use lemmy.Prelude.{ℕ, String, Bool, Option, List, LemmyError}
use lemmy.Prelude.Int.{ℤ}

pub record CommentView : Type 0 where
  pub id : ℕ
  pub creator_id : ℕ
  pub post_id : ℕ
  pub parent_id : Option ℕ
  pub content : String
  pub removed : Bool
  pub read : Bool
  pub deleted : Bool
  pub community_id : ℕ
  pub user_id : Option ℕ
  pub my_vote : Option ℤ
  pub saved : Option Bool

pub record PostView : Type 0 where
  pub id : ℕ
  pub name : String
  pub url : Option String
  pub body : Option String
  pub creator_id : ℕ
  pub community_id : ℕ
  pub removed : Bool
  pub locked : Bool
  pub deleted : Bool
  pub nsfw : Bool
  pub stickied : Bool
  pub user_id : Option ℕ
  pub my_vote : Option ℤ
  pub saved : Option Bool

pub record CommentResponse : Type 0 where
  pub comment : CommentView
  pub recipient_ids : List ℕ
  pub form_id : Option String

pub record PostResponse : Type 0 where
  pub post : PostView

-- lemmy_db/src/comment_report.rs
pub record CommentReport : Type 0 where
  pub id : ℕ
  pub creator_id : ℕ
  pub comment_id : ℕ
  pub original_comment_text : String
  pub reason : String
  pub resolved : Bool
  pub resolver_id : Option ℕ
  pub updated : Option ℕ

-- lemmy_db/src/post_report.rs
pub record PostReport : Type 0 where
  pub id : ℕ
  pub creator_id : ℕ
  pub post_id : ℕ
  pub original_post_name : String
  pub original_post_url : Option String
  pub original_post_body : Option String
  pub reason : String
  pub resolved : Bool
  pub resolver_id : Option ℕ
  pub updated : Option ℕ

-- A moderator of a community, or a user banned from one (lemmy_db/src/community.rs,
-- lemmy_db/src/community_view.rs).
pub record CommunityUser : Type 0 where
  pub community_id : ℕ
  pub user_id : ℕ

-- lemmy_db/src/community_view.rs
pub record CommunityView : Type 0 where
  pub id : ℕ
  pub name : String
  pub title : String
  pub description : Option String
  pub category_id : ℕ
  pub creator_id : ℕ
  pub removed : Bool
  pub deleted : Bool
  pub nsfw : Bool
  pub local : Bool
  pub icon : Option String
  pub banner : Option String
  pub user_id : Option ℕ
  pub subscribed : Option Bool

-- lemmy_structs/src/community.rs
pub record CommunityResponse : Type 0 where
  pub community : CommunityView

-- lemmy_db/src/user_view.rs
pub record UserView : Type 0 where
  pub id : ℕ
  pub name : String
  pub local : Bool
  pub admin : Bool
  pub banned : Bool

-- What a `T: Serialize` stands for where the server sends a message.
pub data Response : Type 0 where
  comment_response : CommentResponse → Response
  post_response : PostResponse → Response
  report_response : CommentReport → Response
  post_report_response : PostReport → Response
  report_created : Bool → Response
  report_resolved : ℕ → Bool → Response
  community_response : CommunityResponse → Response
  ban_response : UserView → Bool → Response
  moderators_response : List CommunityUser → Response
  other_response : String → Response
