-- ===== src/Api/Post/Requests.antt =====
-- The requests (lemmy_structs/src/post.rs), and what the operations use of code that is not
-- modelled.
use lemmy.Prelude.{ℕ, String, Bool, List, Option}
use lemmy.Prelude.Int.{ℤ}

-- What a linked page tells of itself.
pub record Iframely : Type 0 where
  pub title : Option String
  pub description : Option String
  pub html : Option String
  pub thumbnail_url : Option String

-- `decode` is the decoding of a token by the JWT library, `find_slurs` and `is_url` are those of
-- Texts.antt, `fetch` asks other servers about a link, `post_endpoint` prints the address of a post,
-- and `changeme` is the address that the database makes up for a new row.
pub record Services : Type 0 where
  pub decode : String → Option ℕ
  pub find_slurs : String → List String
  pub is_url : String → Bool
  pub fetch : Option String → Iframely
  pub post_endpoint : ℕ → String
  pub changeme : String

pub record CreatePost : Type 0 where
  pub name : String
  pub url : Option String
  pub body : Option String
  pub nsfw : Bool
  pub community_id : ℕ
  pub auth : String

pub record EditPost : Type 0 where
  pub edit_id : ℕ
  pub name : String
  pub url : Option String
  pub body : Option String
  pub nsfw : Bool
  pub auth : String

pub record DeletePost : Type 0 where
  pub edit_id : ℕ
  pub deleted : Bool
  pub auth : String

pub record RemovePost : Type 0 where
  pub edit_id : ℕ
  pub removed : Bool
  pub reason : Option String
  pub auth : String

pub record LockPost : Type 0 where
  pub edit_id : ℕ
  pub locked : Bool
  pub auth : String

pub record StickyPost : Type 0 where
  pub edit_id : ℕ
  pub stickied : Bool
  pub auth : String

pub record SavePost : Type 0 where
  pub post_id : ℕ
  pub save : Bool
  pub auth : String

pub record CreatePostLike : Type 0 where
  pub post_id : ℕ
  pub score : ℤ
  pub auth : String

pub record PostJoin : Type 0 where
  pub post_id : ℕ

pub record CreatePostReport : Type 0 where
  pub post_id : ℕ
  pub reason : String
  pub auth : String

pub record ResolvePostReport : Type 0 where
  pub report_id : ℕ
  pub resolved : Bool
  pub auth : String
