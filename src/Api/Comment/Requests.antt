-- ===== src/Api/Comment/Requests.antt =====
-- The requests (lemmy_structs/src/comment.rs), and what the operations use of code that is not
-- modelled.
use lemmy.Prelude.{ℕ, String, Bool, List, Option}
use lemmy.Prelude.Int.{ℤ}
use lemmy.Api.Notify.{MentionData}

-- `decode` is the decoding of a token by the JWT library, `remove_slurs` and
-- `scrape_text_for_mentions` match regular expressions, and `comment_endpoint` prints the address of
-- a comment.
pub record Env : Type 0 where
  pub decode : String → Option ℕ
  pub remove_slurs : String → String
  pub scrape_text_for_mentions : String → List MentionData
  pub hostname : String
  pub comment_endpoint : ℕ → String

pub record CreateComment : Type 0 where
  pub content : String
  pub parent_id : Option ℕ
  pub post_id : ℕ
  pub form_id : Option String
  pub auth : String

pub record EditComment : Type 0 where
  pub content : String
  pub edit_id : ℕ
  pub form_id : Option String
  pub auth : String

pub record DeleteComment : Type 0 where
  pub edit_id : ℕ
  pub deleted : Bool
  pub auth : String

pub record RemoveComment : Type 0 where
  pub edit_id : ℕ
  pub removed : Bool
  pub reason : Option String
  pub auth : String

pub record MarkCommentAsRead : Type 0 where
  pub edit_id : ℕ
  pub read : Bool
  pub auth : String

pub record SaveComment : Type 0 where
  pub comment_id : ℕ
  pub save : Bool
  pub auth : String

pub record CreateCommentLike : Type 0 where
  pub comment_id : ℕ
  pub score : ℤ
  pub auth : String

pub record CreateCommentReport : Type 0 where
  pub comment_id : ℕ
  pub reason : String
  pub auth : String

pub record ResolveCommentReport : Type 0 where
  pub report_id : ℕ
  pub resolved : Bool
  pub auth : String
