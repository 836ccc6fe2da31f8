-- ===== src/Db/Likes.antt =====
-- Likes and saved comments (lemmy_db/src/comment.rs).
use lemmy.Prelude.{
  ℕ, Bool, ◌&&◌, not, [], ◌∷◌, ◌++◌, none, some, any, is_some, retain, count_where, ◌==◌,
  if◌then◌else◌,
}
use lemmy.Db.Tables.{CommentLike, CommentSaved, has_user, read_post}
use lemmy.Db.Comment.{Statement, read_comment}

abbrev pub likes_of : ℕ → ℕ → CommentLike → Bool
likes_of user_id comment_id l = l.comment_id == comment_id && l.user_id == user_id

-- A user votes on a comment once, and the rows that it names exist.
unfoldable pub like : CommentLike → Statement CommentLike
unfolding has_user read_post read_comment
like form db =
    if not (any (likes_of form.user_id form.comment_id) db.comment_likes)
      && (has_user db form.user_id
          && (is_some (read_comment db form.comment_id) && is_some (read_post db form.post_id)))
    then some (form, record db { comment_likes = db.comment_likes ++ form ∷ [] })
    else none

-- The number of rows that were deleted.
unfoldable pub remove_like : ℕ → ℕ → Statement ℕ
remove_like user_id comment_id db = some (
  count_where (likes_of user_id comment_id) db.comment_likes,
  record db { comment_likes = retain (λ l. not (likes_of user_id comment_id l)) db.comment_likes },
)

abbrev pub saves : CommentSaved → CommentSaved → Bool
saves form s = s.comment_id == form.comment_id && s.user_id == form.user_id

unfoldable pub save : CommentSaved → Statement CommentSaved
unfolding has_user read_comment
save form db =
    if not (any (saves form) db.comment_saved)
      && (has_user db form.user_id && is_some (read_comment db form.comment_id))
    then some (form, record db { comment_saved = db.comment_saved ++ form ∷ [] })
    else none

unfoldable pub unsave : CommentSaved → Statement ℕ
unsave form db = some (
  count_where (saves form) db.comment_saved,
  record db { comment_saved = retain (λ s. not (saves form s)) db.comment_saved },
)
