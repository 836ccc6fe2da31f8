-- ===== src/Db/PostMarks.antt =====
-- Votes on posts and saved posts (lemmy_db/src/post.rs), and the log of what moderators do to a post
-- (lemmy_db/src/moderator.rs).
use lemmy.Prelude.{
  ℕ, Bool, ◌&&◌, not, [], ◌∷◌, ◌++◌, none, some, any, is_some, retain, count_where, ◌==◌,
  if◌then◌else◌,
}
use lemmy.Db.Tables.{
  PostLike, PostSaved, ModRemovePost, ModLockPost, ModStickyPost, has_user, read_post,
}
use lemmy.Db.Comment.{Statement}

abbrev pub post_likes_of : ℕ → ℕ → PostLike → Bool
post_likes_of user_id post_id l = l.post_id == post_id && l.user_id == user_id

-- A user votes on a post once, and the rows that it names exist.
unfoldable pub like_post : PostLike → Statement PostLike
unfolding has_user read_post
like_post form db =
    if not (any (post_likes_of form.user_id form.post_id) db.post_likes)
      && (has_user db form.user_id && is_some (read_post db form.post_id))
    then some (form, record db { post_likes = db.post_likes ++ form ∷ [] })
    else none

-- The number of rows that were deleted.
unfoldable pub remove_post_like : ℕ → ℕ → Statement ℕ
remove_post_like user_id post_id db = some (
  count_where (post_likes_of user_id post_id) db.post_likes,
  record db { post_likes = retain (λ l. not (post_likes_of user_id post_id l)) db.post_likes },
)

abbrev pub saves_post : PostSaved → PostSaved → Bool
saves_post form s = s.post_id == form.post_id && s.user_id == form.user_id

unfoldable pub save_post_row : PostSaved → Statement PostSaved
unfolding has_user read_post
save_post_row form db =
    if not (any (saves_post form) db.post_saved)
      && (has_user db form.user_id && is_some (read_post db form.post_id))
    then some (form, record db { post_saved = db.post_saved ++ form ∷ [] })
    else none

unfoldable pub unsave_post_row : PostSaved → Statement ℕ
unsave_post_row form db = some (
  count_where (saves_post form) db.post_saved,
  record db { post_saved = retain (λ s. not (saves_post form s)) db.post_saved },
)

-- `ModRemovePost::create`, `ModLockPost::create`, `ModStickyPost::create`
unfoldable pub log_removal : ModRemovePost → Statement ModRemovePost
unfolding has_user read_post
log_removal form db =
    if has_user db form.mod_user_id && is_some (read_post db form.post_id)
    then some (form, record db { post_removals = db.post_removals ++ form ∷ [] })
    else none

unfoldable pub log_lock : ModLockPost → Statement ModLockPost
unfolding has_user read_post
log_lock form db =
    if has_user db form.mod_user_id && is_some (read_post db form.post_id)
    then some (form, record db { post_locks = db.post_locks ++ form ∷ [] })
    else none

unfoldable pub log_sticky : ModStickyPost → Statement ModStickyPost
unfolding has_user read_post
log_sticky form db =
    if has_user db form.mod_user_id && is_some (read_post db form.post_id)
    then some (form, record db { post_stickies = db.post_stickies ++ form ∷ [] })
    else none
