-- ===== src/Api/Post/Votes.antt =====
-- `SavePost`, `CreatePostLike` and `PostJoin` (lemmy_api/src/post.rs).
use lemmy.Prelude.{ℕ, Bool, true, false, Option, none, some, api, internal, if◌then◌else◌}
use lemmy.Prelude.Int.{pos, ◌==ℤ◌}
use lemmy.Structs.{PostResponse, create_post_like}
use lemmy.Db.Tables.{PostLike, PostSaved, Post}
use lemmy.Db.PostMarks.{like_post, remove_post_like, save_post_row, unsave_post_row}
use lemmy.Chat.Handlers.{joins_post}
use lemmy.Api.Monad.{
  M, pure, ◌>>=◌, ◌>>◌, ok_or, execute, send_post_activity, do_send, ActivityKind,
}
use lemmy.Api.Auth.{get_user_from_jwt, check_community_ban}
use lemmy.Api.Comment.Votes.{check_downvote, do_add}
use lemmy.Api.Post.Requests.{Services, SavePost, CreatePostLike, PostJoin}
use lemmy.Api.Post.Write.{find_post, see_post, announce_post}

-- Saves a post, or forgets that it was saved.
unfoldable pub set_post_saved : Bool → PostSaved → M (Unit {0})
set_post_saved true form = do
  saved ← execute (save_post_row form)
  ok_or saved (api "couldnt_save_post")
  pure tt
set_post_saved false form = do
  unsaved ← execute (unsave_post_row form)
  ok_or unsaved (api "couldnt_save_post")
  pure tt

-- The vote of `create_like` after the old one is gone.
unfoldable pub add_post_vote : PostLike → Post → M (Unit {0})
add_post_vote form post =
    if do_add form.score
    then (do
      liked ← execute (like_post form)
      ok_or liked (api "couldnt_like_post")
      send_post_activity (if form.score ==ℤ pos 1 then ActivityKind.like else ActivityKind.dislike)
          post.id form.user_id)
    else send_post_activity ActivityKind.undo_like post.id form.user_id

module _ (env : Services) where
  unfoldable pub save : SavePost → M PostResponse
  save request = do
    user ← get_user_from_jwt env.decode request.auth
    set_post_saved request.save (record { post_id = request.post_id; user_id = user.id })
    view ← see_post request.post_id (some user.id) internal
    pure (record { post = view })

  unfoldable pub create_like : Option ℕ → CreatePostLike → M PostResponse
  create_like websocket_id request = do
    user ← get_user_from_jwt env.decode request.auth
    check_downvote request.score
    post ← find_post request.post_id
    check_community_ban user.id post.community_id
    removed ← execute (remove_post_like user.id request.post_id)
    ok_or removed internal
    add_post_vote (record { post_id = request.post_id; user_id = user.id; score = request.score })
        post
    view ← see_post request.post_id (some user.id) (api "couldnt_find_post")
    announce_post create_post_like view websocket_id

-- The answer is whether the connection joined, which is always true.
unfoldable pub join : Option ℕ → PostJoin → M Bool
join none request = pure true
join (some ws_id) request = do do_send (joins_post request.post_id ws_id); pure true
