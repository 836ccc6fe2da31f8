-- ===== src/Api/Post/Moderate.antt =====
-- `RemovePost`, `LockPost` and `StickyPost` (lemmy_api/src/post.rs). `now` is the time that the
-- statements of the operation read.
use lemmy.Prelude.{ℕ, Option, some, internal, if◌then◌else◌}
use lemmy.Structs.{PostResponse, remove_post, lock_post, sticky_post}
use lemmy.Db.Post.{update_post_removed, update_locked, update_stickied}
use lemmy.Db.PostMarks.{log_removal, log_lock, log_sticky}
use lemmy.Api.Monad.{M, ◌>>=◌, ◌>>◌, ok_or, execute, send_post_activity, ActivityKind}
use lemmy.Api.Auth.{get_user_from_jwt, check_community_ban, is_mod_or_admin}
use lemmy.Api.Post.Requests.{Services, RemovePost, LockPost, StickyPost}
use lemmy.Api.Post.Write.{find_post, see_post, announce_post}

module _ (env : Services) (now : ℕ) (websocket_id : Option ℕ) where
  unfoldable pub remove : RemovePost → M PostResponse
  remove request = do
    user ← get_user_from_jwt env.decode request.auth
    orig_post ← find_post request.edit_id
    check_community_ban user.id orig_post.community_id
    is_mod_or_admin user.id orig_post.community_id
    updated ← execute (update_post_removed now request.edit_id request.removed)
    updated_post ← ok_or updated internal
    logged ← execute (
        log_removal (record {
          mod_user_id = user.id;
          post_id = request.edit_id;
          reason = request.reason;
          removed = some request.removed;
        }))
    ok_or logged internal
    send_post_activity (if request.removed then ActivityKind.remove else ActivityKind.undo_remove)
        updated_post.id user.id
    view ← see_post request.edit_id (some user.id) internal
    announce_post remove_post view websocket_id

  unfoldable pub lock : LockPost → M PostResponse
  lock request = do
    user ← get_user_from_jwt env.decode request.auth
    orig_post ← find_post request.edit_id
    check_community_ban user.id orig_post.community_id
    is_mod_or_admin user.id orig_post.community_id
    updated ← execute (update_locked request.edit_id request.locked)
    updated_post ← ok_or updated internal
    logged ← execute (
        log_lock (record {
          mod_user_id = user.id;
          post_id = request.edit_id;
          locked = some request.locked;
        }))
    ok_or logged internal
    send_post_activity ActivityKind.update updated_post.id user.id
    view ← see_post request.edit_id (some user.id) internal
    announce_post lock_post view websocket_id

  unfoldable pub sticky : StickyPost → M PostResponse
  sticky request = do
    user ← get_user_from_jwt env.decode request.auth
    orig_post ← find_post request.edit_id
    check_community_ban user.id orig_post.community_id
    is_mod_or_admin user.id orig_post.community_id
    updated ← execute (update_stickied request.edit_id request.stickied)
    updated_post ← ok_or updated internal
    logged ← execute (
        log_sticky (record {
          mod_user_id = user.id;
          post_id = request.edit_id;
          stickied = some request.stickied;
        }))
    ok_or logged internal
    send_post_activity ActivityKind.update updated_post.id user.id
    view ← see_post request.edit_id (some user.id) internal
    announce_post sticky_post view websocket_id
