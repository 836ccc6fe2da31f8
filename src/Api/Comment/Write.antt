-- ===== src/Api/Comment/Write.antt =====
-- `CreateComment`, `EditComment`, `DeleteComment`, `RemoveComment` (lemmy_api/src/comment.rs). `now`
-- is the time that the statements of the operation read.
use lemmy.Prelude.{ℕ, true, false, not, [], Option, none, some, api, internal, ◌==◌, if◌then◌else◌}
use lemmy.Prelude.Int.{pos}
use lemmy.Structs.{CommentView, CommentResponse, UserOperation}
use lemmy.Structs as Structs
use lemmy.Db.Comment.{
  create_comment, update_ap_id, update_content, update_deleted, update_removed, read_view,
}
use lemmy.Db.Likes.{like}
use lemmy.Db.Reports.{create_removal}
use lemmy.Chat.Handlers.{sends_comment}
use lemmy.Api.Monad.{
  M, pure, ◌>>=◌, ◌>>◌, fail_if, ok_or, query, execute, send_activity, do_send, ActivityKind,
}
use lemmy.Api.Auth.{get_user_from_jwt, get_post, check_community_ban, is_mod_or_admin}
use lemmy.Api.Notify.{send_local_notifs}
use lemmy.Api.Comment.Requests.{Env, CreateComment, EditComment, DeleteComment, RemoveComment}

-- `CommentView::read(…)??`
unfoldable pub see_comment : ℕ → Option ℕ → M CommentView
see_comment id my_user_id = do row ← query (λ db. read_view db id my_user_id); ok_or row internal

-- The response goes to the chat server, and without its recipients to the caller.
unfoldable pub announce : UserOperation → CommentResponse → Option ℕ → M CommentResponse
unfolding do_send
announce op res websocket_id = do
  do_send (sends_comment op res websocket_id)
  pure (record res { recipient_ids = [] })

module _ (env : Env) (now : ℕ) (websocket_id : Option ℕ) where
  unfoldable pub create : CreateComment → M CommentResponse
  create request = do
    user ← get_user_from_jwt env.decode request.auth
    let content = env.remove_slurs request.content
    post ← get_post request.post_id
    check_community_ban user.id post.community_id
    fail_if post.locked (api "locked")
    inserted ← execute (
        create_comment now (record {
          creator_id = user.id;
          post_id = request.post_id;
          parent_id = request.parent_id;
          content = content;
          local = true;
        }))
    inserted_comment ← ok_or inserted (api "couldnt_create_comment")
    updated ← execute (update_ap_id inserted_comment.id (env.comment_endpoint inserted_comment.id))
    updated_comment ← ok_or updated (api "couldnt_create_comment")
    send_activity ActivityKind.create updated_comment.id user.id
    recipient_ids ←
        send_local_notifs env.hostname (env.scrape_text_for_mentions content) updated_comment user
          post true
    liked ← execute (
        like (record {
          user_id = user.id;
          comment_id = inserted_comment.id;
          post_id = request.post_id;
          score = pos 1;
        }))
    ok_or liked (api "couldnt_like_comment")
    send_activity ActivityKind.like updated_comment.id user.id
    view ← see_comment inserted_comment.id (some user.id)
    announce Structs.create_comment
        (record { comment = view; recipient_ids = recipient_ids; form_id = request.form_id })
        websocket_id

  unfoldable pub edit : EditComment → M CommentResponse
  edit request = do
    user ← get_user_from_jwt env.decode request.auth
    orig_comment ← see_comment request.edit_id none
    check_community_ban user.id orig_comment.community_id
    fail_if (not (user.id == orig_comment.creator_id)) (api "no_comment_edit_allowed")
    updated ← execute (update_content now request.edit_id (env.remove_slurs request.content))
    updated_comment ← ok_or updated (api "couldnt_update_comment")
    send_activity ActivityKind.update updated_comment.id user.id
    post ← get_post orig_comment.post_id
    recipient_ids ←
        send_local_notifs env.hostname (env.scrape_text_for_mentions updated_comment.content)
          updated_comment user post false
    view ← see_comment request.edit_id (some user.id)
    announce Structs.edit_comment
        (record { comment = view; recipient_ids = recipient_ids; form_id = request.form_id })
        websocket_id

  unfoldable pub delete : DeleteComment → M CommentResponse
  delete request = do
    user ← get_user_from_jwt env.decode request.auth
    orig_comment ← see_comment request.edit_id none
    check_community_ban user.id orig_comment.community_id
    fail_if (not (user.id == orig_comment.creator_id)) (api "no_comment_edit_allowed")
    updated ← execute (update_deleted now request.edit_id request.deleted)
    updated_comment ← ok_or updated (api "couldnt_update_comment")
    send_activity (if request.deleted then ActivityKind.delete else ActivityKind.undo_delete)
        updated_comment.id user.id
    view ← see_comment request.edit_id (some user.id)
    post ← get_post view.post_id
    recipient_ids ← send_local_notifs env.hostname [] updated_comment user post false
    announce Structs.delete_comment
        (record { comment = view; recipient_ids = recipient_ids; form_id = none }) websocket_id

  unfoldable pub remove : RemoveComment → M CommentResponse
  remove request = do
    user ← get_user_from_jwt env.decode request.auth
    orig_comment ← see_comment request.edit_id none
    check_community_ban user.id orig_comment.community_id
    is_mod_or_admin user.id orig_comment.community_id
    updated ← execute (update_removed now request.edit_id request.removed)
    updated_comment ← ok_or updated (api "couldnt_update_comment")
    logged ← execute (
        create_removal (record {
          mod_user_id = user.id;
          comment_id = request.edit_id;
          reason = request.reason;
          removed = some request.removed;
        }))
    ok_or logged internal
    send_activity (if request.removed then ActivityKind.remove else ActivityKind.undo_remove)
        updated_comment.id user.id
    view ← see_comment request.edit_id (some user.id)
    post ← get_post view.post_id
    recipient_ids ← send_local_notifs env.hostname [] updated_comment user post false
    announce Structs.remove_comment
        (record { comment = view; recipient_ids = recipient_ids; form_id = none }) websocket_id
