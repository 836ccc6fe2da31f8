-- ===== src/Api/Comment/Passes.antt =====
-- Requests that go through: a creator deletes or restores a comment, a moderator removes or restores one
-- (`DeleteComment` and `RemoveComment` of lemmy_api/src/comment.rs).
use lemmy.Prelude.{
  ℕ, true, false, not, [], ◌∷◌, ◌++◌, Option, none, some, ok, api, ◌≡◌, refl, ap, ◌∙◌, sym, arith,
  ◌==◌, if◌then◌else◌,
}
use lemmy.Structs.{CommentView, CommentResponse, UserOperation}
use lemmy.Structs as Structs
use lemmy.Db.Tables.{Db, User, Post, Comment, read_post, has_user, ModRemoveComment}
use lemmy.Db.Access.{is_banned_from, is_mod_or_admin_db}
use lemmy.Db.Comment.{
  read_comment, has_reader, vote_of, read_view, view_row, update_deleted, set_deleted,
  update_removed, set_removed,
}
use lemmy.Db.Updates.{
  with_comment, update_comment-found, read_comment-with_comment, read_view-found, read_view-seen,
  read_user-has_user,
}
use lemmy.Api.Monad.{World, fail_if, ActivityKind}
use lemmy.Api.Comment.Requests.{Env, DeleteComment, RemoveComment}
use lemmy.Api.Comment.Write.{delete, remove}
use lemmy.Api.Checks.{IsCaller}
use lemmy.Api.Fair.{bind_ok, execute_ok, checked_ok, is_mod_or_admin_ok}
use lemmy.Api.Comment.Replies.{reply_passes}
use lemmy.Db.Reports.{create_removal}

is_own : (a b : ℕ) → a ≡ b → (a == b) ≡ true
is_own a b e = ground arith

module _ (id : ℕ) (change : Comment → Comment) (same_id : (x : Comment) → (change x).id ≡ x.id)
    (same_post : (x : Comment) → (change x).post_id ≡ x.post_id) (db : Db) (user : User) where
  -- What the reader sees of the comment after the change.
  view-with_comment :
      (comment : CommentView)
      → read_view db id none ≡ some comment
      → has_user db user.id ≡ true
      → (c : Comment) × (p : Post) × (read_comment db id ≡ some c)
        × (read_post db c.post_id ≡ some p)
        × (c.id ≡ comment.id)
        × (read_view (with_comment id change db) id (some user.id)
            ≡ some (view_row (with_comment id change db) (change c) p (some user.id)))
  unfolding read_post has_user view_row
  view-with_comment comment seen user_there =
      let (c, p, found, there, same) = read_view-found db id none comment seen in
      (
        c,
        p,
        found,
        there,
        sym (ap (λ (v : CommentView). v.id) same),
        read_view-seen (with_comment id change db) id user.id (change c) p
            (read_comment-with_comment db id change c same_id found)
            (ap (read_post db) (same_post c) ∙ there) user_there,
      )

create_removal-found :
    (form : ModRemoveComment) (db : Db) (c : Comment)
    → has_user db form.mod_user_id ≡ true
    → read_comment db form.comment_id ≡ some c
    → create_removal form db ≡ some (form, record db { removals = db.removals ++ form ∷ [] })
unfolding create_removal
create_removal-found form db c there found = rw (create_removal, there, found) refl

module _ (env : Env) (now : ℕ) (websocket_id : Option ℕ) (w : World) (user : User)
    (comment : CommentView) (fair : w.weather ≡ []) (delivers : w.federation ≡ []) where
  -- If every query is answered and the activity is sent, a user with a valid token who is not banned
  -- from the site, created the comment and is not banned from its community gets the comment back
  -- with the flag that was asked for, and no recipients.
  pub delete_passes :
      (request : DeleteComment)
      → IsCaller env.decode request.auth w.db user
      → read_view w.db request.edit_id none ≡ some comment
      → user.id ≡ comment.creator_id
      → is_banned_from w.db user.id comment.community_id ≡ false
      → (view : CommentView) × (w' : World) × (delete env now websocket_id request w
          ≡ (ok (record { comment = view; recipient_ids = []; form_id = none }), w'))
        × (view.id ≡ comment.id)
        × (view.deleted ≡ request.deleted)
  unfolding delete update_deleted read_post view_row
  delete_passes request caller seen own allowed =
      let change = set_deleted now request.deleted in
      let (c, p, found, there, same, read) =
        view-with_comment request.edit_id change (λ x. refl) (λ x. refl) w.db user comment seen
          (read_user-has_user w.db caller.id user caller.there) in
      let w1 : World = record w { db = with_comment request.edit_id change w.db } in
      let view = view_row w1.db (change c) p (some user.id) in
      let (w4, replied) =
        reply_passes env.hostname Structs.delete_comment websocket_id
          (if request.deleted then ActivityKind.delete else ActivityKind.undo_delete)
          request.edit_id (change c) user view p w1 fair delivers read there in
      (
        view,
        w4,
        checked_ok w fair env.decode request.auth request.edit_id user comment _ _ caller seen
            allowed
            (bind_ok _ _ w w tt _
              (ap (λ b. fail_if (not b) (api "no_comment_edit_allowed") w)
                (is_own user.id comment.creator_id own))
              (bind_ok _ _ w w1 (some (change c)) _
                (execute_ok w fair (update_deleted now request.edit_id request.deleted) (change c)
                  w1.db (update_comment-found w.db request.edit_id change c found))
                (bind_ok _ _ w1 w1 (change c) _ refl replied))),
        same,
        refl,
      )

  -- If every query is answered and the activity is sent, a user with a valid token who is not banned
  -- from the site, moderates the comment's community or is an administrator and is not banned from it
  -- gets the comment back with the flag that was asked for, and no recipients.
  pub remove_passes :
      (request : RemoveComment)
      → IsCaller env.decode request.auth w.db user
      → read_view w.db request.edit_id none ≡ some comment
      → is_mod_or_admin_db w.db user.id comment.community_id ≡ true
      → is_banned_from w.db user.id comment.community_id ≡ false
      → (view : CommentView) × (w' : World) × (remove env now websocket_id request w
          ≡ (ok (record { comment = view; recipient_ids = []; form_id = none }), w'))
        × (view.id ≡ comment.id)
        × (view.removed ≡ request.removed)
  unfolding remove update_removed read_post view_row has_user read_view read_comment has_reader
      vote_of
  remove_passes request caller seen rights allowed =
      let change = set_removed now request.removed in
      let user_there = read_user-has_user w.db caller.id user caller.there in
      let (c, p, found, there, same, read) =
        view-with_comment request.edit_id change (λ x. refl) (λ x. refl) w.db user comment seen
          user_there in
      let form : ModRemoveComment = record {
        mod_user_id = user.id;
        comment_id = request.edit_id;
        reason = request.reason;
        removed = some request.removed;
      } in
      let w1 : World = record w { db = with_comment request.edit_id change w.db } in
      let w2 : World = record w1 {
        db = record (w1.db) { removals = w1.db.removals ++ form ∷ [] };
      } in
      let view = view_row w1.db (change c) p (some user.id) in
      let (w4, replied) =
        reply_passes env.hostname Structs.remove_comment websocket_id
          (if request.removed then ActivityKind.remove else ActivityKind.undo_remove)
          request.edit_id (change c) user view p w2 fair delivers read there in
      (
        view,
        w4,
        checked_ok w fair env.decode request.auth request.edit_id user comment _ _ caller seen
            allowed
            (bind_ok _ _ w w tt _ (is_mod_or_admin_ok w fair user.id comment.community_id rights) (
              bind_ok _ _ w w1 (some (change c)) _
                (execute_ok w fair (update_removed now request.edit_id request.removed) (change c)
                  w1.db (update_comment-found w.db request.edit_id change c found))
                (bind_ok _ _ w1 w1 (change c) _ refl (
                  bind_ok _ _ w1 w2 (some form) _
                    (execute_ok w1 fair (create_removal form) form w2.db (
                      create_removal-found form w1.db (change c) user_there (
                        read_comment-with_comment w.db request.edit_id change c (λ x. refl) found)))
                    (bind_ok _ _ w2 w2 form _ refl replied))))),
        same,
        refl,
      )
