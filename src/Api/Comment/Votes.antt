-- ===== src/Api/Comment/Votes.antt =====
-- `MarkCommentAsRead`, `SaveComment`, `CreateCommentLike` (lemmy_api/src/comment.rs).
use lemmy.Prelude.{
  ℕ, Bool, true, false, not, ◌&&◌, ◌||◌, List, [], ◌∷◌, Option, none, some, api, internal, ◌==◌,
  if◌then◌else◌,
}
use lemmy.Prelude.Int.{ℤ, pos, minus_one, ◌==ℤ◌}
use lemmy.Structs.{CommentResponse, create_comment_like}
use lemmy.Db.Tables.{CommentSaved, Post, Comment, read_user, read_post}
use lemmy.Db.Comment.{read_comment, update_read}
use lemmy.Db.Likes.{like, remove_like, save, unsave}
use lemmy.Api.Monad.{
  M, pure, ◌>>=◌, ◌>>◌, fail_if, ok_or, query, execute, send_activity, ActivityKind,
}
use lemmy.Api.Auth.{get_user_from_jwt, get_post, check_community_ban}
use lemmy.Api.Comment.Requests.{Env, MarkCommentAsRead, SaveComment, CreateCommentLike}
use lemmy.Api.Comment.Write.{see_comment, announce}

-- Only the creator of the parent comment, or else of the post, may mark a comment as read.
unfoldable pub check_recipient : ℕ → Option ℕ → ℕ → M (Unit {0})
check_recipient user_id (some parent_id) post_id = do
  parent_comment ← see_comment parent_id none
  fail_if (not (user_id == parent_comment.creator_id)) (api "no_comment_edit_allowed")
check_recipient user_id none post_id = do
  row ← query (λ db. read_post db post_id)
  parent_post ← ok_or row internal
  fail_if (not (user_id == parent_post.creator_id)) (api "no_comment_edit_allowed")

-- No downvote where the site has them disabled.
unfoldable pub check_downvote : ℤ → M (Unit {0})
check_downvote score =
    if score ==ℤ minus_one
    then (do
      row ← query (λ db. db.enable_downvotes)
      enable_downvotes ← ok_or row internal
      fail_if (not enable_downvotes) (api "downvotes_disabled"))
    else pure tt

-- The creator of a parent comment that is not the user's own.
unfoldable pub other_creator : ℕ → ℕ → M (List ℕ)
other_creator user_id creator_id = if creator_id == user_id then pure [] else (do
  found ← query (λ db. read_user db creator_id)
  parent_user ← ok_or found internal
  pure (parent_user.id ∷ []))

-- Who hears of a vote.
unfoldable pub vote_recipients : ℕ → Comment → Post → M (List ℕ)
vote_recipients user_id comment post = elim comment.parent_id [
  | none ↦ pure (post.creator_id ∷ [])
  | some parent_id ↦ do
    row ← query (λ db. read_comment db parent_id)
    parent_comment ← ok_or row internal
    other_creator user_id parent_comment.creator_id
]

-- `like_form.score != 0 && (like_form.score == 1 || like_form.score == -1)`
unfoldable pub do_add : ℤ → Bool
do_add score = not (score ==ℤ pos 0) && (score ==ℤ pos 1 || score ==ℤ minus_one)

-- Saves a comment, or forgets that it was saved.
unfoldable pub set_saved : Bool → CommentSaved → M (Unit {0})
set_saved true form = do
  saved ← execute (save form)
  ok_or saved (api "couldnt_save_comment")
  pure tt
set_saved false form = do
  unsaved ← execute (unsave form)
  ok_or unsaved (api "couldnt_save_comment")
  pure tt

module _ (env : Env) where
  unfoldable pub mark_as_read : MarkCommentAsRead → M CommentResponse
  mark_as_read request = do
    user ← get_user_from_jwt env.decode request.auth
    orig_comment ← see_comment request.edit_id none
    check_community_ban user.id orig_comment.community_id
    check_recipient user.id orig_comment.parent_id orig_comment.post_id
    updated ← execute (update_read request.edit_id request.read)
    ok_or updated (api "couldnt_update_comment")
    view ← see_comment request.edit_id (some user.id)
    pure (record { comment = view; recipient_ids = []; form_id = none })

  unfoldable pub save_comment : SaveComment → M CommentResponse
  save_comment request = do
    user ← get_user_from_jwt env.decode request.auth
    set_saved request.save (record { comment_id = request.comment_id; user_id = user.id })
    view ← see_comment request.comment_id (some user.id)
    pure (record { comment = view; recipient_ids = []; form_id = none })

  -- The vote of `create_like` after the old one is gone.
  unfoldable pub add_vote : ℕ → ℕ → CreateCommentLike → Comment → M (Unit {0})
  add_vote user_id post_id request comment =
      if do_add request.score
      then (do
        liked ← execute (
            like (record {
              user_id = user_id;
              comment_id = request.comment_id;
              post_id = post_id;
              score = request.score;
            }))
        ok_or liked (api "couldnt_like_comment")
        send_activity (if request.score ==ℤ pos 1 then ActivityKind.like else ActivityKind.dislike)
            comment.id user_id)
      else send_activity ActivityKind.undo_like comment.id user_id

  unfoldable pub create_like : Option ℕ → CreateCommentLike → M CommentResponse
  create_like websocket_id request = do
    user ← get_user_from_jwt env.decode request.auth
    check_downvote request.score
    orig_comment ← see_comment request.comment_id none
    post ← get_post orig_comment.post_id
    check_community_ban user.id post.community_id
    row ← query (λ db. read_comment db request.comment_id)
    comment ← ok_or row internal
    recipient_ids ← vote_recipients user.id comment post
    removed ← execute (remove_like user.id request.comment_id)
    ok_or removed internal
    add_vote user.id orig_comment.post_id request comment
    liked_comment ← see_comment request.comment_id (some user.id)
    announce create_comment_like
        (record { comment = liked_comment; recipient_ids = recipient_ids; form_id = none })
        websocket_id
