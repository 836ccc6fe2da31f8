-- ===== src/Api/Post/Write.antt =====
-- `CreatePost`, `EditPost` and `DeletePost` (lemmy_api/src/post.rs). `now` is the time that the
-- statements of the operation read.
use lemmy.Prelude.{ℕ, true, not, Option, none, some, api, internal, LemmyError, if◌then◌else◌}
use lemmy.Prelude.Int.{pos}
use lemmy.Prelude.Text.{trim}
use lemmy.Structs.{PostView, PostResponse, UserOperation}
use lemmy.Structs as Structs
use lemmy.Db.Tables.{User, Post, PostLike, read_post}
use lemmy.Db.Post.{
  PostForm, Stored, too_long, stored, create_post, update_post, update_post_ap_id,
  update_post_deleted, is_post_creator, read_post_view,
}
use lemmy.Db.PostMarks.{like_post}
use lemmy.Chat.Handlers.{sends_post}
use lemmy.Api.Monad.{
  M, pure, fail, ◌>>=◌, ◌>>◌, fail_if, ok_or, query, execute, send_post_activity, do_send,
  ActivityKind,
}
use lemmy.Api.Auth.{get_user_from_jwt, check_community_ban}
use lemmy.Api.Texts.{check_slurs, check_slurs_opt, is_valid_post_title, check_optional_url}
use lemmy.Api.Post.Requests.{Services, CreatePost, EditPost, DeletePost}

-- `Post::read(…)??`
unfoldable pub find_post : ℕ → M Post
find_post id = do row ← query (λ db. read_post db id); ok_or row internal

-- `PostView::read(…)`, with what an error of the query becomes.
unfoldable pub see_post : ℕ → Option ℕ → LemmyError → M PostView
see_post id my_user_id e = do row ← query (λ db. read_post_view db id my_user_id); ok_or row e

-- The response goes to the chat server and to the caller.
unfoldable pub announce_post : UserOperation → PostView → Option ℕ → M PostResponse
unfolding do_send
announce_post op view websocket_id = do
  do_send (sends_post op (record { post = view }) websocket_id)
  pure (record { post = view })

-- A title that is too long has an error of its own.
abbrev pub stored_or : {A : Type 0} → Option (Stored A) → LemmyError → M A
stored_or none e = fail e
stored_or (some too_long) e = fail (api "post_title_too_long")
stored_or (some (stored a)) e = pure a

module _ (env : Services) where
  unfoldable pub create_form : CreatePost → User → PostForm
  create_form request user =
      let page = env.fetch request.url in
      record {
        name = trim request.name;
        url = request.url;
        body = request.body;
        creator_id = user.id;
        community_id = request.community_id;
        removed = none;
        locked = none;
        published = none;
        updated = none;
        deleted = none;
        nsfw = request.nsfw;
        stickied = none;
        embed_title = page.title;
        embed_description = page.description;
        embed_html = page.html;
        thumbnail_url = page.thumbnail_url;
        ap_id = none;
        local = true;
      }

  unfoldable pub edit_form : ℕ → EditPost → Post → PostForm
  edit_form now request orig_post =
      let page = env.fetch request.url in
      record {
        name = trim request.name;
        url = request.url;
        body = request.body;
        creator_id = orig_post.creator_id;
        community_id = orig_post.community_id;
        removed = some orig_post.removed;
        locked = some orig_post.locked;
        published = none;
        updated = some now;
        deleted = some orig_post.deleted;
        nsfw = request.nsfw;
        stickied = some orig_post.stickied;
        embed_title = page.title;
        embed_description = page.description;
        embed_html = page.html;
        thumbnail_url = page.thumbnail_url;
        ap_id = some orig_post.ap_id;
        local = orig_post.local;
      }

  -- The author's own vote.
  abbrev pub own_like : ℕ → ℕ → PostLike
  own_like post_id user_id = record { post_id = post_id; user_id = user_id; score = pos 1 }

module _ (env : Services) (now : ℕ) (websocket_id : Option ℕ) where
  unfoldable pub create : CreatePost → M PostResponse
  unfolding create_form
  create request = do
    user ← get_user_from_jwt env.decode request.auth
    check_slurs env.find_slurs request.name
    check_slurs_opt env.find_slurs request.body
    fail_if (not (is_valid_post_title request.name)) (api "invalid_post_title")
    check_community_ban user.id request.community_id
    check_optional_url env.is_url (some request.url)
    inserted ← execute (create_post now env.changeme (create_form env request user))
    inserted_post ← stored_or inserted (api "couldnt_create_post")
    updated ← execute (update_post_ap_id inserted_post.id (env.post_endpoint inserted_post.id))
    updated_post ← ok_or updated (api "couldnt_create_post")
    send_post_activity ActivityKind.create updated_post.id user.id
    liked ← execute (like_post (own_like env inserted_post.id user.id))
    ok_or liked (api "couldnt_like_post")
    send_post_activity ActivityKind.like updated_post.id user.id
    view ← see_post inserted_post.id (some user.id) (api "couldnt_find_post")
    announce_post Structs.create_post view websocket_id

  unfoldable pub edit : EditPost → M PostResponse
  unfolding edit_form
  edit request = do
    user ← get_user_from_jwt env.decode request.auth
    check_slurs env.find_slurs request.name
    check_slurs_opt env.find_slurs request.body
    fail_if (not (is_valid_post_title request.name)) (api "invalid_post_title")
    orig_post ← find_post request.edit_id
    check_community_ban user.id orig_post.community_id
    fail_if (not (is_post_creator user.id orig_post.creator_id)) (api "no_post_edit_allowed")
    updated ← execute (update_post request.edit_id (edit_form env now request orig_post))
    updated_post ← stored_or updated (api "couldnt_update_post")
    send_post_activity ActivityKind.update updated_post.id user.id
    view ← see_post request.edit_id (some user.id) internal
    announce_post Structs.edit_post view websocket_id

  unfoldable pub delete : DeletePost → M PostResponse
  delete request = do
    user ← get_user_from_jwt env.decode request.auth
    orig_post ← find_post request.edit_id
    check_community_ban user.id orig_post.community_id
    fail_if (not (is_post_creator user.id orig_post.creator_id)) (api "no_post_edit_allowed")
    updated ← execute (update_post_deleted now request.edit_id request.deleted)
    updated_post ← ok_or updated internal
    send_post_activity (if request.deleted then ActivityKind.delete else ActivityKind.undo_delete)
        updated_post.id user.id
    view ← see_post request.edit_id (some user.id) internal
    announce_post Structs.delete_post view websocket_id
