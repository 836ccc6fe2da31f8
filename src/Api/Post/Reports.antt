-- ===== src/Api/Post/Reports.antt =====
-- `CreatePostReport`, `ResolvePostReport` (lemmy_api/src/post.rs).
use Prim.Native.String.{len}
use lemmy.Prelude.{ℕ, Bool, true, Option, none, api, internal, ltb, if◌then◌else◌}
use lemmy.Prelude.Text.{trim, is_empty}
use lemmy.Structs.{
  create_post_report, resolve_post_report, post_report_response, report_created, report_resolved,
}
use lemmy.Db.PostReports.{report_post, resolve_post, unresolve_post, read_post_report_view}
use lemmy.Chat.Handlers.{send_user_room, send_mod_room}
use lemmy.Api.Monad.{M, pure, ◌>>=◌, ◌>>◌, fail_if, ok_or, query, execute, do_send}
use lemmy.Api.Auth.{get_user_from_jwt, check_community_ban, is_mod_or_admin}
use lemmy.Api.Post.Requests.{Services, CreatePostReport, ResolvePostReport}
use lemmy.Api.Post.Write.{see_post}

module _ (env : Services) where
  -- The answer is whether it went well, which is always true.
  unfoldable pub create_report : Option ℕ → CreatePostReport → M Bool
  create_report websocket_id request = do
    user ← get_user_from_jwt env.decode request.auth
    fail_if (is_empty (trim request.reason)) (api "report_reason_required")
    fail_if (ltb 1000 (len (trim request.reason))) (api "report_too_long")
    post ← see_post request.post_id none internal
    check_community_ban user.id post.community_id
    reported ← execute (
        report_post (record {
          creator_id = user.id;
          post_id = request.post_id;
          original_post_name = post.name;
          original_post_url = post.url;
          original_post_body = post.body;
          reason = request.reason;
        }))
    row ← ok_or reported (api "couldnt_create_report")
    do_send (send_user_room create_post_report (report_created true) user.id websocket_id)
    do_send
        (send_mod_room create_post_report (post_report_response row) post.community_id websocket_id)
    pure true

  -- The answer is the report's identifier and `true`, also where the report was opened again.
  unfoldable pub resolve_report : ℕ → Option ℕ → ResolvePostReport → M (ℕ × Bool)
  resolve_report now websocket_id request = do
    user ← get_user_from_jwt env.decode request.auth
    found ← query (λ db. read_post_report_view db request.report_id)
    view ← ok_or found internal
    is_mod_or_admin user.id view.community_id
    changed ← execute (
        if request.resolved
        then resolve_post now request.report_id user.id
        else unresolve_post now request.report_id user.id)
    ok_or changed (api "couldnt_resolve_report")
    do_send (
        send_mod_room resolve_post_report (report_resolved request.report_id true) view.community_id
          websocket_id)
    pure (request.report_id, true)
