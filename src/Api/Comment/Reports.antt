-- ===== src/Api/Comment/Reports.antt =====
-- `CreateCommentReport`, `ResolveCommentReport` (lemmy_api/src/comment.rs).
use Prim.Native.String.{len}
use lemmy.Prelude.{ℕ, Bool, true, Option, none, api, internal, ltb, if◌then◌else◌}
use lemmy.Prelude.Text.{trim, is_empty}
use lemmy.Structs.{
  create_comment_report, resolve_comment_report, report_response, report_created, report_resolved,
}
use lemmy.Db.Reports.{report, resolve, unresolve, read_report_view}
use lemmy.Chat.Handlers.{send_user_room, send_mod_room}
use lemmy.Api.Monad.{M, pure, ◌>>=◌, ◌>>◌, fail_if, ok_or, query, execute, do_send}
use lemmy.Api.Auth.{get_user_from_jwt, check_community_ban, is_mod_or_admin}
use lemmy.Api.Comment.Requests.{Env, CreateCommentReport, ResolveCommentReport}
use lemmy.Api.Comment.Write.{see_comment}

module _ (env : Env) where
  -- The answer is whether it went well, which is always true.
  unfoldable pub create_report : Option ℕ → CreateCommentReport → M Bool
  create_report websocket_id request = do
    user ← get_user_from_jwt env.decode request.auth
    fail_if (is_empty (trim request.reason)) (api "report_reason_required")
    fail_if (ltb 1000 (len (trim request.reason))) (api "report_too_long")
    comment ← see_comment request.comment_id none
    check_community_ban user.id comment.community_id
    reported ← execute (
        report (record {
          creator_id = user.id;
          comment_id = request.comment_id;
          original_comment_text = comment.content;
          reason = request.reason;
        }))
    row ← ok_or reported (api "couldnt_create_report")
    do_send (send_user_room create_comment_report (report_created true) user.id websocket_id)
    do_send (
        send_mod_room create_comment_report (report_response row) comment.community_id websocket_id)
    pure true

  -- The answer is the report's identifier and whether it is resolved now.
  unfoldable pub resolve_report : ℕ → Option ℕ → ResolveCommentReport → M (ℕ × Bool)
  resolve_report now websocket_id request = do
    user ← get_user_from_jwt env.decode request.auth
    found ← query (λ db. read_report_view db request.report_id)
    view ← ok_or found internal
    is_mod_or_admin user.id view.community_id
    changed ← execute (
        if request.resolved
        then resolve now request.report_id user.id
        else unresolve now request.report_id user.id)
    ok_or changed (api "couldnt_resolve_report")
    do_send (
        send_mod_room resolve_comment_report (report_resolved request.report_id request.resolved)
          view.community_id websocket_id)
    pure (request.report_id, request.resolved)
