-- ===== src/Api/Tests.antt =====
-- The handlers of comments on a small site: two users, a moderator, a post and a comment.
use lemmy.Prelude.{true, false, [], ◌∷◌, none, some}
use lemmy.Db.Tables.{User}
use lemmy.Db.Comment.{set_deleted, set_content}
use lemmy.Api.Monad.{World}
use lemmy.Prelude.Int.{pos}
use lemmy.Structs.{CommentView, CommentReport}
use lemmy.Api.Comment.Requests.{SaveComment, ResolveCommentReport}
use lemmy.Api.Comment.Votes.{save_comment}
use lemmy.Api.Comment.Reports.{resolve_report}
use lemmy.Api.Comment.Saving.{HasSaved, save_comment_lem}
use lemmy.Api.Comment.Resolving.{HasResolved, resolve_report_lem}
use lemmy.Api.Checks.{IsCaller}
use lemmy.Api.Comment.Passes.{delete_passes, remove_passes}
use lemmy.Api.Comment.Votes.{create_like}
use lemmy.Api.Comment.Voting.{HasVoted, create_like_lem}
use lemmy.Api.Comment.Requests.{CreateCommentLike}
use lemmy.Prelude.{is_ok, ok, ◌≡◌, refl}
use lemmy.Db.Tables.{read_user, read_post, has_user}
use lemmy.Db.Access.{is_banned_from, is_mod_or_admin_db, community_mods_and_admins}
use lemmy.Db.Comment.{
  read_view, read_comment, view_row, vote_of, has_reader, update_deleted, update_comment,
}
use lemmy.Api.Monad.{
  ◌>>=◌, execute, query, next_weather, later_weather, deliver, next_outcome, later_outcomes,
  do_send,
}
use lemmy.Api.Auth.{get_user_from_jwt, check_community_ban, get_post}
use lemmy.Api.Notify.{
  send_local_notifs, do_send_local_notifs, others_mentioned, notify_mentions, notify_parent,
  notify_user, email_if, send_email_to_user,
}
use lemmy.Api.Comment.Write.{see_comment, announce, delete, edit, remove}
use lemmy.Api.Comment.Changes.{
  Outcome, ByCreator, CommentsByCreator, ByModerator, delete_lem, edit_lem, remove_lem,
}
use lemmy.Api.Site.{
  user_with, small_site, start, user_of, test_env, delete_request, edit_request, remove_request,
}

delete_lem_example :
    Outcome
      (ByCreator 9 (set_deleted 200 true) start)
      test_env
      "bob"
      9
      start
      (delete test_env 200 none delete_request start)
delete_lem_example = delete_lem test_env 200 none delete_request start

edit_lem_example :
    Outcome
      (CommentsByCreator 9 (set_content 200 "ho") start)
      test_env
      "bob"
      9
      start
      (edit test_env 200 none edit_request start)
edit_lem_example = edit_lem test_env 200 none edit_request start

remove_lem_example :
    Outcome
      (ByModerator remove_request 200 start)
      test_env
      "ann"
      9
      start
      (remove test_env 200 none remove_request start)
remove_lem_example = remove_lem test_env 200 none remove_request start

abbrev like_request : CreateCommentLike
like_request = record { comment_id = 9; score = pos 1; auth = "ann" }

create_like_lem_example :
    HasVoted test_env like_request start (create_like test_env none like_request start)
create_like_lem_example = create_like_lem test_env like_request start none

-- The creator deletes the comment.
delete_run : is_ok (delete test_env 200 none delete_request start).0 ≡ true
unfolding delete ◌>>=◌ get_user_from_jwt see_comment check_community_ban is_banned_from execute
    query next_weather later_weather read_user read_view read_comment read_post view_row vote_of
    has_reader has_user update_deleted update_comment deliver next_outcome later_outcomes get_post
    send_local_notifs do_send_local_notifs others_mentioned notify_mentions notify_parent
    notify_user announce do_send email_if send_email_to_user
delete_run = refl

abbrev bob : User
bob = user_with 2 "bob"

-- The comment as it is seen by nobody in particular.
abbrev first_view : CommentView
first_view = record {
  id = 9;
  creator_id = 2;
  post_id = 5;
  parent_id = none;
  content = "hi";
  removed = false;
  read = false;
  deleted = false;
  community_id = 7;
  user_id = none;
  my_vote = none;
  saved = none;
}

bob-IsCaller : IsCaller user_of "bob" small_site bob
unfolding read_user
bob-IsCaller = record { id = 2; named = refl; there = refl; welcome = refl }

first_view_seen : read_view small_site 9 none ≡ some first_view
unfolding read_view read_comment read_post has_reader view_row
first_view_seen = refl

bob_not_banned : is_banned_from small_site 2 7 ≡ false
unfolding is_banned_from
bob_not_banned = refl

delete_passes_example :
    (view : CommentView) × (w' : World) × (delete test_env 200 none delete_request start
      ≡ (ok (record { comment = view; recipient_ids = []; form_id = none }), w'))
    × (view.id ≡ 9)
    × (view.deleted ≡ true)
delete_passes_example =
    delete_passes test_env 200 none start bob first_view refl refl delete_request bob-IsCaller
      first_view_seen refl bob_not_banned

abbrev ann : User
ann = user_with 1 "ann"

ann-IsCaller : IsCaller user_of "ann" small_site ann
unfolding read_user
ann-IsCaller = record { id = 1; named = refl; there = refl; welcome = refl }

ann_moderates : is_mod_or_admin_db small_site 1 7 ≡ true
unfolding is_mod_or_admin_db community_mods_and_admins
ann_moderates = refl

ann_not_banned : is_banned_from small_site 1 7 ≡ false
unfolding is_banned_from
ann_not_banned = refl

remove_passes_example :
    (view : CommentView) × (w' : World) × (remove test_env 200 none remove_request start
      ≡ (ok (record { comment = view; recipient_ids = []; form_id = none }), w'))
    × (view.id ≡ 9)
    × (view.removed ≡ true)
remove_passes_example =
    remove_passes test_env 200 none start ann first_view refl refl remove_request ann-IsCaller
      first_view_seen ann_moderates ann_not_banned

abbrev save_request : SaveComment
save_request = record { comment_id = 9; save = true; auth = "ann" }

save_comment_lem_example :
    HasSaved test_env save_request start (save_comment test_env save_request start)
save_comment_lem_example = save_comment_lem test_env save_request start

abbrev first_report : CommentReport
first_report = record {
  id = 3;
  creator_id = 2;
  comment_id = 9;
  original_comment_text = "hi";
  reason = "spam";
  resolved = false;
  resolver_id = none;
  updated = none;
}

abbrev reported : World
reported = record start { db = record small_site { reports = first_report ∷ [] } }

abbrev resolve_request : ResolveCommentReport
resolve_request = record { report_id = 3; resolved = true; auth = "ann" }

resolve_report_lem_example :
    HasResolved test_env 200 resolve_request reported
      (resolve_report test_env 200 none resolve_request reported)
resolve_report_lem_example = resolve_report_lem test_env 200 resolve_request reported none
