-- ===== src/Api/PostTests.antt =====
-- The handlers of posts on the small site.
use lemmy.Prelude.{String, true, false, [], ◌∷◌, none, some, ok, is_ok, ◌≡◌, refl}
use lemmy.Prelude.Int.{pos}
use lemmy.Prelude.Text.{fits, cut, trim, trim_start, trim_end, is_whitespace}
use lemmy.Structs.{PostView}
use lemmy.Db.Tables.{read_user, read_post, has_community, PostReport}
use lemmy.Db.Access.{is_banned_from}
use lemmy.Db.Post.{
  is_taken, set_post_removed, set_post_deleted, set_locked, set_stickied, read_post_view,
  post_view_row,
}
use lemmy.Db.Comment.{has_reader}
use lemmy.Db.PostMarks.{log_removal, log_lock, log_sticky}
use lemmy.Api.Monad.{World}
use lemmy.Api.Texts.{is_valid_post_title, sorted_unique}
use lemmy.Api.Post.Requests.{
  Services, CreatePost, EditPost, DeletePost, RemovePost, LockPost, StickyPost, SavePost,
  CreatePostLike, CreatePostReport, ResolvePostReport,
}
use lemmy.Api.Post.Write.{create, edit, delete}
use lemmy.Api.Post.Moderate.{remove, lock, sticky}
use lemmy.Api.Post.Votes.{save, create_like}
use lemmy.Api.Post.Reports.{create_report, resolve_report}
use lemmy.Api.Post.Changes.{PostOutcome, ByEditor, ByAuthor, author_post_lem}
use lemmy.Api.Post.Moderating.{ByMod, removal, locking, stickying, moderate_post_lem}
use lemmy.Api.Post.Creating.{HasCreated, create_post_lem}
use lemmy.Api.Post.Conditions.{CanPost}
use lemmy.Api.Post.Saving.{HasSavedPost, save_post_lem}
use lemmy.Api.Post.Passes.{create_post_passes}
use lemmy.Api.Post.Voting.{VoteOutcome, create_post_like_lem}
use lemmy.Api.Post.Reporting.{HasResolvedPost, resolve_post_report_lem, create_report-long_title}
use lemmy.Api.Site.{user_with, small_site, start, user_of, first_post}

abbrev pub services : Services
services = record {
  decode = user_of;
  find_slurs = λ s. [];
  is_url = λ s. true;
  fetch = λ url. record { title = none; description = none; html = none; thumbnail_url = none };
  post_endpoint = λ id. "post";
  changeme = "changeme";
}

abbrev pub posting : CreatePost
posting = record {
  name = " news ";
  url = some "http://news";
  body = none;
  nsfw = false;
  community_id = 7;
  auth = "bob";
}

abbrev editing : EditPost
editing = record {
  edit_id = 5;
  name = "hello again";
  url = none;
  body = none;
  nsfw = false;
  auth = "ann";
}

abbrev deleting : DeletePost
deleting = record { edit_id = 5; deleted = true; auth = "ann" }

abbrev removing : RemovePost
removing = record { edit_id = 5; removed = true; reason = none; auth = "ann" }

abbrev closing : LockPost
closing = record { edit_id = 5; locked = true; auth = "ann" }

abbrev pinning : StickyPost
pinning = record { edit_id = 5; stickied = true; auth = "ann" }

abbrev pub voting : CreatePostLike
voting = record { post_id = 5; score = pos 1; auth = "bob" }

create_post_lem_example :
    HasCreated services 200 posting start (create services 200 none posting start)
create_post_lem_example = create_post_lem services 200 posting start none

bob-CanPost : CanPost services posting small_site (user_with 2 "bob")
unfolding read_user read_post is_banned_from has_community is_taken is_valid_post_title trim
    trim_start trim_end is_whitespace fits cut sorted_unique
bob-CanPost = record {
  caller = record { id = 2; named = refl; there = refl; welcome = refl };
  allowed = refl;
  title = refl;
  short = refl;
  clean = refl;
  clean_body = tt;
  link = refl;
  community = refl;
  unused = refl;
  unvoted = refl;
  short_made_up = refl;
  made_up = refl;
  short_address = refl;
  address = refl;
}

create_post_passes_example :
    (view : PostView) × (w' : World) × (create services 200 none posting start
      ≡ (ok (record { post = view }), w'))
    × (view.id ≡ 6)
    × (view.creator_id ≡ 2)
    × (view.community_id ≡ 7)
    × (view.name ≡ cut 200 (trim " news "))
    × (view.body ≡ none)
    × ((view.removed ≡ false) × (view.locked ≡ false) × (view.deleted ≡ false))
    × (view.my_vote ≡ some (pos 1))
create_post_passes_example =
    create_post_passes services 200 none start (user_with 2 "bob") refl refl posting bob-CanPost

author_post_lem_example :
    PostOutcome
      (ByEditor services 200 editing start)
      services
      "ann"
      5
      start
      (edit services 200 none editing start)
    × PostOutcome
        (ByAuthor 5 (set_post_deleted 200 true) start)
        services
        "ann"
        5
        start
        (delete services 200 none deleting start)
author_post_lem_example = author_post_lem services 200 none editing deleting start

moderate_post_lem_example :
    PostOutcome
      (ByMod 5
        (set_post_removed 200 true)
        (λ user_id. log_removal (removal removing user_id))
        start)
      services
      "ann"
      5
      start
      (remove services 200 none removing start)
    × PostOutcome
        (ByMod 5 (set_locked true) (λ user_id. log_lock (locking closing user_id)) start)
        services
        "ann"
        5
        start
        (lock services 200 none closing start)
    × PostOutcome
        (ByMod 5 (set_stickied true) (λ user_id. log_sticky (stickying pinning user_id)) start)
        services
        "ann"
        5
        start
        (sticky services 200 none pinning start)
moderate_post_lem_example = moderate_post_lem services 200 none start removing closing pinning

abbrev saving : SavePost
saving = record { post_id = 5; save = true; auth = "bob" }

save_post_lem_example : HasSavedPost services saving start (save services saving start)
save_post_lem_example = save_post_lem services saving start

create_post_like_lem_example :
    VoteOutcome services voting start (create_like services none voting start)
create_post_like_lem_example = create_post_like_lem services voting start none

abbrev first_post_report : PostReport
first_post_report = record {
  id = 4;
  creator_id = 2;
  post_id = 5;
  original_post_name = "hello";
  original_post_url = none;
  original_post_body = none;
  reason = "spam";
  resolved = true;
  resolver_id = none;
  updated = none;
}

abbrev reported : World
reported = record start { db = record small_site { post_reports = first_post_report ∷ [] } }

abbrev reopening : ResolvePostReport
reopening = record { report_id = 4; resolved = false; auth = "ann" }

resolve_post_report_lem_example :
    HasResolvedPost services 200 reopening reported
      (resolve_report services 200 none reopening reported)
resolve_post_report_lem_example = resolve_post_report_lem services 200 reopening reported none

-- A title of more than a hundred characters.
abbrev long_title : String
long_title =
    "a post whose title is longer than a hundred characters, as titles of news may well be, and which nobody can report"

abbrev long_site : World
long_site = record start {
  db = record small_site { posts = record first_post { name = long_title } ∷ [] };
}

abbrev long_view : PostView
long_view = record {
  id = 5;
  name = long_title;
  url = none;
  body = some "text";
  creator_id = 1;
  community_id = 7;
  removed = false;
  locked = false;
  deleted = false;
  nsfw = false;
  stickied = false;
  user_id = none;
  my_vote = none;
  saved = none;
}

abbrev reporting : CreatePostReport
reporting = record { post_id = 5; reason = "spam"; auth = "bob" }

long_view_seen : read_post_view long_site.db 5 none ≡ some long_view
unfolding read_post_view read_post has_reader post_view_row
long_view_seen = refl

long_title_beyond : fits 100 long_title ≡ false
unfolding fits
long_title_beyond = refl

create_report-long_title_example :
    (is_ok (create_report services none reporting long_site).0 ≡ false)
    × ((create_report services none reporting long_site).1.db ≡ long_site.db)
create_report-long_title_example =
    create_report-long_title services reporting none long_site long_view long_view_seen
      long_title_beyond
