-- ===== src/Api/Site.antt =====
-- A small site to run handlers on: two users, a moderator, a post, a comment, and requests.
use lemmy.Prelude.{ℕ, String, true, false, [], ◌∷◌, Option, none, some, str_eq, if◌then◌else◌}
use lemmy.Db.Tables.{Db, User, Post, Comment, Community}
use lemmy.Api.Monad.{World}
use lemmy.Api.Comment.Requests.{Env, DeleteComment, EditComment, RemoveComment}

abbrev pub user_with : ℕ → String → User
user_with id name = record {
  id = id;
  name = name;
  email = none;
  admin = false;
  banned = false;
  local = true;
  deleted = false;
  send_notifications_to_email = false;
}

abbrev pub first_post : Post
first_post = record {
  id = 5;
  name = "hello";
  url = none;
  body = some "text";
  creator_id = 1;
  community_id = 7;
  removed = false;
  locked = false;
  published = 100;
  updated = none;
  deleted = false;
  nsfw = false;
  stickied = false;
  embed_title = none;
  embed_description = none;
  embed_html = none;
  thumbnail_url = none;
  ap_id = "p";
  local = true;
}

abbrev pub first_community : Community
first_community = record {
  id = 7;
  name = "main";
  title = "Main";
  description = none;
  category_id = 1;
  creator_id = 1;
  removed = false;
  published = 100;
  updated = none;
  deleted = false;
  nsfw = false;
  actor_id = "c";
  local = true;
  private_key = none;
  public_key = none;
  last_refreshed_at = 100;
  icon = none;
  banner = none;
}

abbrev pub first_comment : Comment
first_comment = record {
  id = 9;
  creator_id = 2;
  post_id = 5;
  parent_id = none;
  content = "hi";
  removed = false;
  read = false;
  published = 100;
  updated = none;
  deleted = false;
  ap_id = "a";
  local = true;
}

abbrev pub small_site : Db
small_site = record {
  users = user_with 1 "ann" ∷ user_with 2 "bob" ∷ [];
  posts = first_post ∷ [];
  comments = first_comment ∷ [];
  comment_likes = [];
  comment_saved = [];
  moderators = record { community_id = 7; user_id = 1 } ∷ [];
  bans = [];
  reports = [];
  removals = [];
  mentions = [];
  enable_downvotes = some true;
  next_comment = 10;
  next_report = 1;
  communities = first_community ∷ [];
  followers = [];
  categories = 1 ∷ [];
  site_creator = some 1;
  post_likes = [];
  post_saved = [];
  post_reports = [];
  post_removals = [];
  post_locks = [];
  post_stickies = [];
  community_removals = [];
  community_mods = [];
  community_bans = [];
  next_post = 6;
  next_post_report = 1;
  next_community = 8;
}

abbrev pub start : World
start = record {
  db = small_site;
  weather = [];
  federation = [];
  activities = [];
  emails = [];
  chat = [];
}

-- The token is the user's name.
abbrev pub user_of : String → Option ℕ
user_of s = if str_eq s "ann" then some 1 else if str_eq s "bob" then some 2 else none

abbrev pub test_env : Env
test_env = record {
  decode = user_of;
  remove_slurs = λ s. s;
  scrape_text_for_mentions = λ s. [];
  hostname = "here";
  comment_endpoint = λ id. "c";
}

abbrev pub delete_request : DeleteComment
delete_request = record { edit_id = 9; deleted = true; auth = "bob" }

abbrev pub edit_request : EditComment
edit_request = record { content = "ho"; edit_id = 9; form_id = none; auth = "bob" }

abbrev pub remove_request : RemoveComment
remove_request = record { edit_id = 9; removed = true; reason = some "spam"; auth = "ann" }
