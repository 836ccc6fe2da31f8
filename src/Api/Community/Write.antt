-- ===== src/Api/Community/Write.antt =====
-- `CreateCommunity`, `EditCommunity`, `DeleteCommunity` and `RemoveCommunity`
-- (lemmy_api/src/community.rs). `now` is the time that the statements of the operation read.
use Prim.Native.Char.{code}
use Prim.Native.String.{count}
use Prim.Native.String as Str
use lemmy.Prelude.{
  ℕ, String, Bool, true, false, not, ◌&&◌, ◌||◌, Option, none, some, map, is_some, api, internal,
  leb, ◌==◌, if◌then◌else◌,
}
use lemmy.Prelude.Sets as Sets
use lemmy.Structs.{
  CommunityView, CommunityResponse, CommunityUser, UserOperation, community_response,
}
use lemmy.Structs as Structs
use lemmy.Db.Tables.{User, Community}
use lemmy.Db.Community.{
  CommunityForm, create_community, update_community, update_community_deleted,
  update_community_removed, read_community, read_from_actor_id, read_community_view, moderators_of,
  diesel_option_overwrite,
}
use lemmy.Db.Members.{join, follow, log_community_removal}
use lemmy.Chat.Handlers.{send_community_room}
use lemmy.Api.Monad.{
  M, pure, ◌>>=◌, ◌>>◌, fail_if, ok_or, query, execute, deliver, do_send, ActivityKind,
  about_community,
}
use lemmy.Api.Auth.{get_user_from_jwt, is_admin}
use lemmy.Api.Texts.{check_slurs, check_slurs_opt, check_optional_url, naive_from_unix}
use lemmy.Api.Community.Requests.{
  Services, Keypair, CreateCommunity, EditCommunity, DeleteCommunity, RemoveCommunity,
}

-- `^[a-z0-9_]{3,20}$`
abbrev is_name_char : ℕ → Bool
is_name_char c = leb 97 c && leb c 122 || (leb 48 c && leb c 57 || c == 95)

abbrev has_name_chars : String → Bool
has_name_chars Str.[] = true
has_name_chars (Str.◌∷◌ c s) = let rest = has_name_chars s in is_name_char (code c) && rest

unfoldable pub is_valid_community_name : String → Bool
is_valid_community_name name = has_name_chars name && (leb 3 (count name) && leb (count name) 20)

-- `Community::read(…)??` and `CommunityView::read(…)??`
unfoldable pub find_community : ℕ → M Community
find_community id = do row ← query (λ db. read_community db id); ok_or row internal

unfoldable pub see_community : ℕ → ℕ → M CommunityView
see_community id user_id = do
  row ← query (λ db. read_community_view db id (some user_id))
  ok_or row internal

-- What goes to the others has no user and no subscription.
unfoldable pub community_sent : CommunityResponse → CommunityResponse
community_sent res = record {
  community = record (res.community) { user_id = none; subscribed = none };
}

unfoldable pub send_community_websocket :
    UserOperation → CommunityResponse → Option ℕ → M CommunityResponse
unfolding do_send community_sent
send_community_websocket op res websocket_id = do
  do_send (
      send_community_room op (community_response (community_sent res)) res.community.id
        websocket_id)
  pure res

-- An activity of the community itself.
abbrev pub send_own : ActivityKind → Community → M (Unit {0})
send_own kind c = deliver (record { kind = kind; object = about_community c.id; actor_id = c.id })

module _ (env : Services) where
  unfoldable pub create_form : CreateCommunity → User → Keypair → CommunityForm
  unfolding diesel_option_overwrite
  create_form request user keypair = record {
    name = request.name;
    title = request.title;
    description = request.description;
    category_id = request.category_id;
    creator_id = user.id;
    removed = none;
    published = none;
    updated = none;
    deleted = none;
    nsfw = request.nsfw;
    actor_id = some (env.community_endpoint request.name);
    local = true;
    private_key = some keypair.private_key;
    public_key = some keypair.public_key;
    last_refreshed_at = none;
    icon = diesel_option_overwrite request.icon;
    banner = diesel_option_overwrite request.banner;
  }

  unfoldable pub edit_form : ℕ → EditCommunity → Community → CommunityForm
  unfolding diesel_option_overwrite
  edit_form now request read = record {
    name = read.name;
    title = request.title;
    description = request.description;
    category_id = request.category_id;
    creator_id = read.creator_id;
    removed = some read.removed;
    published = none;
    updated = some now;
    deleted = some read.deleted;
    nsfw = request.nsfw;
    actor_id = some read.actor_id;
    local = read.local;
    private_key = read.private_key;
    public_key = read.public_key;
    last_refreshed_at = none;
    icon = diesel_option_overwrite request.icon;
    banner = diesel_option_overwrite request.banner;
  }

  -- The user becomes a moderator and a follower of the new community.
  unfoldable pub create : ℕ → CreateCommunity → M CommunityResponse
  unfolding create_form diesel_option_overwrite is_valid_community_name
  create now request = do
    user ← get_user_from_jwt env.decode request.auth
    check_slurs env.find_slurs request.name
    check_slurs env.find_slurs request.title
    check_slurs_opt env.find_slurs request.description
    fail_if (not (is_valid_community_name request.name)) (api "invalid_community_name")
    dupe ← query (λ db. read_from_actor_id db (env.community_endpoint request.name))
    fail_if (is_some dupe) (api "community_already_exists")
    check_optional_url env.is_url (diesel_option_overwrite request.icon)
    check_optional_url env.is_url (diesel_option_overwrite request.banner)
    keypair ← ok_or env.keypair internal
    inserted ← execute (create_community now env.changeme (create_form request user keypair))
    inserted_community ← ok_or inserted (api "community_already_exists")
    joined ← execute (join (record { community_id = inserted_community.id; user_id = user.id }))
    ok_or joined (api "community_moderator_already_exists")
    followed ← execute (follow inserted_community.id user.id false)
    ok_or followed (api "community_follower_already_exists")
    view ← see_community inserted_community.id user.id
    pure (record { community = view })

module _ (env : Services) (now : ℕ) (websocket_id : Option ℕ) where
  unfoldable pub edit : EditCommunity → M CommunityResponse
  unfolding edit_form diesel_option_overwrite
  edit request = do
    user ← get_user_from_jwt env.decode request.auth
    check_slurs env.find_slurs request.title
    check_slurs_opt env.find_slurs request.description
    found ← query (λ db. some (map (λ m. m.user_id) (moderators_of db request.edit_id)))
    mods ← ok_or found internal
    fail_if (not (Sets.contains user.id mods)) (api "not_a_moderator")
    read ← find_community request.edit_id
    check_optional_url env.is_url (diesel_option_overwrite request.icon)
    check_optional_url env.is_url (diesel_option_overwrite request.banner)
    updated ← execute (update_community request.edit_id (edit_form env now request read))
    ok_or updated (api "couldnt_update_community")
    view ← see_community request.edit_id user.id
    send_community_websocket Structs.edit_community (record { community = view }) websocket_id

  unfoldable pub delete : DeleteCommunity → M CommunityResponse
  delete request = do
    user ← get_user_from_jwt env.decode request.auth
    read ← find_community request.edit_id
    fail_if (not (read.creator_id == user.id)) (api "no_community_edit_allowed")
    updated ← execute (update_community_deleted now request.edit_id request.deleted)
    updated_community ← ok_or updated (api "couldnt_update_community")
    send_own (if request.deleted then ActivityKind.delete else ActivityKind.undo_delete)
        updated_community
    view ← see_community request.edit_id user.id
    send_community_websocket Structs.delete_community (record { community = view }) websocket_id

  unfoldable pub remove : RemoveCommunity → M CommunityResponse
  remove request = do
    user ← get_user_from_jwt env.decode request.auth
    is_admin user.id
    updated ← execute (update_community_removed now request.edit_id request.removed)
    updated_community ← ok_or updated (api "couldnt_update_community")
    naive_from_unix env.is_date request.expires
    logged ← execute (
        log_community_removal (record {
          mod_user_id = user.id;
          community_id = request.edit_id;
          reason = request.reason;
          removed = some request.removed;
          expires = request.expires;
        }))
    ok_or logged internal
    send_own (if request.removed then ActivityKind.remove else ActivityKind.undo_remove)
        updated_community
    view ← see_community request.edit_id user.id
    send_community_websocket Structs.remove_community (record { community = view }) websocket_id
