-- ===== src/Api/Community/Members.antt =====
-- `FollowCommunity`, `BanFromCommunity`, `AddModToCommunity`, `TransferCommunity`, `CommunityJoin`
-- and `ModJoin` (lemmy_api/src/community.rs). `now` is the time that the statements of the operation
-- read.
use lemmy.Prelude.{
  ℕ, String, Bool, true, false, not, ◌&&◌, List, [], ◌∷◌, Option, none, some, api, internal, any,
  ◌==◌, if◌then◌else◌,
}
use lemmy.Structs.{
  CommunityView, CommunityResponse, CommunityUser, UserView, ban_response, moderators_response,
  ban_from_community, add_mod_to_community,
}
use lemmy.Db.Tables.{User, Community}
use lemmy.Db.Comment.{update_removed}
use lemmy.Db.Post.{update_removed_for_creator}
use lemmy.Db.Community.{
  update_creator, read_community_view, read_from_actor_id, moderators_of, admins, get_user_secure,
}
use lemmy.Db.Members.{
  join, leave, delete_for_community, ban, unban, follow, unfollow, log_moderator, log_ban,
  comments_of_creator,
}
use lemmy.Chat.Handlers.{send_community_room, joins_community, joins_mod}
use lemmy.Api.Monad.{
  M, pure, ◌>>=◌, ◌>>◌, fail_if, ok_or, query, execute, deliver, do_send, ActivityKind,
  about_community,
}
use lemmy.Api.Auth.{get_user_from_jwt, is_mod_or_admin}
use lemmy.Api.Texts.{naive_from_unix}
use lemmy.Api.Community.Requests.{
  Services, FollowCommunity, BanFromCommunity, AddModToCommunity, TransferCommunity,
  GetCommunityResponse,
}
use lemmy.Api.Community.Write.{find_community, see_community}

-- Follows, or stops to.
unfoldable pub set_following : Bool → ℕ → ℕ → M (Unit {0})
set_following true community_id user_id = do
  followed ← execute (follow community_id user_id false)
  ok_or followed (api "community_follower_already_exists")
  pure tt
set_following false community_id user_id = do
  unfollowed ← execute (unfollow community_id user_id)
  ok_or unfollowed (api "community_follower_already_exists")
  pure tt

unfoldable pub set_banned : Bool → CommunityUser → M (Unit {0})
set_banned true form = do
  banned ← execute (ban form)
  ok_or banned (api "community_user_already_banned")
  pure tt
set_banned false form = do
  unbanned ← execute (unban form)
  ok_or unbanned (api "community_user_already_banned")
  pure tt

unfoldable pub set_moderating : Bool → CommunityUser → M (Unit {0})
set_moderating true form = do
  joined ← execute (join form)
  ok_or joined (api "community_moderator_already_exists")
  pure tt
set_moderating false form = do
  left ← execute (leave form)
  ok_or left (api "community_moderator_already_exists")
  pure tt

-- The loop over the comments of who is banned.
unfoldable pub remove_comments : ℕ → Bool → List ℕ → M (Unit {0})
remove_comments now remove_data [] = pure tt
remove_comments now remove_data (id ∷ ids) = execute (update_removed now id remove_data) >>= λ row.
    ok_or row internal >> remove_comments now remove_data ids

unfoldable pub remove_data_of : ℕ → ℕ → ℕ → Option Bool → M (Unit {0})
unfolding remove_comments
remove_data_of now user_id community_id none = pure tt
remove_data_of now user_id community_id (some remove_data) = do
  posts ← execute (update_removed_for_creator now user_id (some community_id) remove_data)
  ok_or posts internal
  found ← query (λ db. some (comments_of_creator db user_id community_id))
  comments ← ok_or found internal
  remove_comments now remove_data comments

-- `position`, `remove` and `insert(0, …)`: the first that passes comes to the front.
abbrev pub take_first {ℓ} : {A : Type ℓ} → (A → Bool) → List A → Option (A × List A)
take_first p [] = none
take_first p (x ∷ xs) =
    let rest = take_first p xs in
    if p x then some (x, xs) else elim rest [ none ↦ none | some (y, ys) ↦ some (y, x ∷ ys) ]

unfoldable pub to_front {ℓ} : {A : Type ℓ} → (A → Bool) → List A → Option (List A)
to_front p xs = elim (take_first p xs) [ none ↦ none | some (y, ys) ↦ some (y ∷ ys) ]

-- The loop over the moderators, who join again in their new order.
unfoldable pub join_all : List CommunityUser → M (Unit {0})
join_all [] = pure tt
join_all (m ∷ ms) =
    execute (join m) >>= λ row. ok_or row (api "community_moderator_already_exists") >> join_all ms

-- `send_follow` and `send_unfollow` of a user (lemmy_apub/src/activities/send/user.rs). A row of the
-- follower who waits is made if it can be.
unfoldable pub send_follow : ℕ → String → M (Unit {0})
send_follow user_id actor_id = do
  row ← query (λ db. read_from_actor_id db actor_id)
  community ← ok_or row internal
  execute (follow community.id user_id true)
  deliver (record {
    kind = ActivityKind.follow;
    object = about_community community.id;
    actor_id = user_id;
  })

unfoldable pub send_unfollow : ℕ → String → M (Unit {0})
send_unfollow user_id actor_id = do
  row ← query (λ db. read_from_actor_id db actor_id)
  community ← ok_or row internal
  deliver (record {
    kind = ActivityKind.undo_follow;
    object = about_community community.id;
    actor_id = user_id;
  })

module _ (env : Services) where
  -- A remote community is told, and accepts the follower or not.
  unfoldable pub follow_as_told : User → Community → Bool → M (Unit {0})
  unfolding set_following send_follow send_unfollow
  follow_as_told user community flag =
      if community.local
      then set_following flag community.id user.id
      else (fail_if (not (env.is_url community.actor_id)) internal
          >> (if flag
              then send_follow user.id community.actor_id
              else (send_unfollow user.id community.actor_id
                  >> set_following false community.id user.id)))

  -- A remote community's answer is taken for granted.
  abbrev pub assumed : Community → Bool → CommunityView → CommunityView
  assumed community flag view =
      if community.local then view else record view { subscribed = some flag }

  unfoldable pub follow_community : FollowCommunity → M CommunityResponse
  unfolding follow_as_told
  follow_community request = do
    user ← get_user_from_jwt env.decode request.auth
    community ← find_community request.community_id
    follow_as_told user community request.follow
    view ← see_community request.community_id user.id
    pure (record { community = assumed community request.follow view })

  unfoldable pub ban_from : ℕ → Option ℕ → BanFromCommunity → M (UserView × Bool)
  unfolding set_banned remove_data_of
  ban_from now websocket_id request = do
    user ← get_user_from_jwt env.decode request.auth
    is_mod_or_admin user.id request.community_id
    set_banned request.ban
        (record { community_id = request.community_id; user_id = request.user_id })
    remove_data_of now request.user_id request.community_id request.remove_data
    naive_from_unix env.is_date request.expires
    logged ← execute (
        log_ban (record {
          mod_user_id = user.id;
          other_user_id = request.user_id;
          community_id = request.community_id;
          reason = request.reason;
          banned = some request.ban;
          expires = request.expires;
        }))
    ok_or logged internal
    row ← query (λ db. get_user_secure db request.user_id)
    view ← ok_or row internal
    do_send (
        send_community_room ban_from_community (ban_response view request.ban) request.community_id
          websocket_id)
    pure (view, request.ban)

  unfoldable pub add_mod : Option ℕ → AddModToCommunity → M (List CommunityUser)
  unfolding set_moderating
  add_mod websocket_id request = do
    user ← get_user_from_jwt env.decode request.auth
    is_mod_or_admin user.id request.community_id
    set_moderating request.added
        (record { community_id = request.community_id; user_id = request.user_id })
    logged ← execute (
        log_moderator (record {
          mod_user_id = user.id;
          other_user_id = request.user_id;
          community_id = request.community_id;
          removed = some (not request.added);
        }))
    ok_or logged internal
    found ← query (λ db. some (moderators_of db request.community_id))
    moderators ← ok_or found internal
    do_send (
        send_community_room add_mod_to_community (moderators_response moderators)
          request.community_id websocket_id)
    pure moderators

  unfoldable pub transfer : ℕ → TransferCommunity → M GetCommunityResponse
  unfolding to_front join_all
  transfer now request = do
    user ← get_user_from_jwt env.decode request.auth
    read ← find_community request.community_id
    site ← query (λ db. db.site_creator)
    site_creator_id ← ok_or site internal
    found ← query (λ db. some (admins db))
    all ← ok_or found internal
    ordered ← ok_or (to_front (λ id. id == site_creator_id) all) internal
    fail_if (not (user.id == read.creator_id) && not (any (λ id. id == user.id) ordered))
        (api "not_an_admin")
    updated ← execute (update_creator now request.community_id request.user_id)
    ok_or updated (api "couldnt_update_community")
    listed ← query (λ db. some (moderators_of db request.community_id))
    mods ← ok_or listed internal
    community_mods ← ok_or (to_front (λ m. m.user_id == request.user_id) mods) internal
    deleted ← execute (delete_for_community request.community_id)
    ok_or deleted internal
    join_all community_mods
    logged ← execute (
        log_moderator (record {
          mod_user_id = user.id;
          other_user_id = request.user_id;
          community_id = request.community_id;
          removed = some false;
        }))
    ok_or logged internal
    row ← query (λ db. read_community_view db request.community_id (some user.id))
    view ← ok_or row (api "couldnt_find_community")
    again ← query (λ db. some (moderators_of db request.community_id))
    moderators ← ok_or again (api "couldnt_find_community")
    pure (record { community = view; moderators = moderators; online = 0 })

-- `CommunityJoin` and `ModJoin`: the answer is whether the connection joined, which is always true.
unfoldable pub join_community : Option ℕ → ℕ → M Bool
join_community none community_id = pure true
join_community (some ws_id) community_id = do
  do_send (joins_community community_id ws_id)
  pure true

unfoldable pub join_mods : Option ℕ → ℕ → M Bool
join_mods none community_id = pure true
join_mods (some ws_id) community_id = do do_send (joins_mod community_id ws_id); pure true
