-- ===== src/Db/Members.antt =====
-- Who moderates, follows and is banned from a community (lemmy_db/src/community.rs), and the log of
-- that (lemmy_db/src/moderator.rs).
use lemmy.Prelude.{
  ℕ, Bool, true, false, ◌&&◌, not, List, [], ◌∷◌, ◌++◌, none, some, any, retain, reverse, map,
  count_where, find?, update_where, ◌==◌, if◌then◌else◌,
}
use lemmy.Db.Tables.{
  Db, CommunityUser, CommunityFollower, ModAddCommunity, ModBanFromCommunity, ModRemoveCommunity,
  has_user, has_community, read_post,
}
use lemmy.Db.Comment.{Statement}

abbrev pub is_row : CommunityUser → CommunityUser → Bool
is_row form r = r.user_id == form.user_id && r.community_id == form.community_id

-- `CommunityModerator::join`, `leave`, `delete_for_community`
unfoldable pub join : CommunityUser → Statement CommunityUser
unfolding has_user has_community
join form db =
    if not (any (is_row form) db.moderators)
      && (has_community db form.community_id && has_user db form.user_id)
    then some (form, record db { moderators = db.moderators ++ form ∷ [] })
    else none

unfoldable pub leave : CommunityUser → Statement ℕ
leave form db = some (
  count_where (is_row form) db.moderators,
  record db { moderators = retain (λ r. not (is_row form r)) db.moderators },
)

unfoldable pub delete_for_community : ℕ → Statement ℕ
delete_for_community community_id db = some (
  count_where (λ r. r.community_id == community_id) db.moderators,
  record db { moderators = retain (λ r. not (r.community_id == community_id)) db.moderators },
)

-- `CommunityUserBan::ban`, `unban`
unfoldable pub ban : CommunityUser → Statement CommunityUser
unfolding has_user has_community
ban form db =
    if not (any (is_row form) db.bans)
      && (has_community db form.community_id && has_user db form.user_id)
    then some (form, record db { bans = db.bans ++ form ∷ [] })
    else none

unfoldable pub unban : CommunityUser → Statement ℕ
unban form db = some (
  count_where (is_row form) db.bans,
  record db { bans = retain (λ r. not (is_row form r)) db.bans },
)

-- `CommunityFollower::follow`, `follow_accepted`, `unfollow`
abbrev pub is_follower : ℕ → ℕ → CommunityFollower → Bool
is_follower community_id user_id r = r.community_id == community_id && r.user_id == user_id

unfoldable pub follow : ℕ → ℕ → Bool → Statement CommunityFollower
unfolding has_user has_community
follow community_id user_id pending db =
    let row : CommunityFollower = record {
      community_id = community_id;
      user_id = user_id;
      pending = some pending;
    } in
    if not (any (is_follower community_id user_id) db.followers)
      && (has_community db community_id && has_user db user_id)
    then some (row, record db { followers = db.followers ++ row ∷ [] })
    else none

abbrev pub set_pending : Bool → CommunityFollower → CommunityFollower
set_pending flag r = record r { pending = some flag }

unfoldable pub follow_accepted : ℕ → ℕ → Statement CommunityFollower
follow_accepted community_id user_id db =
    elim (find? (is_follower community_id user_id) db.followers) [
      | none ↦ none
      | some r ↦ some (
        set_pending true r,
        record db {
          followers =
              update_where (is_follower community_id user_id) (set_pending true) db.followers;
        },
      )
    ]

unfoldable pub unfollow : ℕ → ℕ → Statement ℕ
unfollow community_id user_id db = some (
  count_where (is_follower community_id user_id) db.followers,
  record db { followers = retain (λ r. not (is_follower community_id user_id r)) db.followers },
)

-- `ModAddCommunity::create`, `ModBanFromCommunity::create`, `ModRemoveCommunity::create`
unfoldable pub log_moderator : ModAddCommunity → Statement ModAddCommunity
unfolding has_user has_community
log_moderator form db =
    if has_user db form.mod_user_id
      && (has_user db form.other_user_id && has_community db form.community_id)
    then some (form, record db { community_mods = db.community_mods ++ form ∷ [] })
    else none

unfoldable pub log_ban : ModBanFromCommunity → Statement ModBanFromCommunity
unfolding has_user has_community
log_ban form db =
    if has_user db form.mod_user_id
      && (has_user db form.other_user_id && has_community db form.community_id)
    then some (form, record db { community_bans = db.community_bans ++ form ∷ [] })
    else none

unfoldable pub log_community_removal : ModRemoveCommunity → Statement ModRemoveCommunity
unfolding has_user has_community
log_community_removal form db =
    if has_user db form.mod_user_id && has_community db form.community_id
    then some (form, record db { community_removals = db.community_removals ++ form ∷ [] })
    else none

-- Whether a row's post is in a community.
unfoldable pub is_in_community : Db → ℕ → ℕ → Bool
unfolding read_post
is_in_community db community_id post_id = elim (read_post db post_id) [
  | none ↦ false
  | some p ↦ p.community_id == community_id
]

-- `CommentQueryBuilder` for a creator and a community, without a limit: the newest first, by their
-- identifiers.
unfoldable pub comments_of_creator : Db → ℕ → ℕ → List ℕ
unfolding is_in_community
comments_of_creator db creator_id community_id = reverse (
    map (λ c. c.id)
      (retain (λ c. c.creator_id == creator_id && is_in_community db community_id c.post_id)
        db.comments))
