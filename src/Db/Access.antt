-- ===== src/Db/Access.antt =====
-- Who may do what: moderators, administrators and bans (lemmy_db/src/community.rs,
-- lemmy_db/src/community_view.rs, lemmy_db/src/user.rs).
use lemmy.Prelude.{
  ℕ, String, Bool, ◌&&◌, List, ◌++◌, Option, map, any, find?, retain, ◌==◌, str_eq, not,
}
use lemmy.Prelude.Sets as Sets
use lemmy.Db.Tables.{Db, User}

-- `CommunityModeratorView::for_community` and `UserView::admins`.
unfoldable pub community_mods_and_admins : Db → ℕ → List ℕ
community_mods_and_admins db community_id =
    map (λ m. m.user_id) (retain (λ m. m.community_id == community_id) db.moderators)
    ++ map (λ u. u.id) (retain (λ u. u.admin) db.users)

unfoldable pub is_mod_or_admin_db : Db → ℕ → ℕ → Bool
unfolding community_mods_and_admins
is_mod_or_admin_db db user_id community_id =
    Sets.contains user_id (community_mods_and_admins db community_id)

-- Whether `CommunityUserBanView::get` finds a row.
unfoldable pub is_banned_from : Db → ℕ → ℕ → Bool
is_banned_from db user_id community_id =
    any (λ b. b.user_id == user_id && b.community_id == community_id) db.bans

unfoldable pub user_moderated_communities : Db → ℕ → List ℕ
user_moderated_communities db user_id =
    map (λ m. m.community_id) (retain (λ m. m.user_id == user_id) db.moderators)

unfoldable pub read_from_name : Db → String → Option User
read_from_name db name = find? (λ u. u.local && (not u.deleted && str_eq u.name name)) db.users
