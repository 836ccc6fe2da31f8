-- ===== src/Api/Community/Outcomes.antt =====
-- What may become of a community that is edited, deleted or removed
-- (lemmy_api/src/community.rs).
use lemmy.Prelude.{ℕ, String, true, false, [], some, Result, is_ok, map, ◌≡◌, ◌⊎◌}
use lemmy.Prelude.Sets as Sets
use lemmy.Structs.{CommunityResponse}
use lemmy.Db.Tables.{Db, User, Community, ModRemoveCommunity, read_user}
use lemmy.Db.Community.{
  set_community, set_community_deleted, set_community_removed, update_community, read_community,
  moderators_of,
}
use lemmy.Db.Members.{log_community_removal}
use lemmy.Api.Monad.{World}
use lemmy.Api.Texts.{sorted_unique}
use lemmy.Api.Community.Requests.{Services, EditCommunity, DeleteCommunity, RemoveCommunity}
use lemmy.Api.Community.Write.{edit_form}
use lemmy.Api.Checks.{IsCaller}
use lemmy.Api.Community.Guards.{ShowsCommunity}

-- The handler refused and changed nothing, or a caller made the change.
abbrev pub CommunityOutcome :
    (User → Result CommunityResponse × World → Type 0)
    → Services
    → String
    → World
    → Result CommunityResponse × World
    → Type 0
CommunityOutcome Made env auth w r =
    ((is_ok r.0 ≡ false) × (r.1.db ≡ w.db))
    ⊎ ((user : User) × IsCaller env.decode auth w.db user × Made user r)

abbrev pub ByOwner : ℕ → DeleteCommunity → World → User → Result CommunityResponse × World → Type 0
ByOwner now request w user r =
    ((c : Community) × (read_community w.db request.edit_id ≡ some c) × (c.creator_id ≡ user.id))
    × ((row : Community) × (set_community request.edit_id
            (set_community_deleted now request.deleted) w.db
          ≡ some (row, r.1.db)))
    × ShowsCommunity request.edit_id user.id r

abbrev pub ByCommunityMod :
    Services → ℕ → EditCommunity → World → User → Result CommunityResponse × World → Type 0
ByCommunityMod env now request w user r =
    (Sets.contains user.id (map (λ m. m.user_id) (moderators_of w.db request.edit_id)) ≡ true)
    × (sorted_unique (env.find_slurs request.title) ≡ [])
    × ((c : Community) × (row : Community) × (read_community w.db request.edit_id ≡ some c)
        × (update_community request.edit_id (edit_form env now request c) w.db
            ≡ some (row, r.1.db)))
    × ShowsCommunity request.edit_id user.id r

abbrev pub community_removal : RemoveCommunity → ℕ → ModRemoveCommunity
community_removal request user_id = record {
  mod_user_id = user_id;
  community_id = request.edit_id;
  reason = request.reason;
  removed = some request.removed;
  expires = request.expires;
}

abbrev pub ByAdmin : ℕ → RemoveCommunity → World → User → Result CommunityResponse × World → Type 0
ByAdmin now request w user r =
    ((u : User) × (read_user w.db user.id ≡ some u) × (u.admin ≡ true))
    × ((row : Community) × (db : Db) × (set_community request.edit_id
            (set_community_removed now request.removed) w.db
          ≡ some (row, db))
        × (((is_ok r.0 ≡ false) × (r.1.db ≡ db))
            ⊎ ((entry : ModRemoveCommunity) × (log_community_removal
                    (community_removal request user.id) db
                  ≡ some (entry, r.1.db))
                × ShowsCommunity request.edit_id user.id r)))
