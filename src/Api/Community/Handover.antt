-- ===== src/Api/Community/Handover.antt =====
-- The steps of a transfer after the caller's rights are checked (`TransferCommunity` of
-- lemmy_api/src/community.rs).
use lemmy.Prelude.{
  ℕ, Bool, false, List, [], ◌∷◌, Option, some, Result, ok, LemmyError, internal, api, ◌≡◌, refl, ap,
  ◌∙◌, arith, ◌==◌, not, ◌&&◌, any,
}
use lemmy.Structs.{CommunityUser, CommunityView}
use lemmy.Db.Tables.{Db, User, Community, ModAddCommunity}
use lemmy.Db.Community.{read_community_view, update_creator, moderators_of}
use lemmy.Db.Comment.{Statement}
use lemmy.Db.Members.{join, delete_for_community, log_moderator}
use lemmy.Api.Monad.{M, World, pure, execute, ok_or, fail_if, query, ◌>>=◌, ◌>>◌}
use lemmy.Api.Community.Requests.{TransferCommunity, GetCommunityResponse}
use lemmy.Api.Community.Members.{to_front, join_all}
use lemmy.Api.Effects.{Reads-query, Reads-ok_or, calmly}
use lemmy.Api.Steps.{statement, query-ok, ok_or-ok, Keeps, Keeps-Reads, Keeps-bind, Keeps-execute}

log_moderator-moderators :
    (form row : ModAddCommunity) (d d' : Db)
    → log_moderator form d ≡ some (row, d')
    → d'.moderators ≡ d.moderators
unfolding log_moderator
log_moderator-moderators form row d d' h = ground arith

log_moderator-communities :
    (form row : ModAddCommunity) (d d' : Db)
    → log_moderator form d ≡ some (row, d')
    → d'.communities ≡ d.communities
unfolding log_moderator
log_moderator-communities form row d d' h = ground arith

join-communities :
    (form row : CommunityUser) (d d' : Db)
    → join form d ≡ some (row, d')
    → d'.communities ≡ d.communities
unfolding join
join-communities form row d d' h = ground arith

delete_for_community-communities :
    (community_id n : ℕ) (d d' : Db)
    → delete_for_community community_id d ≡ some (n, d')
    → d'.communities ≡ d.communities
unfolding delete_for_community
delete_for_community-communities community_id n d d' h = cc

abbrev pub communities_of : Db → List Community
communities_of db = db.communities

-- A statement and the error that it becomes.
executed-Keeps :
    {A B : Type 0} (q : Statement A) (x : LemmyError) (k : A → M B)
    → ((a : A) (d d' : Db) → q d ≡ some (a, d') → d'.communities ≡ d.communities)
    → ((a : A) → Keeps communities_of (k a))
    → Keeps communities_of (execute q >>= λ o. ok_or o x >>= k)
executed-Keeps q x k h rest = Keeps-bind communities_of _ _ (Keeps-execute communities_of q h) λ o.
    Keeps-bind communities_of _ _ (Keeps-Reads communities_of (ok_or o x) (Reads-ok_or o x)) rest

queried-Keeps :
    {A B : Type 0} (q : Db → Option A) (x : LemmyError) (k : A → M B)
    → ((a : A) → Keeps communities_of (k a))
    → Keeps communities_of (query q >>= λ o. ok_or o x >>= k)
queried-Keeps q x k rest =
    Keeps-bind communities_of _ _ (Keeps-Reads communities_of (query q) (Reads-query q)) λ o.
      Keeps-bind communities_of _ _ (Keeps-Reads communities_of (ok_or o x) (Reads-ok_or o x)) rest

join_all-Keeps : (ms : List CommunityUser) → Keeps communities_of (join_all ms)
unfolding join_all
join_all-Keeps [] = λ w. refl
join_all-Keeps (m ∷ ms) =
    executed-Keeps (join m) (api "community_moderator_already_exists") _ (join-communities m)
      λ row. join_all-Keeps ms

module _ (now : ℕ) (request : TransferCommunity) where
  abbrev pub is_new : CommunityUser → Bool
  is_new m = m.user_id == request.user_id

  abbrev pub listing : Db → Option (List CommunityUser)
  listing db = some (moderators_of db request.community_id)

  abbrev answer_with : CommunityView → M GetCommunityResponse
  answer_with view = query listing >>= λ again.
      ok_or again (api "couldnt_find_community") >>= λ moderators.
      pure (record { community = view; moderators = moderators; online = 0 })

  -- The moderators are as before, and an answer lists them.
  abbrev Lists : World → Result GetCommunityResponse × World → Type 0
  Lists v r =
      (res : GetCommunityResponse)
      → r.0 ≡ ok res
      → (r.1.db.moderators ≡ v.db.moderators)
        × (moderators_of r.1.db request.community_id ≡ res.moderators)

  answer_with-Lists : (view : CommunityView) (v : World) → Lists v (answer_with view v)
  answer_with-Lists view v =
      calmly (Lists v) (query listing) _ v (Reads-query listing) (λ x v1 c res k. cc)
        λ again v1 c1 e1.
          calmly (Lists v) (ok_or again (api "couldnt_find_community")) _ v1
            (Reads-ok_or again (api "couldnt_find_community")) (λ x v2 c res k. cc)
            λ moderators v2 c2 e2 res k.
              let seen : some (moderators_of v.db request.community_id) ≡ some moderators =
                (query-ok listing again v v1 e1).1 moderators
                  (ok_or-ok again (api "couldnt_find_community") moderators v1 v2 e2).0 in
              (
                ap (λ db. db.moderators) (c2.0 ∙ c1.0),
                ap (λ db. moderators_of db request.community_id) (c2.0 ∙ c1.0)
                    ∙ listed (moderators_of v.db request.community_id) moderators view res seen k,
              )
    where
      listed :
          (xs ys : List CommunityUser) (view : CommunityView) (res : GetCommunityResponse)
          → some xs ≡ some ys
          → ◌≡◌ {A = Result GetCommunityResponse}
              (ok (record { community = view; moderators = ys; online = 0 }))
              (ok res)
          → xs ≡ res.moderators
      listed xs ys view res e k = cc

  abbrev pub log_entry : ℕ → ModAddCommunity
  log_entry user_id = record {
    mod_user_id = user_id;
    other_user_id = request.user_id;
    community_id = request.community_id;
    removed = some false;
  }

  -- The steps after the moderators are in their new order.
  abbrev pub rest_of_transfer : ℕ → M GetCommunityResponse
  rest_of_transfer user_id = execute (log_moderator (log_entry user_id)) >>= λ logged.
      ok_or logged internal
      >> (query (λ db. read_community_view db request.community_id (some user_id)) >>= λ row.
          ok_or row (api "couldnt_find_community") >>= answer_with)

  pub rest_of_transfer-Lists : (user_id : ℕ) (v : World) → Lists v (rest_of_transfer user_id v)
  rest_of_transfer-Lists user_id v =
      let view_query = λ (db : Db). read_community_view db request.community_id (some user_id) in
      statement (log_moderator (log_entry user_id)) internal _ (Lists v) v (λ x v1 d res k. cc)
        λ entry v1 d.
          let logged = log_moderator-moderators (log_entry user_id) entry v.db v1.db d in
          calmly (Lists v) (query view_query) _ v1 (Reads-query view_query) (λ x v2 c res k. cc)
            λ row v2 c2 e2.
              calmly (Lists v) (ok_or row (api "couldnt_find_community")) _ v2
                (Reads-ok_or row (api "couldnt_find_community")) (λ x v3 c res k. cc)
                λ view v3 c3 e3 res k.
                  let (kept, lists) = answer_with-Lists view v3 res k in
                  (kept ∙ (ap (λ db. db.moderators) (c3.0 ∙ c2.0) ∙ logged), lists)

  -- The moderators leave and join again in their new order.
  abbrev pub reorder : ℕ → List CommunityUser → M GetCommunityResponse
  reorder user_id front = execute (delete_for_community request.community_id) >>= λ deleted.
      ok_or deleted internal >> (join_all front >> rest_of_transfer user_id)

  -- The steps after the creator is changed.
  abbrev pub after_change : ℕ → M GetCommunityResponse
  after_change user_id = query listing >>= λ listed.
      ok_or listed internal >>= λ mods. ok_or (to_front is_new mods) internal >>= reorder user_id

  abbrev pub change_creator : ℕ → M GetCommunityResponse
  change_creator user_id =
      execute (update_creator now request.community_id request.user_id) >>= λ updated.
      ok_or updated (api "couldnt_update_community") >> after_change user_id

  -- The caller must have created the community, or be an administrator.
  abbrev pub check_rights : User → Community → List ℕ → M GetCommunityResponse
  check_rights user read ordered =
      fail_if (not (user.id == read.creator_id) && not (any (λ id. id == user.id) ordered))
        (api "not_an_admin")
      >> change_creator user.id

  -- The steps after the administrators are listed.
  abbrev pub with_admins : User → Community → ℕ → List ℕ → M GetCommunityResponse
  with_admins user read site_creator_id all =
      ok_or (to_front (λ id. id == site_creator_id) all) internal >>= check_rights user read

  pub after_change-Keeps : (user_id : ℕ) → Keeps communities_of (after_change user_id)
  after_change-Keeps user_id = queried-Keeps listing internal _ λ mods.
      Keeps-bind communities_of _ _
        (Keeps-Reads communities_of (ok_or (to_front is_new mods) internal)
          (Reads-ok_or (to_front is_new mods) internal))
        λ front.
          executed-Keeps (delete_for_community request.community_id) internal _
            (delete_for_community-communities request.community_id)
            λ n. Keeps-bind communities_of _ _ (join_all-Keeps front) λ u. rest-Keeps user_id
    where
      rest-Keeps : (user_id : ℕ) → Keeps communities_of (rest_of_transfer user_id)
      rest-Keeps user_id =
          executed-Keeps (log_moderator (log_entry user_id)) internal _
            (log_moderator-communities (log_entry user_id))
            λ entry.
              queried-Keeps (λ db. read_community_view db request.community_id (some user_id))
                (api "couldnt_find_community") answer_with
                λ view.
                  queried-Keeps listing (api "couldnt_find_community") _ λ moderators. λ w. refl
