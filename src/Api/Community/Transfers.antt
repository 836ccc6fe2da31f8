-- ===== src/Api/Community/Transfers.antt =====
-- Handing a community over (`TransferCommunity` of lemmy_api/src/community.rs).
use lemmy.Prelude.{
  ℕ, Bool, true, false, not, ◌&&◌, List, ◌∷◌, ◌++◌, Option, some, Result, ok, is_ok, internal, api,
  ◌≡◌, refl, ap, ◌∙◌, sym, ◌⊎◌, inl, inr, arith, any, retain, ◌==◌,
}
use lemmy.Structs.{CommunityUser}
use lemmy.Db.Tables.{Db, User, Community}
use lemmy.Db.Community.{read_community, update_creator, set_community, moderators_of, admins}
use lemmy.Db.Members.{delete_for_community}
use lemmy.Db.Moderators.{delete_for_community-retains, moderators_of-replaced, any-not-retain}
use lemmy.Api.Monad.{M, World, ok_or, fail_if, query, ◌>>=◌}
use lemmy.Api.Auth.{get_user_from_jwt}
use lemmy.Api.Community.Requests.{Services, TransferCommunity, GetCommunityResponse}
use lemmy.Api.Community.Write.{find_community}
use lemmy.Api.Community.Members.{transfer, to_front, join_all}
use lemmy.Api.Checks.{IsCaller, get_user_from_jwt-Reads, get_user_from_jwt-ok}
use lemmy.Api.Effects.{Reads-query, Reads-ok_or, Reads-fail_if, calmly, seq}
use lemmy.Api.Steps.{statement, fail_if-ok, query-ok, ok_or-ok}
use lemmy.Api.Community.Guards.{find_community-Reads, find_community-ok}
use lemmy.Api.Community.Handover.{
  is_new, listing, rest_of_transfer, rest_of_transfer-Lists, reorder, change_creator,
  after_change-Keeps, check_rights, with_admins,
}
use lemmy.Api.Community.Order.{to_front-any, join_all-appends}

module _ (env : Services) (now : ℕ) (request : TransferCommunity) (w : World) where
  -- The moderators in their new order, if the handler went through.
  abbrev pub Reordered : Result GetCommunityResponse × World → Type 0
  Reordered r =
      (res : GetCommunityResponse)
      → r.0 ≡ ok res
      → (moderators_of r.1.db request.community_id ≡ res.moderators)
        × ((m : CommunityUser) × (rest : List CommunityUser) × (res.moderators ≡ m ∷ rest)
            × (is_new now request m ≡ true))
        × ((q : CommunityUser → Bool)
            → any q res.moderators ≡ any q (moderators_of w.db request.community_id))

  abbrev pub TransferOutcome : Result GetCommunityResponse × World → Type 0
  TransferOutcome r =
      ((is_ok r.0 ≡ false) × (r.1.db ≡ w.db))
      ⊎ ((user : User) × (c : Community) × IsCaller env.decode request.auth w.db user
          × (read_community w.db request.community_id ≡ some c)
          × ((user.id ≡ c.creator_id) ⊎ (any (λ id. id == user.id) (admins w.db) ≡ true))
          × ((row : Community) × (db : Db) × (update_creator now request.community_id
                  request.user_id w.db
                ≡ some (row, db))
              × (r.1.db.communities ≡ db.communities))
          × Reordered r)

  reorder-Reordered :
      (user_id : ℕ) (front : List CommunityUser) (v : World)
      → v.db.moderators ≡ w.db.moderators
      → to_front (is_new now request) (moderators_of w.db request.community_id) ≡ some front
      → Reordered (reorder now request user_id front v)
  unfolding moderators_of
  reorder-Reordered user_id front v same moved =
      let here : CommunityUser → Bool = λ m. m.community_id == request.community_id in
      let mods = moderators_of w.db request.community_id in
      let (first, all) = to_front-any (is_new now request) (λ m. not (here m)) mods front moved in
      let inside = all ∙ any-not-retain here w.db.moderators in
      statement (delete_for_community request.community_id) internal _ Reordered v
        (λ x v1 d res k. cc)
        λ n v1 d.
          let left = delete_for_community-retains request.community_id n v.db v1.db d in
          seq Reordered (join_all front) (λ u. rest_of_transfer now request user_id) v1
            (λ x v2 h res k. cc)
            λ u v2 h res k.
              let joined = join_all-appends front u v1 v2 h in
              let (kept, lists) = rest_of_transfer-Lists now request user_id v2 res k in
              let final =
                kept
                ∙ (ap (λ db. db.moderators) joined
                    ∙ (ap (λ db. db.moderators ++ front) left
                        ∙ ap (λ l. retain (λ r. not (here r)) l ++ front) same)) in
              let ordered =
                ap (retain here) final
                ∙ moderators_of-replaced request.community_id front w.db inside in
              let listed = sym lists ∙ ordered in
              let (m, rest, split, passes) = first in
              (
                lists,
                (m, rest, listed ∙ split, passes),
                λ q. ap (any q) listed ∙ (to_front-any (is_new now request) q mods front moved).1,
              )

  update_creator-moderators :
      (row : Community) (d d' : Db)
      → update_creator now request.community_id request.user_id d ≡ some (row, d')
      → d'.moderators ≡ d.moderators
  unfolding update_creator set_community
  update_creator-moderators row d d' h = ground arith

  -- The creator is changed, and the moderators are reordered if the handler went through.
  abbrev Changes : Result GetCommunityResponse × World → Type 0
  Changes r =
      ((is_ok r.0 ≡ false) × (r.1.db ≡ w.db))
      ⊎ (((row : Community) × (db : Db) × (update_creator now request.community_id request.user_id
                w.db
              ≡ some (row, db))
            × (r.1.db.communities ≡ db.communities))
          × Reordered r)

  change_creator-Changes :
      (user_id : ℕ) (v : World) → v.db ≡ w.db → Changes (change_creator now request user_id v)
  unfolding moderators_of
  change_creator-Changes user_id v same =
      statement (update_creator now request.community_id request.user_id)
        (api "couldnt_update_community") _ Changes v (λ x v1 d. inl (refl, d ∙ same))
        λ row v1 d.
          let made = ap (update_creator now request.community_id request.user_id) (sym same) ∙ d in
          let kept = update_creator-moderators row w.db v1.db made in
          inr (
            (row, v1.db, made, after_change-Keeps now request user_id v1),
            calmly Reordered (query (listing now request)) _ v1 (Reads-query (listing now request))
                (λ x v2 c res k. cc)
                λ listed v2 c2 e2.
                  calmly Reordered (ok_or listed internal) _ v2 (Reads-ok_or listed internal)
                    (λ x v3 c res k. cc)
                    λ mods v3 c3 e3.
                      calmly Reordered (ok_or (to_front (is_new now request) mods) internal)
                        (reorder now request user_id) v3
                        (Reads-ok_or (to_front (is_new now request) mods) internal)
                        (λ x v4 c res k. cc)
                        λ front v4 c4 e4.
                          let seen =
                            (query-ok (listing now request) listed v1 v2 e2).1 mods
                              (ok_or-ok listed internal mods v2 v3 e3).0 in
                          let at_start =
                            ap (λ l. some (retain (λ m. m.community_id == request.community_id) l))
                              (sym kept)
                            ∙ seen in
                          reorder-Reordered user_id front v4
                            (ap (λ db. db.moderators) (c4.0 ∙ (c3.0 ∙ c2.0)) ∙ kept)
                            (ap (to_front (is_new now request)) (of_some _ mods at_start)
                              ∙ (ok_or-ok (to_front (is_new now request) mods) internal front v3 v4
                                  e4).0),
          )
    where
      of_some : (xs ys : List CommunityUser) → some xs ≡ some ys → xs ≡ ys
      of_some xs ys e = cc

  change_creator-Outcome :
      (user : User) (c : Community) (v : World)
      → IsCaller env.decode request.auth w.db user
      → read_community w.db request.community_id ≡ some c
      → (user.id ≡ c.creator_id) ⊎ (any (λ id. id == user.id) (admins w.db) ≡ true)
      → v.db ≡ w.db
      → TransferOutcome (change_creator now request user.id v)
  change_creator-Outcome user c v caller found rights same =
      elim (change_creator-Changes user.id v same) [
        | inl refused ↦ inl refused
        | inr (made, reordered) ↦ inr (user, c, caller, found, rights, made, reordered)
      ]

  has_rights :
      (user_id creator_id site_creator_id : ℕ) (all ordered : List ℕ) (d : Db)
      → d ≡ w.db
      → some (admins d) ≡ some all
      → to_front (λ id. id == site_creator_id) all ≡ some ordered
      → (not (user_id == creator_id) && not (any (λ id. id == user_id) ordered)) ≡ false
      → (user_id ≡ creator_id) ⊎ (any (λ id. id == user_id) (admins w.db) ≡ true)
  has_rights user_id creator_id site_creator_id all ordered d same listed moved passed =
      let kept =
        (to_front-any (λ id. id == site_creator_id) (λ id. id == user_id) all ordered moved).1 in
      let from = ap (any (λ id. id == user_id)) (of_some (admins d) all listed) in
      let here = ap (λ db. any (λ id. id == user_id) (admins db)) same in ground arith
    where
      of_some : (xs ys : List ℕ) → some xs ≡ some ys → xs ≡ ys
      of_some xs ys e = cc

  check_rights-Outcome :
      (user : User) (c : Community) (ordered : List ℕ) (v : World)
      → IsCaller env.decode request.auth w.db user
      → read_community w.db request.community_id ≡ some c
      → ((not (user.id == c.creator_id) && not (any (λ id. id == user.id) ordered)) ≡ false
          → (user.id ≡ c.creator_id) ⊎ (any (λ id. id == user.id) (admins w.db) ≡ true))
      → v.db ≡ w.db
      → TransferOutcome (check_rights now request user c ordered v)
  check_rights-Outcome user c ordered v caller known rights same =
      let refused = not (user.id == c.creator_id) && not (any (λ id. id == user.id) ordered) in
      calmly TransferOutcome (fail_if refused (api "not_an_admin"))
        (λ u. change_creator now request user.id) v (Reads-fail_if refused (api "not_an_admin"))
        (λ x v1 c1. inl (refl, c1.0 ∙ same))
        λ u v1 c1 e1.
          change_creator-Outcome user c v1 caller known
            (rights (fail_if-ok refused (api "not_an_admin") u v v1 e1).0) (c1.0 ∙ same)

  with_admins-Outcome :
      (user : User) (c : Community) (site_creator_id : ℕ) (all : List ℕ) (v : World)
      → IsCaller env.decode request.auth w.db user
      → read_community w.db request.community_id ≡ some c
      → some (admins w.db) ≡ some all
      → v.db ≡ w.db
      → TransferOutcome (with_admins now request user c site_creator_id all v)
  with_admins-Outcome user c site_creator_id all v caller known listed same =
      let moved = to_front (λ id. id == site_creator_id) all in
      calmly TransferOutcome (ok_or moved internal) (check_rights now request user c) v
        (Reads-ok_or moved internal) (λ x v1 c1. inl (refl, c1.0 ∙ same))
        λ ordered v1 c1 e1.
          check_rights-Outcome user c ordered v1 caller known
            (has_rights user.id c.creator_id site_creator_id all ordered w.db refl listed
              (ok_or-ok moved internal ordered v v1 e1).0)
            (c1.0 ∙ same)

  admins_step :
      (user : User) (c : Community) (site_creator_id : ℕ) (v : World)
      → IsCaller env.decode request.auth w.db user
      → read_community w.db request.community_id ≡ some c
      → v.db ≡ w.db
      → TransferOutcome (
          (query (λ db. some (admins db)) >>= λ found.
          ok_or found internal >>= with_admins now request user c site_creator_id)
            v)
  admins_step user c site_creator_id v caller known same =
      let listed : Db → Option (List ℕ) = λ db. some (admins db) in
      calmly TransferOutcome (query listed)
        (λ found. ok_or found internal >>= with_admins now request user c site_creator_id) v
        (Reads-query listed) (λ x v1 c1. inl (refl, c1.0 ∙ same))
        λ found v1 c1 e1.
          calmly TransferOutcome (ok_or found internal)
            (with_admins now request user c site_creator_id) v1 (Reads-ok_or found internal)
            (λ x v2 c2. inl (refl, c2.0 ∙ (c1.0 ∙ same)))
            λ all v2 c2 e2.
              with_admins-Outcome user c site_creator_id all v2 caller known
                (ap listed (sym same)
                  ∙ (query-ok listed found v v1 e1).1 all (ok_or-ok found internal all v1 v2 e2).0)
                (c2.0 ∙ (c1.0 ∙ same))

  -- Handing a community over fails and leaves the tables as they are, or the caller is a user with a
  -- valid token who is not banned from the site, and created the community or is an administrator;
  -- then the communities are those of the one update that sets the creator of this one, also where
  -- the handler fails after that. If it succeeds, the moderators of the community are those before
  -- it, none lost and none new, with the new creator first, and the answer lists them in this order.
  pub transfer_lem : TransferOutcome (transfer env now request w)
  unfolding transfer
  transfer_lem =
      let sited : Db → Option ℕ = λ db. db.site_creator in
      let admins_then : User → Community → ℕ → M GetCommunityResponse = λ user c site_creator_id.
        query (λ db. some (admins db)) >>= λ found.
        ok_or found internal >>= with_admins now request user c site_creator_id in
      calmly TransferOutcome (get_user_from_jwt env.decode request.auth)
        (λ user. find_community request.community_id >>= λ c.
          query sited >>= λ site. ok_or site internal >>= admins_then user c)
        w (get_user_from_jwt-Reads env.decode request.auth) (λ x v c. inl (refl, c.0))
        λ user w1 c1 e1.
          calmly TransferOutcome (find_community request.community_id)
            (λ c. query sited >>= λ site. ok_or site internal >>= admins_then user c) w1
            (find_community-Reads request.community_id) (λ x v c. inl (refl, c.0 ∙ c1.0))
            λ read w2 c2 e2.
              let s2 = c2.0 ∙ c1.0 in
              calmly TransferOutcome (query sited)
                (λ site. ok_or site internal >>= admins_then user read) w2 (Reads-query sited)
                (λ x v c. inl (refl, c.0 ∙ s2))
                λ site w3 c3 e3.
                  calmly TransferOutcome (ok_or site internal) (admins_then user read) w3
                    (Reads-ok_or site internal) (λ x v c. inl (refl, c.0 ∙ (c3.0 ∙ s2)))
                    λ site_creator_id w4 c4 e4.
                      admins_step user read site_creator_id w4
                        (get_user_from_jwt-ok env.decode request.auth user w w1 e1)
                        (ap (λ db. read_community db request.community_id) (sym c1.0)
                          ∙ find_community-ok request.community_id read w1 w2 e2)
                        (c4.0 ∙ (c3.0 ∙ s2))
