-- ===== src/Api/Community/Changes.antt =====
-- Who changes a community, and what becomes of the tables (`EditCommunity`, `DeleteCommunity` and
-- `RemoveCommunity` of lemmy_api/src/community.rs).
use lemmy.Prelude.{
  ℕ, true, false, not, Option, some, ◌≡◌, refl, ap, ◌∙◌, sym, inl, inr, arith, ◌==◌, if◌then◌else◌,
}
use lemmy.Structs.{CommunityResponse}
use lemmy.Structs as Structs
use lemmy.Db.Tables.{User, read_user}
use lemmy.Db.Community.{
  set_community, set_community_deleted, set_community_removed, update_community_deleted,
  update_community_removed, read_community,
}
use lemmy.Db.Members.{log_community_removal}
use lemmy.Api.Texts.{naive_from_unix}
use lemmy.Api.TextChecks.{naive_from_unix-Reads}
use lemmy.Api.Monad.{World, ActivityKind}
use lemmy.Api.Community.Requests.{Services, EditCommunity, DeleteCommunity, RemoveCommunity}
use lemmy.Api.Community.Write.{edit, delete, remove}
use lemmy.Api.Checks.{get_user_from_jwt-Reads, get_user_from_jwt-ok}
use lemmy.Api.Effects.{Reads-fail_if, calmly}
use lemmy.Api.Steps.{statement, fail_if-ok}
use lemmy.Api.Community.Guards.{
  find_community-Reads, find_community-ok, is_admin-Reads, is_admin-ok, shown_community_after,
}
use lemmy.Api.Community.Outcomes.{
  CommunityOutcome, ByOwner, ByCommunityMod, ByAdmin, community_removal,
}
use lemmy.Api.Community.Edits.{edit_community_lem}

same-id : (a b : ℕ) → not (a == b) ≡ false → a ≡ b
same-id a b h = ground arith

module _ (env : Services) (now : ℕ) (websocket_id : Option ℕ) (w : World) where
  delete_community_lem :
      (request : DeleteCommunity)
      → CommunityOutcome
          (ByOwner now request w)
          env
          request.auth
          w
          (delete env now websocket_id request w)
  unfolding delete update_community_deleted
  delete_community_lem request =
      let Q = CommunityOutcome (ByOwner now request w) env request.auth w in
      calmly Q _ _ w (get_user_from_jwt-Reads env.decode request.auth) (λ x v c. inl (refl, c.0))
        λ user w1 c1 e1.
          calmly Q _ _ w1 (find_community-Reads request.edit_id) (λ x v c. inl (refl, c.0 ∙ c1.0))
            λ read w2 c2 e2.
              calmly Q _ _ w2 (Reads-fail_if _ _) (λ x v c. inl (refl, c.0 ∙ (c2.0 ∙ c1.0)))
                λ u3 w3 c3 e3.
                  let same = c3.0 ∙ (c2.0 ∙ c1.0) in
                  statement _ _ _ Q w3 (λ x v d. inl (refl, d ∙ same))
                    λ row w4 d.
                      let (kept, shows) =
                        shown_community_after
                          (if request.deleted
                            then ActivityKind.delete
                            else ActivityKind.undo_delete)
                          row request.edit_id user.id Structs.delete_community websocket_id w4 in
                      inr (
                        user,
                        get_user_from_jwt-ok env.decode request.auth user w w1 e1,
                        (
                          (
                            read,
                            ap (λ db. read_community db request.edit_id) (sym c1.0)
                                ∙ find_community-ok request.edit_id read w1 w2 e2,
                            same-id read.creator_id user.id (fail_if-ok _ _ u3 w2 w3 e3).0,
                          ),
                          (
                            row,
                            ap
                                  (set_community request.edit_id
                                    (set_community_deleted now request.deleted))
                                  (sym same)
                                ∙ (d ∙ ap (λ db. some (row, db)) (sym kept)),
                          ),
                          shows,
                        ),
                      )

  remove_community_lem :
      (request : RemoveCommunity)
      → CommunityOutcome
          (ByAdmin now request w)
          env
          request.auth
          w
          (remove env now websocket_id request w)
  unfolding remove update_community_removed
  remove_community_lem request =
      let Q = CommunityOutcome (ByAdmin now request w) env request.auth w in
      let change = set_community_removed now request.removed in
      calmly Q _ _ w (get_user_from_jwt-Reads env.decode request.auth) (λ x v c. inl (refl, c.0))
        λ user w1 c1 e1.
          calmly Q _ _ w1 (is_admin-Reads user.id) (λ x v c. inl (refl, c.0 ∙ c1.0))
            λ u2 w2 c2 e2.
              let same = c2.0 ∙ c1.0 in
              let caller = get_user_from_jwt-ok env.decode request.auth user w w1 e1 in
              let (admin, there, is) = is_admin-ok user.id u2 w1 w2 e2 in
              let rights : (u : User) × (read_user w.db user.id ≡ some u) × (u.admin ≡ true) =
                (admin, ap (λ db. read_user db user.id) (sym c1.0) ∙ there, is) in
              statement (set_community request.edit_id change) _ _ Q w2
                (λ x v d. inl (refl, d ∙ same))
                λ row w3 d.
                  let made = ap (set_community request.edit_id change) (sym same) ∙ d in
                  let form = community_removal request user.id in
                  calmly Q (naive_from_unix env.is_date request.expires) _ w3
                    (naive_from_unix-Reads env.is_date request.expires)
                    (λ x v g. inr (user, caller, (rights, (row, w3.db, made, inl (refl, g.0)))))
                    λ u w3' g e.
                      statement (log_community_removal form) _ _ Q w3'
                        (λ x v f.
                          inr (user, caller, (rights, (row, w3.db, made, inl (refl, f ∙ g.0)))))
                        λ entry w4 f.
                          let (kept, shows) =
                            shown_community_after
                              (if request.removed
                                then ActivityKind.remove
                                else ActivityKind.undo_remove)
                              row request.edit_id user.id Structs.remove_community websocket_id
                              w4 in
                          inr (
                            user,
                            caller,
                            (
                              rights,
                              (
                                row,
                                w3.db,
                                made,
                                inr (
                                  entry,
                                  ap (log_community_removal form) (sym g.0)
                                      ∙ (f ∙ ap (λ db. some (entry, db)) (sym kept)),
                                  shows,
                                ),
                              ),
                            ),
                          )

  -- Editing, deleting and removing a community each fail and leave the tables as they are, or the
  -- caller is a user with a valid token who is not banned from the site, and moderates the community
  -- for an edit, created it for a deletion, is an administrator for a removal. An edit's title has no
  -- slurs. Then the tables after it are those of the one update of that community; a removal also has
  -- an entry in the log that names the caller, unless the handler failed after the update. A
  -- successful answer is the caller's view of the community in these tables.
  pub change_community_lem :
      (editing : EditCommunity) (deleting : DeleteCommunity) (removing : RemoveCommunity)
      → CommunityOutcome
          (ByCommunityMod env now editing w)
          env
          editing.auth
          w
          (edit env now websocket_id editing w)
        × CommunityOutcome
            (ByOwner now deleting w)
            env
            deleting.auth
            w
            (delete env now websocket_id deleting w)
        × CommunityOutcome
            (ByAdmin now removing w)
            env
            removing.auth
            w
            (remove env now websocket_id removing w)
  change_community_lem editing deleting removing = (
    edit_community_lem env now websocket_id w editing,
    delete_community_lem deleting,
    remove_community_lem removing,
  )
