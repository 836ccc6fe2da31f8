-- ===== src/Api/Community/Edits.antt =====
-- Editing a community (`EditCommunity` of lemmy_api/src/community.rs).
use lemmy.Prelude.{ℕ, true, List, Option, some, internal, map, ◌≡◌, refl, ap, ◌∙◌, sym, inl, inr}
use lemmy.Prelude.Sets as Sets
use lemmy.Structs.{CommunityResponse}
use lemmy.Structs as Structs
use lemmy.Db.Tables.{Db, User}
use lemmy.Db.Community.{update_community, read_community, moderators_of}
use lemmy.Api.Monad.{World}
use lemmy.Api.TextChecks.{
  check_slurs-Reads, check_slurs_opt-Reads, check_slurs-ok, check_optional_url-Reads,
}
use lemmy.Api.Community.Requests.{Services, EditCommunity}
use lemmy.Api.Community.Write.{edit, edit_form}
use lemmy.Api.Checks.{get_user_from_jwt-Reads, get_user_from_jwt-ok, not-false}
use lemmy.Api.Effects.{Reads-fail_if, Reads-query, Reads-ok_or, calmly}
use lemmy.Api.Steps.{statement, fail_if-ok, query-ok, ok_or-ok}
use lemmy.Api.Community.Guards.{find_community-Reads, find_community-ok, shown_community}
use lemmy.Api.Community.Outcomes.{CommunityOutcome, ByCommunityMod}

of_some : (xs ys : List ℕ) → some xs ≡ some ys → xs ≡ ys
of_some xs ys e = cc

module _ (env : Services) (now : ℕ) (websocket_id : Option ℕ) (w : World) where
  pub edit_community_lem :
      (request : EditCommunity)
      → CommunityOutcome
          (ByCommunityMod env now request w)
          env
          request.auth
          w
          (edit env now websocket_id request w)
  unfolding edit
  edit_community_lem request =
      let Q = CommunityOutcome (ByCommunityMod env now request w) env request.auth w in
      calmly Q _ _ w (get_user_from_jwt-Reads env.decode request.auth) (λ x v c. inl (refl, c.0))
        λ user w1 c1 e1.
          calmly Q _ _ w1 (check_slurs-Reads env.find_slurs request.title)
            (λ x v c. inl (refl, c.0 ∙ c1.0))
            λ u2 w2 c2 e2.
              calmly Q _ _ w2 (check_slurs_opt-Reads env.find_slurs request.description)
                (λ x v c. inl (refl, c.0 ∙ (c2.0 ∙ c1.0)))
                λ u3 w3 c3 e3.
                  let s3 = c3.0 ∙ (c2.0 ∙ c1.0) in
                  let listing =
                    λ (db : Db). some (map (λ m. m.user_id) (moderators_of db request.edit_id)) in
                  calmly Q _ _ w3 (Reads-query listing) (λ x v c. inl (refl, c.0 ∙ s3))
                    λ found w4 c4 e4.
                      calmly Q _ _ w4 (Reads-ok_or found internal)
                        (λ x v c. inl (refl, c.0 ∙ (c4.0 ∙ s3)))
                        λ mods w5 c5 e5.
                          calmly Q _ _ w5 (Reads-fail_if _ _)
                            (λ x v c. inl (refl, c.0 ∙ (c5.0 ∙ (c4.0 ∙ s3))))
                            λ u6 w6 c6 e6.
                              let s6 = c6.0 ∙ (c5.0 ∙ (c4.0 ∙ s3)) in
                              calmly Q _ _ w6 (find_community-Reads request.edit_id)
                                (λ x v c. inl (refl, c.0 ∙ s6))
                                λ read w7 c7 e7.
                                  calmly Q _ _ w7 (check_optional_url-Reads env.is_url _)
                                    (λ x v c. inl (refl, c.0 ∙ (c7.0 ∙ s6)))
                                    λ u8 w8 c8 e8.
                                      calmly Q _ _ w8 (check_optional_url-Reads env.is_url _)
                                        (λ x v c. inl (refl, c.0 ∙ (c8.0 ∙ (c7.0 ∙ s6))))
                                        λ u9 w9 c9 e9.
                                          let s9 = c9.0 ∙ (c8.0 ∙ (c7.0 ∙ s6)) in
                                          let form = edit_form env now request read in
                                          statement (update_community request.edit_id form) _ _ Q w9
                                            (λ x v d. inl (refl, d ∙ s9))
                                            λ row w10 d.
                                              let (kept, shows) =
                                                shown_community request.edit_id user.id
                                                  Structs.edit_community websocket_id w10 in
                                              inr (
                                                user,
                                                get_user_from_jwt-ok env.decode request.auth user w
                                                    w1 e1,
                                                (
                                                  listed user request.edit_id mods w.db w3.db s3
                                                      ((query-ok listing found w3 w4 e4).1 mods
                                                        (ok_or-ok found internal mods w4 w5 e5).0)
                                                      (not-false _ (fail_if-ok _ _ u6 w5 w6 e6).0),
                                                  check_slurs-ok env.find_slurs request.title u2 w1
                                                      w2 e2,
                                                  (
                                                    read,
                                                    row,
                                                    ap (λ db. read_community db request.edit_id)
                                                          (sym s6)
                                                        ∙ find_community-ok request.edit_id read w6
                                                            w7 e7,
                                                    ap (update_community request.edit_id form)
                                                          (sym s9)
                                                        ∙ (d
                                                            ∙ ap (λ db. some (row, db)) (sym kept)),
                                                  ),
                                                  shows,
                                                ),
                                              )
    where
      listed :
          (user : User) (id : ℕ) (mods : List ℕ) (db db' : Db)
          → db' ≡ db
          → some (map (λ m. m.user_id) (moderators_of db' id)) ≡ some mods
          → Sets.contains user.id mods ≡ true
          → Sets.contains user.id (map (λ m. m.user_id) (moderators_of db id)) ≡ true
      listed user id mods db db' e f h =
          ap (λ d. Sets.contains user.id (map (λ m. m.user_id) (moderators_of d id))) (sym e)
          ∙ (ap (Sets.contains user.id) (of_some _ _ f) ∙ h)
