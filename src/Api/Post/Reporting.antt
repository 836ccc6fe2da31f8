-- ===== src/Api/Post/Reporting.antt =====
-- Reporting a post, and resolving such a report (`CreatePostReport`, `ResolvePostReport` of
-- lemmy_api/src/post.rs).
use lemmy.Prelude.{
  ℕ, Bool, true, false, Option, none, some, Result, ok, is_ok, internal, ◌≡◌, refl, ap, ◌∙◌, sym,
  ◌⊎◌, inl, inr, if◌then◌else◌,
}
use lemmy.Prelude.Text.{fits}
use lemmy.Structs.{PostView, resolve_post_report, report_resolved}
use lemmy.Db.Tables.{Db, User}
use lemmy.Db.Access.{is_mod_or_admin_db}
use lemmy.Db.Post.{read_post_view}
use lemmy.Db.PostReports.{
  PostReportView, PostReportForm, read_post_report_view, resolve_post, unresolve_post,
  set_post_report, report_post,
}
use lemmy.Api.Monad.{World}
use lemmy.Api.Post.Requests.{Services, ResolvePostReport, CreatePostReport}
use lemmy.Api.Post.Reports.{resolve_report, create_report}
use lemmy.Chat.Handlers.{send_mod_room}
use lemmy.Api.Checks.{
  IsCaller, get_user_from_jwt-Reads, get_user_from_jwt-ok, is_mod_or_admin-Reads,
  is_mod_or_admin-ok, check_community_ban-Reads,
}
use lemmy.Api.Effects.{calmly, Reads-query, Reads-ok_or, Reads-fail_if}
use lemmy.Api.Steps.{statement, query-ok, ok_or-ok}
use lemmy.Api.Comment.Resolving.{told}
use lemmy.Api.Post.Guards.{see_post-Reads, see_post-ok}

set_post_report-if :
    (b : Bool) (now report_id user_id : ℕ) (db : Db)
    → (if b then resolve_post now report_id user_id else unresolve_post now report_id user_id) db
      ≡ set_post_report now b report_id user_id db
unfolding resolve_post unresolve_post
set_post_report-if true now report_id user_id db = refl
set_post_report-if false now report_id user_id db = refl

module _ (env : Services) (now : ℕ) (request : ResolvePostReport) (w : World) where
  -- The handler failed and changed nothing, or who has the rights set the report's flag.
  abbrev pub HasResolvedPost : Result (ℕ × Bool) × World → Type 0
  HasResolvedPost r =
      ((is_ok r.0 ≡ false) × (r.1.db ≡ w.db))
      ⊎ ((user : User) × (view : PostReportView) × (n : ℕ) × IsCaller env.decode request.auth w.db
            user
          × (read_post_report_view w.db request.report_id ≡ some view)
          × (is_mod_or_admin_db w.db user.id view.community_id ≡ true)
          × (set_post_report now request.resolved request.report_id user.id w.db ≡ some (n, r.1.db))
          × (r.0 ≡ ok (request.report_id, true)))

  -- Resolving a report of a post or opening it again fails and leaves the tables as they are, or the
  -- caller is a user with a valid token who is not banned from the site, and who moderates the
  -- community of the reported post or is an administrator; then the tables after it are those of the
  -- one update that sets the report's flag as requested, in the caller's name. The answer says that
  -- the report is resolved, whichever was requested.
  pub resolve_post_report_lem :
      (websocket_id : Option ℕ) → HasResolvedPost (resolve_report env now websocket_id request w)
  unfolding resolve_report
  resolve_post_report_lem websocket_id =
      calmly HasResolvedPost _ _ w (get_user_from_jwt-Reads env.decode request.auth)
        (λ x v c. inl (refl, c.0))
        λ user w1 c1 e1.
          calmly HasResolvedPost _ _ w1
            (Reads-query (λ db. read_post_report_view db request.report_id))
            (λ x v c. inl (refl, c.0 ∙ c1.0))
            λ o w2 c2 e2.
              calmly HasResolvedPost _ _ w2 (Reads-ok_or o internal)
                (λ x v c. inl (refl, c.0 ∙ (c2.0 ∙ c1.0)))
                λ view w3 c3 e3.
                  let d3 = c3.0 ∙ (c2.0 ∙ c1.0) in
                  calmly HasResolvedPost _ _ w3 (is_mod_or_admin-Reads user.id view.community_id)
                    (λ x v c. inl (refl, c.0 ∙ d3))
                    λ u w4 c4 e4.
                      statement _ _ _ HasResolvedPost w4 (λ x v d. inl (refl, d ∙ (c4.0 ∙ d3)))
                        λ n w5 e5.
                          let (kept, answer) =
                            told
                              (send_mod_room resolve_post_report
                                (report_resolved request.report_id true) view.community_id
                                websocket_id)
                              (request.report_id, true) w5 in
                          inr (
                            user,
                            view,
                            n,
                            get_user_from_jwt-ok env.decode request.auth user w w1 e1,
                            ap (λ db. read_post_report_view db request.report_id) (sym c1.0)
                                ∙ (query-ok (λ db. read_post_report_view db request.report_id) o w1
                                      w2 e2).1
                                    view (ok_or-ok o internal view w2 w3 e3).0,
                            ap (λ db. is_mod_or_admin_db db user.id view.community_id) (sym d3)
                                ∙ is_mod_or_admin-ok user.id view.community_id u w3 w4 e4,
                            ap (set_post_report now request.resolved request.report_id user.id)
                                  (sym (c4.0 ∙ d3))
                                ∙ (sym (
                                      set_post_report-if request.resolved now request.report_id
                                        user.id w4.db)
                                    ∙ (e5 ∙ ap (λ db. some (n, db)) (sym kept))),
                            answer,
                          )

report_post-refused :
    (form : PostReportForm) (db : Db)
    → fits 100 form.original_post_name ≡ false
    → report_post form db ≡ none
unfolding report_post
report_post-refused form db h = rw (report_post, h) refl

module _ (env : Services) (request : CreatePostReport) (websocket_id : Option ℕ) (w : World) where
  -- A report of a post whose title does not fit in a hundred characters, which a title may exceed up
  -- to two hundred, always fails and leaves the tables as they are.
  pub create_report-long_title :
      (view : PostView)
      → read_post_view w.db request.post_id none ≡ some view
      → fits 100 view.name ≡ false
      → (is_ok (create_report env websocket_id request w).0 ≡ false)
        × ((create_report env websocket_id request w).1.db ≡ w.db)
  unfolding create_report
  create_report-long_title view seen long =
      let Q : Result Bool × World → Type 0 = λ r. (is_ok r.0 ≡ false) × (r.1.db ≡ w.db) in
      calmly Q _ _ w (get_user_from_jwt-Reads env.decode request.auth) (λ x v c. (refl, c.0))
        λ user w1 c1 e1.
          calmly Q _ _ w1 (Reads-fail_if _ _) (λ x v c. (refl, c.0 ∙ c1.0))
            λ u2 w2 c2 e2.
              calmly Q _ _ w2 (Reads-fail_if _ _) (λ x v c. (refl, c.0 ∙ (c2.0 ∙ c1.0)))
                λ u3 w3 c3 e3.
                  let d3 = c3.0 ∙ (c2.0 ∙ c1.0) in
                  calmly Q _ _ w3 (see_post-Reads request.post_id none internal)
                    (λ x v c. (refl, c.0 ∙ d3))
                    λ post w4 c4 e4.
                      calmly Q _ _ w4 (check_community_ban-Reads user.id post.community_id)
                        (λ x v c. (refl, c.0 ∙ (c4.0 ∙ d3)))
                        λ u5 w5 c5 e5.
                          statement _ _ _ Q w5 (λ x v d. (refl, d ∙ (c5.0 ∙ (c4.0 ∙ d3))))
                            λ row w6 e6.
                              let same = name_of view post (
                                sym seen
                                ∙ (ap (λ db. read_post_view db request.post_id none) (sym d3)
                                    ∙ see_post-ok request.post_id none internal post w3 w4 e4)) in
                              impossible (report_post-refused _ w5.db (ap (fits 100) same ∙ long))
                                e6
    where
      name_of : (a b : PostView) → ◌≡◌ {A = Option PostView} (some a) (some b) → b.name ≡ a.name
      name_of a b e = cc

      impossible : {A B : Type 0} {o : Option A} {a : A} → o ≡ none → o ≡ some a → B
      impossible e h = cc
