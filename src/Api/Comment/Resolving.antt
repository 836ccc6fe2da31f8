-- ===== src/Api/Comment/Resolving.antt =====
-- Resolving a report, or opening it again (`ResolveCommentReport` of lemmy_api/src/comment.rs).
use lemmy.Prelude.{
  ℕ, Bool, true, false, Option, some, Result, ok, is_ok, internal, ◌≡◌, refl, ap, ◌∙◌, sym, ◌⊎◌,
  inl, inr, if◌then◌else◌,
}
use lemmy.Db.Tables.{Db, User}
use lemmy.Db.Access.{is_mod_or_admin_db}
use lemmy.Db.Reports.{CommentReportView, read_report_view, resolve, unresolve, set_report}
use lemmy.Api.Monad.{pure, do_send, World, ◌>>=◌, ◌>>◌}
use lemmy.Api.Comment.Requests.{Env, ResolveCommentReport}
use lemmy.Api.Comment.Reports.{resolve_report}
use lemmy.Chat.Handlers.{Message, send_mod_room}
use lemmy.Structs.{resolve_comment_report, report_resolved}
use lemmy.Api.Checks.{
  IsCaller, get_user_from_jwt-Reads, get_user_from_jwt-ok, is_mod_or_admin-Reads,
  is_mod_or_admin-ok,
}
use lemmy.Api.Effects.{calmly, Reads-query, Reads-ok_or}
use lemmy.Api.Steps.{statement, query-ok, ok_or-ok}

set_report-if :
    (b : Bool) (now report_id user_id : ℕ) (db : Db)
    → (if b then resolve now report_id user_id else unresolve now report_id user_id) db
      ≡ set_report now b report_id user_id db
unfolding resolve unresolve
set_report-if true now report_id user_id db = refl
set_report-if false now report_id user_id db = refl

-- The last steps: the chat server is told, and the handler answers.
pub told :
    {A : Type 0} (m : Message) (a : A) (w : World)
    → (((do_send m >> pure a) w).1.db ≡ w.db) × (((do_send m >> pure a) w).0 ≡ ok a)
unfolding ◌>>=◌ do_send
told m a w = (refl, refl)

module _ (env : Env) (now : ℕ) (request : ResolveCommentReport) (w : World) where
  -- The handler failed and changed nothing, or who has the rights set the report's flag.
  abbrev pub HasResolved : Result (ℕ × Bool) × World → Type 0
  HasResolved r =
      ((is_ok r.0 ≡ false) × (r.1.db ≡ w.db))
      ⊎ ((user : User) × (view : CommentReportView) × (n : ℕ) × IsCaller env.decode request.auth
            w.db user
          × (read_report_view w.db request.report_id ≡ some view)
          × (is_mod_or_admin_db w.db user.id view.community_id ≡ true)
          × (set_report now request.resolved request.report_id user.id w.db ≡ some (n, r.1.db))
          × (r.0 ≡ ok (request.report_id, request.resolved)))

  -- Resolving a report or opening it again fails and leaves the tables as they are, or the caller is
  -- a user with a valid token who is not banned from the site, and who moderates the community of the
  -- reported comment or is an administrator; then the tables after it are those of the one update
  -- that sets the report's flag as requested, in the caller's name, and the answer says so.
  pub resolve_report_lem :
      (websocket_id : Option ℕ) → HasResolved (resolve_report env now websocket_id request w)
  unfolding resolve_report
  resolve_report_lem websocket_id =
      calmly HasResolved _ _ w (get_user_from_jwt-Reads env.decode request.auth)
        (λ x v c. inl (refl, c.0))
        λ user w1 c1 e1.
          calmly HasResolved _ _ w1 (Reads-query (λ db. read_report_view db request.report_id))
            (λ x v c. inl (refl, c.0 ∙ c1.0))
            λ o w2 c2 e2.
              calmly HasResolved _ _ w2 (Reads-ok_or o internal)
                (λ x v c. inl (refl, c.0 ∙ (c2.0 ∙ c1.0)))
                λ view w3 c3 e3.
                  let d3 = c3.0 ∙ (c2.0 ∙ c1.0) in
                  calmly HasResolved _ _ w3 (is_mod_or_admin-Reads user.id view.community_id)
                    (λ x v c. inl (refl, c.0 ∙ d3))
                    λ u w4 c4 e4.
                      statement _ _ _ HasResolved w4 (λ x v d. inl (refl, d ∙ (c4.0 ∙ d3)))
                        λ n w5 e5.
                          let (kept, answer) =
                            told
                              (send_mod_room resolve_comment_report
                                (report_resolved request.report_id request.resolved)
                                view.community_id websocket_id)
                              (request.report_id, request.resolved) w5 in
                          inr (
                            user,
                            view,
                            n,
                            get_user_from_jwt-ok env.decode request.auth user w w1 e1,
                            ap (λ db. read_report_view db request.report_id) (sym c1.0)
                                ∙ (query-ok (λ db. read_report_view db request.report_id) o w1 w2
                                      e2).1
                                    view (ok_or-ok o internal view w2 w3 e3).0,
                            ap (λ db. is_mod_or_admin_db db user.id view.community_id) (sym d3)
                                ∙ is_mod_or_admin-ok user.id view.community_id u w3 w4 e4,
                            ap (set_report now request.resolved request.report_id user.id)
                                  (sym (c4.0 ∙ d3))
                                ∙ (sym (
                                      set_report-if request.resolved now request.report_id user.id
                                        w4.db)
                                    ∙ (e5 ∙ ap (λ db. some (n, db)) (sym kept))),
                            answer,
                          )
