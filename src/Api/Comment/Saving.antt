-- ===== src/Api/Comment/Saving.antt =====
-- Saving a comment, or forgetting that it was saved (`SaveComment` of lemmy_api/src/comment.rs).
use lemmy.Prelude.{
  Bool, true, false, none, some, Result, ok, err, is_ok, LemmyError, ◌≡◌, refl, ap, ◌∙◌, subst, [],
  ◌⊎◌, inl, inr,
}
use lemmy.Structs.{CommentResponse}
use lemmy.Db.Tables.{User, CommentSaved}
use lemmy.Db.Likes.{save, unsave}
use lemmy.Db.Saved.{marked, save-marked, unsave-marked, marked-is_saved, read_view-saved, is_saved}
use lemmy.Api.Monad.{World}
use lemmy.Api.Comment.Requests.{Env, SaveComment}
use lemmy.Api.Comment.Votes.{set_saved, save_comment}
use lemmy.Api.Checks.{
  IsCaller, get_user_from_jwt-Reads, get_user_from_jwt-ok, see_comment-Reads, see_comment-ok,
}
use lemmy.Api.Effects.{calmly, seq}
use lemmy.Api.Steps.{statement}

-- A failure leaves the tables as they are, a success marks them.
abbrev Marked : Bool → CommentSaved → World → Result (Unit {0}) × World → Type 0
Marked b form w r =
    ((is_ok r.0 ≡ false) × (r.1.db ≡ w.db)) ⊎ ((is_ok r.0 ≡ true) × (r.1.db ≡ marked b form w.db))

set_saved-Marked :
    (b : Bool) (form : CommentSaved) (w : World) → Marked b form w (set_saved b form w)
unfolding set_saved
set_saved-Marked true form w =
    statement (save form) _ _ (Marked true form w) w (λ x v d. inl (refl, d))
      λ row v d. inr (refl, save-marked form row w.db v.db d)
set_saved-Marked false form w =
    statement (unsave form) _ _ (Marked false form w) w (λ x v d. inl (refl, d))
      λ n v d. inr (refl, unsave-marked form n w.db v.db d)

failed_mark :
    (b : Bool) (form : CommentSaved) (x : LemmyError) (w w' : World)
    → Marked b form w (err x, w')
    → w'.db ≡ w.db
failed_mark b form x w w' (inl (fails, d)) = d
failed_mark b form x w w' (inr (went, d)) = cc

made_mark :
    (b : Bool) (form : CommentSaved) (u : Unit {0}) (w w' : World)
    → Marked b form w (ok u, w')
    → w'.db ≡ marked b form w.db
made_mark b form u w w' (inl (fails, d)) = cc
made_mark b form u w w' (inr (went, d)) = d

same_answer : (a b : CommentResponse) → ◌≡◌ {A = Result CommentResponse} (ok a) (ok b) → b ≡ a
same_answer a b e = cc

module _ (env : Env) (request : SaveComment) (w : World) where
  -- The handler failed and changed nothing, or the caller's mark is as requested, and an answer
  -- shows it.
  abbrev pub HasSaved : Result CommentResponse × World → Type 0
  HasSaved r =
      ((is_ok r.0 ≡ false) × (r.1.db ≡ w.db))
      ⊎ ((user : User) × IsCaller env.decode request.auth w.db user
          × (r.1.db
              ≡ marked request.save (record { comment_id = request.comment_id; user_id = user.id })
                  w.db)
          × ((res : CommentResponse) → r.0 ≡ ok res → res.comment.saved ≡ some request.save))

  -- Saving a comment fails and leaves the tables as they are, or the caller is a user with a valid
  -- token who is not banned from the site, and nothing in the tables changes but the caller's mark on
  -- that comment, which is made or taken away as requested. A successful answer shows the mark as
  -- requested.
  pub save_comment_lem : HasSaved (save_comment env request w)
  unfolding save_comment
  save_comment_lem =
      calmly HasSaved _ _ w (get_user_from_jwt-Reads env.decode request.auth)
        (λ x v c. inl (refl, c.0))
        λ user w1 c e.
          let caller = get_user_from_jwt-ok env.decode request.auth user w w1 e in
          let form : CommentSaved = record { comment_id = request.comment_id; user_id = user.id } in
          let set = set_saved-Marked request.save form w1 in
          seq HasSaved _ _ w1
            (λ x w2 h. inl (
              refl,
              failed_mark request.save form x w1 w2 (subst (Marked request.save form w1) h set)
                  ∙ c.0,
            ))
            λ u w2 h.
              let made =
                made_mark request.save form u w1 w2 (subst (Marked request.save form w1) h set)
                ∙ ap (marked request.save form) c.0 in
              calmly HasSaved _ _ w2 (see_comment-Reads request.comment_id (some user.id))
                (λ x w3 d. inr (user, caller, d.0 ∙ made, λ res k. cc))
                λ view w3 d f. inr (
                  user,
                  caller,
                  d.0 ∙ made,
                  λ res k.
                      ap (λ (a : CommentResponse). a.comment.saved)
                        (same_answer (record { comment = view; recipient_ids = []; form_id = none })
                          res k)
                      ∙ (read_view-saved w2.db request.comment_id user.id view
                            (see_comment-ok request.comment_id (some user.id) view w2 w3 f)
                          ∙ ap some (
                              ap (λ db. is_saved db form) made
                              ∙ marked-is_saved request.save form w.db)),
                )
