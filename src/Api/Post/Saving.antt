-- ===== src/Api/Post/Saving.antt =====
-- Saving a post, or forgetting that it was saved (`SavePost` of lemmy_api/src/post.rs).
use lemmy.Prelude.{
  Bool, true, false, some, Result, ok, err, is_ok, LemmyError, internal, ◌≡◌, refl, ap, ◌∙◌, ◌⊎◌,
  inl, inr, subst,
}
use lemmy.Structs.{PostResponse}
use lemmy.Db.Tables.{User, PostSaved}
use lemmy.Db.PostMarks.{save_post_row, unsave_post_row}
use lemmy.Db.PostVotes.{
  post_marked, save_post_row-post_marked, unsave_post_row-post_marked, post_marked-is_post_saved,
  read_post_view-saved, is_post_saved,
}
use lemmy.Api.Monad.{World}
use lemmy.Api.Post.Requests.{Services, SavePost}
use lemmy.Api.Post.Votes.{save, set_post_saved}
use lemmy.Api.Checks.{IsCaller, get_user_from_jwt-Reads, get_user_from_jwt-ok}
use lemmy.Api.Effects.{calmly, seq}
use lemmy.Api.Steps.{statement}
use lemmy.Api.Post.Guards.{see_post-Reads, see_post-ok}

-- A failure leaves the tables as they are, a success marks them.
abbrev Marks : Bool → PostSaved → World → Result (Unit {0}) × World → Type 0
Marks b form w r =
    ((is_ok r.0 ≡ false) × (r.1.db ≡ w.db))
    ⊎ ((is_ok r.0 ≡ true) × (r.1.db ≡ post_marked b form w.db))

set_post_saved-Marks :
    (b : Bool) (form : PostSaved) (w : World) → Marks b form w (set_post_saved b form w)
unfolding set_post_saved
set_post_saved-Marks true form w =
    statement (save_post_row form) _ _ (Marks true form w) w (λ x v d. inl (refl, d))
      λ row v d. inr (refl, save_post_row-post_marked form row w.db v.db d)
set_post_saved-Marks false form w =
    statement (unsave_post_row form) _ _ (Marks false form w) w (λ x v d. inl (refl, d))
      λ n v d. inr (refl, unsave_post_row-post_marked form n w.db v.db d)

failed_mark :
    (b : Bool) (form : PostSaved) (x : LemmyError) (w w' : World)
    → Marks b form w (err x, w')
    → w'.db ≡ w.db
failed_mark b form x w w' (inl (fails, d)) = d
failed_mark b form x w w' (inr (went, d)) = cc

made_mark :
    (b : Bool) (form : PostSaved) (u : Unit {0}) (w w' : World)
    → Marks b form w (ok u, w')
    → w'.db ≡ post_marked b form w.db
made_mark b form u w w' (inl (fails, d)) = cc
made_mark b form u w w' (inr (went, d)) = d

same_post : (a b : PostResponse) → ◌≡◌ {A = Result PostResponse} (ok a) (ok b) → b ≡ a
same_post a b e = cc

module _ (env : Services) (request : SavePost) (w : World) where
  -- The handler failed and changed nothing, or the caller's mark is as requested, and an answer
  -- shows it.
  abbrev pub HasSavedPost : Result PostResponse × World → Type 0
  HasSavedPost r =
      ((is_ok r.0 ≡ false) × (r.1.db ≡ w.db))
      ⊎ ((user : User) × IsCaller env.decode request.auth w.db user
          × (r.1.db
              ≡ post_marked request.save (record { post_id = request.post_id; user_id = user.id })
                  w.db)
          × ((res : PostResponse) → r.0 ≡ ok res → res.post.saved ≡ some request.save))

  -- Saving a post fails and leaves the tables as they are, or the caller is a user with a valid token
  -- who is not banned from the site, and nothing in the tables changes but the caller's mark on that
  -- post, which is made or taken away as requested. A successful answer shows the mark as requested.
  pub save_post_lem : HasSavedPost (save env request w)
  unfolding save
  save_post_lem =
      calmly HasSavedPost _ _ w (get_user_from_jwt-Reads env.decode request.auth)
        (λ x v c. inl (refl, c.0))
        λ user w1 c e.
          let caller = get_user_from_jwt-ok env.decode request.auth user w w1 e in
          let form : PostSaved = record { post_id = request.post_id; user_id = user.id } in
          let set = set_post_saved-Marks request.save form w1 in
          seq HasSavedPost _ _ w1
            (λ x w2 h. inl (
              refl,
              failed_mark request.save form x w1 w2 (subst (Marks request.save form w1) h set)
                  ∙ c.0,
            ))
            λ u w2 h.
              let made =
                made_mark request.save form u w1 w2 (subst (Marks request.save form w1) h set)
                ∙ ap (post_marked request.save form) c.0 in
              calmly HasSavedPost _ _ w2 (see_post-Reads request.post_id (some user.id) internal)
                (λ x w3 d. inr (user, caller, d.0 ∙ made, λ res k. cc))
                λ view w3 d f. inr (
                  user,
                  caller,
                  d.0 ∙ made,
                  λ res k.
                      ap (λ (a : PostResponse). a.post.saved)
                        (same_post (record { post = view }) res k)
                      ∙ (read_post_view-saved w2.db request.post_id user.id view
                            (see_post-ok request.post_id (some user.id) internal view w2 w3 f)
                          ∙ ap some (
                              ap (λ db. is_post_saved db form) made
                              ∙ post_marked-is_post_saved request.save form w.db)),
                )
