-- ===== src/Api/Post/Changes.antt =====
-- Who changes a post, and what becomes of the tables (`EditPost`, `DeletePost` of
-- lemmy_api/src/post.rs).
use lemmy.Prelude.{
  ℕ, String, true, false, [], Option, some, Result, is_ok, internal, ◌≡◌, refl, ap, ◌∙◌, sym, ◌⊎◌,
  inl, inr, arith, if◌then◌else◌,
}
use lemmy.Structs.{PostResponse}
use lemmy.Structs as Structs
use lemmy.Db.Tables.{Db, User, Post, read_post}
use lemmy.Db.Post.{
  PostForm, too_long, stored, set_post, set_post_deleted, update_post, update_post_deleted,
}
use lemmy.Api.Monad.{World, ActivityKind}
use lemmy.Api.Texts.{is_valid_post_title, sorted_unique}
use lemmy.Api.TextChecks.{check_slurs-Reads, check_slurs_opt-Reads, check_slurs-ok}
use lemmy.Api.Post.Requests.{Services, EditPost, DeletePost}
use lemmy.Api.Post.Write.{edit, delete, edit_form}
use lemmy.Api.Post.Edited.{IsEdited, update_post-IsEdited}
use lemmy.Api.Checks.{get_user_from_jwt-Reads, get_user_from_jwt-ok, not-false}
use lemmy.Api.Effects.{Reads-fail_if, Calm-trans, calmly}
use lemmy.Api.Steps.{statement, fail_if-ok}
use lemmy.Api.Post.Guards.{
  IsPostReader, as_reader, Shows, as_creator, stored_statement, shown_after,
}

-- The handler refused and changed nothing, or a reader of the post made the change.
abbrev pub PostOutcome :
    (User → Post → Result PostResponse × World → Type 0)
    → Services
    → String
    → ℕ
    → World
    → Result PostResponse × World
    → Type 0
PostOutcome Made env auth id w r =
    ((is_ok r.0 ≡ false) × (r.1.db ≡ w.db))
    ⊎ ((user : User) × (post : Post) × IsPostReader env.decode auth id w user post
        × Made user post r)

-- Only the creator changes the post, and only what the change is about.
abbrev pub ByAuthor : ℕ → (Post → Post) → World → User → Post → Result PostResponse × World → Type 0
ByAuthor id change w user post r =
    (user.id ≡ post.creator_id)
    × ((row : Post) × (set_post id change w.db ≡ some (row, r.1.db)))
    × Shows id user.id r

-- Only the creator edits the post, under a title that is a title, and only what the request is about.
abbrev pub ByEditor :
    Services → ℕ → EditPost → World → User → Post → Result PostResponse × World → Type 0
ByEditor env now request w user post r =
    (user.id ≡ post.creator_id)
    × (is_valid_post_title request.name ≡ true)
    × (sorted_unique (env.find_slurs request.name) ≡ [])
    × ((row : Post) × (update_post request.edit_id (edit_form env now request post) w.db
          ≡ some (stored row, r.1.db))
        × IsEdited env now request post row
        × (read_post r.1.db request.edit_id ≡ some row))
    × Shows request.edit_id user.id r

update_post-too_long :
    (id : ℕ) (form : PostForm) (d d' : Db) → update_post id form d ≡ some (too_long, d') → d' ≡ d
unfolding update_post
update_post-too_long id form d d' = ground arith

module _ (env : Services) (now : ℕ) (websocket_id : Option ℕ) where
  delete_post_lem :
      (request : DeletePost) (w : World)
      → PostOutcome
          (ByAuthor request.edit_id (set_post_deleted now request.deleted) w)
          env
          request.auth
          request.edit_id
          w
          (delete env now websocket_id request w)
  unfolding delete update_post_deleted
  delete_post_lem request w =
      let Q =
        PostOutcome (ByAuthor request.edit_id (set_post_deleted now request.deleted) w) env
          request.auth request.edit_id w in
      calmly Q _ _ w (get_user_from_jwt-Reads env.decode request.auth) (λ x v c. inl (refl, c.0))
        λ user w1 c e.
          as_creator user request.edit_id Q w1 (λ x v d. inl (refl, d ∙ c.0)) _ _
            λ post w2 found allowed own d.
              statement _ _ _ Q w2 (λ x v f. inl (refl, f ∙ (d.0 ∙ c.0)))
                λ row w3 f.
                  let (kept, shows) =
                    shown_after
                      (if request.deleted then ActivityKind.delete else ActivityKind.undo_delete)
                      row.id request.edit_id user.id internal Structs.delete_post websocket_id w3 in
                  inr (
                    user,
                    post,
                    as_reader env.decode request.auth request.edit_id w w1 user post
                        (get_user_from_jwt-ok env.decode request.auth user w w1 e) c found allowed,
                    (
                      own,
                      (
                        row,
                        ap (set_post request.edit_id (set_post_deleted now request.deleted))
                              (sym (d.0 ∙ c.0))
                            ∙ (f ∙ ap (λ db. some (row, db)) (sym kept)),
                      ),
                      shows,
                    ),
                  )

  pub edit_post_lem :
      (request : EditPost) (w : World)
      → PostOutcome
          (ByEditor env now request w)
          env
          request.auth
          request.edit_id
          w
          (edit env now websocket_id request w)
  unfolding edit
  edit_post_lem request w =
      let Q = PostOutcome (ByEditor env now request w) env request.auth request.edit_id w in
      calmly Q _ _ w (get_user_from_jwt-Reads env.decode request.auth) (λ x v c. inl (refl, c.0))
        λ user w1 c e.
          calmly Q _ _ w1 (check_slurs-Reads env.find_slurs request.name)
            (λ x v c2. inl (refl, c2.0 ∙ c.0))
            λ u w2 c2 e2.
              let s2 = Calm-trans w w1 w2 c c2 in
              calmly Q _ _ w2 (check_slurs_opt-Reads env.find_slurs request.body)
                (λ x v c3. inl (refl, c3.0 ∙ s2.0))
                λ u3 w3 c3 e3.
                  let s3 = Calm-trans w w2 w3 s2 c3 in
                  calmly Q _ _ w3 (Reads-fail_if _ _) (λ x v c4. inl (refl, c4.0 ∙ s3.0))
                    λ u4 w4 c4 e4.
                      let s4 = Calm-trans w w3 w4 s3 c4 in
                      as_creator user request.edit_id Q w4 (λ x v d. inl (refl, d ∙ s4.0)) _ _
                        λ post w5 found allowed own d.
                          stored_statement _ _ _ Q w5
                            (update_post-too_long request.edit_id (edit_form env now request post))
                            (λ x v f. inl (refl, f ∙ (d.0 ∙ s4.0)))
                            λ row w6 f.
                              let (kept, shows) =
                                shown_after ActivityKind.update row.id request.edit_id user.id
                                  internal Structs.edit_post websocket_id w6 in
                              let reader =
                                as_reader env.decode request.auth request.edit_id w w4 user post
                                  (get_user_from_jwt-ok env.decode request.auth user w w1 e) s4
                                  found allowed in
                              let made =
                                ap (update_post request.edit_id (edit_form env now request post))
                                  (sym (d.0 ∙ s4.0))
                                ∙ (f ∙ ap (λ db. some (stored row, db)) (sym kept)) in
                              let (edited, there) =
                                update_post-IsEdited env now request post row w.db _ reader.found
                                  made in
                              inr (
                                user,
                                post,
                                reader,
                                (
                                  own,
                                  not-false _ (fail_if-ok _ _ u4 w3 w4 e4).0,
                                  check_slurs-ok env.find_slurs request.name u w1 w2 e2,
                                  (row, made, edited, there),
                                  shows,
                                ),
                              )

  -- Editing a post and deleting or restoring one each fail and leave the tables as they are, or the
  -- caller is a user with a valid token who is not banned from the site, created the post and, if
  -- every query is answered, is not banned from its community. An edit's title has no slurs and is
  -- not blank. Then the tables after it are those of the one update of that post: an edit's by the
  -- form, a deletion's of the flag and the time. The row of an edited post has the requested title
  -- without the white space around it, the link, text and mark, the time, and what the page tells of
  -- itself; its creator, community, flags, address and first time are as they were. A successful
  -- answer is the caller's view of the post in these tables.
  pub author_post_lem :
      (editing : EditPost) (deleting : DeletePost) (w : World)
      → PostOutcome
          (ByEditor env now editing w)
          env
          editing.auth
          editing.edit_id
          w
          (edit env now websocket_id editing w)
        × PostOutcome
            (ByAuthor deleting.edit_id (set_post_deleted now deleting.deleted) w)
            env
            deleting.auth
            deleting.edit_id
            w
            (delete env now websocket_id deleting w)
  author_post_lem editing deleting w = (edit_post_lem editing w, delete_post_lem deleting w)
