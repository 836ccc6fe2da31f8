-- ===== src/Api/Comment/Changes.antt =====
-- Who changes a comment, and what becomes of the tables (`DeleteComment`, `EditComment`,
-- `RemoveComment` of lemmy_api/src/comment.rs).
use lemmy.Prelude.{
  ℕ, String, true, false, List, [], Option, none, some, Result, is_ok, ◌≡◌, refl, ap, ◌∙◌, sym, ◌⊎◌,
  inl, inr,
}
use lemmy.Structs.{CommentView, CommentResponse, UserOperation}
use lemmy.Structs as Structs
use lemmy.Db.Tables.{Db, User, Post, Comment, ModRemoveComment}
use lemmy.Db.Access.{is_mod_or_admin_db}
use lemmy.Db.Comment.{
  update_comment, update_deleted, update_content, update_removed, set_deleted, set_content,
  set_removed,
}
use lemmy.Db.Reports.{create_removal}
use lemmy.Api.Auth.{get_post}
use lemmy.Api.Monad.{World, ◌>>=◌, ◌>>◌, ActivityKind, send_activity}
use lemmy.Api.Comment.Requests.{Env, EditComment, DeleteComment, RemoveComment}
use lemmy.Api.Comment.Write.{see_comment, announce, delete, edit, remove}
use lemmy.Api.Notify.{send_local_notifs}
use lemmy.Api.Checks.{IsReader, see_comment-Reads, get_post-Reads}
use lemmy.Api.Comment.Quiet.{announce-Reads, send_local_notifs-Reads, send_local_notifs-comments}
use lemmy.Api.Effects.{Reads, Reads-bind, Reads-send_activity, calmly, seq}
use lemmy.Api.Steps.{statement}
use lemmy.Api.Comment.Guards.{creator_only, mods_only}

of_db : {d d' : Db} → d ≡ d' → d.comments ≡ d'.comments
of_db e = ap (λ (db : Db). db.comments) e

-- The entry of the log.
abbrev removal : RemoveComment → ℕ → ModRemoveComment
removal request user_id = record {
  mod_user_id = user_id;
  comment_id = request.edit_id;
  reason = request.reason;
  removed = some request.removed;
}

-- The handler refused and changed nothing, or a reader made the change.
abbrev pub Outcome :
    (User → CommentView → Result CommentResponse × World → Type 0)
    → Env
    → String
    → ℕ
    → World
    → Result CommentResponse × World
    → Type 0
Outcome Made env auth id w r =
    ((is_ok r.0 ≡ false) × (r.1.db ≡ w.db))
    ⊎ ((user : User) × (comment : CommentView) × IsReader env.decode auth id w user comment
        × Made user comment r)

-- Only the creator changes a comment, and only what the change is about.
abbrev pub ByCreator :
    ℕ → (Comment → Comment) → World → User → CommentView → Result CommentResponse × World → Type 0
ByCreator id change w user comment r =
    (user.id ≡ comment.creator_id)
    × ((row : Comment) × (update_comment id change w.db ≡ some (row, r.1.db)))

-- The same of the comments alone.
abbrev pub CommentsByCreator :
    ℕ → (Comment → Comment) → World → User → CommentView → Result CommentResponse × World → Type 0
CommentsByCreator id change w user comment r =
    (user.id ≡ comment.creator_id)
    × ((row : Comment) × (db : Db) × (update_comment id change w.db ≡ some (row, db))
        × (r.1.db.comments ≡ db.comments))

-- Who has the rights changes a comment, and the log has an entry of it unless the handler failed.
abbrev pub ByModerator :
    RemoveComment → ℕ → World → User → CommentView → Result CommentResponse × World → Type 0
ByModerator request now w user comment r =
    (is_mod_or_admin_db w.db user.id comment.community_id ≡ true)
    × ((row : Comment) × (db : Db) × (update_comment request.edit_id
            (set_removed now request.removed) w.db
          ≡ some (row, db))
        × (((is_ok r.0 ≡ false) × (r.1.db ≡ db))
            ⊎ ((entry : ModRemoveComment) × (create_removal (removal request user.id) db
                  ≡ some (entry, r.1.db)))))

module _ (env : Env) (now : ℕ) (websocket_id : Option ℕ) where
  -- What follows the statement in `delete` and `remove`.
  reply-Reads :
      (op : UserOperation) (id : ℕ) (row : Comment) (user : User) (kind : ActivityKind)
      → Reads (
          send_activity kind row.id user.id
          >> (see_comment id (some user.id) >>= λ view. get_post view.post_id >>= λ post.
              send_local_notifs env.hostname [] row user post false >>= λ recipient_ids.
              announce op
                (record { comment = view; recipient_ids = recipient_ids; form_id = none })
                websocket_id))
  reply-Reads op id row user kind = Reads-bind _ _ (Reads-send_activity kind row.id user.id) λ u.
      Reads-bind _ _ (see_comment-Reads id (some user.id)) λ view.
        Reads-bind _ _ (get_post-Reads view.post_id) λ post.
          Reads-bind _ _ (send_local_notifs-Reads env.hostname row user post false) λ ids.
            announce-Reads op (record { comment = view; recipient_ids = ids; form_id = none })
              websocket_id

  -- Deleting or restoring a comment fails and leaves the tables as they are, or the caller is a user
  -- with a valid token who is not banned from the site, created the comment and, if every query is
  -- answered, is not banned from its community, and the tables after it are those of the one update
  -- of that comment's flag and time.
  pub delete_lem :
      (request : DeleteComment) (w : World)
      → Outcome
          (ByCreator request.edit_id (set_deleted now request.deleted) w)
          env
          request.auth
          request.edit_id
          w
          (delete env now websocket_id request w)
  unfolding delete update_deleted
  delete_lem request w =
      let Made = ByCreator request.edit_id (set_deleted now request.deleted) w in
      creator_only env.decode request.auth request.edit_id
        (Outcome Made env request.auth request.edit_id w) w (λ x v e. inl (refl, e)) _ _ _ _
        λ user comment row v reader own e.
          let quiet = reply-Reads Structs.delete_comment request.edit_id row user _ in
          inr (user, comment, reader, (own, (row, e ∙ ap (λ db. some (row, db)) (sym (quiet v).0))))

  edit_reply-Reads :
      (request : EditComment) (recipient_ids : List ℕ) (user : User)
      → Reads (
          see_comment request.edit_id (some user.id) >>= λ view.
          announce Structs.edit_comment
            (record { comment = view; recipient_ids = recipient_ids; form_id = request.form_id })
            websocket_id)
  edit_reply-Reads request recipient_ids user =
      Reads-bind _ _ (see_comment-Reads request.edit_id (some user.id)) λ view.
        announce-Reads Structs.edit_comment
          (record { comment = view; recipient_ids = recipient_ids; form_id = request.form_id })
          websocket_id

  -- What follows the statement in `edit`.
  edit-comments :
      (request : EditComment) (post_id : ℕ) (row : Comment) (user : User) (w : World)
      → ((send_activity ActivityKind.update row.id user.id
            >> (get_post post_id >>= λ post.
                send_local_notifs env.hostname
                  (env.scrape_text_for_mentions row.content)
                  row
                  user
                  post
                  false
                >>= λ recipient_ids. see_comment request.edit_id (some user.id) >>= λ view.
                    announce Structs.edit_comment
                      (record {
                        comment = view;
                        recipient_ids = recipient_ids;
                        form_id = request.form_id;
                      })
                      websocket_id))
          w).1.db.comments
        ≡ w.db.comments
  edit-comments request post_id row user w =
      let Q : Result CommentResponse × World → Type 0 = λ r. r.1.db.comments ≡ w.db.comments in
      let sent = λ (post : Post).
        send_local_notifs-comments env.hostname (env.scrape_text_for_mentions row.content) row user
          post false in
      calmly Q _ _ w (Reads-send_activity _ row.id user.id) (λ x v c. of_db c.0)
        λ u v c e.
          calmly Q _ _ v (get_post-Reads post_id) (λ x v1 d. of_db (d.0 ∙ c.0))
            λ post v1 d f.
              seq Q _ _ v1
                (λ x v2 g. ap (λ r. r.1.db.comments) (sym g) ∙ (sent post v1 ∙ of_db (d.0 ∙ c.0)))
                λ ids v2 g.
                  of_db (edit_reply-Reads request ids user v2).0
                  ∙ (ap (λ r. r.1.db.comments) (sym g) ∙ (sent post v1 ∙ of_db (d.0 ∙ c.0)))

  -- Editing a comment fails and leaves the tables as they are, or the caller is a user with a valid
  -- token who is not banned from the site, created the comment and, if every query is answered, is
  -- not banned from its community, and the comments after it are those of the one update of that
  -- comment's content and time, with the slurs removed.
  pub edit_lem :
      (request : EditComment) (w : World)
      → Outcome
          (CommentsByCreator request.edit_id (set_content now (env.remove_slurs request.content)) w)
          env
          request.auth
          request.edit_id
          w
          (edit env now websocket_id request w)
  unfolding edit update_content
  edit_lem request w =
      let Made =
        CommentsByCreator request.edit_id (set_content now (env.remove_slurs request.content)) w in
      creator_only env.decode request.auth request.edit_id
        (Outcome Made env request.auth request.edit_id w) w (λ x v e. inl (refl, e)) _ _ _ _
        λ user comment row v reader own e. inr (
          user,
          comment,
          reader,
          (own, (row, v.db, e, edit-comments request comment.post_id row user v)),
        )

  -- Removing or restoring a comment fails and leaves the tables as they are, or the caller is a user
  -- with a valid token who is not banned from the site, moderates the comment's community or is an
  -- administrator and, if every query is answered, is not banned from the community. Then the tables
  -- after it are those of the one update of that comment's flag and time, either with an entry in
  -- the log that names the caller, or without it and with an error as the result.
  pub remove_lem :
      (request : RemoveComment) (w : World)
      → Outcome
          (ByModerator request now w)
          env
          request.auth
          request.edit_id
          w
          (remove env now websocket_id request w)
  unfolding remove update_removed
  remove_lem request w =
      let Q = Outcome (ByModerator request now w) env request.auth request.edit_id w in
      mods_only env.decode request.auth request.edit_id Q w (λ x v e. inl (refl, e)) _ _ _
        λ user comment row v reader rights e.
          statement (create_removal (removal request user.id)) _ _ Q v
            (λ x v1 d. inr (user, comment, reader, (rights, (row, v.db, e, inl (refl, d)))))
            λ entry v1 d.
              let quiet = reply-Reads Structs.remove_comment request.edit_id row user _ in
              inr (
                user,
                comment,
                reader,
                (
                  rights,
                  (row, v.db, e, inr (entry, d ∙ ap (λ db. some (entry, db)) (sym (quiet v1).0))),
                ),
              )
