-- ===== src/Api/Post/Moderating.antt =====
-- What moderators do to a post, and what becomes of the tables (`RemovePost`, `LockPost` and
-- `StickyPost` of lemmy_api/src/post.rs).
use lemmy.Prelude.{
  ℕ, String, true, false, Option, some, Result, is_ok, internal, ◌≡◌, refl, ap, ◌∙◌, sym, ◌⊎◌, inl,
  inr,
}
use lemmy.Structs.{PostResponse, UserOperation, remove_post, lock_post, sticky_post}
use lemmy.Db.Tables.{Db, User, Post, ModRemovePost, ModLockPost, ModStickyPost}
use lemmy.Db.Access.{is_mod_or_admin_db}
use lemmy.Db.Comment.{Statement}
use lemmy.Db.Post.{
  set_post, set_post_removed, set_locked, set_stickied, update_post_removed, update_locked,
  update_stickied,
}
use lemmy.Db.PostMarks.{log_removal, log_lock, log_sticky}
use lemmy.Api.Auth.{get_user_from_jwt, check_community_ban, is_mod_or_admin}
use lemmy.Api.Monad.{World, ◌>>=◌, ◌>>◌, execute, ok_or, ActivityKind, send_post_activity}
use lemmy.Api.Post.Requests.{Services, RemovePost, LockPost, StickyPost}
use lemmy.Api.Post.Write.{find_post, see_post, announce_post}
use lemmy.Api.Post.Moderate.{remove, lock, sticky}
use lemmy.Api.Checks.{get_user_from_jwt-Reads, get_user_from_jwt-ok}
use lemmy.Api.Effects.{calmly}
use lemmy.Api.Steps.{statement}
use lemmy.Api.Post.Guards.{as_reader, Shows, as_moderator, shown_after}
use lemmy.Api.Post.Changes.{PostOutcome}

-- The entries of the logs.
abbrev pub removal : RemovePost → ℕ → ModRemovePost
removal request user_id = record {
  mod_user_id = user_id;
  post_id = request.edit_id;
  reason = request.reason;
  removed = some request.removed;
}

abbrev pub locking : LockPost → ℕ → ModLockPost
locking request user_id = record {
  mod_user_id = user_id;
  post_id = request.edit_id;
  locked = some request.locked;
}

abbrev pub stickying : StickyPost → ℕ → ModStickyPost
stickying request user_id = record {
  mod_user_id = user_id;
  post_id = request.edit_id;
  stickied = some request.stickied;
}

-- Who has the rights changes a post, and the log has an entry of it unless the handler failed.
abbrev pub ByMod :
    {L : Type 0}
    → ℕ
    → (Post → Post)
    → (ℕ → Statement L)
    → World
    → User
    → Post
    → Result PostResponse × World
    → Type 0
ByMod {L} id change log w user post r =
    (is_mod_or_admin_db w.db user.id post.community_id ≡ true)
    × ((row : Post) × (db : Db) × (set_post id change w.db ≡ some (row, db))
        × (((is_ok r.0 ≡ false) × (r.1.db ≡ db))
            ⊎ ((entry : L) × (log user.id db ≡ some (entry, r.1.db)) × Shows id user.id r)))

-- The three handlers differ in the change, the log and the activity.
moderated :
    {L : Type 0} (env : Services) (websocket_id : Option ℕ) (auth : String) (id : ℕ)
    (change : Post → Post) (log : ℕ → Statement L) (kind : ActivityKind) (op : UserOperation)
    (w : World)
    → PostOutcome (ByMod id change log w) env auth id w (
        (get_user_from_jwt env.decode auth >>= λ user. find_post id >>= λ p.
        check_community_ban user.id p.community_id
        >> (is_mod_or_admin user.id p.community_id
            >> (execute (set_post id change) >>= λ o. ok_or o internal >>= λ row.
                execute (log user.id) >>= λ l.
                ok_or l internal
                >> (send_post_activity kind row.id user.id
                    >> (see_post id (some user.id) internal >>= λ view.
                        announce_post op view websocket_id)))))
          w)
moderated env websocket_id auth id change log kind op w =
    let Q = PostOutcome (ByMod id change log w) env auth id w in
    calmly Q _ _ w (get_user_from_jwt-Reads env.decode auth) (λ x v c. inl (refl, c.0))
      λ user w1 c e.
        as_moderator user id Q w1 (λ x v d. inl (refl, d ∙ c.0)) _
          λ post w2 found allowed rights d.
            statement (set_post id change) _ _ Q w2 (λ x v f. inl (refl, f ∙ (d.0 ∙ c.0)))
              λ row w3 f.
                let reader =
                  as_reader env.decode auth id w w1 user post
                    (get_user_from_jwt-ok env.decode auth user w w1 e) c found allowed in
                let has_rights =
                  ap (λ db. is_mod_or_admin_db db user.id post.community_id) (sym c.0) ∙ rights in
                let changed = ap (set_post id change) (sym (d.0 ∙ c.0)) ∙ f in
                statement (log user.id) _ _ Q w3
                  (λ x v g.
                    inr (user, post, reader, (has_rights, (row, w3.db, changed, inl (refl, g)))))
                  λ entry w4 g.
                    let (kept, shows) =
                      shown_after kind row.id id user.id internal op websocket_id w4 in
                    inr (
                      user,
                      post,
                      reader,
                      (
                        has_rights,
                        (
                          row,
                          w3.db,
                          changed,
                          inr (entry, g ∙ ap (λ db. some (entry, db)) (sym kept), shows),
                        ),
                      ),
                    )

module _ (env : Services) (now : ℕ) (websocket_id : Option ℕ) where
  -- Removing, locking and stickying a post, or taking that back, fails and leaves the tables as they
  -- are, or the caller is a user with a valid token who is not banned from the site, moderates the
  -- post's community or is an administrator and, if every query is answered, is not banned from the
  -- community. Then the tables after it are those of the one update of that post, which sets the one
  -- flag, and for a removal the time, either with an entry in the log that names the caller, or
  -- without it and with an error as the result. A successful answer is the caller's view of the post
  -- in these tables.
  pub moderate_post_lem :
      (w : World) (removing : RemovePost) (closing : LockPost) (pinning : StickyPost)
      → PostOutcome
          (ByMod removing.edit_id
            (set_post_removed now removing.removed)
            (λ user_id. log_removal (removal removing user_id))
            w)
          env
          removing.auth
          removing.edit_id
          w
          (remove env now websocket_id removing w)
        × PostOutcome
            (ByMod closing.edit_id
              (set_locked closing.locked)
              (λ user_id. log_lock (locking closing user_id))
              w)
            env
            closing.auth
            closing.edit_id
            w
            (lock env now websocket_id closing w)
        × PostOutcome
            (ByMod pinning.edit_id
              (set_stickied pinning.stickied)
              (λ user_id. log_sticky (stickying pinning user_id))
              w)
            env
            pinning.auth
            pinning.edit_id
            w
            (sticky env now websocket_id pinning w)
  unfolding remove lock sticky update_post_removed update_locked update_stickied
  moderate_post_lem w removing closing pinning = (
    moderated env websocket_id removing.auth removing.edit_id _
        (λ user_id. log_removal (removal removing user_id)) _ remove_post w,
    moderated env websocket_id closing.auth closing.edit_id _
        (λ user_id. log_lock (locking closing user_id)) _ lock_post w,
    moderated env websocket_id pinning.auth pinning.edit_id _
        (λ user_id. log_sticky (stickying pinning user_id)) _ sticky_post w,
  )
