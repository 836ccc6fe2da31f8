-- ===== src/Api/Comment/Guards.antt =====
-- How the handlers that change a comment begin (lemmy_api/src/comment.rs): the checks, then a statement
-- that must succeed.
use lemmy.Prelude.{
  ℕ, String, true, false, not, Option, none, some, Result, err, LemmyError, ◌≡◌, ap, ◌∙◌, sym,
  arith, ◌==◌,
}
use lemmy.Structs.{CommentView}
use lemmy.Db.Tables.{User, Comment}
use lemmy.Db.Access.{is_mod_or_admin_db}
use lemmy.Db.Comment.{Statement}
use lemmy.Api.Auth.{get_user_from_jwt, check_community_ban, is_mod_or_admin}
use lemmy.Api.Monad.{M, World, fail_if, ok_or, execute, ◌>>=◌, ◌>>◌}
use lemmy.Api.Comment.Write.{see_comment}
use lemmy.Api.Checks.{IsReader, checked, is_mod_or_admin-ok, is_mod_or_admin-Reads}
use lemmy.Api.Effects.{Reads-fail_if, calmly}
use lemmy.Api.Steps.{fail_if-ok, statement}

same-id : (a b : ℕ) → not (a == b) ≡ false → a ≡ b
same-id a b h = ground arith

module _ {ℓ} {B : Type 0} (decode : String → Option ℕ) (auth : String) (id : ℕ)
    (Q : Result B × World → Type ℓ) (w : World)
    (failed : (x : LemmyError) (w' : World) → w'.db ≡ w.db → Q (err x, w')) where
  -- A statement that only the comment's creator may run.
  pub creator_only :
      (q : Statement Comment) (x y : LemmyError) (k : User → CommentView → Comment → M B)
      → ((user : User) (comment : CommentView) (row : Comment) (w' : World)
          → IsReader decode auth id w user comment
          → user.id ≡ comment.creator_id
          → q w.db ≡ some (row, w'.db)
          → Q (k user comment row w'))
      → Q (
          (get_user_from_jwt decode auth >>= λ user. see_comment id none >>= λ c.
          check_community_ban user.id c.community_id
          >> (fail_if (not (user.id == c.creator_id)) x
              >> (execute q >>= λ o. ok_or o y >>= k user c)))
            w)
  creator_only q x y k went = checked decode auth id _ Q w failed λ user comment v reader c.
      calmly Q _ _ v (Reads-fail_if _ _) (λ z v1 d. failed z v1 (d.0 ∙ c.0))
        λ u v1 d e.
          statement q y _ Q v1 (λ z v2 f. failed z v2 (f ∙ (d.0 ∙ c.0)))
            λ row v2 g.
              went user comment row v2 reader
                (same-id user.id comment.creator_id (fail_if-ok _ _ u v v1 e).0)
                (ap q (sym (d.0 ∙ c.0)) ∙ g)

  -- A statement that the moderators of the comment's community and the administrators may run.
  pub mods_only :
      (q : Statement Comment) (y : LemmyError) (k : User → CommentView → Comment → M B)
      → ((user : User) (comment : CommentView) (row : Comment) (w' : World)
          → IsReader decode auth id w user comment
          → is_mod_or_admin_db w.db user.id comment.community_id ≡ true
          → q w.db ≡ some (row, w'.db)
          → Q (k user comment row w'))
      → Q (
          (get_user_from_jwt decode auth >>= λ user. see_comment id none >>= λ c.
          check_community_ban user.id c.community_id
          >> (is_mod_or_admin user.id c.community_id
              >> (execute q >>= λ o. ok_or o y >>= k user c)))
            w)
  mods_only q y k went = checked decode auth id _ Q w failed λ user comment v reader c.
      calmly Q _ _ v (is_mod_or_admin-Reads user.id comment.community_id)
        (λ z v1 d. failed z v1 (d.0 ∙ c.0))
        λ u v1 d e.
          statement q y _ Q v1 (λ z v2 f. failed z v2 (f ∙ (d.0 ∙ c.0)))
            λ row v2 g.
              went user comment row v2 reader
                (ap (λ db. is_mod_or_admin_db db user.id comment.community_id) (sym c.0)
                  ∙ is_mod_or_admin-ok user.id comment.community_id u v v1 e)
                (ap q (sym (d.0 ∙ c.0)) ∙ g)
