-- ===== src/Db/Updates.antt =====
-- What is read after an update of a comment (`impl Comment` of lemmy_db/src/comment.rs).
use lemmy.Prelude.{
  ℕ, true, not, ◌&&◌, Option, none, some, ◌≡◌, refl, ap, arith, update_where, find?-update_where,
  any-of-find?, ◌==◌, if◌then◌else◌, ==_refl,
}
use lemmy.Structs.{CommentView}
use lemmy.Db.Tables.{Db, User, Post, Comment, read_user, read_post, has_user}
use lemmy.Db.Comment.{read_comment, update_comment, read_view, view_row, has_reader}

-- The tables after an update of one comment.
abbrev pub with_comment : ℕ → (Comment → Comment) → Db → Db
with_comment id f db = record db { comments = update_where (λ c. c.id == id) f db.comments }

pub update_comment-found :
    (db : Db) (id : ℕ) (f : Comment → Comment) (c : Comment)
    → read_comment db id ≡ some c
    → update_comment id f db ≡ some (f c, with_comment id f db)
unfolding update_comment
update_comment-found db id f c e = rw (update_comment, e) refl

pub read_comment-with_comment :
    (db : Db) (id : ℕ) (f : Comment → Comment) (c : Comment)
    → ((x : Comment) → (f x).id ≡ x.id)
    → read_comment db id ≡ some c
    → read_comment (with_comment id f db) id ≡ some (f c)
unfolding read_comment
read_comment-with_comment db id f c same =
    find?-update_where (λ x. x.id == id) f db.comments (λ x. ap (λ i. i == id) (same x)) c

-- A view has a comment and its post.
pub read_view-found :
    (db : Db) (id : ℕ) (my_user_id : Option ℕ) (view : CommentView)
    → read_view db id my_user_id ≡ some view
    → (c : Comment) × (p : Post) × (read_comment db id ≡ some c)
      × (read_post db c.post_id ≡ some p)
      × (view ≡ view_row db c p my_user_id)
unfolding read_view
read_view-found db id my_user_id view = go (read_comment db id) refl
  where
    with_post :
        (c : Comment) (o : Option Post)
        → read_comment db id ≡ some c
        → read_post db c.post_id ≡ o
        → elim o [
          | none ↦ none
          | some p ↦ if has_reader db my_user_id then some (view_row db c p my_user_id) else none
        ]
          ≡ some view
        → (c : Comment) × (p : Post) × (read_comment db id ≡ some c)
          × (read_post db c.post_id ≡ some p)
          × (view ≡ view_row db c p my_user_id)
    with_post c none e f h = cc
    with_post c (some p) e f h = (c, p, e, f, ground arith)

    go :
        (o : Option Comment)
        → read_comment db id ≡ o
        → elim o [
          | none ↦ none
          | some c ↦ elim (read_post db c.post_id) [
            | none ↦ none
            | some p ↦ if has_reader db my_user_id then some (view_row db c p my_user_id) else none
          ]
        ]
          ≡ some view
        → (c : Comment) × (p : Post) × (read_comment db id ≡ some c)
          × (read_post db c.post_id ≡ some p)
          × (view ≡ view_row db c p my_user_id)
    go none e h = cc
    go (some c) e h = with_post c (read_post db c.post_id) e refl h

pub read_view-seen :
    (db : Db) (id user_id : ℕ) (c : Comment) (p : Post)
    → read_comment db id ≡ some c
    → read_post db c.post_id ≡ some p
    → has_user db user_id ≡ true
    → read_view db id (some user_id) ≡ some (view_row db c p (some user_id))
unfolding read_view has_reader
read_view-seen db id user_id c p e f g = rw (read_view, e, f, has_reader, g) refl

pub read_user-has_user :
    (db : Db) (id : ℕ) (user : User) → read_user db id ≡ some user → has_user db user.id ≡ true
unfolding read_user has_user
read_user-has_user db id user e =
    any-of-find? (λ u. not u.deleted && u.id == id) (λ u. u.id == user.id) db.users user e
      (==_refl user.id)
