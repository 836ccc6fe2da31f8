-- ===== src/Db/Votes.antt =====
-- What a vote or a mark leaves behind, and what the voter's view shows of it
-- (`CommentLike`, `CommentSaved` of lemmy_db/src/comment.rs, `CommentView::read`).
use lemmy.Prelude.{
  ℕ, not, [], ◌∷◌, ◌++◌, Option, none, some, ◌≡◌, refl, ap, ◌∙◌, arith, retain, find?-holds,
  find?-retain, find?-append, ◌==◌, if◌then◌else◌,
}
use lemmy.Prelude.Int.{pos}
use lemmy.Structs.{CommentView}
use lemmy.Db.Tables.{Db, CommentLike, Comment, read_post}
use lemmy.Db.Comment.{read_comment, read_view, view_row, vote_of, has_reader}
use lemmy.Db.Likes.{like, remove_like, likes_of}

-- The tables without a user's vote on a comment.
abbrev pub unvoted : ℕ → ℕ → Db → Db
unvoted user_id comment_id db = record db {
  comment_likes = retain (λ l. not (likes_of user_id comment_id l)) db.comment_likes;
}

abbrev pub voted : CommentLike → Db → Db
voted form db = record db { comment_likes = db.comment_likes ++ form ∷ [] }

pub remove_like-unvoted :
    (user_id comment_id n : ℕ) (db db' : Db)
    → remove_like user_id comment_id db ≡ some (n, db')
    → db' ≡ unvoted user_id comment_id db
unfolding remove_like
remove_like-unvoted user_id comment_id n db db' h = cc

pub like-voted :
    (form row : CommentLike) (db db' : Db) → like form db ≡ some (row, db') → db' ≡ voted form db
unfolding like
like-voted form row db db' h = ground arith

pub read_comment-id : (db : Db) (id : ℕ) (c : Comment) → read_comment db id ≡ some c → c.id ≡ id
unfolding read_comment
read_comment-id db id c h =
    let e = find?-holds (λ (x : Comment). x.id == id) db.comments c h in ground arith

-- The view is of the comment that was asked for, and of that reader's vote.
pub read_view-my_vote :
    (db : Db) (id user_id : ℕ) (view : CommentView)
    → read_view db id (some user_id) ≡ some view
    → view.my_vote ≡ some (vote_of db id user_id)
unfolding read_view view_row
read_view-my_vote db id user_id view = go (read_comment db id) refl
  where
    shown :
        (c : Comment)
        → elim (read_post db c.post_id) [
          | none ↦ none
          | some p ↦
              if has_reader db (some user_id) then some (view_row db c p (some user_id)) else none
        ]
          ≡ some view
        → view.my_vote ≡ some (vote_of db c.id user_id)
    shown c h = ground arith

    go :
        (o : Option Comment)
        → read_comment db id ≡ o
        → elim o [
          | none ↦ none
          | some c ↦ elim (read_post db c.post_id) [
            | none ↦ none
            | some p ↦
                if has_reader db (some user_id) then some (view_row db c p (some user_id)) else none
          ]
        ]
          ≡ some view
        → view.my_vote ≡ some (vote_of db id user_id)
    go none e h = cc
    go (some c) e h = shown c h ∙ ap (λ i. some (vote_of db i user_id)) (read_comment-id db id c e)

pub vote_of-unvoted :
    (db : Db) (id user_id : ℕ) → vote_of (unvoted user_id id db) id user_id ≡ pos 0
unfolding vote_of
vote_of-unvoted db id user_id =
    rw (vote_of, find?-retain (likes_of user_id id) db.comment_likes) refl

pub vote_of-voted :
    (db : Db) (form : CommentLike)
    → vote_of (voted form (unvoted form.user_id form.comment_id db)) form.comment_id form.user_id
      ≡ form.score
unfolding vote_of
vote_of-voted db form =
    let p = likes_of form.user_id form.comment_id in
    let others = retain (λ l. not (p l)) db.comment_likes in
    rw (vote_of, find?-append p others (form ∷ []) (find?-retain p db.comment_likes)) (ground arith)
