-- ===== src/Db/Saved.antt =====
-- What saving a comment leaves behind, and what the reader's view shows of it (`CommentSaved` of
-- lemmy_db/src/comment.rs, `CommentView::read`).
use lemmy.Prelude.{
  ℕ, Bool, true, false, not, [], ◌∷◌, ◌++◌, some, ◌≡◌, ap, ◌∙◌, arith, retain, any, any-retain,
  any-append-last, ==_refl,
}
use lemmy.Structs.{CommentView}
use lemmy.Db.Tables.{Db, CommentSaved}
use lemmy.Db.Comment.{read_view, view_row}
use lemmy.Db.Likes.{save, unsave, saves}
use lemmy.Db.Updates.{read_view-found}
use lemmy.Db.Votes.{read_comment-id}

-- The tables with a comment saved for a user, or not saved.
abbrev pub marked : Bool → CommentSaved → Db → Db
marked true form db = record db { comment_saved = db.comment_saved ++ form ∷ [] }
marked false form db = record db {
  comment_saved = retain (λ s. not (saves form s)) db.comment_saved;
}

abbrev pub is_saved : Db → CommentSaved → Bool
is_saved db form = any (saves form) db.comment_saved

pub save-marked :
    (form row : CommentSaved) (db db' : Db)
    → save form db ≡ some (row, db')
    → db' ≡ marked true form db
unfolding save
save-marked form row db db' h = ground arith

pub unsave-marked :
    (form : CommentSaved) (n : ℕ) (db db' : Db)
    → unsave form db ≡ some (n, db')
    → db' ≡ marked false form db
unfolding unsave
unsave-marked form n db db' h = cc

pub marked-is_saved :
    (b : Bool) (form : CommentSaved) (db : Db) → is_saved (marked b form db) form ≡ b
marked-is_saved true form db =
    any-append-last (saves form) db.comment_saved form
      (let c = ==_refl form.comment_id in let u = ==_refl form.user_id in ground arith)
marked-is_saved false form db = any-retain (saves form) db.comment_saved

pub read_view-saved :
    (db : Db) (id user_id : ℕ) (view : CommentView)
    → read_view db id (some user_id) ≡ some view
    → view.saved ≡ some (is_saved db (record { comment_id = id; user_id = user_id }))
unfolding view_row
read_view-saved db id user_id view h =
    let (c, p, found, there, same) = read_view-found db id (some user_id) view h in
    ap (λ (v : CommentView). v.saved) same
    ∙ ap (λ i. some (is_saved db (record { comment_id = i; user_id = user_id })))
        (read_comment-id db id c found)
