-- ===== src/Db/PostVotes.antt =====
-- What a vote on a post or a mark of it leaves behind, and what the reader's view shows of it
-- (`PostLike`, `PostSaved` of lemmy_db/src/post.rs, `PostView::read`).
use lemmy.Prelude.{
  ℕ, Bool, true, false, not, [], ◌∷◌, ◌++◌, Option, none, some, ◌≡◌, refl, ap, ◌∙◌, arith, retain,
  any, any-retain, any-append-last, find?-holds, find?-retain, find?-append, ◌==◌, ==_refl,
  if◌then◌else◌,
}
use lemmy.Prelude.Int.{pos}
use lemmy.Structs.{PostView}
use lemmy.Db.Tables.{Db, PostLike, PostSaved, Post, read_post}
use lemmy.Db.Comment.{has_reader}
use lemmy.Db.Post.{read_post_view, post_view_row, post_vote_of}
use lemmy.Db.PostMarks.{
  like_post, remove_post_like, post_likes_of, save_post_row, unsave_post_row, saves_post,
}

-- The tables without a user's vote on a post.
abbrev pub post_unvoted : ℕ → ℕ → Db → Db
post_unvoted user_id post_id db = record db {
  post_likes = retain (λ l. not (post_likes_of user_id post_id l)) db.post_likes;
}

abbrev pub post_voted : PostLike → Db → Db
post_voted form db = record db { post_likes = db.post_likes ++ form ∷ [] }

pub remove_post_like-post_unvoted :
    (user_id post_id n : ℕ) (db db' : Db)
    → remove_post_like user_id post_id db ≡ some (n, db')
    → db' ≡ post_unvoted user_id post_id db
unfolding remove_post_like
remove_post_like-post_unvoted user_id post_id n db db' h = cc

pub like_post-post_voted :
    (form row : PostLike) (db db' : Db)
    → like_post form db ≡ some (row, db')
    → db' ≡ post_voted form db
unfolding like_post
like_post-post_voted form row db db' h = ground arith

pub post_vote_of-post_unvoted :
    (db : Db) (id user_id : ℕ) → post_vote_of (post_unvoted user_id id db) id user_id ≡ pos 0
unfolding post_vote_of
post_vote_of-post_unvoted db id user_id =
    rw (post_vote_of, find?-retain (post_likes_of user_id id) db.post_likes) refl

pub post_vote_of-post_voted :
    (db : Db) (form : PostLike)
    → post_vote_of
        (post_voted form (post_unvoted form.user_id form.post_id db))
        form.post_id
        form.user_id
      ≡ form.score
unfolding post_vote_of
post_vote_of-post_voted db form =
    let p = post_likes_of form.user_id form.post_id in
    let others = retain (λ l. not (p l)) db.post_likes in
    rw (post_vote_of, find?-append p others (form ∷ []) (find?-retain p db.post_likes))
      (ground arith)

-- A view has a post.
pub read_post_view-found :
    (db : Db) (id : ℕ) (my_user_id : Option ℕ) (view : PostView)
    → read_post_view db id my_user_id ≡ some view
    → (p : Post) × (read_post db id ≡ some p) × (p.id ≡ id) × (view ≡ post_view_row db p my_user_id)
unfolding read_post_view read_post
read_post_view-found db id my_user_id view = go (read_post db id) refl
  where
    its_id : (p : Post) → read_post db id ≡ some p → p.id ≡ id
    its_id p e = let h = find?-holds (λ (x : Post). x.id == id) db.posts p e in ground arith

    go :
        (o : Option Post)
        → read_post db id ≡ o
        → elim o [
          | none ↦ none
          | some p ↦ if has_reader db my_user_id then some (post_view_row db p my_user_id) else none
        ]
          ≡ some view
        → (p : Post) × (read_post db id ≡ some p)
          × (p.id ≡ id)
          × (view ≡ post_view_row db p my_user_id)
    go none e h = cc
    go (some p) e h = (p, e, its_id p e, ground arith)

pub read_post_view-my_vote :
    (db : Db) (id user_id : ℕ) (view : PostView)
    → read_post_view db id (some user_id) ≡ some view
    → view.my_vote ≡ some (post_vote_of db id user_id)
unfolding post_view_row
read_post_view-my_vote db id user_id view h =
    let (p, found, same_id, same) = read_post_view-found db id (some user_id) view h in
    ap (λ (v : PostView). v.my_vote) same ∙ ap (λ i. some (post_vote_of db i user_id)) same_id

-- The tables with a post saved for a user, or not saved.
abbrev pub post_marked : Bool → PostSaved → Db → Db
post_marked true form db = record db { post_saved = db.post_saved ++ form ∷ [] }
post_marked false form db = record db {
  post_saved = retain (λ s. not (saves_post form s)) db.post_saved;
}

abbrev pub is_post_saved : Db → PostSaved → Bool
is_post_saved db form = any (saves_post form) db.post_saved

pub save_post_row-post_marked :
    (form row : PostSaved) (db db' : Db)
    → save_post_row form db ≡ some (row, db')
    → db' ≡ post_marked true form db
unfolding save_post_row
save_post_row-post_marked form row db db' h = ground arith

pub unsave_post_row-post_marked :
    (form : PostSaved) (n : ℕ) (db db' : Db)
    → unsave_post_row form db ≡ some (n, db')
    → db' ≡ post_marked false form db
unfolding unsave_post_row
unsave_post_row-post_marked form n db db' h = cc

pub post_marked-is_post_saved :
    (b : Bool) (form : PostSaved) (db : Db) → is_post_saved (post_marked b form db) form ≡ b
post_marked-is_post_saved true form db =
    any-append-last (saves_post form) db.post_saved form
      (let c = ==_refl form.post_id in let u = ==_refl form.user_id in ground arith)
post_marked-is_post_saved false form db = any-retain (saves_post form) db.post_saved

pub read_post_view-saved :
    (db : Db) (id user_id : ℕ) (view : PostView)
    → read_post_view db id (some user_id) ≡ some view
    → view.saved ≡ some (is_post_saved db (record { post_id = id; user_id = user_id }))
unfolding post_view_row
read_post_view-saved db id user_id view h =
    let (p, found, same_id, same) = read_post_view-found db id (some user_id) view h in
    ap (λ (v : PostView). v.saved) same
    ∙ ap (λ i. some (is_post_saved db (record { post_id = i; user_id = user_id }))) same_id
