-- ===== src/Db/Comment.antt =====
-- Comments and what a reader sees of them (lemmy_db/src/comment.rs, lemmy_db/src/comment_view.rs).
use lemmy.Prelude.{
  ℕ, suc, String, Bool, true, false, ◌&&◌, not, [], ◌∷◌, ◌++◌, Option, none, some, find?, any,
  is_some, update_where, ◌==◌, str_eq, if◌then◌else◌,
}
use lemmy.Prelude.Int.{ℤ, pos}
use lemmy.Prelude.Text.{fits, cut}
use lemmy.Structs.{CommentView}
use lemmy.Db.Tables.{Db, Post, Comment, has_user, read_post}

-- A statement that changes rows: its result and the tables after it.
abbrev pub Statement : Type 0 → Type 0
Statement A = Db → Option (A × Db)

pub record CommentForm : Type 0 where
  pub creator_id : ℕ
  pub post_id : ℕ
  pub parent_id : Option ℕ
  pub content : String
  pub local : Bool

unfoldable pub read_comment : Db → ℕ → Option Comment
read_comment db id = find? (λ c. c.id == id) db.comments

-- A key that is given must exist.
unfoldable pub has_parent : Db → Option ℕ → Bool
unfolding read_comment
has_parent db none = true
has_parent db (some id) = is_some (read_comment db id)

-- The row of a form in which only what must be given is given.
unfoldable pub new_comment : Db → ℕ → CommentForm → Comment
new_comment db now form = record {
  id = db.next_comment;
  creator_id = form.creator_id;
  post_id = form.post_id;
  parent_id = form.parent_id;
  content = form.content;
  removed = false;
  read = false;
  published = now;
  updated = none;
  deleted = false;
  ap_id = "";
  local = form.local;
}

unfoldable pub create_comment : ℕ → CommentForm → Statement Comment
unfolding has_parent new_comment has_user read_post
create_comment now form db =
    if has_user db form.creator_id
      && (is_some (read_post db form.post_id) && has_parent db form.parent_id)
    then some (
      new_comment db now form,
      record db {
        comments = db.comments ++ new_comment db now form ∷ [];
        next_comment = suc db.next_comment;
      },
    )
    else none

-- `diesel::update(comment.find(id)).set(…).get_result()`
unfoldable pub update_comment : ℕ → (Comment → Comment) → Statement Comment
unfolding read_comment
update_comment id f db = elim (read_comment db id) [
  | none ↦ none
  | some c ↦ some (f c, record db { comments = update_where (λ c. c.id == id) f db.comments })
]

-- The fields that the updates of `impl Comment` set.
abbrev pub set_ap_id : String → Comment → Comment
set_ap_id apub_id c = record c { ap_id = apub_id }

abbrev pub set_deleted : ℕ → Bool → Comment → Comment
set_deleted now new_deleted c = record c { deleted = new_deleted; updated = some now }

abbrev pub set_removed : ℕ → Bool → Comment → Comment
set_removed now new_removed c = record c { removed = new_removed; updated = some now }

abbrev pub set_read : Bool → Comment → Comment
set_read new_read c = record c { read = new_read }

abbrev pub set_content : ℕ → String → Comment → Comment
set_content now new_content c = record c { content = new_content; updated = some now }

-- The identifiers of ActivityPub are unique and have at most 255 characters.
unfoldable pub update_ap_id : ℕ → String → Statement Comment
unfolding update_comment fits cut
update_ap_id id apub_id db =
    let stored = cut 255 apub_id in
    if fits 255 apub_id && not (any (λ c. str_eq c.ap_id stored && not (c.id == id)) db.comments)
    then update_comment id (set_ap_id stored) db
    else none

unfoldable pub update_deleted : ℕ → ℕ → Bool → Statement Comment
update_deleted now id new_deleted = update_comment id (set_deleted now new_deleted)

unfoldable pub update_removed : ℕ → ℕ → Bool → Statement Comment
update_removed now id new_removed = update_comment id (set_removed now new_removed)

unfoldable pub update_read : ℕ → Bool → Statement Comment
update_read id new_read = update_comment id (set_read new_read)

unfoldable pub update_content : ℕ → ℕ → String → Statement Comment
update_content now id new_content = update_comment id (set_content now new_content)

-- `comment_fast_view` has a row for each comment and user, and one without a user. A post of the
-- comment is there by its foreign key.
unfoldable pub vote_of : Db → ℕ → ℕ → ℤ
vote_of db id user_id =
    elim (find? (λ l. l.comment_id == id && l.user_id == user_id) db.comment_likes) [
      | none ↦ pos 0
      | some l ↦ l.score
    ]

unfoldable pub view_row : Db → Comment → Post → Option ℕ → CommentView
unfolding vote_of
view_row db c p user_id = record {
  id = c.id;
  creator_id = c.creator_id;
  post_id = c.post_id;
  parent_id = c.parent_id;
  content = c.content;
  removed = c.removed;
  read = c.read;
  deleted = c.deleted;
  community_id = p.community_id;
  user_id = user_id;
  my_vote = elim user_id [ none ↦ none | some u ↦ some (vote_of db c.id u) ];
  saved = elim user_id [
    | none ↦ none
    | some u ↦ some (any (λ s. s.comment_id == c.id && s.user_id == u) db.comment_saved)
  ];
}

unfoldable pub has_reader : Db → Option ℕ → Bool
unfolding has_user
has_reader db none = true
has_reader db (some u) = has_user db u

-- `CommentView::read`
unfoldable pub read_view : Db → ℕ → Option ℕ → Option CommentView
unfolding view_row read_comment read_post has_reader
read_view db id my_user_id = elim (read_comment db id) [
  | none ↦ none
  | some c ↦ elim (read_post db c.post_id) [
    | none ↦ none
    | some p ↦ if has_reader db my_user_id then some (view_row db c p my_user_id) else none
  ]
]
