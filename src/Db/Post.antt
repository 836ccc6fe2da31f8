-- ===== src/Db/Post.antt =====
-- Posts and what a reader sees of them (lemmy_db/src/post.rs, lemmy_db/src/post_view.rs).
use lemmy.Prelude.{
  ℕ, suc, String, Bool, true, false, ◌&&◌, not, List, [], ◌∷◌, ◌++◌, Option, none, some, find?, any,
  retain, update_where, map, ◌==◌, str_eq, if◌then◌else◌,
}
use lemmy.Prelude.Int.{ℤ, pos}
use lemmy.Prelude.Text.{fits, cut}
use lemmy.Structs.{PostView}
use lemmy.Db.Tables.{Db, Post, has_user, has_community, read_post}
use lemmy.Db.Comment.{Statement, has_reader}

pub record PostForm : Type 0 where
  pub name : String
  pub url : Option String
  pub body : Option String
  pub creator_id : ℕ
  pub community_id : ℕ
  pub removed : Option Bool
  pub locked : Option Bool
  pub published : Option ℕ
  pub updated : Option ℕ
  pub deleted : Option Bool
  pub nsfw : Bool
  pub stickied : Option Bool
  pub embed_title : Option String
  pub embed_description : Option String
  pub embed_html : Option String
  pub thumbnail_url : Option String
  pub ap_id : Option String
  pub local : Bool

-- A statement that PostgreSQL may refuse because a title is too long for its column: the handlers
-- tell that error from the others, that of an address that is too long for its own included.
pub data Stored (A : Type 0) : Type 0 where
  too_long : Stored A
  stored : A → Stored A

-- A column that a form may leave out.
abbrev pub given : {A : Type 0} → Option A → A → A
given none a = a
given (some b) a = b

-- A column that may be null, which a form with `None` leaves as it is (`AsChangeset`).
abbrev pub overwrite : {A : Type 0} → Option A → Option A → Option A
overwrite none o = o
overwrite (some b) o = some b

-- The row of a form: what it leaves out has the table's default. `changeme` is the address that the
-- database makes up.
unfoldable pub new_post : Db → ℕ → String → PostForm → Post
unfolding cut
new_post db now changeme form = record {
  id = db.next_post;
  name = cut 200 form.name;
  url = form.url;
  body = form.body;
  creator_id = form.creator_id;
  community_id = form.community_id;
  removed = given form.removed false;
  locked = given form.locked false;
  published = given form.published now;
  updated = form.updated;
  deleted = given form.deleted false;
  nsfw = form.nsfw;
  stickied = given form.stickied false;
  embed_title = form.embed_title;
  embed_description = form.embed_description;
  embed_html = form.embed_html;
  thumbnail_url = form.thumbnail_url;
  ap_id = cut 255 (given form.ap_id changeme);
  local = form.local;
}

-- The identifiers of ActivityPub are unique.
unfoldable pub is_taken : Db → ℕ → String → Bool
is_taken db id apub_id = any (λ p. str_eq p.ap_id apub_id && not (p.id == id)) db.posts

unfoldable pub create_post : ℕ → String → PostForm → Statement (Stored Post)
unfolding new_post has_user has_community is_taken fits
create_post now changeme form db =
    let row = new_post db now changeme form in
    if not (fits 200 form.name)
    then some (too_long, db)
    else (if fits 255 (given form.ap_id changeme)
          && (has_user db form.creator_id
              && (has_community db form.community_id && not (is_taken db row.id row.ap_id)))
        then some
            (stored row, record db { posts = db.posts ++ row ∷ []; next_post = suc db.next_post })
        else none)

-- The row that a form makes of a row.
unfoldable pub changed_post : PostForm → Post → Post
unfolding cut
changed_post form p = record {
  id = p.id;
  name = cut 200 form.name;
  url = overwrite form.url p.url;
  body = overwrite form.body p.body;
  creator_id = form.creator_id;
  community_id = form.community_id;
  removed = given form.removed p.removed;
  locked = given form.locked p.locked;
  published = given form.published p.published;
  updated = overwrite form.updated p.updated;
  deleted = given form.deleted p.deleted;
  nsfw = form.nsfw;
  stickied = given form.stickied p.stickied;
  embed_title = overwrite form.embed_title p.embed_title;
  embed_description = overwrite form.embed_description p.embed_description;
  embed_html = overwrite form.embed_html p.embed_html;
  thumbnail_url = overwrite form.thumbnail_url p.thumbnail_url;
  ap_id = cut 255 (given form.ap_id p.ap_id);
  local = form.local;
}

-- `diesel::update(post.find(id)).set(…).get_result()`
unfoldable pub set_post : ℕ → (Post → Post) → Statement Post
unfolding read_post
set_post id f db = elim (read_post db id) [
  | none ↦ none
  | some p ↦ some (f p, record db { posts = update_where (λ p. p.id == id) f db.posts })
]

unfoldable pub update_post : ℕ → PostForm → Statement (Stored Post)
unfolding changed_post has_user has_community is_taken fits read_post
update_post id form db = elim (read_post db id) [
  | none ↦ none
  | some p ↦
      if not (fits 200 form.name)
      then some (too_long, db)
      else (if fits 255 (given form.ap_id p.ap_id)
            && (has_user db form.creator_id
                && (has_community db form.community_id
                    && not (is_taken db id (changed_post form p).ap_id)))
          then some (
            stored (changed_post form p),
            record db { posts = update_where (λ p. p.id == id) (changed_post form) db.posts },
          )
          else none)
]

-- The fields that the updates of `impl Post` set.
abbrev pub set_post_ap_id : String → Post → Post
set_post_ap_id apub_id p = record p { ap_id = apub_id }

abbrev pub set_post_deleted : ℕ → Bool → Post → Post
set_post_deleted now new_deleted p = record p { deleted = new_deleted; updated = some now }

abbrev pub set_post_removed : ℕ → Bool → Post → Post
set_post_removed now new_removed p = record p { removed = new_removed; updated = some now }

abbrev pub set_locked : Bool → Post → Post
set_locked new_locked p = record p { locked = new_locked }

abbrev pub set_stickied : Bool → Post → Post
set_stickied new_stickied p = record p { stickied = new_stickied }

unfoldable pub update_post_ap_id : ℕ → String → Statement Post
unfolding set_post is_taken fits cut
update_post_ap_id id apub_id db =
    if fits 255 apub_id && not (is_taken db id (cut 255 apub_id))
    then set_post id (set_post_ap_id (cut 255 apub_id)) db
    else none

unfoldable pub update_post_deleted : ℕ → ℕ → Bool → Statement Post
update_post_deleted now id new_deleted = set_post id (set_post_deleted now new_deleted)

unfoldable pub update_post_removed : ℕ → ℕ → Bool → Statement Post
update_post_removed now id new_removed = set_post id (set_post_removed now new_removed)

unfoldable pub update_locked : ℕ → Bool → Statement Post
update_locked id new_locked = set_post id (set_locked new_locked)

unfoldable pub update_stickied : ℕ → Bool → Statement Post
update_stickied id new_stickied = set_post id (set_stickied new_stickied)

-- The posts of a user in a community, or in all.
abbrev pub is_by : ℕ → Option ℕ → Post → Bool
is_by creator_id none p = p.creator_id == creator_id
is_by creator_id (some community_id) p =
    p.creator_id == creator_id && p.community_id == community_id

unfoldable pub update_removed_for_creator : ℕ → ℕ → Option ℕ → Bool → Statement (List Post)
update_removed_for_creator now creator_id community_id new_removed db =
    let f = set_post_removed now new_removed in
    some (
      map f (retain (is_by creator_id community_id) db.posts),
      record db { posts = update_where (is_by creator_id community_id) f db.posts },
    )

unfoldable pub permadelete_for_creator : ℕ → ℕ → Statement (List Post)
permadelete_for_creator now creator_id db =
    let f : Post → Post = λ p. record p {
      name = "*Permananently Deleted*";
      url = some "https://deleted.com";
      body = some "*Permananently Deleted*";
      deleted = true;
      updated = some now;
    } in
    some (
      map f (retain (is_by creator_id none) db.posts),
      record db { posts = update_where (is_by creator_id none) f db.posts },
    )

unfoldable pub is_post_creator : ℕ → ℕ → Bool
is_post_creator user_id post_creator_id = user_id == post_creator_id

-- `post_fast_view` has a row for each post and user, and one without a user.
unfoldable pub post_vote_of : Db → ℕ → ℕ → ℤ
post_vote_of db id user_id =
    elim (find? (λ l. l.post_id == id && l.user_id == user_id) db.post_likes) [
      | none ↦ pos 0
      | some l ↦ l.score
    ]

unfoldable pub post_view_row : Db → Post → Option ℕ → PostView
unfolding post_vote_of
post_view_row db p user_id = record {
  id = p.id;
  name = p.name;
  url = p.url;
  body = p.body;
  creator_id = p.creator_id;
  community_id = p.community_id;
  removed = p.removed;
  locked = p.locked;
  deleted = p.deleted;
  nsfw = p.nsfw;
  stickied = p.stickied;
  user_id = user_id;
  my_vote = elim user_id [ none ↦ none | some u ↦ some (post_vote_of db p.id u) ];
  saved = elim user_id [
    | none ↦ none
    | some u ↦ some (any (λ s. s.post_id == p.id && s.user_id == u) db.post_saved)
  ];
}

-- `PostView::read`
unfoldable pub read_post_view : Db → ℕ → Option ℕ → Option PostView
unfolding post_view_row read_post has_reader
read_post_view db id my_user_id = elim (read_post db id) [
  | none ↦ none
  | some p ↦ if has_reader db my_user_id then some (post_view_row db p my_user_id) else none
]
