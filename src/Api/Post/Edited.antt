-- ===== src/Api/Post/Edited.antt =====
-- The row of a post after an edit (`EditPost` of lemmy_api/src/post.rs, `Post::update` of
-- lemmy_db/src/post.rs).
use lemmy.Prelude.{
  ℕ, String, Option, none, some, ◌≡◌, refl, ap, ◌∙◌, sym, subst, arith, find?-update_where, ◌==◌,
}
use lemmy.Prelude.Text.{cut, trim}
use lemmy.Db.Tables.{Db, Post, read_post}
use lemmy.Db.Post.{PostForm, stored, changed_post, overwrite, update_post}
use lemmy.Api.Post.Requests.{Services, EditPost}
use lemmy.Api.Post.Write.{edit_form}

-- A text that is given, or the one that was there.
abbrev pub or_before : Option String → Option String → Option String
or_before none before = before
or_before (some text) before = some text

-- What the author asked for is in the row, and all else is as it was. A link, a text and what the
-- linked page tells of itself stay where the new ones are not given.
pub record IsEdited (env : Services) (now : ℕ) (request : EditPost) (post row : Post) : Type 0 where
  pub id : row.id ≡ post.id
  pub name : row.name ≡ cut 200 (trim request.name)
  pub url : row.url ≡ or_before request.url post.url
  pub body : row.body ≡ or_before request.body post.body
  pub nsfw : row.nsfw ≡ request.nsfw
  pub updated : row.updated ≡ some now
  pub embed_title : row.embed_title ≡ or_before (env.fetch request.url).title post.embed_title
  pub embed_description :
      row.embed_description ≡ or_before (env.fetch request.url).description post.embed_description
  pub embed_html : row.embed_html ≡ or_before (env.fetch request.url).html post.embed_html
  pub thumbnail_url :
      row.thumbnail_url ≡ or_before (env.fetch request.url).thumbnail_url post.thumbnail_url
  pub creator_id : row.creator_id ≡ post.creator_id
  pub community_id : row.community_id ≡ post.community_id
  pub removed : row.removed ≡ post.removed
  pub deleted : row.deleted ≡ post.deleted
  pub locked : row.locked ≡ post.locked
  pub stickied : row.stickied ≡ post.stickied
  pub published : row.published ≡ post.published
  pub ap_id : row.ap_id ≡ cut 255 post.ap_id
  pub local : row.local ≡ post.local

overwrite-or_before : (a b : Option String) → overwrite a b ≡ or_before a b
overwrite-or_before none b = refl
overwrite-or_before (some a) b = refl

changed_post-id :
    (form : PostForm) (id : ℕ) (x : Post) → ((changed_post form x).id == id) ≡ (x.id == id)
unfolding changed_post
changed_post-id form id x = refl

-- The row that a statement gives is the form's, and it is the row that is found after it.
update_post-row :
    (id : ℕ) (form : PostForm) (post row : Post) (d d' : Db)
    → read_post d id ≡ some post
    → update_post id form d ≡ some (stored row, d')
    → (row ≡ changed_post form post) × (read_post d' id ≡ some (changed_post form post))
unfolding update_post read_post
update_post-row id form post row d d' found e =
    let after =
      find?-update_where (λ p. p.id == id) (changed_post form) d.posts (changed_post-id form id)
        post found in
    ground (arith, after)

module _ (env : Services) (now : ℕ) (request : EditPost) (post : Post) where
  edited_lem : IsEdited env now request post (changed_post (edit_form env now request post) post)
  unfolding changed_post edit_form
  edited_lem = record {
    id = refl;
    name = refl;
    url = overwrite-or_before request.url post.url;
    body = overwrite-or_before request.body post.body;
    nsfw = refl;
    updated = refl;
    embed_title = overwrite-or_before (env.fetch request.url).title post.embed_title;
    embed_description =
        overwrite-or_before (env.fetch request.url).description post.embed_description;
    embed_html = overwrite-or_before (env.fetch request.url).html post.embed_html;
    thumbnail_url = overwrite-or_before (env.fetch request.url).thumbnail_url post.thumbnail_url;
    creator_id = refl;
    community_id = refl;
    removed = refl;
    deleted = refl;
    locked = refl;
    stickied = refl;
    published = refl;
    ap_id = refl;
    local = refl;
  }

  pub update_post-IsEdited :
      (row : Post) (d d' : Db)
      → read_post d request.edit_id ≡ some post
      → update_post request.edit_id (edit_form env now request post) d ≡ some (stored row, d')
      → IsEdited env now request post row × (read_post d' request.edit_id ≡ some row)
  update_post-IsEdited row d d' found e =
      let (made, there) =
        update_post-row request.edit_id (edit_form env now request post) post row d d' found e in
      (subst (IsEdited env now request post) (sym made) edited_lem, there ∙ ap some (sym made))
