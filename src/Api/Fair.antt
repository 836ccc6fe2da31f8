-- ===== src/Api/Fair.antt =====
-- Runs in which every query is answered and every activity is sent: a step that can succeed does.
use lemmy.Prelude.{
  not, true, none, ℕ, String, false, [], Option, none, some, Result, ok, err, LemmyError, api,
  internal, ◌≡◌, refl, ap, ◌∙◌, sym, subst,
}
use lemmy.Db.Tables.{Db, User, Post, read_user, read_post}
use lemmy.Db.Access.{is_banned_from, is_mod_or_admin_db}
use lemmy.Db.Comment.{Statement, read_view}
use lemmy.Structs.{CommentView}
use lemmy.Api.Monad.{
  M, World, ◌>>=◌, ◌>>◌, fail_if, ok_or, query, execute, applied, next_weather, later_weather,
}
use lemmy.Api.Auth.{get_user_from_jwt, check_community_ban, get_post, is_mod_or_admin}
use lemmy.Api.Comment.Write.{see_comment}
use lemmy.Api.Checks.{IsCaller}

module _ {A B : Type 0} where
  pub bind_ok :
      (m : M A) (f : A → M B) (w w' : World) (a : A) (r : Result B × World)
      → m w ≡ (ok a, w')
      → f a w' ≡ r
      → (m >>= f) w ≡ r
  unfolding ◌>>=◌
  bind_ok m f w w' a r e k =
      ap (λ (x : Result A × World). elim x.0 [ ok b ↦ f b x.1 | err y ↦ (err y, x.1) ]) e ∙ k

  pub bind_err :
      (m : M A) (f : A → M B) (w w' : World) (x : LemmyError)
      → m w ≡ (err x, w')
      → (m >>= f) w ≡ (err x, w')
  unfolding ◌>>=◌
  bind_err m f w w' x e =
      ap (λ (r : Result A × World). elim r.0 [ ok b ↦ f b r.1 | err y ↦ (err y, r.1) ]) e

module _ {A : Type 0} (w : World) (fair : w.weather ≡ []) where
  pub execute_ok :
      (q : Statement A) (a : A) (db : Db)
      → q w.db ≡ some (a, db)
      → execute q w ≡ (ok (some a), record w { db = db })
  unfolding execute next_weather later_weather
  execute_ok q a db e =
      subst
        (λ ws.
          execute q (record w { weather = ws }) ≡ (ok (some a), record w { weather = ws; db = db }))
        (sym fair) (ap (λ o. applied o (record w { weather = [] })) e)

  answer_as_is :
      (v : World) (o : Option A)
      → applied (elim o [ none ↦ none | some a ↦ some (a, v.db) ]) v ≡ (ok o, v)
  answer_as_is v none = refl
  answer_as_is v (some a) = refl

  pub query_ok : (q : Db → Option A) → query q w ≡ (ok (q w.db), w)
  unfolding query execute next_weather later_weather
  query_ok q =
      subst (λ ws. query q (record w { weather = ws }) ≡ (ok (q w.db), record w { weather = ws }))
        (sym fair) (answer_as_is (record w { weather = [] }) (q w.db))

  pub row_ok :
      (q : Db → Option A) (e : LemmyError) (a : A)
      → q w.db ≡ some a
      → (query q >>= λ o. ok_or o e) w ≡ (ok a, w)
  row_ok q e a h = bind_ok _ _ w w (q w.db) _ (query_ok q) (ap (λ o. ok_or o e w) h)

-- The steps of the handlers of comments, where all is as it should be.
module _ (w : World) (fair : w.weather ≡ []) where
  pub get_user_from_jwt_ok :
      (decode : String → Option ℕ) (auth : String) (user : User)
      → IsCaller decode auth w.db user
      → get_user_from_jwt decode auth w ≡ (ok user, w)
  unfolding get_user_from_jwt
  get_user_from_jwt_ok decode auth user c =
      bind_ok (ok_or (decode auth) _) _ w w c.id _
        (ap (λ o. ok_or o (api "not_logged_in") w) c.named)
        (bind_ok _ _ w w (some user) _
          (query_ok w fair (λ db. read_user db c.id) ∙ ap (λ o. (ok o, w)) c.there)
          (bind_ok _ _ w w user _ refl
            (bind_ok _ _ w w tt _ (ap (λ b. fail_if b (api "site_ban") w) c.welcome) refl)))

  pub check_community_ban_ok :
      (user_id community_id : ℕ)
      → is_banned_from w.db user_id community_id ≡ false
      → check_community_ban user_id community_id w ≡ (ok tt, w)
  unfolding check_community_ban
  check_community_ban_ok user_id community_id h =
      bind_ok _ _ w w (some (is_banned_from w.db user_id community_id)) _
        (query_ok w fair (λ db. some (is_banned_from db user_id community_id)))
        (ap (λ b. fail_if b (api "community_ban") w) h)

  pub see_comment_ok :
      (id : ℕ) (my_user_id : Option ℕ) (view : CommentView)
      → read_view w.db id my_user_id ≡ some view
      → see_comment id my_user_id w ≡ (ok view, w)
  unfolding see_comment
  see_comment_ok id my_user_id = row_ok w fair (λ db. read_view db id my_user_id) internal

  pub get_post_ok :
      (id : ℕ) (post : Post) → read_post w.db id ≡ some post → get_post id w ≡ (ok post, w)
  unfolding get_post
  get_post_ok id = row_ok w fair (λ db. read_post db id) (api "couldnt_find_post")

  pub is_mod_or_admin_ok :
      (user_id community_id : ℕ)
      → is_mod_or_admin_db w.db user_id community_id ≡ true
      → is_mod_or_admin user_id community_id w ≡ (ok tt, w)
  unfolding is_mod_or_admin
  is_mod_or_admin_ok user_id community_id h =
      bind_ok _ _ w w (some (is_mod_or_admin_db w.db user_id community_id)) _
        (query_ok w fair (λ db. some (is_mod_or_admin_db db user_id community_id)))
        (ap (λ b. fail_if (not b) (api "not_a_mod_or_admin") w) h)

  -- The checks at the beginning of a handler pass.
  pub checked_ok :
      {B : Type 0} (decode : String → Option ℕ) (auth : String) (id : ℕ) (user : User)
      (comment : CommentView) (k : User → CommentView → M B) (r : Result B × World)
      → IsCaller decode auth w.db user
      → read_view w.db id none ≡ some comment
      → is_banned_from w.db user.id comment.community_id ≡ false
      → k user comment w ≡ r
      → (get_user_from_jwt decode auth >>= λ u.
            see_comment id none >>= λ c. check_community_ban u.id c.community_id >> k u c)
          w
        ≡ r
  checked_ok decode auth id user comment k r caller seen allowed goes_on =
      bind_ok _ _ w w user r (get_user_from_jwt_ok decode auth user caller) (
        bind_ok _ _ w w comment r (see_comment_ok id none comment seen) (
          bind_ok _ _ w w tt r (check_community_ban_ok user.id comment.community_id allowed)
            goes_on))
