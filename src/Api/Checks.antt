-- ===== src/Api/Checks.antt =====
-- What a handler knows once the checks of lemmy_api/src/lib.rs have passed.
use lemmy.Prelude.{
  ℕ, String, Bool, true, false, not, [], Option, none, some, Result, ok, err, LemmyError, api,
  internal, ◌≡◌, refl, ap, ◌∙◌, sym,
}
use lemmy.Structs.{CommentView}
use lemmy.Db.Tables.{Db, User, Post, read_user, read_post}
use lemmy.Db.Access.{is_mod_or_admin_db, is_banned_from}
use lemmy.Db.Comment.{read_view}
use lemmy.Api.Monad.{M, World, ◌>>=◌, ◌>>◌, fail_if, ok_or, query}
use lemmy.Api.Auth.{get_user_from_jwt, get_post, check_community_ban, is_mod_or_admin, or_false}
use lemmy.Api.Comment.Write.{see_comment}
use lemmy.Api.Effects.{
  Reads, Calm, Calm-trans, calmly, seq, Reads-bind, Reads-pure, Reads-query, Reads-ok_or,
  Reads-fail_if,
}
use lemmy.Api.Steps.{query-ok, ok_or-ok, fail_if-ok, pure-ok}

-- The user whom the token names: there, and not banned from the site.
pub record IsCaller (decode : String → Option ℕ) (auth : String) (db : Db) (user : User)
    : Type 0 where
  pub id : ℕ
  pub named : decode auth ≡ some id
  pub there : read_user db id ≡ some user
  pub welcome : user.banned ≡ false

module _ {A : Type 0} where
  -- A query for a row that must be there.
  pub row-Reads : (q : Db → Option A) (e : LemmyError) → Reads (query q >>= λ o. ok_or o e)
  row-Reads q e = Reads-bind (query q) (λ o. ok_or o e) (Reads-query q) (λ o. Reads-ok_or o e)

  pub row-ok :
      (q : Db → Option A) (e : LemmyError) (a : A) (w w' : World)
      → (query q >>= λ o. ok_or o e) w ≡ (ok a, w')
      → q w.db ≡ some a
  row-ok q e a w w' =
      seq (λ r. r ≡ (ok a, w') → q w.db ≡ some a) (query q) (λ o. ok_or o e) w (λ x v h k. cc)
        λ o v h k. (query-ok q o w v h).1 a (ok_or-ok o e a v w' k).0

fact-ok :
    (f : Option Bool → Bool) (o : Option Bool) (b : Bool)
    → f none ≡ true
    → f o ≡ false
    → ((a : Bool) → o ≡ some a → some b ≡ some a)
    → f (some b) ≡ false
fact-ok f none b strict h always = cc
fact-ok f (some a) b strict h always = ap f (always a refl) ∙ h

-- A negated test that fails.
pub not-false : (b : Bool) → not b ≡ false → b ≡ true
not-false true h = refl
not-false false h = cc

-- A query for a fact that must not be: it is not, if the database answered.
pub never-ok :
    (q : Db → Bool) (f : Option Bool → Bool) (e : LemmyError) (u : Unit {0}) (w w' : World)
    → (query (λ db. some (q db)) >>= λ o. fail_if (f o) e) w ≡ (ok u, w')
    → (w.weather ≡ [] → f (some (q w.db)) ≡ false) × ((f none ≡ true) → f (some (q w.db)) ≡ false)
never-ok q f e u w w' =
    seq
      (λ r.
        r ≡ (ok u, w')
        → (w.weather ≡ [] → f (some (q w.db)) ≡ false)
          × ((f none ≡ true) → f (some (q w.db)) ≡ false))
      _ _ w (λ x v h k. cc)
      λ o v h k.
        let (fair, always) = query-ok _ o w v h in
        let (passed, same) = fail_if-ok (f o) e u v w' k in
        (λ g. ap f (sym (fair g)) ∙ passed, λ g. fact-ok f o (q w.db) g passed always)

pub see_comment-Reads : (id : ℕ) (my_user_id : Option ℕ) → Reads (see_comment id my_user_id)
unfolding see_comment
see_comment-Reads id my_user_id = row-Reads (λ db. read_view db id my_user_id) internal

pub see_comment-ok :
    (id : ℕ) (my_user_id : Option ℕ) (view : CommentView) (w w' : World)
    → see_comment id my_user_id w ≡ (ok view, w')
    → read_view w.db id my_user_id ≡ some view
unfolding see_comment
see_comment-ok id my_user_id = row-ok (λ db. read_view db id my_user_id) internal

pub get_post-Reads : (id : ℕ) → Reads (get_post id)
unfolding get_post
get_post-Reads id = row-Reads (λ db. read_post db id) (api "couldnt_find_post")

pub get_post-ok :
    (id : ℕ) (post : Post) (w w' : World)
    → get_post id w ≡ (ok post, w')
    → read_post w.db id ≡ some post
unfolding get_post
get_post-ok id = row-ok (λ db. read_post db id) (api "couldnt_find_post")

pub check_community_ban-Reads :
    (user_id community_id : ℕ) → Reads (check_community_ban user_id community_id)
unfolding check_community_ban
check_community_ban-Reads user_id community_id =
    Reads-bind _ _ (Reads-query _) (λ o. Reads-fail_if _ _)

-- In fair weather nobody passes who is banned.
pub check_community_ban-ok :
    (user_id community_id : ℕ) (u : Unit {0}) (w w' : World)
    → check_community_ban user_id community_id w ≡ (ok u, w')
    → w.weather ≡ []
    → is_banned_from w.db user_id community_id ≡ false
unfolding check_community_ban
check_community_ban-ok user_id community_id u w w' e fair =
    (never-ok (λ db. is_banned_from db user_id community_id) or_false _ u w w' e).0 fair

pub is_mod_or_admin-Reads :
    (user_id community_id : ℕ) → Reads (is_mod_or_admin user_id community_id)
unfolding is_mod_or_admin
is_mod_or_admin-Reads user_id community_id = Reads-bind _ _ (Reads-query _) (λ o. Reads-fail_if _ _)

-- Whatever the weather, who passes has the rights.
pub is_mod_or_admin-ok :
    (user_id community_id : ℕ) (u : Unit {0}) (w w' : World)
    → is_mod_or_admin user_id community_id w ≡ (ok u, w')
    → is_mod_or_admin_db w.db user_id community_id ≡ true
unfolding is_mod_or_admin
is_mod_or_admin-ok user_id community_id u w w' e =
    not-false (is_mod_or_admin_db w.db user_id community_id) (
      (never-ok (λ db. is_mod_or_admin_db db user_id community_id) (λ o. not (or_false o)) _ u w w'
          e).1
        refl)

module _ (decode : String → Option ℕ) (auth : String) where
  user-ok :
      (id : ℕ) (found user : User) (w w1 : World)
      → ((decode auth ≡ some id) × (w ≡ w1))
      → read_user w1.db id ≡ some found
      → found.banned ≡ false
      → found ≡ user
      → IsCaller decode auth w.db user
  user-ok id found user w w1 (named, same) there welcome found_user = record {
    id = id;
    named = named;
    there = ap (λ v. read_user v.db id) same ∙ (there ∙ ap some found_user);
    welcome = ap (λ u. u.banned) (sym found_user) ∙ welcome;
  }

  pub get_user_from_jwt-Reads : Reads (get_user_from_jwt decode auth)
  unfolding get_user_from_jwt
  get_user_from_jwt-Reads = Reads-bind _ _ (Reads-ok_or (decode auth) _) λ id.
      Reads-bind _ _ (Reads-query _) λ row.
        Reads-bind _ _ (Reads-ok_or row _)
          λ user. Reads-bind _ _ (Reads-fail_if user.banned _) λ u. Reads-pure user

  pub get_user_from_jwt-ok :
      (user : User) (w w' : World)
      → get_user_from_jwt decode auth w ≡ (ok user, w')
      → IsCaller decode auth w.db user
  unfolding get_user_from_jwt
  get_user_from_jwt-ok user w w' =
      let Q : Result User × World → Type 0 =
        λ r. r ≡ (ok user, w') → IsCaller decode auth w.db user in
      seq Q _ _ w (λ x v h k. cc)
        λ id w1 h1.
          seq Q _ _ w1 (λ x v h k. cc)
            λ row w2 h2.
              seq Q _ _ w2 (λ x v h k. cc)
                λ found w3 h3.
                  seq Q _ _ w3 (λ x v h k. cc)
                    λ u w4 h4 k.
                      user-ok id found user w w1 (ok_or-ok _ _ id w w1 h1)
                        ((query-ok _ row w1 w2 h2).1 found (ok_or-ok row _ found w2 w3 h3).0)
                        (fail_if-ok _ _ u w3 w4 h4).0 (pure-ok found user w4 w' k)

-- Who asks about a comment: the caller and the comment as it is seen, with the caller not banned
-- from the community, unless the database did not answer.
pub record IsReader (decode : String → Option ℕ) (auth : String) (id : ℕ) (w : World) (user : User)
    (comment : CommentView) : Type 0 where
  pub caller : IsCaller decode auth w.db user
  pub seen : read_view w.db id none ≡ some comment
  pub allowed : w.weather ≡ [] → is_banned_from w.db user.id comment.community_id ≡ false

-- The handlers that change a comment begin alike.
pub checked {ℓ} :
    {B : Type 0} (decode : String → Option ℕ) (auth : String) (id : ℕ)
    (k : User → CommentView → M B) (Q : Result B × World → Type ℓ) (w : World)
    → ((x : LemmyError) (w' : World) → w'.db ≡ w.db → Q (err x, w'))
    → ((user : User) (comment : CommentView) (w' : World)
        → IsReader decode auth id w user comment
        → Calm w w'
        → Q (k user comment w'))
    → Q (
        (get_user_from_jwt decode auth >>= λ user.
        see_comment id none >>= λ c. check_community_ban user.id c.community_id >> k user c)
          w)
checked decode auth id k Q w failed went =
    calmly Q _ _ w (get_user_from_jwt-Reads decode auth) (λ x v c. failed x v c.0)
      λ user w1 c e.
        calmly Q _ _ w1 (see_comment-Reads id none) (λ x v d. failed x v (d.0 ∙ c.0))
          λ comment w2 d f.
            calmly Q _ _ w2 (check_community_ban-Reads user.id comment.community_id)
              (λ x v b. failed x v (b.0 ∙ (d.0 ∙ c.0)))
              λ u w3 b g.
                went user comment w3
                  (record {
                    caller = get_user_from_jwt-ok decode auth user w w1 e;
                    seen =
                        ap (λ db. read_view db id none) (sym c.0)
                        ∙ see_comment-ok id none comment w1 w2 f;
                    allowed = λ fair.
                        ap (λ db. is_banned_from db user.id comment.community_id) (sym (d.0 ∙ c.0))
                        ∙ check_community_ban-ok user.id comment.community_id u w2 w3 g
                            (d.1 (c.1 fair));
                  })
                  (Calm-trans w w1 w3 c (Calm-trans w1 w2 w3 d b))
