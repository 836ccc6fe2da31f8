-- ===== src/Api/Auth.antt =====
-- Who asks, and whether they may (lemmy_api/src/lib.rs, lemmy_api/src/claims.rs).
use lemmy.Prelude.{ℕ, String, Bool, false, not, List, [], ◌∷◌, Option, none, some, api, internal}
use lemmy.Db.Tables.{User, Post, read_user, read_post}
use lemmy.Db.Access.{is_mod_or_admin_db, is_banned_from, user_moderated_communities}
use lemmy.Api.Monad.{M, pure, ◌>>=◌, ◌>>◌, fail_if, ok_or, query}

-- A query whose result the caller takes for an answer whatever it is: a database error is `false`.
abbrev pub or_false : Option Bool → Bool
or_false none = false
or_false (some b) = b

unfoldable pub is_mod_or_admin : ℕ → ℕ → M (Unit {0})
is_mod_or_admin user_id community_id = do
  answer ← query (λ db. some (is_mod_or_admin_db db user_id community_id))
  fail_if (not (or_false answer)) (api "not_a_mod_or_admin")

unfoldable pub is_admin : ℕ → M (Unit {0})
is_admin user_id = do
  row ← query (λ db. read_user db user_id)
  user ← ok_or row internal
  fail_if (not user.admin) (api "not_an_admin")

unfoldable pub get_post : ℕ → M Post
get_post post_id = do row ← query (λ db. read_post db post_id); ok_or row (api "couldnt_find_post")

-- `decode` is the decoding of a token by the JWT library: the user that it was made for.
unfoldable pub get_user_from_jwt : (String → Option ℕ) → String → M User
get_user_from_jwt decode jwt = do
  user_id ← ok_or (decode jwt) (api "not_logged_in")
  row ← query (λ db. read_user db user_id)
  user ← ok_or row internal
  fail_if user.banned (api "site_ban")
  pure user

unfoldable pub get_user_from_jwt_opt : (String → Option ℕ) → Option String → M (Option User)
unfolding get_user_from_jwt
get_user_from_jwt_opt decode none = pure none
get_user_from_jwt_opt decode (some jwt) = do user ← get_user_from_jwt decode jwt; pure (some user)

-- `CommunityUserBanView::get(…).is_ok()`: a database error counts as no ban.
unfoldable pub check_community_ban : ℕ → ℕ → M (Unit {0})
check_community_ban user_id community_id = do
  answer ← query (λ db. some (is_banned_from db user_id community_id))
  fail_if (or_false answer) (api "community_ban")

unfoldable pub collect_moderated_communities : ℕ → Option ℕ → M (List ℕ)
unfolding is_mod_or_admin
collect_moderated_communities user_id (some community_id) = do
  is_mod_or_admin user_id community_id
  pure (community_id ∷ [])
collect_moderated_communities user_id none = do
  ids ← query (λ db. some (user_moderated_communities db user_id))
  ok_or ids internal
