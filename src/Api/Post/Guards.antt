-- ===== src/Api/Post/Guards.antt =====
-- How the handlers that change a post begin and end (lemmy_api/src/post.rs): the checks, a statement that
-- must succeed, and the answer.
use lemmy.Prelude.{
  ℕ, String, true, false, not, Option, none, some, Result, ok, err, LemmyError, internal, [], ◌≡◌,
  refl, ap, ◌∙◌, sym, ◌⊎◌, inl, inr, arith,
}
use lemmy.Structs.{PostView, PostResponse, UserOperation}
use lemmy.Db.Tables.{Db, User, Post, read_post}
use lemmy.Db.Access.{is_mod_or_admin_db, is_banned_from}
use lemmy.Db.Comment.{Statement}
use lemmy.Db.Post.{Stored, too_long, stored, is_post_creator, read_post_view}
use lemmy.Api.Auth.{check_community_ban, is_mod_or_admin}
use lemmy.Api.Monad.{
  M, World, fail_if, execute, ◌>>=◌, ◌>>◌, ActivityKind, send_post_activity, do_send,
}
use lemmy.Api.Post.Write.{find_post, see_post, announce_post, stored_or}
use lemmy.Api.Checks.{
  IsCaller, row-Reads, row-ok, check_community_ban-Reads, check_community_ban-ok,
  is_mod_or_admin-ok, is_mod_or_admin-Reads,
}
use lemmy.Api.Effects.{
  Reads, Reads-fail_if, Reads-send_post_activity, Calm, Calm-trans, calmly, seq,
}
use lemmy.Api.Steps.{fail_if-ok, execute-ok, execute-err}

pub find_post-Reads : (id : ℕ) → Reads (find_post id)
unfolding find_post
find_post-Reads id = row-Reads (λ db. read_post db id) internal

pub find_post-ok :
    (id : ℕ) (post : Post) (w w' : World)
    → find_post id w ≡ (ok post, w')
    → read_post w.db id ≡ some post
unfolding find_post
find_post-ok id = row-ok (λ db. read_post db id) internal

pub see_post-Reads :
    (id : ℕ) (my_user_id : Option ℕ) (e : LemmyError) → Reads (see_post id my_user_id e)
unfolding see_post
see_post-Reads id my_user_id e = row-Reads (λ db. read_post_view db id my_user_id) e

pub see_post-ok :
    (id : ℕ) (my_user_id : Option ℕ) (e : LemmyError) (view : PostView) (w w' : World)
    → see_post id my_user_id e w ≡ (ok view, w')
    → read_post_view w.db id my_user_id ≡ some view
unfolding see_post
see_post-ok id my_user_id = row-ok (λ db. read_post_view db id my_user_id)

-- Who asks about a post: the caller is not banned from its community, unless the database did not
-- answer.
pub record IsPostReader (decode : String → Option ℕ) (auth : String) (id : ℕ) (w : World)
    (user : User) (post : Post) : Type 0 where
  pub caller : IsCaller decode auth w.db user
  pub found : read_post w.db id ≡ some post
  pub allowed : w.weather ≡ [] → is_banned_from w.db user.id post.community_id ≡ false

-- What was read after the caller was found was there before.
pub as_reader :
    (decode : String → Option ℕ) (auth : String) (id : ℕ) (w w' : World) (user : User) (post : Post)
    → IsCaller decode auth w.db user
    → Calm w w'
    → read_post w'.db id ≡ some post
    → (w'.weather ≡ [] → is_banned_from w'.db user.id post.community_id ≡ false)
    → IsPostReader decode auth id w user post
as_reader decode auth id w w' user post caller c found allowed = record {
  caller = caller;
  found = ap (λ db. read_post db id) (sym c.0) ∙ found;
  allowed =
      λ fair. ap (λ db. is_banned_from db user.id post.community_id) (sym c.0) ∙ allowed (c.1 fair);
}

same-id : (a b : ℕ) → not (is_post_creator a b) ≡ false → a ≡ b
unfolding is_post_creator
same-id a b h = ground arith

module _ {ℓ} {B : Type 0} (user : User) (id : ℕ) (Q : Result B × World → Type ℓ) (w : World)
    (failed : (x : LemmyError) (w' : World) → w'.db ≡ w.db → Q (err x, w')) where
  -- The post is found, and the caller is not banned from its community.
  pub found_post :
      (k : Post → M B)
      → ((post : Post) (w' : World)
          → read_post w.db id ≡ some post
          → (w.weather ≡ [] → is_banned_from w.db user.id post.community_id ≡ false)
          → Calm w w'
          → Q (k post w'))
      → Q ((find_post id >>= λ p. check_community_ban user.id p.community_id >> k p) w)
  found_post k went =
      calmly Q _ _ w (find_post-Reads id) (λ x v c. failed x v c.0)
        λ post w1 c e.
          calmly Q _ _ w1 (check_community_ban-Reads user.id post.community_id)
            (λ x v d. failed x v (d.0 ∙ c.0))
            λ u w2 d f.
              went post w2 (find_post-ok id post w w1 e)
                (λ fair.
                  ap (λ db. is_banned_from db user.id post.community_id) (sym c.0)
                  ∙ check_community_ban-ok user.id post.community_id u w1 w2 f (c.1 fair))
                (Calm-trans w w1 w2 c d)

  -- Only the creator goes on.
  pub as_creator :
      (x : LemmyError) (k : Post → M B)
      → ((post : Post) (w' : World)
          → read_post w.db id ≡ some post
          → (w.weather ≡ [] → is_banned_from w.db user.id post.community_id ≡ false)
          → user.id ≡ post.creator_id
          → Calm w w'
          → Q (k post w'))
      → Q (
          (find_post id >>= λ p.
          check_community_ban user.id p.community_id
          >> (fail_if (not (is_post_creator user.id p.creator_id)) x >> k p))
            w)
  as_creator x k went = found_post _ λ post v found allowed c.
      calmly Q _ _ v (Reads-fail_if _ _) (λ z v1 d. failed z v1 (d.0 ∙ c.0))
        λ u v1 d e.
          went post v1 found allowed (same-id user.id post.creator_id (fail_if-ok _ _ u v v1 e).0)
            (Calm-trans w v v1 c d)

  -- Only who has the rights in the post's community goes on.
  pub as_moderator :
      (k : Post → M B)
      → ((post : Post) (w' : World)
          → read_post w.db id ≡ some post
          → (w.weather ≡ [] → is_banned_from w.db user.id post.community_id ≡ false)
          → is_mod_or_admin_db w.db user.id post.community_id ≡ true
          → Calm w w'
          → Q (k post w'))
      → Q (
          (find_post id >>= λ p.
          check_community_ban user.id p.community_id
          >> (is_mod_or_admin user.id p.community_id >> k p))
            w)
  as_moderator k went = found_post _ λ post v found allowed c.
      calmly Q _ _ v (is_mod_or_admin-Reads user.id post.community_id)
        (λ z v1 d. failed z v1 (d.0 ∙ c.0))
        λ u v1 d e.
          went post v1 found allowed
            (ap (λ db. is_mod_or_admin_db db user.id post.community_id) (sym c.0)
              ∙ is_mod_or_admin-ok user.id post.community_id u v v1 e)
            (Calm-trans w v v1 c d)

stored_or-err :
    {A : Type 0} (o : Option (Stored A)) (x e : LemmyError) (w w' : World)
    → stored_or o x w ≡ (err e, w')
    → (w ≡ w') × ((o ≡ none) ⊎ (o ≡ some too_long))
stored_or-err none x e w w' h = (cc, inl refl)
stored_or-err (some too_long) x e w w' h = (cc, inr refl)
stored_or-err (some (stored a)) x e w w' h = cc

stored_or-ok :
    {A : Type 0} (o : Option (Stored A)) (x : LemmyError) (a : A) (w w' : World)
    → stored_or o x w ≡ (ok a, w')
    → (o ≡ some (stored a)) × (w ≡ w')
stored_or-ok none x a w w' h = cc
stored_or-ok (some too_long) x a w w' h = cc
stored_or-ok (some (stored b)) x a w w' h = ground arith

-- A statement that stores a title: it changes nothing, or gives its row and its tables.
pub stored_statement {ℓ} :
    {A B : Type 0} (q : Statement (Stored A)) (x : LemmyError) (k : A → M B)
    (Q : Result B × World → Type ℓ) (w : World)
    → ((d d' : Db) → q d ≡ some (too_long, d') → d' ≡ d)
    → ((e : LemmyError) (w' : World) → w'.db ≡ w.db → Q (err e, w'))
    → ((a : A) (w' : World) → q w.db ≡ some (stored a, w'.db) → Q (k a w'))
    → Q ((execute q >>= λ o. stored_or o x >>= k) w)
stored_statement q x k Q w refuses failed went =
    seq Q _ _ w (λ e w1 h. failed e w1 (execute-err q e w w1 h))
      λ o w1 h.
        let (nothing, something) = execute-ok q o w w1 h in
        seq Q _ _ w1
          (λ e w2 h2.
            let (same, how) = stored_or-err o x e w1 w2 h2 in
            failed e w2 (
              ap (λ v. v.db) (sym same) ∙ elim how [
                | inl none_left ↦ nothing none_left
                | inr long ↦ refuses w.db w1.db (something too_long long)
              ]))
          λ a w2 h2.
            let (full, same) = stored_or-ok o x a w1 w2 h2 in
            went a w2 (something (stored a) full ∙ ap (λ v. some (stored a, v.db)) same)

-- The answer is what the caller sees of the post in the tables.
abbrev pub Shows : ℕ → ℕ → Result PostResponse × World → Type 0
Shows id user_id r =
    (res : PostResponse) → r.0 ≡ ok res → read_post_view r.1.db id (some user_id) ≡ some res.post

told :
    (op : UserOperation) (view : PostView) (websocket_id : Option ℕ) (w : World)
    → let r = announce_post op view websocket_id w in
      (r.1.db ≡ w.db) × (r.0 ≡ ok (record { post = view }))
unfolding announce_post ◌>>=◌ do_send
told op view websocket_id w = (refl, refl)

-- The last steps of a handler.
pub shown :
    (id user_id : ℕ) (e : LemmyError) (op : UserOperation) (websocket_id : Option ℕ) (w : World)
    → let r = (see_post id (some user_id) e >>= λ view. announce_post op view websocket_id) w in
      (r.1.db ≡ w.db) × Shows id user_id r
shown id user_id e op websocket_id w =
    calmly (λ r. (r.1.db ≡ w.db) × Shows id user_id r) _ _ w (see_post-Reads id (some user_id) e)
      (λ x v c. (c.0, λ res k. cc))
      λ view v c f.
        let (kept, answer) = told op view websocket_id v in
        (
          kept ∙ c.0,
          λ res k.
              ap (λ db. read_post_view db id (some user_id)) (kept ∙ c.0)
              ∙ (see_post-ok id (some user_id) e view w v f ∙ same_view view res (sym answer ∙ k)),
        )
  where
    same_view :
        (view : PostView) (res : PostResponse)
        → ◌≡◌ {A = Result PostResponse} (ok (record { post = view })) (ok res)
        → some view ≡ some res.post
    same_view view res h = cc

pub shown_after :
    (kind : ActivityKind) (post_id id user_id : ℕ) (e : LemmyError) (op : UserOperation)
    (websocket_id : Option ℕ) (w : World)
    → let r =
        (send_post_activity kind post_id user_id
            >> (see_post id (some user_id) e >>= λ view. announce_post op view websocket_id))
          w in
      (r.1.db ≡ w.db) × Shows id user_id r
shown_after kind post_id id user_id e op websocket_id w =
    calmly (λ r. (r.1.db ≡ w.db) × Shows id user_id r) _ _ w
      (Reads-send_post_activity kind post_id user_id) (λ x v c. (c.0, λ res k. cc))
      λ u v c f. let (kept, shows) = shown id user_id e op websocket_id v in (kept ∙ c.0, shows)
