-- ===== src/Api/Post/Conditions.antt =====
-- What a new post needs to go through, and the checks that it passes then (`CreatePost` of
-- lemmy_api/src/post.rs).
use lemmy.Prelude.{
  String, Bool, true, false, not, ◌||◌, List, [], ◌∷◌, ◌++◌, Option, none, some, ok, api, ◌≡◌, refl,
  ap, sym, arith, any, find?, subst,
}
use lemmy.Prelude.Text.{cut, fits, trim}
use lemmy.Db.Tables.{Db, User, has_community, read_post}
use lemmy.Db.Access.{is_banned_from}
use lemmy.Db.Post.{is_taken}
use lemmy.Db.PostMarks.{post_likes_of}
use lemmy.Api.Monad.{World, Activity, deliver, fail_if, next_outcome, later_outcomes}
use lemmy.Api.Texts.{
  is_valid_post_title, sorted_unique, check_slurs, check_slurs_opt, check_optional_url,
}
use lemmy.Api.Post.Requests.{Services, CreatePost}
use lemmy.Api.Checks.{IsCaller}

-- An optional text without slurs.
abbrev pub IsClean : (String → List String) → Option String → Type 0
IsClean find_slurs none = Unit
IsClean find_slurs (some text) = sorted_unique (find_slurs text) ≡ []

abbrev pub IsLink : (String → Bool) → Option String → Type 0
IsLink is_url none = Unit
IsLink is_url (some text) = is_url text ≡ true

-- What a request needs to go through.
pub record CanPost (env : Services) (request : CreatePost) (db : Db) (user : User) : Type 0 where
  pub caller : IsCaller env.decode request.auth db user
  pub allowed : is_banned_from db user.id request.community_id ≡ false
  pub title : is_valid_post_title request.name ≡ true
  pub short : fits 200 (trim request.name) ≡ true
  pub clean : sorted_unique (env.find_slurs request.name) ≡ []
  pub clean_body : IsClean env.find_slurs request.body
  pub link : IsLink env.is_url request.url
  pub community : has_community db request.community_id ≡ true
  pub unused : read_post db db.next_post ≡ none
  pub unvoted : any (post_likes_of user.id db.next_post) db.post_likes ≡ false
  pub short_made_up : fits 255 env.changeme ≡ true
  pub made_up : is_taken db db.next_post (cut 255 env.changeme) ≡ false
  pub short_address : fits 255 (env.post_endpoint db.next_post) ≡ true
  pub address : is_taken db db.next_post (cut 255 (env.post_endpoint db.next_post)) ≡ false

pub check_slurs_ok :
    (find_slurs : String → List String) (text : String) (w : World)
    → sorted_unique (find_slurs text) ≡ []
    → check_slurs find_slurs text w ≡ (ok tt, w)
unfolding check_slurs
check_slurs_ok find_slurs text w h = rw (check_slurs, h) refl

pub check_slurs_opt_ok :
    (find_slurs : String → List String) (text : Option String) (w : World)
    → IsClean find_slurs text
    → check_slurs_opt find_slurs text w ≡ (ok tt, w)
unfolding check_slurs_opt
check_slurs_opt_ok find_slurs none w h = refl
check_slurs_opt_ok find_slurs (some text) w h = check_slurs_ok find_slurs text w h

pub check_optional_url_ok :
    (is_url : String → Bool) (item : Option String) (w : World)
    → IsLink is_url item
    → check_optional_url is_url (some item) w ≡ (ok tt, w)
unfolding check_optional_url
check_optional_url_ok is_url none w h = refl
check_optional_url_ok is_url (some text) w h = ap (λ b. fail_if (not b) (api "invalid_url") w) h

pub deliver_ok :
    (a : Activity) (w : World)
    → w.federation ≡ []
    → deliver a w ≡ (ok tt, record w { federation = []; activities = w.activities ++ a ∷ [] })
unfolding deliver next_outcome later_outcomes
deliver_ok a w e =
    subst
      (λ fs.
        deliver a (record w { federation = fs })
        ≡ (ok tt, record w { federation = []; activities = w.activities ++ a ∷ [] }))
      (sym e) refl

pub any-append :
    {A : Type 0} (p : A → Bool) (xs ys : List A) → any p (xs ++ ys) ≡ (any p xs || any p ys)
any-append p [] ys = refl
any-append p (x ∷ xs) ys = let later = any-append p xs ys in ground arith

pub find?-of-any : {A : Type 0} (p : A → Bool) (xs : List A) → any p xs ≡ false → find? p xs ≡ none
find?-of-any p [] h = refl
find?-of-any p (x ∷ xs) h = let later = find?-of-any p xs in ground arith

-- The tables after each of the three statements.
