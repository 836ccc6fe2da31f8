-- ===== src/Api/Community/Stops.antt =====
-- Handing a community over to who does not moderate it (`TransferCommunity` of
-- lemmy_api/src/community.rs).
use lemmy.Prelude.{
  ℕ, Bool, true, false, not, ◌&&◌, List, [], ◌∷◌, none, some, err, internal, api, ok, ◌≡◌, refl, ap,
  ◌∙◌, arith, any, update_where, ◌==◌, inl, inr, Bool-cases,
}
use lemmy.Db.Tables.{Db, User, Community, has_user}
use lemmy.Db.Community.{
  read_community, update_creator, set_community, set_creator, moderators_of, admins,
}
use lemmy.Api.Monad.{World, fail_if, ok_or}
use lemmy.Api.Community.Requests.{Services, TransferCommunity}
use lemmy.Api.Community.Write.{find_community}
use lemmy.Api.Community.Members.{transfer, to_front, take_first}
use lemmy.Api.Checks.{IsCaller}
use lemmy.Api.Fair.{bind_ok, bind_err, execute_ok, query_ok, row_ok, get_user_from_jwt_ok}

take_first-none :
    {A : Type 0} (p : A → Bool) (xs : List A) → any p xs ≡ false → take_first p xs ≡ none
take_first-none p [] h = refl
take_first-none p (x ∷ xs) h = let later = take_first-none p xs in ground arith

to_front-none : {A : Type 0} (p : A → Bool) (xs : List A) → any p xs ≡ false → to_front p xs ≡ none
unfolding to_front
to_front-none p xs h = rw (to_front, take_first-none p xs h) refl

take_first-some :
    {A : Type 0} (p : A → Bool) (xs : List A)
    → any p xs ≡ true
    → (y : A) × (ys : List A) × (take_first p xs ≡ some (y, ys))
take_first-some p [] h = cc
take_first-some p (x ∷ xs) h = elim (Bool-cases (p x)) [
  | inl here ↦ (x, xs, ground arith)
  | inr there ↦
      let (y, ys, found) = take_first-some p xs (ground arith) in (y, x ∷ ys, ground arith)
]

to_front-some :
    {A : Type 0} (p : A → Bool) (xs : List A)
    → any p xs ≡ true
    → (ys : List A) × (to_front p xs ≡ some ys)
unfolding to_front
to_front-some p xs h =
    let (y, ys, found) = take_first-some p xs h in (y ∷ ys, rw (to_front, found) refl)

module _ (env : Services) (now : ℕ) (request : TransferCommunity) (w : World) (user : User)
    (c : Community) (site_creator_id : ℕ) (fair : w.weather ≡ []) where
  -- The tables with the new creator.
  abbrev pub with_creator : Db
  with_creator = record (w.db) {
    communities =
        update_where (λ x. x.id == request.community_id) (set_creator now request.user_id)
          w.db.communities;
  }

  creator_set :
      has_user w.db request.user_id ≡ true
      → read_community w.db request.community_id ≡ some c
      → update_creator now request.community_id request.user_id w.db
        ≡ some (set_creator now request.user_id c, with_creator)
  unfolding update_creator set_community
  creator_set there found = rw (update_creator, there, set_community, found) refl

  stops :
      (ordered : List ℕ)
      → IsCaller env.decode request.auth w.db user
      → read_community w.db request.community_id ≡ some c
      → user.id ≡ c.creator_id
      → w.db.site_creator ≡ some site_creator_id
      → to_front (λ id. id == site_creator_id) (admins w.db) ≡ some ordered
      → has_user w.db request.user_id ≡ true
      → any (λ m. m.user_id == request.user_id) (moderators_of w.db request.community_id) ≡ false
      → transfer env now request w ≡ (err internal, record w { db = with_creator })
  unfolding transfer find_community moderators_of
  stops ordered caller found own site moved there no_mod =
      let w1 : World = record w { db = with_creator } in
      let mods = moderators_of w.db request.community_id in
      bind_ok _ _ w w user _ (get_user_from_jwt_ok w fair env.decode request.auth user caller) (
        bind_ok _ _ w w c _
          (row_ok w fair (λ db. read_community db request.community_id) internal c found)
          (bind_ok _ _ w w (some site_creator_id) _
            (query_ok w fair (λ db. db.site_creator) ∙ ap (λ o. (ok o, w)) site)
            (bind_ok _ _ w w site_creator_id _ refl (
              bind_ok _ _ w w (some (admins w.db)) _ (query_ok w fair (λ db. some (admins db))) (
                bind_ok _ _ w w (admins w.db) _ refl (
                  bind_ok _ _ w w ordered _ (ap (λ o. ok_or o internal w) moved) (
                    bind_ok _ _ w w tt _
                      (ap (λ b. fail_if b (api "not_an_admin") w) (mine user.id c.creator_id own))
                      (bind_ok _ _ w w1 (some (set_creator now request.user_id c)) _
                        (execute_ok w fair _ (set_creator now request.user_id c) with_creator
                          (creator_set there found))
                        (bind_ok _ _ w1 w1 (set_creator now request.user_id c) _ refl (
                          bind_ok _ _ w1 w1 (some mods) _
                            (query_ok w1 fair (λ db. some (moderators_of db request.community_id)))
                            (bind_ok _ _ w1 w1 mods _ refl (
                              bind_err _ _ w1 w1 internal (
                                ap (λ o. ok_or o internal w1)
                                  (to_front-none (λ m. m.user_id == request.user_id) mods
                                    no_mod))))))))))))))
    where
      mine : (a b : ℕ) → a ≡ b → (not (a == b) && not (any (λ id. id == a) ordered)) ≡ false
      mine a b e = ground arith

  -- If every query is answered, the site is there and its creator is among the administrators, then
  -- the creator of a community, with a valid token and not banned from the site, who hands it over
  -- to a user who exists but does not moderate it gets an error, and yet the community's creator is
  -- the new one after it.
  pub transfer_stops :
      IsCaller env.decode request.auth w.db user
      → read_community w.db request.community_id ≡ some c
      → user.id ≡ c.creator_id
      → w.db.site_creator ≡ some site_creator_id
      → any (λ id. id == site_creator_id) (admins w.db) ≡ true
      → has_user w.db request.user_id ≡ true
      → any (λ m. m.user_id == request.user_id) (moderators_of w.db request.community_id) ≡ false
      → transfer env now request w ≡ (err internal, record w { db = with_creator })
  transfer_stops caller found own site leads there no_mod =
      let (ordered, moved) = to_front-some (λ id. id == site_creator_id) (admins w.db) leads in
      stops ordered caller found own site moved there no_mod
