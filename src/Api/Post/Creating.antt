-- ===== src/Api/Post/Creating.antt =====
-- Creating a post (`CreatePost` of lemmy_api/src/post.rs).
use lemmy.Prelude.{
  ℕ, String, true, false, [], Option, some, Result, is_ok, api, ◌≡◌, refl, ap, ◌∙◌, sym, ◌⊎◌, inl,
  inr, arith,
}
use lemmy.Structs.{PostResponse}
use lemmy.Structs as Structs
use lemmy.Db.Tables.{Db, User, Post, PostLike}
use lemmy.Db.Access.{is_banned_from}
use lemmy.Db.Post.{PostForm, too_long, stored, create_post, update_post_ap_id}
use lemmy.Db.PostMarks.{like_post}
use lemmy.Api.Monad.{M, World, ActivityKind, execute, ok_or, ◌>>=◌, ◌>>◌, send_post_activity}
use lemmy.Api.Texts.{is_valid_post_title, sorted_unique}
use lemmy.Api.Post.Requests.{Services, CreatePost}
use lemmy.Api.Post.Write.{create, create_form, own_like, see_post, announce_post}
use lemmy.Api.Checks.{
  IsCaller, get_user_from_jwt-Reads, get_user_from_jwt-ok, check_community_ban-Reads,
  check_community_ban-ok, not-false,
}
use lemmy.Api.Effects.{Reads-fail_if, Reads-send_post_activity, Calm-trans, calmly}
use lemmy.Api.Steps.{statement, fail_if-ok}
use lemmy.Api.Post.Guards.{Shows, stored_statement, shown_after}
use lemmy.Api.TextChecks.{
  check_slurs-Reads, check_slurs_opt-Reads, check_slurs-ok, check_optional_url-Reads,
}

create_post-too_long :
    (now : ℕ) (changeme : String) (form : PostForm) (d d' : Db)
    → create_post now changeme form d ≡ some (too_long, d')
    → d' ≡ d
unfolding create_post
create_post-too_long now changeme form d d' h = ground arith

module _ (env : Services) (now : ℕ) (request : CreatePost) (w : World) where
  -- Who may create the post.
  pub record IsAuthor (user : User) : Type 0 where
    pub caller : IsCaller env.decode request.auth w.db user
    pub allowed : w.weather ≡ [] → is_banned_from w.db user.id request.community_id ≡ false
    pub title : is_valid_post_title request.name ≡ true
    pub clean : sorted_unique (env.find_slurs request.name) ≡ []

  -- The author's vote is there and the answer shows the post, or the handler failed before.
  abbrev pub HasVoted : User → Post → Db → Result PostResponse × World → Type 0
  HasVoted user row db r =
      ((is_ok r.0 ≡ false) × (r.1.db ≡ db))
      ⊎ (((vote : PostLike) × (like_post (own_like env row.id user.id) db ≡ some (vote, r.1.db)))
          × Shows row.id user.id r)

  -- The post has its address, or the handler failed before.
  abbrev pub HasAddress : User → Post → Db → Result PostResponse × World → Type 0
  HasAddress user row db r =
      ((is_ok r.0 ≡ false) × (r.1.db ≡ db))
      ⊎ ((row' : Post) × (db' : Db) × (update_post_ap_id row.id (env.post_endpoint row.id) db
            ≡ some (row', db'))
          × HasVoted user row db' r)

  abbrev pub HasCreated : Result PostResponse × World → Type 0
  HasCreated r =
      ((is_ok r.0 ≡ false) × (r.1.db ≡ w.db))
      ⊎ ((user : User) × IsAuthor user
          × ((row : Post) × (db : Db) × (create_post now env.changeme (create_form env request user)
                  w.db
                ≡ some (stored row, db))
              × HasAddress user row db r))

  abbrev vote_rest : User → Post → Option ℕ → Post → M PostResponse
  vote_rest user row websocket_id updated =
      send_post_activity ActivityKind.create updated.id user.id
      >> (execute (like_post (own_like env row.id user.id)) >>= λ l.
          ok_or l (api "couldnt_like_post")
          >> (send_post_activity ActivityKind.like updated.id user.id
              >> (see_post row.id (some user.id) (api "couldnt_find_post") >>= λ view.
                  announce_post Structs.create_post view websocket_id)))

  vote_step :
      (user : User) (row : Post) (websocket_id : Option ℕ) (updated : Post) (v : World)
      → HasVoted user row v.db (vote_rest user row websocket_id updated v)
  vote_step user row websocket_id updated v =
      let Q = HasVoted user row v.db in
      let form = own_like env row.id user.id in
      calmly Q _ _ v (Reads-send_post_activity ActivityKind.create updated.id user.id)
        (λ x v1 c. inl (refl, c.0))
        λ u v1 c e.
          statement (like_post form) _ _ Q v1 (λ x v2 d. inl (refl, d ∙ c.0))
            λ vote v2 d.
              let (kept, shows) =
                shown_after ActivityKind.like updated.id row.id user.id (api "couldnt_find_post")
                  Structs.create_post websocket_id v2 in
              inr (
                (vote, ap (like_post form) (sym c.0) ∙ (d ∙ ap (λ db. some (vote, db)) (sym kept))),
                shows,
              )

  address_step :
      (user : User) (row : Post) (websocket_id : Option ℕ) (v : World)
      → HasAddress user row v.db (
          (execute (update_post_ap_id row.id (env.post_endpoint row.id)) >>= λ o.
          ok_or o (api "couldnt_create_post") >>= vote_rest user row websocket_id)
            v)
  address_step user row websocket_id v =
      statement (update_post_ap_id row.id (env.post_endpoint row.id)) _ _ (HasAddress user row v.db)
        v (λ x v1 d. inl (refl, d))
        λ updated v1 d. inr (updated, v1.db, d, vote_step user row websocket_id updated v1)

  -- Creating a post fails and leaves the tables as they are, or the caller is a user with a valid
  -- token who is not banned from the site and, if every query is answered, not from the community,
  -- and the title has no slurs and is not blank. Then the row of the form is inserted, its address
  -- is set, and the author's vote for it is added, in this order; the handler may fail between
  -- these, which leaves those before. A successful answer comes after all three, and is the author's
  -- view of the post in the tables.
  pub create_post_lem :
      (websocket_id : Option ℕ) → HasCreated (create env now websocket_id request w)
  unfolding create
  create_post_lem websocket_id =
      calmly HasCreated _ _ w (get_user_from_jwt-Reads env.decode request.auth)
        (λ x v c. inl (refl, c.0))
        λ user w1 s1 e1.
          calmly HasCreated _ _ w1 (check_slurs-Reads env.find_slurs request.name)
            (λ x v c. inl (refl, c.0 ∙ s1.0))
            λ u2 w2 c2 e2.
              let s2 = Calm-trans w w1 w2 s1 c2 in
              calmly HasCreated _ _ w2 (check_slurs_opt-Reads env.find_slurs request.body)
                (λ x v c. inl (refl, c.0 ∙ s2.0))
                λ u3 w3 c3 e3.
                  let s3 = Calm-trans w w2 w3 s2 c3 in
                  calmly HasCreated _ _ w3 (Reads-fail_if _ _) (λ x v c. inl (refl, c.0 ∙ s3.0))
                    λ u4 w4 c4 e4.
                      let s4 = Calm-trans w w3 w4 s3 c4 in
                      calmly HasCreated _ _ w4
                        (check_community_ban-Reads user.id request.community_id)
                        (λ x v c. inl (refl, c.0 ∙ s4.0))
                        λ u5 w5 c5 e5.
                          calmly HasCreated _ _ w5 (check_optional_url-Reads env.is_url _)
                            (λ x v c. inl (refl, c.0 ∙ (c5.0 ∙ s4.0)))
                            λ u6 w6 c6 e6.
                              let author : IsAuthor user = record {
                                caller = get_user_from_jwt-ok env.decode request.auth user w w1 e1;
                                allowed = λ fair.
                                    ap (λ db. is_banned_from db user.id request.community_id)
                                      (sym s4.0)
                                    ∙ check_community_ban-ok user.id request.community_id u5 w4 w5
                                        e5 (s4.1 fair);
                                title = not-false _ (fail_if-ok _ _ u4 w3 w4 e4).0;
                                clean = check_slurs-ok env.find_slurs request.name u2 w1 w2 e2;
                              } in
                              let same = c6.0 ∙ (c5.0 ∙ s4.0) in
                              let form = create_form env request user in
                              stored_statement (create_post now env.changeme form) _ _ HasCreated w6
                                (create_post-too_long now env.changeme form)
                                (λ x v d. inl (refl, d ∙ same))
                                λ row w7 d. inr (
                                  user,
                                  author,
                                  (
                                    row,
                                    w7.db,
                                    ap (create_post now env.changeme form) (sym same) ∙ d,
                                    address_step user row websocket_id w7,
                                  ),
                                )
