-- ===== src/Api/Post/Passes.antt =====
-- A post that goes through (`CreatePost` of lemmy_api/src/post.rs).
use lemmy.Prelude.{
  ℕ, suc, true, false, not, [], ◌∷◌, ◌++◌, Option, some, ok, api, ◌≡◌, refl, ap, ◌∙◌, arith,
  find?-append, find?-update_where, update_where, ◌==◌, ==_refl,
}
use lemmy.Prelude.Int.{pos}
use lemmy.Prelude.Text.{fits, cut, trim}
use lemmy.Structs.{PostView, PostResponse, UserOperation}
use lemmy.Structs as Structs
use lemmy.Db.Tables.{Db, User, Post, has_user, read_post}
use lemmy.Db.Comment.{has_reader}
use lemmy.Db.Updates.{read_user-has_user}
use lemmy.Db.Post.{
  given, stored, create_post, new_post, is_taken, set_post, set_post_ap_id, update_post_ap_id,
  read_post_view, post_view_row, post_vote_of,
}
use lemmy.Db.PostMarks.{like_post, post_likes_of}
use lemmy.Db.PostVotes.{post_voted}
use lemmy.Chat.Handlers.{sends_post}
use lemmy.Api.Monad.{World, Activity, ActivityKind, about_post, fail_if, ◌>>=◌, do_send}
use lemmy.Api.Post.Requests.{Services, CreatePost}
use lemmy.Api.Post.Write.{create, create_form, own_like, see_post, announce_post}
use lemmy.Api.Fair.{bind_ok, execute_ok, row_ok, get_user_from_jwt_ok, check_community_ban_ok}
use lemmy.Api.Post.Conditions.{
  CanPost, check_slurs_ok, check_slurs_opt_ok, check_optional_url_ok, deliver_ok, any-append,
  find?-of-any,
}

module _ (env : Services) (now : ℕ) (request : CreatePost) (db : Db) (user : User) where
  abbrev new_row : Post
  new_row = new_post db now env.changeme (create_form env request user)

  abbrev with_row : Db
  with_row = record db { posts = db.posts ++ new_row ∷ []; next_post = suc db.next_post }

  abbrev addressed : Post
  addressed = set_post_ap_id (cut 255 (env.post_endpoint db.next_post)) new_row

  abbrev with_address : Db
  with_address = record with_row {
    posts =
        update_where (λ p. p.id == db.next_post)
          (set_post_ap_id (cut 255 (env.post_endpoint db.next_post))) with_row.posts;
  }

  abbrev with_vote : Db
  with_vote = post_voted (own_like env db.next_post user.id) with_address

  module _ (can : CanPost env request db user) where
    user_there : has_user db user.id ≡ true
    user_there = read_user-has_user db can.caller.id user can.caller.there

    short_row : fits 255 (given (create_form env request user).ap_id env.changeme) ≡ true
    unfolding create_form
    short_row = can.short_made_up

    created :
        create_post now env.changeme (create_form env request user) db
        ≡ some (stored new_row, with_row)
    unfolding create_post new_post create_form
    created = rw (create_post, can.short, short_row, user_there, can.community, can.made_up) refl

    row_there : read_post with_row db.next_post ≡ some new_row
    unfolding read_post new_post
    row_there =
        find?-append (λ p. p.id == db.next_post) db.posts (new_row ∷ []) can.unused
        ∙ (let e = ==_refl db.next_post in ground arith)

    address_free : is_taken with_row db.next_post (cut 255 (env.post_endpoint db.next_post)) ≡ false
    unfolding is_taken new_post
    address_free =
        any-append _ db.posts (new_row ∷ [])
        ∙ (let a = can.address in let e = ==_refl db.next_post in ground arith)

    set_address :
        update_post_ap_id db.next_post (env.post_endpoint db.next_post) with_row
        ≡ some (addressed, with_address)
    unfolding update_post_ap_id set_post
    set_address = rw (update_post_ap_id, can.short_address, address_free, set_post, row_there) refl

    address_there : read_post with_address db.next_post ≡ some addressed
    unfolding read_post
    address_there =
        find?-update_where (λ p. p.id == db.next_post)
          (set_post_ap_id (cut 255 (env.post_endpoint db.next_post))) with_row.posts (λ x. refl)
          new_row row_there

    liked :
        like_post (own_like env db.next_post user.id) with_address
        ≡ some (own_like env db.next_post user.id, with_vote)
    unfolding like_post has_user
    liked = rw (like_post, can.unvoted, user_there, address_there) refl

    view_there :
        read_post_view with_vote db.next_post (some user.id)
        ≡ some (post_view_row with_vote addressed (some user.id))
    unfolding read_post_view has_reader read_post has_user
    view_there = rw (read_post_view, address_there, has_reader, user_there) refl

    own_vote : post_vote_of with_vote db.next_post user.id ≡ pos 1
    unfolding post_vote_of
    own_vote =
        let p = post_likes_of user.id db.next_post in
        let before = find?-of-any p db.post_likes can.unvoted in
        rw
          (
            post_vote_of,
            find?-append p db.post_likes (own_like env db.next_post user.id ∷ []) before,
          )
          (let e = ==_refl db.next_post in let u = ==_refl user.id in ground arith)

module _ (env : Services) (now : ℕ) (websocket_id : Option ℕ) (w : World) (user : User)
    (fair : w.weather ≡ []) (delivers : w.federation ≡ []) where
  announce_post_ok :
      (op : UserOperation) (view : PostView) (v : World)
      → announce_post op view websocket_id v ≡ (
        ok (record { post = view }),
        record v { chat = v.chat ++ sends_post op (record { post = view }) websocket_id ∷ [] },
      )
  unfolding announce_post do_send ◌>>=◌
  announce_post_ok op view v = refl

  -- If every query is answered and the activities are sent, a user with a valid token who is not
  -- banned from the site or the community creates a post: the title is not blank, has no slurs and
  -- fits in two hundred characters, the body has no slurs, the link is a URL, the community exists,
  -- and the identifier and the addresses of the new row are not in use and fit their column. The
  -- answer is that post, by
  -- the caller, in the community, under the title without white space around it, not removed, locked
  -- or deleted, with the caller's own vote of 1.
  pub create_post_passes :
      (request : CreatePost)
      → CanPost env request w.db user
      → (view : PostView) × (w' : World) × (create env now websocket_id request w
          ≡ (ok (record { post = view }), w'))
        × (view.id ≡ w.db.next_post)
        × (view.creator_id ≡ user.id)
        × (view.community_id ≡ request.community_id)
        × (view.name ≡ cut 200 (trim request.name))
        × (view.body ≡ request.body)
        × ((view.removed ≡ false) × (view.locked ≡ false) × (view.deleted ≡ false))
        × (view.my_vote ≡ some (pos 1))
  unfolding create new_post create_form post_view_row see_post trim cut
  create_post_passes request can =
      let db = w.db in
      let id = db.next_post in
      let w1 : World = record w { db = with_row env now request db user } in
      let w2 : World = record w { db = with_address env now request db user } in
      let made : Activity = record {
        kind = ActivityKind.create;
        object = about_post id;
        actor_id = user.id;
      } in
      let w3 : World = record w2 { federation = []; activities = w.activities ++ made ∷ [] } in
      let w4 : World = record w3 { db = with_vote env now request db user } in
      let like : Activity = record {
        kind = ActivityKind.like;
        object = about_post id;
        actor_id = user.id;
      } in
      let w5 : World = record w4 { federation = []; activities = w4.activities ++ like ∷ [] } in
      let view =
        post_view_row (with_vote env now request db user) (addressed env now request db user)
          (some user.id) in
      let row = new_row env now request db user in
      let up = addressed env now request db user in
      (
        view,
        _,
        bind_ok _ _ w w user _ (get_user_from_jwt_ok w fair env.decode request.auth user can.caller)
            (bind_ok _ _ w w tt _ (check_slurs_ok env.find_slurs request.name w can.clean) (
              bind_ok _ _ w w tt _ (check_slurs_opt_ok env.find_slurs request.body w can.clean_body)
                (bind_ok _ _ w w tt _
                  (ap (λ b. fail_if (not b) (api "invalid_post_title") w) can.title)
                  (bind_ok _ _ w w tt _
                    (check_community_ban_ok w fair user.id request.community_id can.allowed)
                    (bind_ok _ _ w w tt _ (check_optional_url_ok env.is_url request.url w can.link)
                      (bind_ok _ _ w w1 (some (stored row)) _
                        (execute_ok w fair _ (stored row) w1.db
                          (created env now request db user can))
                        (bind_ok _ _ w1 w1 row _ refl (
                          bind_ok _ _ w1 w2 (some up) _
                            (execute_ok w1 fair _ up w2.db
                              (set_address env now request db user can))
                            (bind_ok _ _ w2 w2 up _ refl (
                              bind_ok _ _ w2 w3 tt _ (deliver_ok made w2 delivers) (
                                bind_ok _ _ w3 w4 (some (own_like env id user.id)) _
                                  (execute_ok w3 fair _ (own_like env id user.id) w4.db
                                    (liked env now request db user can))
                                  (bind_ok _ _ w4 w4 (own_like env id user.id) _ refl (
                                    bind_ok _ _ w4 w5 tt _ (deliver_ok like w4 refl) (
                                      bind_ok _ _ w5 w5 view _
                                        (row_ok w5 fair _ (api "couldnt_find_post") view
                                          (view_there env now request db user can))
                                        (announce_post_ok Structs.create_post view
                                          w5))))))))))))))),
        refl,
        refl,
        refl,
        refl,
        refl,
        (refl, refl, refl),
        ap some (own_vote env now request db user can),
      )
