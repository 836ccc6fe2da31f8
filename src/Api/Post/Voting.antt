-- ===== src/Api/Post/Voting.antt =====
-- A user's vote on a post, and saving it (`CreatePostLike`, `SavePost` of lemmy_api/src/post.rs).
use lemmy.Prelude.{
  ℕ, Bool, true, false, Option, some, Result, ok, err, is_ok, LemmyError, api, ◌≡◌, refl, ap, ◌∙◌,
  sym, ◌⊎◌, inl, inr, if◌then◌else◌, subst,
}
use lemmy.Prelude.Int.{pos, minus_one, ◌==ℤ◌}
use lemmy.Structs.{PostResponse, create_post_like}
use lemmy.Db.Tables.{Db, User, Post, PostLike}
use lemmy.Db.Post.{post_vote_of, read_post_view}
use lemmy.Db.PostMarks.{remove_post_like, like_post}
use lemmy.Db.PostVotes.{
  post_unvoted, post_voted, remove_post_like-post_unvoted, like_post-post_voted,
  post_vote_of-post_unvoted, post_vote_of-post_voted, read_post_view-my_vote,
}
use lemmy.Api.Monad.{M, World, execute, ok_or, ◌>>=◌, ◌>>◌, ActivityKind, send_post_activity}
use lemmy.Api.Comment.Votes.{do_add}
use lemmy.Api.Comment.VoteSteps.{is_vote, do_add-is_vote, check_downvote-Reads, check_downvote-ok}
use lemmy.Api.Post.Requests.{Services, CreatePostLike}
use lemmy.Api.Post.Votes.{create_like, add_post_vote}
use lemmy.Api.Checks.{get_user_from_jwt-Reads, get_user_from_jwt-ok}
use lemmy.Api.Effects.{Calm-trans, Reads-send_post_activity, calmly, seq}
use lemmy.Api.Steps.{statement}
use lemmy.Api.Post.Guards.{IsPostReader, as_reader, found_post, shown}

-- The tables once a user's votes on a post are gone, and this one is there if it counts.
abbrev pub after_vote : PostLike → Db → Db
after_vote form db =
    if is_vote form.score
    then post_voted form (post_unvoted form.user_id form.post_id db)
    else post_unvoted form.user_id form.post_id db

post_vote_of-after_vote :
    (form : PostLike) (db : Db)
    → post_vote_of (after_vote form db) form.post_id form.user_id
      ≡ (if is_vote form.score then form.score else pos 0)
post_vote_of-after_vote form db = go (is_vote form.score)
  where
    go :
        (b : Bool)
        → post_vote_of
            (if b
              then post_voted form (post_unvoted form.user_id form.post_id db)
              else post_unvoted form.user_id form.post_id db)
            form.post_id
            form.user_id
          ≡ (if b then form.score else pos 0)
    go true = post_vote_of-post_voted db form
    go false = post_vote_of-post_unvoted db form.post_id form.user_id

-- After the old votes are gone: the step fails and adds nothing, or the tables are complete.
abbrev Completes : PostLike → Db → World → Result (Unit {0}) × World → Type 0
Completes form db w r = ((is_ok r.0 ≡ false) × (r.1.db ≡ w.db)) ⊎ (r.1.db ≡ after_vote form db)

add_post_vote-Completes :
    (form : PostLike) (post : Post) (db : Db) (w : World)
    → w.db ≡ post_unvoted form.user_id form.post_id db
    → Completes form db w (add_post_vote form post w)
unfolding add_post_vote
add_post_vote-Completes form post db w gone =
    subst (λ b. Step b ((if do_add form.score then add else undo) w)) (do_add-is_vote form.score)
      (go (do_add form.score))
  where
    add : M (Unit {0})
    add = execute (like_post form) >>= λ liked.
        ok_or liked (api "couldnt_like_post")
        >> send_post_activity
            (if form.score ==ℤ pos 1 then ActivityKind.like else ActivityKind.dislike) post.id
            form.user_id

    undo : M (Unit {0})
    undo = send_post_activity ActivityKind.undo_like post.id form.user_id

    Step : Bool → Result (Unit {0}) × World → Type 0
    Step b r =
        ((is_ok r.0 ≡ false) × (r.1.db ≡ w.db))
        ⊎ (r.1.db ≡ (
            if b
            then post_voted form (post_unvoted form.user_id form.post_id db)
            else post_unvoted form.user_id form.post_id db))

    go : (b : Bool) → Step b ((if b then add else undo) w)
    go false =
        inr ((Reads-send_post_activity ActivityKind.undo_like post.id form.user_id w).0 ∙ gone)
    go true =
        statement (like_post form) _ _
          (λ r.
            ((is_ok r.0 ≡ false) × (r.1.db ≡ w.db))
            ⊎ (r.1.db ≡ post_voted form (post_unvoted form.user_id form.post_id db)))
          w (λ x v d. inl (refl, d))
          λ row v d. inr (
            (Reads-send_post_activity _ post.id form.user_id v).0
            ∙ (like_post-post_voted form row w.db v.db d ∙ ap (post_voted form) gone))

module _ (env : Services) (request : CreatePostLike) (w : World) where
  abbrev vote_by : User → PostLike
  vote_by user = record { post_id = request.post_id; user_id = user.id; score = request.score }

  -- The tables after a vote: the old ones are gone, and the new one is there if it counts and the
  -- handler did not fail before.
  abbrev pub HasPostVote : User → Result PostResponse × World → Type 0
  HasPostVote user r =
      (((is_ok r.0 ≡ false) × (r.1.db ≡ post_unvoted user.id request.post_id w.db))
        ⊎ (r.1.db ≡ after_vote (vote_by user) w.db))
      × ((res : PostResponse)
          → r.0 ≡ ok res
          → (read_post_view r.1.db request.post_id (some user.id) ≡ some res.post)
            × (res.post.my_vote ≡ some (if is_vote request.score then request.score else pos 0)))

  abbrev pub VoteOutcome : Result PostResponse × World → Type 0
  VoteOutcome r =
      ((is_ok r.0 ≡ false) × (r.1.db ≡ w.db))
      ⊎ ((user : User) × (post : Post) × IsPostReader env.decode request.auth request.post_id w user
            post
          × (request.score ==ℤ minus_one ≡ true → w.db.enable_downvotes ≡ some true)
          × HasPostVote user r)

  failed_vote :
      (user : User) (x : LemmyError) (v2 v3 : World)
      → v2.db ≡ post_unvoted user.id request.post_id w.db
      → Completes (vote_by user) w.db v2 (err x, v3)
      → HasPostVote user (err x, v3)
  failed_vote user x v2 v3 gone (inl (fails, d)) = (inl (refl, d ∙ gone), λ res k. cc)
  failed_vote user x v2 v3 gone (inr d) = (inr d, λ res k. cc)

  made_vote :
      (user : User) (u : Unit {0}) (v2 v3 : World)
      → Completes (vote_by user) w.db v2 (ok u, v3)
      → v3.db ≡ after_vote (vote_by user) w.db
  made_vote user u v2 v3 (inl (fails, d)) = cc
  made_vote user u v2 v3 (inr d) = d

  -- A vote on a post fails and leaves the tables as they are, or the caller is a user with a valid
  -- token who is not banned from the site, votes down only where the site allows it and, if every
  -- query is answered, is not banned from the post's community. Then nothing in the tables changes
  -- but the caller's votes on that post: the old ones are gone, and a score of 1 or -1 is there as
  -- the only one, unless the handler fails. A successful answer is the caller's view of the post in
  -- these tables, and shows that score, or 0.
  pub create_post_like_lem :
      (websocket_id : Option ℕ) → VoteOutcome (create_like env websocket_id request w)
  unfolding create_like
  create_post_like_lem websocket_id =
      calmly VoteOutcome _ _ w (get_user_from_jwt-Reads env.decode request.auth)
        (λ x v c. inl (refl, c.0))
        λ user w1 c1 e1.
          calmly VoteOutcome _ _ w1 (check_downvote-Reads request.score)
            (λ x v c. inl (refl, c.0 ∙ c1.0))
            λ u w2 c2 e2.
              let s2 = Calm-trans w w1 w2 c1 c2 in
              let downvote = λ (h : request.score ==ℤ minus_one ≡ true).
                ap (λ db. db.enable_downvotes) (sym c1.0)
                ∙ check_downvote-ok request.score u w1 w2 e2 h in
              found_post user request.post_id VoteOutcome w2 (λ x v d. inl (refl, d ∙ s2.0)) _
                λ post w3 found allowed c3.
                  let reader =
                    as_reader env.decode request.auth request.post_id w w2 user post
                      (get_user_from_jwt-ok env.decode request.auth user w w1 e1) s2 found
                      allowed in
                  statement (remove_post_like user.id request.post_id) _ _ VoteOutcome w3
                    (λ x v d. inl (refl, d ∙ (c3.0 ∙ s2.0)))
                    λ n w4 e4.
                      let gone =
                        remove_post_like-post_unvoted user.id request.post_id n w3.db w4.db e4
                        ∙ ap (post_unvoted user.id request.post_id) (c3.0 ∙ s2.0) in
                      let completes = add_post_vote-Completes (vote_by user) post w.db w4 gone in
                      seq VoteOutcome _ _ w4
                        (λ x w5 h. inr (
                          user,
                          post,
                          reader,
                          downvote,
                          failed_vote user x w4 w5 gone
                              (subst (Completes (vote_by user) w.db w4) h completes),
                        ))
                        λ u5 w5 h.
                          let made =
                            made_vote user u5 w4 w5
                              (subst (Completes (vote_by user) w.db w4) h completes) in
                          let (kept, shows) =
                            shown request.post_id user.id (api "couldnt_find_post") create_post_like
                              websocket_id w5 in
                          inr (
                            user,
                            post,
                            reader,
                            downvote,
                            (
                              inr (kept ∙ made),
                              λ res k. (
                                shows res k,
                                read_post_view-my_vote _ request.post_id user.id res.post
                                      (shows res k)
                                    ∙ ap some (
                                        ap (λ db. post_vote_of db request.post_id user.id)
                                          (kept ∙ made)
                                        ∙ post_vote_of-after_vote (vote_by user) w.db),
                              ),
                            ),
                          )
