-- ===== src/Api/Comment/Voting.antt =====
-- A user's vote on a comment (`CreateCommentLike` of lemmy_api/src/comment.rs).
use lemmy.Prelude.{
  ℕ, true, false, List, [], Option, none, some, Result, ok, err, is_ok, LemmyError, internal, ◌≡◌,
  refl, ap, ◌∙◌, sym, ◌⊎◌, inl, inr, if◌then◌else◌, subst,
}
use lemmy.Prelude.Int.{pos, minus_one, ◌==ℤ◌}
use lemmy.Structs.{CommentView, CommentResponse}
use lemmy.Db.Tables.{Db, User, Post, Comment, read_post}
use lemmy.Db.Access.{is_banned_from}
use lemmy.Db.Comment.{read_comment, read_view, vote_of}
use lemmy.Db.Likes.{remove_like}
use lemmy.Db.Votes.{unvoted, voted, remove_like-unvoted, vote_of-unvoted, vote_of-voted}
use lemmy.Api.Monad.{M, World, ok_or, query, ◌>>=◌, ◌>>◌}
use lemmy.Api.Auth.{get_user_from_jwt, get_post, check_community_ban}
use lemmy.Api.Comment.Requests.{Env, CreateCommentLike}
use lemmy.Api.Comment.Write.{see_comment}
use lemmy.Api.Comment.Votes.{check_downvote, vote_recipients, create_like}
use lemmy.Api.Checks.{
  IsCaller, get_user_from_jwt-Reads, get_user_from_jwt-ok, see_comment-Reads, see_comment-ok,
  get_post-Reads, get_post-ok, check_community_ban-Reads, check_community_ban-ok,
}
use lemmy.Api.Effects.{Calm-trans, Reads-query, Reads-ok_or, calmly, seq}
use lemmy.Api.Steps.{statement}
use lemmy.Api.Comment.VoteSteps.{
  Added, is_vote, vote, vote_reply, check_downvote-Reads, check_downvote-ok, vote_recipients-Reads,
  add_vote-Added, reply-shows,
}

-- Who votes on what: a caller whose downvote the site allows, a comment and its post, with the
-- caller not banned from the post's community, unless the database did not answer.
pub record IsVoter (env : Env) (request : CreateCommentLike) (w : World) (user : User)
    (comment : CommentView) (post : Post) : Type 0 where
  pub caller : IsCaller env.decode request.auth w.db user
  pub downvote : request.score ==ℤ minus_one ≡ true → w.db.enable_downvotes ≡ some true
  pub seen : read_view w.db request.comment_id none ≡ some comment
  pub found : read_post w.db comment.post_id ≡ some post
  pub allowed : w.weather ≡ [] → is_banned_from w.db user.id post.community_id ≡ false

-- The steps of `create_like` before the old vote is removed.
prepared {ℓ} :
    {B : Type 0} (env : Env) (request : CreateCommentLike)
    (k : User → CommentView → Post → Comment → List ℕ → M B) (Q : Result B × World → Type ℓ)
    (w : World)
    → ((x : LemmyError) (w' : World) → w'.db ≡ w.db → Q (err x, w'))
    → ((user : User) (comment : CommentView) (post : Post) (row : Comment) (ids : List ℕ)
          (w' : World)
        → IsVoter env request w user comment post
        → w'.db ≡ w.db
        → Q (k user comment post row ids w'))
    → Q (
        (get_user_from_jwt env.decode request.auth >>= λ user.
        check_downvote request.score
        >> (see_comment request.comment_id none >>= λ c. get_post c.post_id >>= λ post.
            check_community_ban user.id post.community_id
            >> (query (λ db. read_comment db request.comment_id) >>= λ o.
                ok_or o internal >>= λ row.
                vote_recipients user.id row post >>= k user c post row)))
          w)
prepared env request k Q w failed went =
    calmly Q _ _ w (get_user_from_jwt-Reads env.decode request.auth) (λ x v c. failed x v c.0)
      λ user w1 c1 e1.
        calmly Q _ _ w1 (check_downvote-Reads request.score) (λ x v c. failed x v (c.0 ∙ c1.0))
          λ u w2 c2 e2.
            let s2 = Calm-trans w w1 w2 c1 c2 in
            calmly Q _ _ w2 (see_comment-Reads request.comment_id none)
              (λ x v c. failed x v (c.0 ∙ s2.0))
              λ comment w3 c3 e3.
                let s3 = Calm-trans w w2 w3 s2 c3 in
                calmly Q _ _ w3 (get_post-Reads comment.post_id) (λ x v c. failed x v (c.0 ∙ s3.0))
                  λ post w4 c4 e4.
                    let s4 = Calm-trans w w3 w4 s3 c4 in
                    calmly Q _ _ w4 (check_community_ban-Reads user.id post.community_id)
                      (λ x v c. failed x v (c.0 ∙ s4.0))
                      λ u5 w5 c5 e5.
                        calmly Q _ _ w5 (Reads-query (λ db. read_comment db request.comment_id))
                          (λ x v c. failed x v (c.0 ∙ (c5.0 ∙ s4.0)))
                          λ o w6 c6 e6.
                            calmly Q _ _ w6 (Reads-ok_or o internal)
                              (λ x v c. failed x v (c.0 ∙ (c6.0 ∙ (c5.0 ∙ s4.0))))
                              λ row w7 c7 e7.
                                calmly Q _ _ w7 (vote_recipients-Reads user.id row post)
                                  (λ x v c. failed x v (c.0 ∙ (c7.0 ∙ (c6.0 ∙ (c5.0 ∙ s4.0)))))
                                  λ ids w8 c8 e8.
                                    went user comment post row ids w8
                                      (record {
                                        caller =
                                            get_user_from_jwt-ok env.decode request.auth user w w1
                                              e1;
                                        downvote = λ h.
                                            ap (λ db. db.enable_downvotes) (sym c1.0)
                                            ∙ check_downvote-ok request.score u w1 w2 e2 h;
                                        seen =
                                            ap (λ db. read_view db request.comment_id none)
                                              (sym s2.0)
                                            ∙ see_comment-ok request.comment_id none comment w2 w3
                                                e3;
                                        found =
                                            ap (λ db. read_post db comment.post_id) (sym s3.0)
                                            ∙ get_post-ok comment.post_id post w3 w4 e4;
                                        allowed = λ fair.
                                            ap (λ db. is_banned_from db user.id post.community_id)
                                              (sym s4.0)
                                            ∙ check_community_ban-ok user.id post.community_id u5 w4
                                                w5 e5 (s4.1 fair);
                                      })
                                      (c8.0 ∙ (c7.0 ∙ (c6.0 ∙ (c5.0 ∙ s4.0))))

module _ (env : Env) (request : CreateCommentLike) (w : World) where
  -- The tables after a vote: the old one is gone, and the new one is there if it counts and the
  -- handler did not fail before.
  abbrev pub HasTables : User → CommentView → Result CommentResponse × World → Type 0
  HasTables user comment r =
      ((r.1.db ≡ unvoted user.id request.comment_id w.db)
        × ((is_vote request.score ≡ false) ⊎ (is_ok r.0 ≡ false)))
      ⊎ ((is_vote request.score ≡ true)
          × (r.1.db
              ≡ voted (vote user.id comment.post_id request)
                  (unvoted user.id request.comment_id w.db)))

  -- An answer shows the vote, and no vote where the score does not count.
  abbrev pub ShowsVote : Result CommentResponse × World → Type 0
  ShowsVote r =
      (res : CommentResponse)
      → r.0 ≡ ok res
      → res.comment.my_vote ≡ some (if is_vote request.score then request.score else pos 0)

  abbrev pub HasVoted : Result CommentResponse × World → Type 0
  HasVoted r =
      ((is_ok r.0 ≡ false) × (r.1.db ≡ w.db))
      ⊎ ((user : User) × (comment : CommentView) × (post : Post) × IsVoter env request w user
            comment post
          × HasTables user comment r
          × ShowsVote r)

  -- The tables once the vote's step went well.
  abbrev Settled : User → CommentView → Db → Type 0
  Settled user comment db =
      ((is_vote request.score ≡ false) × (db ≡ unvoted user.id request.comment_id w.db))
      ⊎ ((is_vote request.score ≡ true)
          × (db
              ≡ voted (vote user.id comment.post_id request)
                  (unvoted user.id request.comment_id w.db)))

  module _ (user : User) (comment : CommentView) (w2 w3 : World)
      (gone : w2.db ≡ unvoted user.id request.comment_id w.db) where
    after_ok :
        (u : Unit {0})
        → Added (vote user.id comment.post_id request) w2 (ok u, w3)
        → Settled user comment w3.db
    after_ok u (inl (no_add, d)) = inl (no_add, d ∙ gone)
    after_ok u (inr (adds, inl (fails, d))) = cc
    after_ok u (inr (adds, inr d)) =
        inr (adds, d ∙ ap (voted (vote user.id comment.post_id request)) gone)

    after_err :
        (x : LemmyError)
        → Added (vote user.id comment.post_id request) w2 (err x, w3)
        → HasTables user comment (err x, w3)
    after_err x (inl (no_add, d)) = inl (d ∙ gone, inl no_add)
    after_err x (inr (adds, inl (fails, d))) = inl (d ∙ gone, inr refl)
    after_err x (inr (adds, inr d)) =
        inr (adds, d ∙ ap (voted (vote user.id comment.post_id request)) gone)

  kept_tables :
      (user : User) (comment : CommentView) (w3 : World) (r : Result CommentResponse × World)
      → r.1.db ≡ w3.db
      → Settled user comment w3.db
      → HasTables user comment r
  kept_tables user comment w3 r e (inl (no_add, d)) = inl (e ∙ d, inl no_add)
  kept_tables user comment w3 r e (inr (adds, d)) = inr (adds, e ∙ d)

  vote_of-added :
      (user : User) (comment : CommentView) (db : Db)
      → Settled user comment db
      → vote_of db request.comment_id user.id
        ≡ (if is_vote request.score then request.score else pos 0)
  vote_of-added user comment db (inl (no_add, e)) =
      ap (λ d. vote_of d request.comment_id user.id) e
      ∙ (vote_of-unvoted w.db request.comment_id user.id
          ∙ sym (ap (λ b. if b then request.score else pos 0) no_add))
  vote_of-added user comment db (inr (adds, e)) =
      ap (λ d. vote_of d request.comment_id user.id) e
      ∙ (vote_of-voted w.db (vote user.id comment.post_id request)
          ∙ sym (ap (λ b. if b then request.score else pos 0) adds))

  -- A vote on a comment fails and leaves the tables as they are, or the caller is a user with a valid
  -- token who is not banned from the site, votes down only where the site allows it and, if every
  -- query is answered, is not banned from the community of the comment's post. Then nothing in the
  -- tables changes but the caller's votes on that comment: the old ones are gone, and a score of 1
  -- or -1 is there as the only one, unless the handler fails. A successful answer shows the caller's
  -- vote as the tables have it: that score, or 0.
  pub create_like_lem :
      (websocket_id : Option ℕ) → HasVoted (create_like env websocket_id request w)
  unfolding create_like
  create_like_lem websocket_id =
      prepared env request _ HasVoted w (λ x v e. inl (refl, e))
        λ user comment post row ids w1 voter e1.
          statement (remove_like user.id request.comment_id) _ _ HasVoted w1
            (λ x v e. inl (refl, e ∙ e1))
            λ n w2 e2.
              let gone =
                remove_like-unvoted user.id request.comment_id n w1.db w2.db e2
                ∙ ap (unvoted user.id request.comment_id) e1 in
              let added = add_vote-Added env user.id comment.post_id request row w2 in
              let form = vote user.id comment.post_id request in
              seq HasVoted _ _ w2
                (λ x w3 h. inr (
                  user,
                  comment,
                  post,
                  voter,
                  after_err user comment w2 w3 gone x (subst (Added form w2) h added),
                  λ res k. cc,
                ))
                λ u w3 h.
                  let settled =
                    after_ok user comment w2 w3 gone u (subst (Added form w2) h added) in
                  let (kept, shows) = reply-shows request.comment_id user.id ids websocket_id w3 in
                  inr (
                    user,
                    comment,
                    post,
                    voter,
                    kept_tables user comment w3
                        (vote_reply request.comment_id user.id ids websocket_id w3) kept settled,
                    λ res k. shows res k ∙ ap some (vote_of-added user comment w3.db settled),
                  )
