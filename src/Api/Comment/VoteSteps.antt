-- ===== src/Api/Comment/VoteSteps.antt =====
-- The steps of a vote (`CreateCommentLike` of lemmy_api/src/comment.rs): the check of a downvote, the
-- recipients, the change of votes, and the answer.
use lemmy.Prelude.{
  ℕ, Bool, true, false, not, ◌||◌, List, [], ◌∷◌, Option, none, some, Result, ok, is_ok, api,
  internal, ◌≡◌, refl, ap, ◌∙◌, sym, ◌⊎◌, inl, inr, arith, ◌==◌, if◌then◌else◌,
}
use lemmy.Prelude.Int.{ℤ, pos, minus_one, ◌==ℤ◌}
use lemmy.Structs.{CommentView, CommentResponse, create_comment_like}
use lemmy.Db.Tables.{Post, Comment, CommentLike, read_user}
use lemmy.Db.Comment.{read_comment, vote_of}
use lemmy.Db.Likes.{like}
use lemmy.Db.Votes.{voted, like-voted, read_view-my_vote}
use lemmy.Api.Monad.{
  M, World, pure, fail_if, ok_or, query, execute, ◌>>=◌, ◌>>◌, ActivityKind, send_activity,
}
use lemmy.Api.Comment.Requests.{Env, CreateCommentLike}
use lemmy.Api.Comment.Write.{see_comment, announce}
use lemmy.Api.Comment.Votes.{check_downvote, other_creator, vote_recipients, do_add, add_vote}
use lemmy.Api.Comment.Quiet.{announce-Reads, announce-comment}
use lemmy.Api.Checks.{see_comment-Reads, see_comment-ok, not-false}
use lemmy.Api.Effects.{
  Reads, Reads-bind, Reads-pure, Reads-query, Reads-ok_or, Reads-fail_if, Reads-send_activity,
  calmly, seq,
}
use lemmy.Api.Steps.{fail_if-ok, query-ok, ok_or-ok, statement}

Reads-if : {A : Type 0} (b : Bool) (m n : M A) → Reads m → Reads n → Reads (if b then m else n)
Reads-if true m n h k = h
Reads-if false m n h k = k

-- The site's downvotes, that must be enabled.
downvotes_on : M (Unit {0})
downvotes_on = do
  row ← query (λ db. db.enable_downvotes)
  enable_downvotes ← ok_or row internal
  fail_if (not enable_downvotes) (api "downvotes_disabled")

downvotes_on-Reads : Reads downvotes_on
unfolding downvotes_on
downvotes_on-Reads =
    Reads-bind _ _ (Reads-query (λ db. db.enable_downvotes))
      λ row. Reads-bind _ _ (Reads-ok_or row internal) λ b. Reads-fail_if (not b) _

pub check_downvote-Reads : (score : ℤ) → Reads (check_downvote score)
unfolding check_downvote downvotes_on
check_downvote-Reads score =
    Reads-if (score ==ℤ minus_one) downvotes_on (pure tt) downvotes_on-Reads (Reads-pure tt)

other_creator-Reads : (user_id creator_id : ℕ) → Reads (other_creator user_id creator_id)
unfolding other_creator
other_creator-Reads user_id creator_id =
    Reads-if (creator_id == user_id) _ _ (Reads-pure {A = List ℕ} []) (
      Reads-bind _ _ (Reads-query (λ db. read_user db creator_id))
        λ found. Reads-bind _ _ (Reads-ok_or found internal) λ u. Reads-pure (u.id ∷ []))

pub vote_recipients-Reads :
    (user_id : ℕ) (comment : Comment) (post : Post) → Reads (vote_recipients user_id comment post)
unfolding vote_recipients
vote_recipients-Reads user_id comment post = go comment.parent_id
  where
    go :
        (parent : Option ℕ)
        → Reads (elim parent [
          | none ↦ pure (post.creator_id ∷ [])
          | some parent_id ↦
              (query (λ db. read_comment db parent_id) >>= λ row.
              ok_or row internal >>= λ c. other_creator user_id c.creator_id)
        ])
    go none = Reads-pure (post.creator_id ∷ [])
    go (some parent_id) = Reads-bind _ _ (Reads-query (λ db. read_comment db parent_id)) λ row.
        Reads-bind _ _ (Reads-ok_or row internal) λ c. other_creator-Reads user_id c.creator_id

-- The vote of a request.
abbrev pub vote : ℕ → ℕ → CreateCommentLike → CommentLike
vote user_id post_id request = record {
  user_id = user_id;
  comment_id = request.comment_id;
  post_id = post_id;
  score = request.score;
}

-- A score that is a vote: up or down.
abbrev pub is_vote : ℤ → Bool
is_vote score = score ==ℤ pos 1 || score ==ℤ minus_one

pub do_add-is_vote : (score : ℤ) → do_add score ≡ is_vote score
unfolding do_add
do_add-is_vote score = ground arith

-- A vote that counts is added, unless the step fails; one that does not leaves the tables alone.
abbrev pub Added : CommentLike → World → Result (Unit {0}) × World → Type 0
Added form w r =
    ((is_vote form.score ≡ false) × (r.1.db ≡ w.db))
    ⊎ ((is_vote form.score ≡ true)
        × (((is_ok r.0 ≡ false) × (r.1.db ≡ w.db)) ⊎ (r.1.db ≡ voted form w.db)))

pub add_vote-Added :
    (env : Env) (user_id post_id : ℕ) (request : CreateCommentLike) (comment : Comment) (w : World)
    → Added (vote user_id post_id request) w (add_vote env user_id post_id request comment w)
unfolding add_vote
add_vote-Added env user_id post_id request comment w =
    go (do_add request.score) (sym (do_add-is_vote request.score))
  where
    form : CommentLike
    form = vote user_id post_id request

    add : M (Unit {0})
    add = execute (like form) >>= λ liked.
        ok_or liked (api "couldnt_like_comment")
        >> send_activity
            (if request.score ==ℤ pos 1 then ActivityKind.like else ActivityKind.dislike) comment.id
            user_id

    go :
        (b : Bool)
        → is_vote request.score ≡ b
        → Added form w
            ((if b then add else send_activity ActivityKind.undo_like comment.id user_id) w)
    go false e = inl (e, (Reads-send_activity ActivityKind.undo_like comment.id user_id w).0)
    go true e =
        statement (like form) _ _ (Added form w) w (λ x v d. inr (e, inl (refl, d)))
          λ row v d. inr (
            e,
            inr ((Reads-send_activity _ comment.id user_id v).0 ∙ like-voted form row w.db v.db d),
          )

pub check_downvote-ok :
    (score : ℤ) (u : Unit {0}) (w w' : World)
    → check_downvote score w ≡ (ok u, w')
    → score ==ℤ minus_one ≡ true
    → w.db.enable_downvotes ≡ some true
unfolding check_downvote downvotes_on
check_downvote-ok score u w w' = go (score ==ℤ minus_one)
  where
    enabled : downvotes_on w ≡ (ok u, w') → w.db.enable_downvotes ≡ some true
    enabled =
        let Q : Result (Unit {0}) × World → Type 0 =
          λ r. r ≡ (ok u, w') → w.db.enable_downvotes ≡ some true in
        seq Q _ _ w (λ x v h k. cc)
          λ row v h.
            seq Q _ _ v (λ x v1 h1 k. cc)
              λ b v1 h1 k.
                let off = (fail_if-ok (not b) _ u v1 w' k).0 in
                (query-ok (λ db. db.enable_downvotes) row w v h).1 b
                  (ok_or-ok row internal b v v1 h1).0
                ∙ ap some (not-false b off)

    go :
        (b : Bool)
        → (if b then downvotes_on else pure tt) w ≡ (ok u, w')
        → b ≡ true
        → w.db.enable_downvotes ≡ some true
    go true e h = enabled e
    go false e h = cc

-- The last steps of `create_like`.
abbrev pub vote_reply : ℕ → ℕ → List ℕ → Option ℕ → M CommentResponse
vote_reply id user_id recipient_ids websocket_id = see_comment id (some user_id) >>= λ view.
    announce create_comment_like
      (record { comment = view; recipient_ids = recipient_ids; form_id = none }) websocket_id

-- The answer: the tables are left alone, and it shows the voter's vote.
pub reply-shows :
    (id user_id : ℕ) (recipient_ids : List ℕ) (websocket_id : Option ℕ) (w : World)
    → let rest = vote_reply id user_id recipient_ids websocket_id in
      ((rest w).1.db ≡ w.db)
      × ((res : CommentResponse)
          → (rest w).0 ≡ ok res
          → res.comment.my_vote ≡ some (vote_of w.db id user_id))
reply-shows id user_id recipient_ids websocket_id w =
    calmly
      (λ r.
        (r.1.db ≡ w.db)
        × ((res : CommentResponse)
            → r.0 ≡ ok res
            → res.comment.my_vote ≡ some (vote_of w.db id user_id)))
      _ _ w (see_comment-Reads id (some user_id)) (λ x v c. (c.0, λ res k. cc))
      λ view v c e.
        let res' : CommentResponse = record {
          comment = view;
          recipient_ids = recipient_ids;
          form_id = none;
        } in
        (
          (announce-Reads create_comment_like res' websocket_id v).0 ∙ c.0,
          λ res k.
              ap (λ (c : CommentView). c.my_vote)
                (announce-comment create_comment_like res' res websocket_id v k).0
              ∙ read_view-my_vote w.db id user_id view
                  (see_comment-ok id (some user_id) view w v e),
        )
