-- ===== src/Api/Community/Silence.antt =====
-- What a ban from a community comes to for who is banned (`BanFromCommunity` of
-- lemmy_api/src/community.rs, `CreatePost`, `EditPost` and `CreatePostLike` of
-- lemmy_api/src/post.rs).
use lemmy.Prelude.{
  ℕ, String, Bool, true, false, not, ◌&&◌, [], Option, some, Result, is_ok, ◌≡◌, ap, ◌∙◌, sym, inl,
  inr, arith, find?-holds, ◌==◌,
}
use lemmy.Structs.{PostResponse, UserView}
use lemmy.Db.Tables.{Db, User, Post, read_user, read_post}
use lemmy.Db.Access.{is_banned_from}
use lemmy.Api.Monad.{World}
use lemmy.Api.Checks.{IsCaller}
use lemmy.Api.Community.Requests.{BanFromCommunity}
use lemmy.Api.Community.Requests as Community
use lemmy.Api.Community.Members.{ban_from}
use lemmy.Api.Community.Bans.{BanOutcome, ban_from_lem}
use lemmy.Api.Post.Requests.{CreatePost, EditPost, CreatePostLike}
use lemmy.Api.Post.Requests as Post
use lemmy.Api.Post.Write as Write
use lemmy.Api.Post.Votes.{create_like}
use lemmy.Api.Post.Guards.{IsPostReader}
use lemmy.Api.Post.Changes.{edit_post_lem}
use lemmy.Api.Post.Creating.{create_post_lem}
use lemmy.Api.Post.Voting.{create_post_like_lem}

caller-id :
    (decode : String → Option ℕ) (auth : String) (db : Db) (user : User) (id : ℕ)
    → IsCaller decode auth db user
    → decode auth ≡ some id
    → user.id ≡ id
unfolding read_user
caller-id decode auth db user id caller named =
    let e =
      find?-holds (λ (u : User). not u.deleted && u.id == caller.id) db.users user caller.there in
    let f : user.id ≡ caller.id = ground arith in
    f ∙ of_some caller.id id (sym caller.named ∙ named)
  where
    of_some : (a b : ℕ) → some a ≡ some b → a ≡ b
    of_some a b h = cc

-- The ban of a run that went well holds after it.
ban-holds :
    (env : Community.Services) (now : ℕ) (request : BanFromCommunity) (w : World)
    (r : Result (UserView × Bool) × World)
    → request.ban ≡ true
    → is_ok r.0 ≡ true
    → BanOutcome env now request w r
    → is_banned_from r.1.db request.user_id request.community_id ≡ true
ban-holds env now request w r bans went (inl (fails, d)) = cc
ban-holds env now request w r bans went (inr (user, caller, rights, (has, holds, log, posts))) =
    holds ∙ bans

contradiction : {A : Type 0} {b : Bool} → b ≡ true → b ≡ false → A
contradiction h k = cc

module _ (env : Community.Services) (services : Post.Services) (now : ℕ) (websocket_id : Option ℕ)
    (ban : BanFromCommunity) (w : World) where
  -- The world after the ban.
  abbrev pub after_ban : World
  after_ban = (ban_from env now websocket_id ban w).1

  -- A run that fails and leaves the tables as they are.
  abbrev pub IsRefused : Result PostResponse × World → Type 0
  IsRefused r = (is_ok r.0 ≡ false) × (r.1.db ≡ after_ban.db)

  module _ (bans : ban.ban ≡ true) (went : is_ok (ban_from env now websocket_id ban w).0 ≡ true)
      (fair : after_ban.weather ≡ []) where
    holds : is_banned_from after_ban.db ban.user_id ban.community_id ≡ true
    holds =
        ban-holds env now ban w (ban_from env now websocket_id ban w) bans went
          (ban_from_lem env now ban w websocket_id)

    -- Nobody who is banned is a reader of a post of the community.
    no_reader :
        (auth : String) (id : ℕ) (post : Post) (user : User) (found : Post)
        → services.decode auth ≡ some ban.user_id
        → read_post after_ban.db id ≡ some post
        → post.community_id ≡ ban.community_id
        → IsPostReader services.decode auth id after_ban user found
        → {A : Type 0} → A
    no_reader auth id post user found named there here reader =
        let same : found ≡ post = of_some found post (sym reader.found ∙ there) in
        contradiction holds (
          ap (λ c. is_banned_from after_ban.db ban.user_id c)
            (sym (ap (λ (p : Post). p.community_id) same ∙ here))
          ∙ (ap (λ u. is_banned_from after_ban.db u found.community_id)
                (sym (
                  caller-id services.decode auth after_ban.db user ban.user_id reader.caller named))
              ∙ reader.allowed fair))
      where
        of_some : (a b : Post) → some a ≡ some b → a ≡ b
        of_some a b h = cc

    -- After a ban from a community that went well, and while every query is answered, whoever was
    -- banned cannot create a post in the community, and cannot edit a post or vote on a post that is
    -- in it: each of these fails and leaves the tables as they are.
    pub banned-IsRefused :
        (creating : CreatePost) (editing : EditPost) (voting : CreatePostLike) (edited voted : Post)
        → services.decode creating.auth ≡ some ban.user_id
        → services.decode editing.auth ≡ some ban.user_id
        → services.decode voting.auth ≡ some ban.user_id
        → creating.community_id ≡ ban.community_id
        → read_post after_ban.db editing.edit_id ≡ some edited
        → edited.community_id ≡ ban.community_id
        → read_post after_ban.db voting.post_id ≡ some voted
        → voted.community_id ≡ ban.community_id
        → IsRefused (Write.create services now websocket_id creating after_ban)
          × IsRefused (Write.edit services now websocket_id editing after_ban)
          × IsRefused (create_like services websocket_id voting after_ban)
    banned-IsRefused creating editing voting edited voted named named' named'' here found here'
          found' here'' =
        (
          elim (create_post_lem services now creating after_ban websocket_id) [
            | inl refused ↦ refused
            | inr (user, author, rest) ↦ contradiction holds (
                ap (λ c. is_banned_from after_ban.db ban.user_id c) (sym here)
                ∙ (ap (λ u. is_banned_from after_ban.db u creating.community_id)
                      (sym (
                        caller-id services.decode creating.auth after_ban.db user ban.user_id
                          author.caller named))
                    ∙ author.allowed fair))
          ],
          elim (edit_post_lem services now websocket_id editing after_ban) [
            | inl refused ↦ refused
            | inr (user, p, reader, rest) ↦
                no_reader editing.auth editing.edit_id edited user p named' found here' reader
          ],
          elim (create_post_like_lem services voting after_ban websocket_id) [
            | inl refused ↦ refused
            | inr (user, p, reader, downvote, vote) ↦
                no_reader voting.auth voting.post_id voted user p named'' found' here'' reader
          ],
        )
