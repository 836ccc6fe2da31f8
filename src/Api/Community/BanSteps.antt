-- ===== src/Api/Community/BanSteps.antt =====
-- The steps of a ban: the row of the ban, and the removal of what the banned user wrote
-- (`BanFromCommunity` of lemmy_api/src/community.rs).
use lemmy.Prelude.{
  ℕ, Bool, true, false, not, List, [], ◌∷◌, ◌++◌, Option, none, some, Result, ok, err, is_ok,
  LemmyError, internal, ◌≡◌, refl, ap, ◌∙◌, sym, ◌⊎◌, inl, inr, arith, retain, any-retain,
  any-append-last, update_where, ==_refl,
}
use lemmy.Structs.{CommunityUser}
use lemmy.Db.Tables.{Db, Post, Comment, ModBanFromCommunity}
use lemmy.Db.Access.{is_banned_from}
use lemmy.Db.Comment.{update_removed, update_comment}
use lemmy.Db.Post.{is_by, set_post_removed, update_removed_for_creator}
use lemmy.Db.Members.{ban, unban, is_row, comments_of_creator}
use lemmy.Api.Monad.{M, World, ok_or, query, ◌>>=◌}
use lemmy.Api.Community.Requests.{BanFromCommunity}
use lemmy.Api.Community.Members.{set_banned, remove_data_of, remove_comments}
use lemmy.Api.Effects.{Reads, Reads-bind, Reads-query, Reads-ok_or}
use lemmy.Api.Steps.{statement, Keeps, Keeps-Reads, Keeps-bind, Keeps-execute}

-- A table with the row of a user and a community, or without it.
abbrev pub with_row : Bool → CommunityUser → List CommunityUser → List CommunityUser
with_row true form rows = rows ++ form ∷ []
with_row false form rows = retain (λ r. not (is_row form r)) rows

-- The tables with these bans.
abbrev pub banned : Bool → CommunityUser → Db → Db
banned b form db = record db { bans = with_row b form db.bans }

pub is_row_own : (form : CommunityUser) → is_row form form ≡ true
is_row_own form = let c = ==_refl form.community_id in let u = ==_refl form.user_id in ground arith

pub banned-is_banned_from :
    (b : Bool) (form : CommunityUser) (db : Db)
    → is_banned_from (banned b form db) form.user_id form.community_id ≡ b
unfolding is_banned_from
banned-is_banned_from true form db = any-append-last (is_row form) db.bans form (is_row_own form)
banned-is_banned_from false form db = any-retain (is_row form) db.bans

-- A failure leaves the tables as they are, a success sets the ban.
abbrev pub Bans : Bool → CommunityUser → World → Result (Unit {0}) × World → Type 0
Bans b form w r =
    ((is_ok r.0 ≡ false) × (r.1.db ≡ w.db)) ⊎ ((is_ok r.0 ≡ true) × (r.1.db ≡ banned b form w.db))

ban-banned :
    (form row : CommunityUser) (db db' : Db)
    → ban form db ≡ some (row, db')
    → db' ≡ banned true form db
unfolding ban
ban-banned form row db db' h = ground arith

unban-banned :
    (form : CommunityUser) (n : ℕ) (db db' : Db)
    → unban form db ≡ some (n, db')
    → db' ≡ banned false form db
unfolding unban
unban-banned form n db db' h = cc

pub set_banned-Bans :
    (b : Bool) (form : CommunityUser) (w : World) → Bans b form w (set_banned b form w)
unfolding set_banned
set_banned-Bans true form w =
    statement (ban form) _ _ (Bans true form w) w (λ x v d. inl (refl, d))
      λ row v d. inr (refl, ban-banned form row w.db v.db d)
set_banned-Bans false form w =
    statement (unban form) _ _ (Bans false form w) w (λ x v d. inl (refl, d))
      λ n v d. inr (refl, unban-banned form n w.db v.db d)

pub failed_ban :
    (b : Bool) (form : CommunityUser) (x : LemmyError) (w w' : World)
    → Bans b form w (err x, w')
    → w'.db ≡ w.db
failed_ban b form x w w' (inl (fails, d)) = d
failed_ban b form x w w' (inr (went, d)) = cc

pub made_ban :
    (b : Bool) (form : CommunityUser) (u : Unit {0}) (w w' : World)
    → Bans b form w (ok u, w')
    → w'.db ≡ banned b form w.db
made_ban b form u w w' (inl (fails, d)) = cc
made_ban b form u w w' (inr (went, d)) = d

-- What the removal of comments leaves alone.
abbrev Untouched : Type 0
Untouched = List CommunityUser × List ModBanFromCommunity × List Post

untouched : Db → Untouched
untouched db = (db.bans, db.community_bans, db.posts)

update_removed-untouched :
    (now id : ℕ) (b : Bool) (c : Comment) (d d' : Db)
    → update_removed now id b d ≡ some (c, d')
    → untouched d' ≡ untouched d
unfolding update_removed update_comment untouched
update_removed-untouched now id b c d d' h = ground arith

remove_comments-Keeps :
    (now : ℕ) (b : Bool) (ids : List ℕ) → Keeps untouched (remove_comments now b ids)
unfolding remove_comments
remove_comments-Keeps now b [] = λ w. refl
remove_comments-Keeps now b (id ∷ ids) =
    Keeps-bind untouched _ _
      (Keeps-execute untouched (update_removed now id b) (update_removed-untouched now id b))
      λ row.
        Keeps-bind untouched _ _
          (Keeps-Reads untouched (ok_or row internal) (Reads-ok_or row internal))
          λ c. remove_comments-Keeps now b ids

-- The posts of who is banned have the flag, if that is asked for; bans and their log are as before.
abbrev pub Removes : ℕ → BanFromCommunity → World → Result (Unit {0}) × World → Type 0
Removes now request w r =
    (r.1.db.bans ≡ w.db.bans)
    × (r.1.db.community_bans ≡ w.db.community_bans)
    × ((b : Bool)
        → request.remove_data ≡ some b
        → is_ok r.0 ≡ true
        → r.1.db.posts
          ≡ update_where (is_by request.user_id (some request.community_id))
              (set_post_removed now b) w.db.posts)

remove_posts-posts :
    (now user_id community_id : ℕ) (b : Bool) (posts : List Post) (d d' : Db)
    → update_removed_for_creator now user_id (some community_id) b d ≡ some (posts, d')
    → d' ≡ record d {
      posts = update_where (is_by user_id (some community_id)) (set_post_removed now b) d.posts;
    }
unfolding update_removed_for_creator
remove_posts-posts now user_id community_id b posts d d' h = cc

pub remove_data_of-Removes :
    (now : ℕ) (request : BanFromCommunity) (w : World)
    → Removes now request w
        (remove_data_of now request.user_id request.community_id request.remove_data w)
unfolding remove_data_of untouched
remove_data_of-Removes now request w = go request.remove_data refl
  where
    same_flag : (b c : Bool) → some b ≡ some c → b ≡ c
    same_flag b c h = cc

    go :
        (o : Option Bool)
        → request.remove_data ≡ o
        → Removes now request w (remove_data_of now request.user_id request.community_id o w)
    go none e = (refl, refl, λ b h k. cc)
    go (some b) e =
        let listing =
          λ (db : Db). some (comments_of_creator db request.user_id request.community_id) in
        statement (update_removed_for_creator now request.user_id (some request.community_id) b) _ _
          (Removes now request w) w
          (λ x v d. (ap (λ db. db.bans) d, ap (λ db. db.community_bans) d, λ c h k. cc))
          λ posts v d.
            let set =
              remove_posts-posts now request.user_id request.community_id b posts w.db v.db d in
            let rest =
              (Keeps-bind untouched _ _
                  (Keeps-Reads untouched (query listing) (Reads-query listing))
                  λ found.
                    Keeps-bind untouched _ _
                      (Keeps-Reads untouched (ok_or found internal) (Reads-ok_or found internal))
                      λ ids. remove_comments-Keeps now b ids)
                v in
            (
              ap (λ u. u.0) rest ∙ ap (λ db. db.bans) set,
              ap (λ u. u.1) rest ∙ ap (λ db. db.community_bans) set,
              λ c h k.
                  ap (λ u. u.2) rest
                  ∙ (ap (λ db. db.posts) set
                      ∙ ap
                          (λ x.
                            update_where (is_by request.user_id (some request.community_id))
                              (set_post_removed now x) w.db.posts)
                          (same_flag b c (sym e ∙ h))),
            )

-- The last steps of a handler whose answer is not from the tables.
pub answered :
    {A B : Type 0} (q : Db → Option B) (x : LemmyError) (k : B → M A) (w : World)
    → ((b : B) → Reads (k b))
    → (((query q >>= λ o. ok_or o x >>= k) w).1.db ≡ w.db)
answered q x k w h =
    (Reads-bind (query q) _ (Reads-query q) (λ o. Reads-bind (ok_or o x) k (Reads-ok_or o x) h) w).0
