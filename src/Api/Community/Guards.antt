-- ===== src/Api/Community/Guards.antt =====
-- Steps of the handlers of communities that leave the tables alone (lemmy_api/src/community.rs).
use lemmy.Prelude.{ℕ, true, not, Option, some, Result, ok, internal, ◌≡◌, refl, ap, ◌∙◌, sym}
use lemmy.Structs.{CommunityView, CommunityResponse, UserOperation}
use lemmy.Db.Tables.{User, Community, read_user}
use lemmy.Db.Community.{read_community, read_community_view}
use lemmy.Api.Auth.{is_admin}
use lemmy.Api.Monad.{World, ◌>>=◌, ◌>>◌, do_send, ActivityKind}
use lemmy.Api.Community.Write.{find_community, see_community, send_community_websocket, send_own}
use lemmy.Api.Checks.{row-Reads, row-ok, not-false}
use lemmy.Api.Effects.{
  Reads, Reads-bind, Reads-query, Reads-ok_or, Reads-fail_if, Reads-deliver, calmly, seq,
}
use lemmy.Api.Steps.{query-ok, ok_or-ok, fail_if-ok}

pub find_community-Reads : (id : ℕ) → Reads (find_community id)
unfolding find_community
find_community-Reads id = row-Reads (λ db. read_community db id) internal

pub find_community-ok :
    (id : ℕ) (c : Community) (w w' : World)
    → find_community id w ≡ (ok c, w')
    → read_community w.db id ≡ some c
unfolding find_community
find_community-ok id = row-ok (λ db. read_community db id) internal

pub see_community-Reads : (id user_id : ℕ) → Reads (see_community id user_id)
unfolding see_community
see_community-Reads id user_id = row-Reads (λ db. read_community_view db id (some user_id)) internal

pub see_community-ok :
    (id user_id : ℕ) (view : CommunityView) (w w' : World)
    → see_community id user_id w ≡ (ok view, w')
    → read_community_view w.db id (some user_id) ≡ some view
unfolding see_community
see_community-ok id user_id = row-ok (λ db. read_community_view db id (some user_id)) internal

pub is_admin-Reads : (user_id : ℕ) → Reads (is_admin user_id)
unfolding is_admin
is_admin-Reads user_id =
    Reads-bind _ _ (Reads-query (λ db. read_user db user_id))
      λ row. Reads-bind _ _ (Reads-ok_or row internal) λ user. Reads-fail_if (not user.admin) _

-- Whatever the weather, who passes is an administrator.
pub is_admin-ok :
    (user_id : ℕ) (u : Unit {0}) (w w' : World)
    → is_admin user_id w ≡ (ok u, w')
    → (user : User) × (read_user w.db user_id ≡ some user) × (user.admin ≡ true)
unfolding is_admin
is_admin-ok user_id u w w' =
    let Q : Result (Unit {0}) × World → Type 0 = λ r.
      r ≡ (ok u, w') → (user : User) × (read_user w.db user_id ≡ some user) × (user.admin ≡ true) in
    seq Q _ _ w (λ x v h k. cc)
      λ row v h.
        seq Q _ _ v (λ x v1 h1 k. cc)
          λ user v1 h1 k. (
            user,
            (query-ok (λ db. read_user db user_id) row w v h).1 user
                (ok_or-ok row internal user v v1 h1).0,
            not-false user.admin (fail_if-ok (not user.admin) _ u v1 w' k).0,
          )

-- The answer is what the caller sees of the community in the tables.
abbrev pub ShowsCommunity : ℕ → ℕ → Result CommunityResponse × World → Type 0
ShowsCommunity id user_id r =
    (res : CommunityResponse)
    → r.0 ≡ ok res
    → read_community_view r.1.db id (some user_id) ≡ some res.community

told_all :
    (op : UserOperation) (res : CommunityResponse) (websocket_id : Option ℕ) (w : World)
    → let r = send_community_websocket op res websocket_id w in (r.1.db ≡ w.db) × (r.0 ≡ ok res)
unfolding send_community_websocket ◌>>=◌ do_send
told_all op res websocket_id w = (refl, refl)

-- The last steps of a handler.
pub shown_community :
    (id user_id : ℕ) (op : UserOperation) (websocket_id : Option ℕ) (w : World)
    → let r =
        (see_community id user_id >>= λ view.
        send_community_websocket op (record { community = view }) websocket_id)
          w in
      (r.1.db ≡ w.db) × ShowsCommunity id user_id r
shown_community id user_id op websocket_id w =
    calmly (λ r. (r.1.db ≡ w.db) × ShowsCommunity id user_id r) _ _ w
      (see_community-Reads id user_id) (λ x v c. (c.0, λ res k. cc))
      λ view v c f.
        let (kept, answer) = told_all op (record { community = view }) websocket_id v in
        (
          kept ∙ c.0,
          λ res k.
              ap (λ db. read_community_view db id (some user_id)) (kept ∙ c.0)
              ∙ (see_community-ok id user_id view w v f ∙ same_view view res (sym answer ∙ k)),
        )
  where
    same_view :
        (view : CommunityView) (res : CommunityResponse)
        → ◌≡◌ {A = Result CommunityResponse} (ok (record { community = view })) (ok res)
        → some view ≡ some res.community
    same_view view res h = cc

pub shown_community_after :
    (kind : ActivityKind) (c : Community) (id user_id : ℕ) (op : UserOperation)
    (websocket_id : Option ℕ) (w : World)
    → let r =
        (send_own kind c
            >> (see_community id user_id >>= λ view.
                send_community_websocket op (record { community = view }) websocket_id))
          w in
      (r.1.db ≡ w.db) × ShowsCommunity id user_id r
shown_community_after kind c id user_id op websocket_id w =
    calmly (λ r. (r.1.db ≡ w.db) × ShowsCommunity id user_id r) _ _ w (Reads-deliver _)
      (λ x v c. (c.0, λ res k. cc))
      λ u v c f.
        let (kept, shows) = shown_community id user_id op websocket_id v in (kept ∙ c.0, shows)
