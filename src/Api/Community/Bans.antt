-- ===== src/Api/Community/Bans.antt =====
-- Banning a user from a community, or taking that back (`BanFromCommunity` of
-- lemmy_api/src/community.rs).
use lemmy.Prelude.{
  ℕ, Bool, true, false, ◌&&◌, [], ◌∷◌, ◌++◌, Option, some, Result, is_ok, internal, ◌≡◌, refl, ap,
  ◌∙◌, sym, subst, ◌⊎◌, inl, inr, arith, any, update_where, ◌==◌,
}
use lemmy.Structs.{CommunityUser, UserView, ban_response, ban_from_community}
use lemmy.Db.Tables.{Db, User, ModBanFromCommunity}
use lemmy.Db.Access.{is_mod_or_admin_db, is_banned_from}
use lemmy.Db.Post.{is_by, set_post_removed}
use lemmy.Db.Community.{get_user_secure}
use lemmy.Db.Members.{log_ban}
use lemmy.Chat.Handlers.{send_community_room}
use lemmy.Api.Monad.{M, World, pure, execute, ok_or, query, do_send, ◌>>=◌, ◌>>◌}
use lemmy.Api.Texts.{naive_from_unix}
use lemmy.Api.TextChecks.{naive_from_unix-Reads}
use lemmy.Api.Auth.{get_user_from_jwt, is_mod_or_admin}
use lemmy.Api.Community.Requests.{Services, BanFromCommunity}
use lemmy.Api.Community.Members.{ban_from, set_banned, remove_data_of}
use lemmy.Api.Checks.{
  IsCaller, get_user_from_jwt-Reads, get_user_from_jwt-ok, is_mod_or_admin-Reads,
  is_mod_or_admin-ok,
}
use lemmy.Api.Effects.{Reads-bind, Reads-pure, Reads-do_send, calmly, seq}
use lemmy.Api.Steps.{statement}
use lemmy.Api.Community.BanSteps.{
  with_row, banned, banned-is_banned_from, Bans, set_banned-Bans, failed_ban, made_ban, Removes,
  remove_data_of-Removes, answered,
}

abbrev pub ban_entry : BanFromCommunity → ℕ → ModBanFromCommunity
ban_entry request user_id = record {
  mod_user_id = user_id;
  other_user_id = request.user_id;
  community_id = request.community_id;
  reason = request.reason;
  banned = some request.ban;
  expires = request.expires;
}

log_ban-appends :
    (form row : ModBanFromCommunity) (d d' : Db)
    → log_ban form d ≡ some (row, d')
    → d' ≡ record d { community_bans = d.community_bans ++ form ∷ [] }
unfolding log_ban
log_ban-appends form row d d' h = ground arith

module _ (env : Services) (now : ℕ) (request : BanFromCommunity) (w : World) where
  abbrev ban_form : CommunityUser
  ban_form = record { community_id = request.community_id; user_id = request.user_id }

  -- The ban is as requested and no other is touched, whatever fails after it; a success has an entry
  -- in the log, and the posts of who is banned have the flag if that is asked for.
  abbrev pub HasBan : User → Result (UserView × Bool) × World → Type 0
  HasBan user r =
      (r.1.db.bans ≡ with_row request.ban ban_form w.db.bans)
      × (is_banned_from r.1.db request.user_id request.community_id ≡ request.ban)
      × (is_ok r.0 ≡ true
          → r.1.db.community_bans ≡ w.db.community_bans ++ ban_entry request user.id ∷ [])
      × ((b : Bool)
          → request.remove_data ≡ some b
          → is_ok r.0 ≡ true
          → r.1.db.posts
            ≡ update_where (is_by request.user_id (some request.community_id))
                (set_post_removed now b) w.db.posts)

  abbrev pub BanOutcome : Result (UserView × Bool) × World → Type 0
  BanOutcome r =
      ((is_ok r.0 ≡ false) × (r.1.db ≡ w.db))
      ⊎ ((user : User) × IsCaller env.decode request.auth w.db user
          × (is_mod_or_admin_db w.db user.id request.community_id ≡ true)
          × HasBan user r)

  of_bans :
      (d : Db)
      → d.bans ≡ with_row request.ban ban_form w.db.bans
      → is_banned_from d request.user_id request.community_id ≡ request.ban
  unfolding is_banned_from
  of_bans d e =
      ap
        (λ bans.
          any (λ b. b.user_id == request.user_id && b.community_id == request.community_id) bans)
        e
      ∙ banned-is_banned_from request.ban ban_form w.db

  -- The posts have the flag that was asked for.
  abbrev Flagged : Db → Type 0
  Flagged d =
      (b : Bool)
      → request.remove_data ≡ some b
      → d.posts
        ≡ update_where (is_by request.user_id (some request.community_id)) (set_post_removed now b)
            w.db.posts

  report_ban : ℕ → Option ℕ → M (UserView × Bool)
  report_ban user_id websocket_id = execute (log_ban (ban_entry request user_id)) >>= λ o.
      ok_or o internal
      >> (query (λ db. get_user_secure db request.user_id) >>= λ row. ok_or row internal >>= λ view.
          do_send (
            send_community_room ban_from_community (ban_response view request.ban)
              request.community_id websocket_id)
          >> pure (view, request.ban))

  reported :
      (user : User) (websocket_id : Option ℕ) (w4 : World)
      → w4.db.bans ≡ with_row request.ban ban_form w.db.bans
      → w4.db.community_bans ≡ w.db.community_bans
      → Flagged w4.db
      → HasBan user (report_ban user.id websocket_id w4)
  unfolding report_ban
  reported user websocket_id w4 bans log posts =
      statement (log_ban (ban_entry request user.id)) _ _ (HasBan user) w4
        (λ x w5 d.
          let bans5 = ap (λ db. db.bans) d ∙ bans in
          (bans5, of_bans w5.db bans5, λ k. cc, λ b e k. cc))
        λ entry w5 d.
          let logged = log_ban-appends (ban_entry request user.id) entry w4.db w5.db d in
          let rest : UserView → M (UserView × Bool) = λ view.
            do_send (
              send_community_room ban_from_community (ban_response view request.ban)
                request.community_id websocket_id)
            >> pure (view, request.ban) in
          let kept =
            answered (λ db. get_user_secure db request.user_id) internal rest w5
              (λ view.
                Reads-bind _ _ (Reads-do_send _)
                  λ t. Reads-pure {A = UserView × Bool} (view, request.ban)) in
          let now_is = kept ∙ logged in
          let bans6 = ap (λ db. db.bans) now_is ∙ bans in
          (
            bans6,
            of_bans _ bans6,
            λ k.
                ap (λ db. db.community_bans) now_is
                ∙ ap (λ l. l ++ ban_entry request user.id ∷ []) log,
            λ b e k. ap (λ db. db.posts) now_is ∙ posts b e,
          )

  -- The time of the expiry, and then the report.
  abbrev dated : ℕ → Option ℕ → M (UserView × Bool)
  dated user_id websocket_id =
      naive_from_unix env.is_date request.expires >> report_ban user_id websocket_id

  dated-HasBan :
      (user : User) (websocket_id : Option ℕ) (w4 : World)
      → w4.db.bans ≡ with_row request.ban ban_form w.db.bans
      → w4.db.community_bans ≡ w.db.community_bans
      → Flagged w4.db
      → HasBan user (dated user.id websocket_id w4)
  dated-HasBan user websocket_id w4 bans log posts =
      calmly (HasBan user) (naive_from_unix env.is_date request.expires)
        (λ u. report_ban user.id websocket_id) w4
        (naive_from_unix-Reads env.is_date request.expires)
        (λ x w5 c.
          let bans5 = ap (λ db. db.bans) c.0 ∙ bans in
          (bans5, of_bans w5.db bans5, λ k. cc, λ b e k. cc))
        λ u w5 c e.
          reported user websocket_id w5 (ap (λ db. db.bans) c.0 ∙ bans)
            (ap (λ db. db.community_bans) c.0 ∙ log) (λ b e. ap (λ db. db.posts) c.0 ∙ posts b e)

  removed_data :
      (user : User) (websocket_id : Option ℕ) (w3 : World)
      → w3.db ≡ banned request.ban ban_form w.db
      → HasBan user (
          (remove_data_of now request.user_id request.community_id request.remove_data
              >> dated user.id websocket_id)
            w3)
  removed_data user websocket_id w3 made =
      let removes = remove_data_of-Removes now request w3 in
      seq (HasBan user) _ _ w3
        (λ x w4 h4.
          let (bans, log, posts) = subst (Removes now request w3) h4 removes in
          let bans4 = bans ∙ ap (λ db. db.bans) made in
          (bans4, of_bans w4.db bans4, λ k. cc, λ b e k. cc))
        λ u4 w4 h4.
          let (bans, log, posts) = subst (Removes now request w3) h4 removes in
          dated-HasBan user websocket_id w4 (bans ∙ ap (λ db. db.bans) made)
            (log ∙ ap (λ db. db.community_bans) made)
            λ b e.
              posts b e refl
              ∙ ap
                  (λ (db : Db).
                    update_where (is_by request.user_id (some request.community_id))
                      (set_post_removed now b) db.posts)
                  made

  set_step :
      (user : User) (websocket_id : Option ℕ) (w2 : World)
      → IsCaller env.decode request.auth w.db user
      → is_mod_or_admin_db w.db user.id request.community_id ≡ true
      → w2.db ≡ w.db
      → BanOutcome (
          (set_banned request.ban ban_form
              >> (remove_data_of now request.user_id request.community_id request.remove_data
                  >> dated user.id websocket_id))
            w2)
  set_step user websocket_id w2 caller rights same =
      let set = set_banned-Bans request.ban ban_form w2 in
      seq BanOutcome (set_banned request.ban ban_form) _ w2
        (λ x w3 h. inl (
          refl,
          failed_ban request.ban ban_form x w2 w3 (subst (Bans request.ban ban_form w2) h set)
              ∙ same,
        ))
        λ u3 w3 h3. inr (
          user,
          caller,
          rights,
          removed_data user websocket_id w3 (
              made_ban request.ban ban_form u3 w2 w3 (subst (Bans request.ban ban_form w2) h3 set)
              ∙ ap (banned request.ban ban_form) same),
        )

  -- Banning a user from a community, or taking that back, fails and leaves the tables as they are, or
  -- the caller is a user with a valid token who is not banned from the site, and moderates the
  -- community or is an administrator. Then the user is banned from the community or not, as
  -- requested, and the bans of others are as before, also where the handler fails after that. If it
  -- succeeds, the log has one more entry, in the caller's name, and if the removal of data was asked
  -- for, all posts of that user in the community are removed or restored, as requested, and no
  -- others.
  pub ban_from_lem :
      (websocket_id : Option ℕ) → BanOutcome (ban_from env now websocket_id request w)
  unfolding ban_from report_ban
  ban_from_lem websocket_id =
      calmly BanOutcome (get_user_from_jwt env.decode request.auth) _ w
        (get_user_from_jwt-Reads env.decode request.auth) (λ x v c. inl (refl, c.0))
        λ user w1 c1 e1.
          calmly BanOutcome (is_mod_or_admin user.id request.community_id) _ w1
            (is_mod_or_admin-Reads user.id request.community_id) (λ x v c. inl (refl, c.0 ∙ c1.0))
            λ u w2 c2 e2.
              set_step user websocket_id w2
                (get_user_from_jwt-ok env.decode request.auth user w w1 e1)
                (ap (λ db. is_mod_or_admin_db db user.id request.community_id) (sym c1.0)
                  ∙ is_mod_or_admin-ok user.id request.community_id u w1 w2 e2)
                (c2.0 ∙ c1.0)
