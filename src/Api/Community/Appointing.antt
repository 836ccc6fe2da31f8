-- ===== src/Api/Community/Appointing.antt =====
-- Making a user a moderator, or taking that back (`AddModToCommunity` of
-- lemmy_api/src/community.rs).
use lemmy.Prelude.{
  ℕ, Bool, true, false, not, List, [], ◌∷◌, ◌++◌, Option, some, Result, ok, err, is_ok, internal,
  LemmyError, ◌≡◌, refl, ap, ◌∙◌, sym, subst, ◌⊎◌, inl, inr, arith, any, any-retain,
  any-append-last,
}
use lemmy.Structs.{CommunityUser, moderators_response, add_mod_to_community}
use lemmy.Db.Tables.{Db, User, ModAddCommunity}
use lemmy.Db.Access.{is_mod_or_admin_db}
use lemmy.Db.Community.{moderators_of}
use lemmy.Db.Members.{join, leave, is_row, log_moderator}
use lemmy.Db.Moderators.{with_moderators, join-appends}
use lemmy.Chat.Handlers.{send_community_room}
use lemmy.Api.Monad.{M, World, pure, execute, ok_or, query, do_send, ◌>>=◌, ◌>>◌}
use lemmy.Api.Auth.{get_user_from_jwt, is_mod_or_admin}
use lemmy.Api.Community.Requests.{Services, AddModToCommunity}
use lemmy.Api.Community.Members.{add_mod, set_moderating}
use lemmy.Api.Community.BanSteps.{with_row, is_row_own}
use lemmy.Api.Checks.{
  IsCaller, get_user_from_jwt-Reads, get_user_from_jwt-ok, is_mod_or_admin-Reads,
  is_mod_or_admin-ok,
}
use lemmy.Api.Effects.{Reads-query, Reads-ok_or, calmly, seq}
use lemmy.Api.Steps.{statement, query-ok, ok_or-ok}

-- The tables with this moderator, or without.
abbrev pub appointed : Bool → CommunityUser → Db → Db
appointed b form db = with_moderators (with_row b form db.moderators) db

leave-appointed :
    (form : CommunityUser) (n : ℕ) (db db' : Db)
    → leave form db ≡ some (n, db')
    → db' ≡ appointed false form db
unfolding leave
leave-appointed form n db db' h = cc

with_row-any :
    (b : Bool) (form : CommunityUser) (rows : List CommunityUser)
    → any (is_row form) (with_row b form rows) ≡ b
with_row-any true form rows = any-append-last (is_row form) rows form (is_row_own form)
with_row-any false form rows = any-retain (is_row form) rows

-- A failure leaves the tables as they are, a success makes the change.
abbrev Appoints : Bool → CommunityUser → World → Result (Unit {0}) × World → Type 0
Appoints b form w r =
    ((is_ok r.0 ≡ false) × (r.1.db ≡ w.db))
    ⊎ ((is_ok r.0 ≡ true) × (r.1.db ≡ appointed b form w.db))

set_moderating-Appoints :
    (b : Bool) (form : CommunityUser) (w : World) → Appoints b form w (set_moderating b form w)
unfolding set_moderating
set_moderating-Appoints true form w =
    statement (join form) _ _ (Appoints true form w) w (λ x v d. inl (refl, d))
      λ row v d. inr (refl, join-appends form row w.db v.db d)
set_moderating-Appoints false form w =
    statement (leave form) _ _ (Appoints false form w) w (λ x v d. inl (refl, d))
      λ n v d. inr (refl, leave-appointed form n w.db v.db d)

failed_appointment :
    (b : Bool) (form : CommunityUser) (x : LemmyError) (w w' : World)
    → Appoints b form w (err x, w')
    → w'.db ≡ w.db
failed_appointment b form x w w' (inl (fails, d)) = d
failed_appointment b form x w w' (inr (went, d)) = cc

made_appointment :
    (b : Bool) (form : CommunityUser) (u : Unit {0}) (w w' : World)
    → Appoints b form w (ok u, w')
    → w'.db ≡ appointed b form w.db
made_appointment b form u w w' (inl (fails, d)) = cc
made_appointment b form u w w' (inr (went, d)) = d

log_moderator-appends :
    (form row : ModAddCommunity) (d d' : Db)
    → log_moderator form d ≡ some (row, d')
    → d' ≡ record d { community_mods = d.community_mods ++ form ∷ [] }
unfolding log_moderator
log_moderator-appends form row d d' h = ground arith

module _ (env : Services) (request : AddModToCommunity) (w : World) where
  abbrev mod_form : CommunityUser
  mod_form = record { community_id = request.community_id; user_id = request.user_id }

  abbrev mod_entry : ℕ → ModAddCommunity
  mod_entry user_id = record {
    mod_user_id = user_id;
    other_user_id = request.user_id;
    community_id = request.community_id;
    removed = some (not request.added);
  }

  -- The moderators are as requested, whatever fails after it; a success has an entry in the log and
  -- lists the moderators.
  abbrev pub HasMod : User → Result (List CommunityUser) × World → Type 0
  HasMod user r =
      (r.1.db.moderators ≡ with_row request.added mod_form w.db.moderators)
      × (any (is_row mod_form) r.1.db.moderators ≡ request.added)
      × ((ms : List CommunityUser)
          → r.0 ≡ ok ms
          → (r.1.db.community_mods ≡ w.db.community_mods ++ mod_entry user.id ∷ [])
            × (moderators_of r.1.db request.community_id ≡ ms))

  abbrev pub AddModOutcome : Result (List CommunityUser) × World → Type 0
  AddModOutcome r =
      ((is_ok r.0 ≡ false) × (r.1.db ≡ w.db))
      ⊎ ((user : User) × IsCaller env.decode request.auth w.db user
          × (is_mod_or_admin_db w.db user.id request.community_id ≡ true)
          × HasMod user r)

  abbrev mods_listing : Db → Option (List CommunityUser)
  mods_listing db = some (moderators_of db request.community_id)

  abbrev tell_mods : Option ℕ → List CommunityUser → M (List CommunityUser)
  tell_mods websocket_id ms =
      do_send (
        send_community_room add_mod_to_community (moderators_response ms) request.community_id
          websocket_id)
      >> pure ms

  abbrev report_mod : ℕ → Option ℕ → M (List CommunityUser)
  report_mod user_id websocket_id = execute (log_moderator (mod_entry user_id)) >>= λ o.
      ok_or o internal
      >> (query mods_listing >>= λ found. ok_or found internal >>= tell_mods websocket_id)

  told :
      (websocket_id : Option ℕ) (ms : List CommunityUser) (v : World)
      → ((tell_mods websocket_id ms v).1.db ≡ v.db) × ((tell_mods websocket_id ms v).0 ≡ ok ms)
  unfolding do_send ◌>>=◌
  told websocket_id ms v = (refl, refl)

  mods_are :
      (d : Db)
      → d.moderators ≡ with_row request.added mod_form w.db.moderators
      → any (is_row mod_form) d.moderators ≡ request.added
  mods_are d e = ap (any (is_row mod_form)) e ∙ with_row-any request.added mod_form w.db.moderators

  reported_mod :
      (user : User) (websocket_id : Option ℕ) (w4 : World)
      → w4.db.moderators ≡ with_row request.added mod_form w.db.moderators
      → w4.db.community_mods ≡ w.db.community_mods
      → HasMod user (report_mod user.id websocket_id w4)
  reported_mod user websocket_id w4 mods log =
      statement (log_moderator (mod_entry user.id)) internal _ (HasMod user) w4
        (λ x w5 d.
          let mods5 = ap (λ db. db.moderators) d ∙ mods in
          (mods5, mods_are w5.db mods5, λ ms k. cc))
        λ entry w5 d.
          let logged = log_moderator-appends (mod_entry user.id) entry w4.db w5.db d in
          let mods5 = ap (λ db. db.moderators) logged ∙ mods in
          let log5 =
            ap (λ db. db.community_mods) logged ∙ ap (λ l. l ++ mod_entry user.id ∷ []) log in
          calmly (HasMod user) (query mods_listing)
            (λ found. ok_or found internal >>= tell_mods websocket_id) w5 (Reads-query mods_listing)
            (λ x w6 c.
              let mods6 = ap (λ db. db.moderators) c.0 ∙ mods5 in
              (mods6, mods_are w6.db mods6, λ ms k. cc))
            λ found w6 c6 e6.
              calmly (HasMod user) (ok_or found internal) (tell_mods websocket_id) w6
                (Reads-ok_or found internal)
                (λ x w7 c.
                  let mods7 = ap (λ db. db.moderators) (c.0 ∙ c6.0) ∙ mods5 in
                  (mods7, mods_are w7.db mods7, λ ms k. cc))
                λ ms w7 c7 e7.
                  let (quiet, answer) = told websocket_id ms w7 in
                  let kept = quiet ∙ (c7.0 ∙ c6.0) in
                  let mods7 = ap (λ db. db.moderators) kept ∙ mods5 in
                  let seen =
                    (query-ok mods_listing found w5 w6 e6).1 ms
                      (ok_or-ok found internal ms w6 w7 e7).0 in
                  (
                    mods7,
                    mods_are (tell_mods websocket_id ms w7).1.db mods7,
                    λ ms' k. (
                      ap (λ db. db.community_mods) kept ∙ log5,
                      listed (moderators_of w5.db request.community_id)
                          (moderators_of (tell_mods websocket_id ms w7).1.db request.community_id)
                          ms ms' seen (ap (λ db. moderators_of db request.community_id) kept)
                          (sym answer ∙ k),
                    ),
                  )
    where
      listed :
          (here there xs ys : List CommunityUser)
          → some here ≡ some xs
          → there ≡ here
          → ◌≡◌ {A = Result (List CommunityUser)} (ok xs) (ok ys)
          → there ≡ ys
      listed here there xs ys e f k = cc

  mod_step :
      (user : User) (websocket_id : Option ℕ) (w2 : World)
      → IsCaller env.decode request.auth w.db user
      → is_mod_or_admin_db w.db user.id request.community_id ≡ true
      → w2.db ≡ w.db
      → AddModOutcome
          ((set_moderating request.added mod_form >> report_mod user.id websocket_id) w2)
  mod_step user websocket_id w2 caller rights same =
      let set = set_moderating-Appoints request.added mod_form w2 in
      let at = Appoints request.added mod_form w2 in
      seq AddModOutcome (set_moderating request.added mod_form)
        (λ u. report_mod user.id websocket_id) w2
        (λ x w3 h.
          inl (refl, failed_appointment request.added mod_form x w2 w3 (subst at h set) ∙ same))
        λ u w3 h.
          let made =
            made_appointment request.added mod_form u w2 w3 (subst at h set)
            ∙ ap (appointed request.added mod_form) same in
          inr (
            user,
            caller,
            rights,
            reported_mod user websocket_id w3 (ap (λ db. db.moderators) made)
                (ap (λ db. db.community_mods) made),
          )

  -- Making a user a moderator of a community, or taking that back, fails and leaves the tables as
  -- they are, or the caller is a user with a valid token who is not banned from the site, and
  -- moderates the community or is an administrator. Then the user moderates the community or not, as
  -- requested, and the other moderators are as before, also where the handler fails after that. If
  -- it succeeds, the log has one more entry, in the caller's name, and the answer lists the
  -- community's moderators.
  pub add_mod_lem : (websocket_id : Option ℕ) → AddModOutcome (add_mod env websocket_id request w)
  unfolding add_mod
  add_mod_lem websocket_id =
      calmly AddModOutcome (get_user_from_jwt env.decode request.auth) _ w
        (get_user_from_jwt-Reads env.decode request.auth) (λ x v c. inl (refl, c.0))
        λ user w1 c1 e1.
          calmly AddModOutcome (is_mod_or_admin user.id request.community_id)
            (λ u. set_moderating request.added mod_form >> report_mod user.id websocket_id) w1
            (is_mod_or_admin-Reads user.id request.community_id) (λ x v c. inl (refl, c.0 ∙ c1.0))
            λ u w2 c2 e2.
              mod_step user websocket_id w2
                (get_user_from_jwt-ok env.decode request.auth user w w1 e1)
                (ap (λ db. is_mod_or_admin_db db user.id request.community_id) (sym c1.0)
                  ∙ is_mod_or_admin-ok user.id request.community_id u w1 w2 e2)
                (c2.0 ∙ c1.0)
