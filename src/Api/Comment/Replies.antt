-- ===== src/Api/Comment/Replies.antt =====
-- How the handlers that change a comment end when nothing goes wrong: the activity, the notifications
-- and the answer (lemmy_api/src/comment.rs).
use lemmy.Prelude.{
  ℕ, String, false, List, [], ◌∷◌, ◌++◌, Option, none, some, ok, ◌≡◌, refl, ap, ◌∙◌, sym, subst,
}
use lemmy.Structs.{CommentView, CommentResponse, UserOperation}
use lemmy.Db.Tables.{Db, User, Post, Comment, read_post}
use lemmy.Db.Comment.{read_view}
use lemmy.Api.Monad.{
  M, World, Activity, about_comment, deliver, ◌>>=◌, ◌>>◌, next_weather, later_weather,
  next_outcome, later_outcomes, send_activity, do_send, ActivityKind,
}
use lemmy.Chat.Handlers.{sends_comment}
use lemmy.Api.Notify.{send_local_notifs, do_send_local_notifs}
use lemmy.Api.Comment.Write.{see_comment, announce}
use lemmy.Api.Comment.Quiet.{send_local_notifs-Reads}
use lemmy.Api.Fair.{bind_ok, see_comment_ok, get_post_ok}
use lemmy.Api.Auth.{get_post}

-- The steps after the statement leave a world like this one behind.
abbrev Ends : {A : Type 0} → M A → World → A → Db → Type 0
Ends m w a db = (w' : World) × (m w ≡ (ok a, w')) × (w'.db ≡ db) × (w'.weather ≡ [])

send_activity-Ends :
    (kind : ActivityKind) (c a : ℕ) (w : World)
    → w.weather ≡ []
    → w.federation ≡ []
    → Ends (send_activity kind c a) w tt w.db
unfolding deliver next_outcome later_outcomes
send_activity-Ends kind c a w fair sent =
    let activity : Activity = record { kind = kind; object = about_comment c; actor_id = a } in
    subst (λ fs. Ends (send_activity kind c a) (record w { federation = fs }) tt w.db) (sym sent)
      (record w { federation = []; activities = w.activities ++ activity ∷ [] }, refl, refl, fair)

announce-Ends :
    (op : UserOperation) (res : CommentResponse) (websocket_id : Option ℕ) (w : World)
    → w.weather ≡ []
    → Ends (announce op res websocket_id) w (record res { recipient_ids = [] }) w.db
unfolding announce do_send ◌>>=◌
announce-Ends op res websocket_id w fair =
    (record w { chat = w.chat ++ sends_comment op res websocket_id ∷ [] }, refl, refl, fair)

notified_ids : String → Comment → User → Post → World → List ℕ
unfolding do_send_local_notifs
notified_ids hostname comment user post w =
    (do_send_local_notifs hostname [] comment user post false
      (record { db = w.db; emails = w.emails; recipient_ids = [] })).recipient_ids

send_local_notifs-Ends :
    (hostname : String) (comment : Comment) (user : User) (post : Post) (w : World)
    → w.weather ≡ []
    → Ends
        (send_local_notifs hostname [] comment user post false)
        w
        (notified_ids hostname comment user post w)
        w.db
unfolding send_local_notifs notified_ids next_weather later_weather
send_local_notifs-Ends hostname comment user post w fair =
    let w0 : World = record w { weather = [] } in
    subst
      (λ ws.
        Ends (send_local_notifs hostname [] comment user post false) (record w { weather = ws })
          (notified_ids hostname comment user post w) w.db)
      (sym fair)
      (
        (send_local_notifs hostname [] comment user post false w0).1,
        refl,
        (send_local_notifs-Reads hostname comment user post false w0).0,
        refl,
      )

-- What follows the statement in `delete` and `remove` goes through and answers with the view.
pub reply_passes :
    (hostname : String) (op : UserOperation) (websocket_id : Option ℕ) (kind : ActivityKind)
    (id : ℕ) (row : Comment) (user : User) (view : CommentView) (post : Post) (w : World)
    → w.weather ≡ []
    → w.federation ≡ []
    → read_view w.db id (some user.id) ≡ some view
    → read_post w.db view.post_id ≡ some post
    → (w' : World) × ((send_activity kind row.id user.id
            >> (see_comment id (some user.id) >>= λ v. get_post v.post_id >>= λ p.
                send_local_notifs hostname [] row user p false >>= λ recipient_ids.
                announce op
                  (record { comment = v; recipient_ids = recipient_ids; form_id = none })
                  websocket_id))
          w
        ≡ (ok (record { comment = view; recipient_ids = []; form_id = none }), w'))
reply_passes hostname op websocket_id kind id row user view post w fair delivers seen there =
    let (w2, sent, d2, fair2) = send_activity-Ends kind row.id user.id w fair delivers in
    let (w3, notified, d3, fair3) = send_local_notifs-Ends hostname row user post w2 fair2 in
    let ids = notified_ids hostname row user post w2 in
    let (w4, told, d4, fair4) =
      announce-Ends op (record { comment = view; recipient_ids = ids; form_id = none }) websocket_id
        w3 fair3 in
    (
      w4,
      bind_ok _ _ w w2 tt _ sent (
          bind_ok _ _ w2 w2 view _
            (see_comment_ok w2 fair2 id (some user.id) view
              (ap (λ d. read_view d id (some user.id)) d2 ∙ seen))
            (bind_ok _ _ w2 w2 post _
              (get_post_ok w2 fair2 view.post_id post
                (ap (λ d. read_post d view.post_id) d2 ∙ there))
              (bind_ok _ _ w2 w3 ids _ notified told))),
    )
