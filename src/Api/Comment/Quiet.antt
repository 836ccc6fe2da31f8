-- ===== src/Api/Comment/Quiet.antt =====
-- What comes after a change of a comment: activities, notifications and the response
-- (lemmy_api/src/comment.rs, lemmy_structs/src/lib.rs) leave the comments alone.
use lemmy.Prelude.{ok, ℕ, String, Bool, List, [], ◌∷◌, Option, ◌≡◌, refl, ap, ◌∙◌, arith}
use lemmy.Structs.{CommentResponse, UserOperation}
use lemmy.Db.Tables.{Db, User, Post, Comment}
use lemmy.Db.Reports.{create_mention}
use lemmy.Chat.Handlers.{sends_comment}
use lemmy.Api.Monad.{◌>>=◌, do_send, World}
use lemmy.Api.Notify.{
  MentionData, Notified, notify_user, notify_parent, add_mention, notify_mention, notify_mentions,
  do_send_local_notifs, others_mentioned, send_local_notifs,
}
use lemmy.Api.Comment.Write.{announce}
use lemmy.Api.Effects.{Reads, Reads-bind, Reads-pure, Reads-do_send}

pub announce-Reads :
    (op : UserOperation) (res : CommentResponse) (websocket_id : Option ℕ)
    → Reads (announce op res websocket_id)
unfolding announce
announce-Reads op res websocket_id =
    Reads-bind _ _ (Reads-do_send (sends_comment op res websocket_id))
      λ u. Reads-pure (record res { recipient_ids = [] })

pub announce-comment :
    (op : UserOperation) (res answer : CommentResponse) (websocket_id : Option ℕ) (w : World)
    → (announce op res websocket_id w).0 ≡ ok answer
    → (answer.comment ≡ res.comment) × (answer.recipient_ids ≡ [])
unfolding announce ◌>>=◌ do_send
announce-comment op res answer websocket_id w h = (cc, cc)

notify_user-db :
    (creator_id user_id : ℕ) (b : Bool) (n : Notified)
    → (notify_user creator_id user_id b n).db ≡ n.db
unfolding notify_user
notify_user-db creator_id user_id b n = ground arith

notify_parent-db :
    (comment : Comment) (user_id : ℕ) (post : Post) (b : Bool) (n : Notified)
    → (notify_parent comment user_id post b n).db ≡ n.db
unfolding notify_parent
notify_parent-db comment user_id post b n = grind (arith, notify_user-db)

-- A mention is a row of a table of its own.
create_mention-comments :
    (db : Db) (recipient_id comment_id : ℕ)
    → (add_mention db recipient_id comment_id).comments ≡ db.comments
unfolding add_mention create_mention
create_mention-comments db recipient_id comment_id = ground arith

notify_mention-comments :
    (comment : Comment) (b : Bool) (m : MentionData) (n : Notified)
    → (notify_mention comment b m n).db.comments ≡ n.db.comments
unfolding notify_mention
notify_mention-comments comment b m n = grind (arith, create_mention-comments)

notify_mentions-comments :
    (comment : Comment) (b : Bool) (ms : List MentionData) (n : Notified)
    → (notify_mentions comment b ms n).db.comments ≡ n.db.comments
unfolding notify_mentions
notify_mentions-comments comment b [] n = refl
notify_mentions-comments comment b (m ∷ ms) n =
    notify_mentions-comments comment b ms (notify_mention comment b m n)
    ∙ notify_mention-comments comment b m n

module _ (hostname : String) where
  pub send_local_notifs-Reads :
      (comment : Comment) (user : User) (post : Post) (b : Bool)
      → Reads (send_local_notifs hostname [] comment user post b)
  unfolding send_local_notifs do_send_local_notifs others_mentioned notify_mentions
  send_local_notifs-Reads comment user post b w = grind (arith, notify_parent-db)

  do_send_local_notifs-comments :
      (ms : List MentionData) (comment : Comment) (user : User) (post : Post) (b : Bool)
      (n : Notified)
      → (do_send_local_notifs hostname ms comment user post b n).db.comments ≡ n.db.comments
  unfolding do_send_local_notifs
  do_send_local_notifs-comments ms comment user post b n =
      ap (λ db. db.comments) (notify_parent-db comment user.id post b _)
      ∙ notify_mentions-comments comment b (others_mentioned hostname user.name ms) n

  pub send_local_notifs-comments :
      (ms : List MentionData) (comment : Comment) (user : User) (post : Post) (b : Bool) (w : World)
      → (send_local_notifs hostname ms comment user post b w).1.db.comments ≡ w.db.comments
  unfolding send_local_notifs
  send_local_notifs-comments ms comment user post b w = grind (arith, do_send_local_notifs-comments)
