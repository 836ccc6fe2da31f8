-- ===== src/Api/Notify.antt =====
-- Notifications of a comment's recipients (`send_local_notifs` of lemmy_structs/src/lib.rs).
use lemmy.Prelude.{
  ℕ, String, Bool, false, ◌&&◌, not, List, [], ◌∷◌, ◌++◌, none, some, Result, ok, err, internal,
  retain, str_eq, ◌==◌, if◌then◌else◌,
}
use lemmy.Db.Tables.{Db, User, Post, Comment, read_user}
use lemmy.Db.Comment.{read_comment}
use lemmy.Db.Access.{read_from_name}
use lemmy.Db.Reports.{create_mention}
use lemmy.Api.Monad.{M, World, Email, fine, no_connection, refused, next_weather, later_weather}

pub record MentionData : Type 0 where
  pub name : String
  pub domain : String

-- The tables and the mails so far, and the recipients found so far.
pub record Notified : Type 0 where
  pub db : Db
  pub emails : List Email
  pub recipient_ids : List ℕ

-- `send_email_to_user`: no mail to who is banned or has no address.
unfoldable pub send_email_to_user : User → String → List Email → List Email
send_email_to_user user subject emails = if user.banned then emails else elim user.email [
  | none ↦ emails
  | some address ↦ emails ++ record { recipient_id = user.id; subject = subject } ∷ []
]

unfoldable pub email_if : Bool → User → String → List Email → List Email
unfolding send_email_to_user
email_if do_send_email user subject emails =
    if do_send_email && user.send_notifications_to_email
    then send_email_to_user user subject emails
    else emails

-- `UserMention::create`, whose error is only logged.
unfoldable pub add_mention : Db → ℕ → ℕ → Db
unfolding create_mention
add_mention db recipient_id comment_id =
    elim (create_mention
      (record { recipient_id = recipient_id; comment_id = comment_id; read = false }) db) [
        | none ↦ db
        | some (m, db') ↦ db'
      ]

-- One local mention of another user.
unfoldable pub notify_mention : Comment → Bool → MentionData → Notified → Notified
unfolding add_mention email_if read_from_name
notify_mention comment do_send_email mention n = elim (read_from_name n.db mention.name) [
  | none ↦ n
  | some u ↦ record {
    db = add_mention n.db u.id comment.id;
    emails = email_if do_send_email u "Mentioned by" n.emails;
    recipient_ids = n.recipient_ids ++ u.id ∷ [];
  }
]

unfoldable pub notify_mentions : Comment → Bool → List MentionData → Notified → Notified
unfolding notify_mention
notify_mentions comment do_send_email [] n = n
notify_mentions comment do_send_email (m ∷ ms) n =
    notify_mentions comment do_send_email ms (notify_mention comment do_send_email m n)

-- The creator of the parent comment, or of the post, unless it is the user.
unfoldable pub notify_user : ℕ → ℕ → Bool → Notified → Notified
unfolding email_if read_user
notify_user creator_id user_id do_send_email n =
    if creator_id == user_id then n else elim (read_user n.db creator_id) [
      | none ↦ n
      | some u ↦ record n {
        emails = email_if do_send_email u "Reply from" n.emails;
        recipient_ids = n.recipient_ids ++ u.id ∷ [];
      }
    ]

unfoldable pub notify_parent : Comment → ℕ → Post → Bool → Notified → Notified
unfolding notify_user read_comment
notify_parent comment user_id post do_send_email n = elim comment.parent_id [
  | none ↦ notify_user post.creator_id user_id do_send_email n
  | some parent_id ↦ elim (read_comment n.db parent_id) [
    | none ↦ n
    | some parent ↦ notify_user parent.creator_id user_id do_send_email n
  ]
]

module _ (hostname : String) where
  unfoldable pub others_mentioned : String → List MentionData → List MentionData
  others_mentioned user_name mentions =
      retain (λ m. str_eq hostname m.domain && not (str_eq m.name user_name)) mentions

  unfoldable pub do_send_local_notifs :
      List MentionData → Comment → User → Post → Bool → Notified → Notified
  unfolding others_mentioned notify_mentions notify_parent
  do_send_local_notifs mentions comment user post do_send_email n =
      notify_parent comment user.id post do_send_email
        (notify_mentions comment do_send_email (others_mentioned user.name mentions) n)

  abbrev pub notified : Notified → World → Result (List ℕ) × World
  notified n w = (ok n.recipient_ids, record w { db = n.db; emails = n.emails })

  -- The queries inside meet the same weather as the call: refused, they find nobody.
  unfoldable pub send_local_notifs : List MentionData → Comment → User → Post → Bool → M (List ℕ)
  unfolding do_send_local_notifs next_weather later_weather
  send_local_notifs mentions comment user post do_send_email w =
      let w' = record w { weather = later_weather w.weather } in
      let start : Notified = record { db = w.db; emails = w.emails; recipient_ids = [] } in
      elim (next_weather w.weather) [
        | fine ↦ notified (do_send_local_notifs mentions comment user post do_send_email start) w'
        | no_connection ↦ (err internal, w')
        | refused ↦ (ok [], w')
      ]
