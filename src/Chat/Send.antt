-- ===== src/Chat/Send.antt =====
-- What `ChatServer` sends (lemmy_websocket/src/chat_server.rs), with the serializer of
-- lemmy_websocket/src/lib.rs.
use lemmy.Prelude.{
  ℕ, String, Bool, false, List, [], ◌∷◌, ◌++◌, Option, none, some, Result, ok, err, internal,
  or_err, ◌==◌, if◌then◌else◌,
}
use lemmy.Prelude.Maps.{get, keys}
use lemmy.Structs.{
  UserOperation, Response, comment_response, post_response, CommentResponse, PostResponse,
}
use lemmy.Chat.Server.{ChatServer, Rooms}

-- A `WSMessage` handed to the recipient of a session.
pub record Delivery : Type 0 where
  pub session : ℕ
  pub addr : ℕ
  pub message : String

-- A result, and what was sent before it came.
abbrev pub Sent : Type 0
Sent = Result (Unit {0}) × List Delivery

-- `first?; second`
infixl 5 ◌>>◌
abbrev pub ◌>>◌ : Sent → Sent → Sent
(ok _, out) >> (r, out') = (r, out ++ out')
(err e, out) >> _ = (err e, out)

-- `if let Some(my_id) = websocket_id { if *id == my_id { continue; } }`
abbrev pub is_mine : Option ℕ → ℕ → Bool
is_mine none id = false
is_mine (some my_id) id = id == my_id

unfoldable pub sendit : ChatServer → String → ℕ → List Delivery
sendit s message id = elim (get id s.sessions) [
  | none ↦ []
  | some info ↦ record { session = id; addr = info.addr; message = message } ∷ []
]

-- The loop over the connections of a room.
unfoldable pub send_each : ChatServer → String → Option ℕ → List ℕ → List Delivery
unfolding sendit
send_each s message websocket_id [] = []
send_each s message websocket_id (id ∷ ids) =
    (if is_mine websocket_id id then [] else sendit s message id)
    ++ send_each s message websocket_id ids

-- `if let Some(sessions) = rooms.get(&room) { for id in sessions { … } }`
unfoldable pub send_room : ChatServer → Rooms → ℕ → String → Option ℕ → List Delivery
unfolding send_each
send_room s rooms room message websocket_id = elim (get room rooms) [
  | none ↦ []
  | some sessions ↦ send_each s message websocket_id sessions
]

-- `let res_str = …?;` and what is sent with it.
unfoldable pub with_text : Result String → (String → List Delivery) → Sent
with_text (ok text) send = (ok tt, send text)
with_text (err e) send = (err e, [])

unfoldable pub comment_reply_sent : CommentResponse → CommentResponse
comment_reply_sent c = record c { comment = record (c.comment) { my_vote = none; user_id = none } }

unfoldable pub comment_post_sent : CommentResponse → CommentResponse
unfolding comment_reply_sent
comment_post_sent c = record (comment_reply_sent c) { recipient_ids = [] }

unfoldable pub post_sent : PostResponse → PostResponse
post_sent p = record p { post = record (p.post) { my_vote = none; user_id = none } }

-- `op_name` is the `to_string` that strum derives, `to_json` is `serde_json::to_string` of the
-- operation's name beside the response.
module _ (op_name : UserOperation → String) (to_json : String → Response → Option String) where
  unfoldable pub serialize_websocket_message : UserOperation → Response → Result String
  serialize_websocket_message op response = or_err (to_json (op_name op) response) internal

  module _ (s : ChatServer) (op : UserOperation) where
    unfoldable pub send_post_room_message : Response → ℕ → Option ℕ → Sent
    unfolding serialize_websocket_message with_text send_room
    send_post_room_message response post_id websocket_id =
        with_text (serialize_websocket_message op response)
          λ text. send_room s s.post_rooms post_id text websocket_id

    unfoldable pub send_community_room_message : Response → ℕ → Option ℕ → Sent
    unfolding serialize_websocket_message with_text send_room
    send_community_room_message response community_id websocket_id =
        with_text (serialize_websocket_message op response)
          λ text. send_room s s.community_rooms community_id text websocket_id

    unfoldable pub send_mod_room_message : Response → ℕ → Option ℕ → Sent
    unfolding serialize_websocket_message with_text send_room
    send_mod_room_message response community_id websocket_id =
        with_text (serialize_websocket_message op response)
          λ text. send_room s s.mod_rooms community_id text websocket_id

    unfoldable pub send_user_room_message : Response → ℕ → Option ℕ → Sent
    unfolding serialize_websocket_message with_text send_room
    send_user_room_message response recipient_id websocket_id =
        with_text (serialize_websocket_message op response)
          λ text. send_room s s.user_rooms recipient_id text websocket_id

    unfoldable pub send_all_message : Response → Option ℕ → Sent
    unfolding serialize_websocket_message with_text send_each
    send_all_message response websocket_id =
        with_text (serialize_websocket_message op response)
          λ text. send_each s text websocket_id (keys s.sessions)

    -- The loop over the recipients of a comment.
    unfoldable pub send_to_recipients : Response → Option ℕ → List ℕ → Sent
    send_to_recipients response websocket_id [] = (ok tt, [])
    send_to_recipients response websocket_id (recipient_id ∷ ids) =
        send_user_room_message response recipient_id websocket_id
        >> send_to_recipients response websocket_id ids

    unfoldable pub send_comment : CommentResponse → Option ℕ → Sent
    send_comment comment websocket_id =
        let reply = comment_response (comment_reply_sent comment) in
        let post = comment_response (comment_post_sent comment) in
        send_post_room_message post (comment_post_sent comment).comment.post_id websocket_id
        >> send_to_recipients reply websocket_id (comment_reply_sent comment).recipient_ids
        >> send_community_room_message post 0 websocket_id
        >> send_community_room_message post comment.comment.community_id websocket_id

    unfoldable pub send_post : PostResponse → Option ℕ → Sent
    send_post post websocket_id =
        let sent = post_response (post_sent post) in
        send_community_room_message sent 0 websocket_id
        >> send_community_room_message sent post.post.community_id websocket_id
        >> send_post_room_message sent post.post.id websocket_id
