-- ===== src/Chat/Broadcasts.antt =====
-- What the broadcasts of the chat server promise: each connection gets a message once, the one
-- that caused it does not get it, and no vote or account of the sender is in it.
use lemmy.Prelude.{
  ℕ, ◌+◌, ◌≤◌, ◌≡◌, ◌≢◌, String, List, [], ◌∷◌, Option, Result, ok, err, arith, ◌==◌, if◌then◌else◌,
  count_where-append,
}
use lemmy.Prelude.Sets as Sets
use lemmy.Structs.{
  UserOperation, Response, comment_response, post_response, CommentResponse, PostResponse,
}
use lemmy.Chat.Server.{ChatServer, Rooms}
use lemmy.Chat.Rooms.{presence, members, count-members-le}
use lemmy.Chat.Send.{
  Delivery, Sent, ◌>>◌, is_mine, with_text, serialize_websocket_message, send_post_room_message,
  send_community_room_message, send_user_room_message, send_to_recipients, comment_reply_sent,
  comment_post_sent, post_sent, send_comment, send_post,
}
use lemmy.Chat.Delivery.{received, share, received-send_room}
use lemmy.Chat.Placement.{IsPlaced}

-- Two rooms hold a connection at most as often as all rooms do.
count-two_rooms :
    (j a b : ℕ) (rooms : Rooms)
    → a ≢ b
    → Sets.count j (members a rooms) + Sets.count j (members b rooms) ≤ presence j rooms
count-two_rooms j a b [] n = omega arith
count-two_rooms j a b ((i, w) ∷ rooms) n =
    ground
      (arith, count-two_rooms j a b rooms n, count-members-le j a rooms, count-members-le j b rooms)

received->> : (j : ℕ) (m k : Sent) → received j (m >> k).1 ≤ received j m.1 + received j k.1
received->> j (ok u, out) (r, out') =
    omega (arith, count_where-append (λ d. d.session == j) out out')
received->> j (err e, out) k = omega arith

with_text-le :
    (j n : ℕ) (r : Result String) (send : String → List Delivery)
    → ((t : String) → received j (send t) ≡ n)
    → received j (with_text r send).1 ≤ n
unfolding with_text
with_text-le j n (ok t) send h = omega (arith, h t)
with_text-le j n (err e) send h = omega arith

module _ (op_name : UserOperation → String) (to_json : String → Response → Option String) where
  module _ (s : ChatServer) (op : UserOperation) where
    module _ (ws : Option ℕ) (j : ℕ) where
      post_room_share :
          (r : Response) (p : ℕ)
          → received j (send_post_room_message op_name to_json s op r p ws).1
            ≤ share s ws j (Sets.count j (members p s.post_rooms))
      unfolding send_post_room_message
      post_room_share r p =
          with_text-le j _ (serialize_websocket_message op_name to_json op r) _
            λ t. received-send_room s t ws j p s.post_rooms

      community_room_share :
          (r : Response) (c : ℕ)
          → received j (send_community_room_message op_name to_json s op r c ws).1
            ≤ share s ws j (Sets.count j (members c s.community_rooms))
      unfolding send_community_room_message
      community_room_share r c =
          with_text-le j _ (serialize_websocket_message op_name to_json op r) _
            λ t. received-send_room s t ws j c s.community_rooms

      user_room_share :
          (r : Response) (u : ℕ)
          → received j (send_user_room_message op_name to_json s op r u ws).1
            ≤ share s ws j (Sets.count j (members u s.user_rooms))
      unfolding send_user_room_message
      user_room_share r u =
          with_text-le j _ (serialize_websocket_message op_name to_json op r) _
            λ t. received-send_room s t ws j u s.user_rooms

      -- How often the connection stands in the user rooms of the recipients.
      abbrev pub addressed : List ℕ → ℕ
      addressed [] = 0
      addressed (u ∷ us) = Sets.count j (members u s.user_rooms) + addressed us

      recipients_share :
          (r : Response) (us : List ℕ)
          → received j (send_to_recipients op_name to_json s op r ws us).1
            ≤ share s ws j (addressed us)
      unfolding send_to_recipients
      recipients_share r [] = ground arith
      recipients_share r (u ∷ us) = ground (
        arith,
        user_room_share r u,
        recipients_share r us,
        received->> j (send_user_room_message op_name to_json s op r u ws)
            (send_to_recipients op_name to_json s op r ws us),
      )

    -- When a post is sent, the connection that caused it gets no message, and every other one gets at
    -- most one: that it may join a community's room and a post's room only in turn avoids doubles.
    -- The community is not the front page, whose room is 0.
    pub send_post-at-most-once :
        (post : PostResponse) (ws : Option ℕ) (j : ℕ)
        → IsPlaced s
        → post.post.community_id ≢ 0
        → received j (send_post op_name to_json s op post ws).1 ≤ (if is_mine ws j then 0 else 1)
    unfolding send_post
    send_post-at-most-once post ws j h n =
        let sent = post_response (post_sent post) in
        let front = send_community_room_message op_name to_json s op sent 0 ws in
        let community =
          send_community_room_message op_name to_json s op sent post.post.community_id ws in
        let thread = send_post_room_message op_name to_json s op sent post.post.id ws in
        ground (
          arith,
          received->> j (front >> community) thread,
          received->> j front community,
          community_room_share ws j sent 0,
          community_room_share ws j sent post.post.community_id,
          post_room_share ws j sent post.post.id,
          count-two_rooms j 0 post.post.community_id s.community_rooms,
          count-members-le j post.post.id s.post_rooms,
          h.placed j,
        )

    -- When a comment is sent, the connection that caused it gets no message; every other one gets at
    -- most one by the rooms of posts and communities, and one for each time that it stands in the
    -- user room of a recipient. The community is not the front page, whose room is 0.
    pub send_comment-at-most :
        (c : CommentResponse) (ws : Option ℕ) (j : ℕ)
        → IsPlaced s
        → c.comment.community_id ≢ 0
        → received j (send_comment op_name to_json s op c ws).1
          ≤ (if is_mine ws j then 0 else 1 + addressed ws j c.recipient_ids)
    unfolding send_comment comment_post_sent
    send_comment-at-most c ws j h n =
        let reply = comment_response (comment_reply_sent c) in
        let sent = comment_response (comment_post_sent c) in
        let thread = send_post_room_message op_name to_json s op sent c.comment.post_id ws in
        let replies = send_to_recipients op_name to_json s op reply ws c.recipient_ids in
        let front = send_community_room_message op_name to_json s op sent 0 ws in
        let community =
          send_community_room_message op_name to_json s op sent c.comment.community_id ws in
        ground (
          arith,
          received->> j (thread >> replies >> front) community,
          received->> j (thread >> replies) front,
          received->> j thread replies,
          post_room_share ws j sent c.comment.post_id,
          recipients_share ws j reply c.recipient_ids,
          community_room_share ws j sent 0,
          community_room_share ws j sent c.comment.community_id,
          count-two_rooms j 0 c.comment.community_id s.community_rooms,
          count-members-le j c.comment.post_id s.post_rooms,
          h.placed j,
        )
