-- ===== src/Chat/Privacy.antt =====
-- What a broadcast does not tell: the sender's vote and account, and the recipients of a reply.
use lemmy.Prelude.{
  ℕ, ◌≡◌, refl, String, Bool, true, List, [], ◌∷◌, Option, none, some, ◌⊎◌, inl, inr, ok, arith,
  All, any,
}
use lemmy.Prelude.Sets as Sets
use lemmy.Structs.{
  UserOperation, Response, comment_response, post_response, CommentResponse, PostResponse,
}
use lemmy.Chat.Server.{ChatServer, Rooms}
use lemmy.Chat.Rooms.{members}
use lemmy.Chat.Send.{
  Delivery, ◌>>◌, send_room, with_text, serialize_websocket_message, send_post_room_message,
  send_community_room_message, send_user_room_message, send_to_recipients, comment_reply_sent,
  comment_post_sent, post_sent, send_comment, send_post,
}
use lemmy.Chat.Delivery.{send_room-All, All->>, with_text-All}

-- The connection stands in the user room of one of them.
abbrev pub reaches : Rooms → List ℕ → ℕ → Bool
reaches user_rooms ids session = any (λ u. Sets.contains session (members u user_rooms)) ids

module _ (op_name : UserOperation → String) (to_json : String → Response → Option String) where
  abbrev pub IsTextOf : UserOperation → Response → String → Type 0
  IsTextOf op r text = to_json (op_name op) r ≡ some text

  serialized :
      (op : UserOperation) (r : Response) (t : String)
      → serialize_websocket_message op_name to_json op r ≡ ok t
      → IsTextOf op r t
  unfolding serialize_websocket_message
  serialized op r t e = ground arith

  -- The message is the text of a post with no vote and no account in it, which with the vote and the
  -- account of `post` is `post`.
  abbrev pub IsAnonymousPost : UserOperation → PostResponse → Delivery → Type 0
  IsAnonymousPost op post d =
      (p : PostResponse) × (p.post.my_vote ≡ none)
      × (p.post.user_id ≡ none)
      × (record p {
        post = record (p.post) { my_vote = post.post.my_vote; user_id = post.post.user_id };
      }
          ≡ post)
      × IsTextOf op (post_response p) d.message

  -- The message is the text of a comment with no vote and no account in it, which with those of `c`
  -- is `c`. It lists no recipients, or those of `c` if it goes to one of them.
  abbrev pub IsAnonymousComment : Rooms → UserOperation → CommentResponse → Delivery → Type 0
  IsAnonymousComment user_rooms op c d =
      (r : CommentResponse) × (r.comment.my_vote ≡ none)
      × (r.comment.user_id ≡ none)
      × (record r {
        comment = record (r.comment) { my_vote = c.comment.my_vote; user_id = c.comment.user_id };
        recipient_ids = c.recipient_ids;
      }
          ≡ c)
      × ((r.recipient_ids ≡ [])
          ⊎ ((r.recipient_ids ≡ c.recipient_ids)
              × (reaches user_rooms c.recipient_ids d.session ≡ true)))
      × IsTextOf op (comment_response r) d.message

  module _ (s : ChatServer) (op : UserOperation) (ws : Option ℕ) where
    -- What is sent to one room is the text of the response, to members of the room.
    to_room :
        (P : Delivery → Type 0) (r : Response) (room : ℕ) (rooms : Rooms)
        → ((t : String) (id addr : ℕ)
            → IsTextOf op r t
            → Sets.contains id (members room rooms) ≡ true
            → P (record { session = id; addr = addr; message = t }))
        → All P
            (with_text
              (serialize_websocket_message op_name to_json op r)
              (λ t. send_room s rooms room t ws)).1
    to_room P r room rooms h =
        with_text-All P _ _
          λ t e. send_room-All P s t ws room rooms λ id addr m. h t id addr (serialized op r t e) m

    -- Every message that sending a post causes is the text of that post without the sender's vote and
    -- account, and with everything else in it.
    pub send_post-IsAnonymousPost :
        (post : PostResponse)
        → All (IsAnonymousPost op post) (send_post op_name to_json s op post ws).1
    unfolding send_post send_community_room_message send_post_room_message post_sent
    send_post-IsAnonymousPost post =
        let sent = post_response (post_sent post) in
        let front = send_community_room_message op_name to_json s op sent 0 ws in
        let community =
          send_community_room_message op_name to_json s op sent post.post.community_id ws in
        let thread = send_post_room_message op_name to_json s op sent post.post.id ws in
        All->> P (front >> community) thread
          (All->> P front community (part 0 s.community_rooms)
            (part post.post.community_id s.community_rooms))
          (part post.post.id s.post_rooms)
      where
        P : Delivery → Type 0
        P = IsAnonymousPost op post

        part :
            (room : ℕ) (rooms : Rooms)
            → All P
                (with_text
                  (serialize_websocket_message op_name to_json op (post_response (post_sent post)))
                  (λ t. send_room s rooms room t ws)).1
        part room rooms =
            to_room P (post_response (post_sent post)) room rooms
              λ t id addr e m. (post_sent post, refl, refl, refl, e)

    module _ (c : CommentResponse) where
      abbrev IsPrivate : Delivery → Type 0
      IsPrivate = IsAnonymousComment s.user_rooms op c

      to_recipients :
          (ids : List ℕ)
          → ((session : ℕ)
              → reaches s.user_rooms ids session ≡ true
              → reaches s.user_rooms c.recipient_ids session ≡ true)
          → All IsPrivate
              (send_to_recipients op_name to_json s op
                (comment_response (comment_reply_sent c))
                ws
                ids).1
      unfolding send_to_recipients send_user_room_message comment_reply_sent
      to_recipients [] h = tt
      to_recipients (u ∷ us) h =
          let reply = comment_response (comment_reply_sent c) in
          All->> IsPrivate (send_user_room_message op_name to_json s op reply u ws)
            (send_to_recipients op_name to_json s op reply ws us)
            (to_room IsPrivate reply u s.user_rooms λ t id addr e m.
              (comment_reply_sent c, refl, refl, refl, inr (refl, h id (ground arith)), e))
            (to_recipients us (λ session r. h session (ground arith)))

      in_public :
          (room : ℕ) (rooms : Rooms)
          → All IsPrivate
              (with_text
                (serialize_websocket_message op_name to_json op
                  (comment_response (comment_post_sent c)))
                (λ t. send_room s rooms room t ws)).1
      unfolding comment_post_sent
      in_public room rooms =
          to_room IsPrivate (comment_response (comment_post_sent c)) room rooms
            λ t id addr e m. (comment_post_sent c, refl, refl, refl, inl refl, e)

      -- Every message that sending a comment causes is the text of that comment without the sender's
      -- vote and account, and with everything else in it but the recipients; these it lists, all of
      -- them, only in the user room of a recipient.
      pub send_comment-IsAnonymousComment :
          All (IsAnonymousComment s.user_rooms op c) (send_comment op_name to_json s op c ws).1
      unfolding send_comment send_post_room_message send_community_room_message comment_post_sent
      send_comment-IsAnonymousComment =
          let reply = comment_response (comment_reply_sent c) in
          let sent = comment_response (comment_post_sent c) in
          let thread = send_post_room_message op_name to_json s op sent c.comment.post_id ws in
          let replies = send_to_recipients op_name to_json s op reply ws c.recipient_ids in
          let front = send_community_room_message op_name to_json s op sent 0 ws in
          let community =
            send_community_room_message op_name to_json s op sent c.comment.community_id ws in
          All->> IsPrivate (thread >> replies >> front) community
            (All->> IsPrivate (thread >> replies) front
              (All->> IsPrivate thread replies (in_public c.comment.post_id s.post_rooms)
                (to_recipients c.recipient_ids (λ session r. r)))
              (in_public 0 s.community_rooms))
            (in_public c.comment.community_id s.community_rooms)
