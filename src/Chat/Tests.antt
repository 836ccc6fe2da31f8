-- ===== src/Chat/Tests.antt =====
-- Runs of the chat server on small inputs, and its theorems at such inputs.
use lemmy.Prelude.{
  ℕ, ◌+◌, ◌-◌, ◌≤◌, ◌≡◌, refl, String, true, false, [], ◌∷◌, Elem, Option, none, some, ok, arith,
  All, here, inl,
}
use lemmy.Prelude.Int.{pos}
use lemmy.Prelude.Maps.{get}
use lemmy.Prelude.Sets as Sets
use lemmy.Structs.{
  UserOperation, create_post, create_comment, Response, other_response, CommentResponse,
  PostResponse,
}
use lemmy.Chat.Server.{ChatServer, SessionInfo, CaptchaItem, startup, join_community_room}
use lemmy.Chat.Rooms.{members}
use lemmy.Chat.Send.{
  send_post, send_comment, send_user_room_message, serialize_websocket_message,
  send_community_room_message, send_post_room_message, post_sent,
}
use lemmy.Chat.Handlers.{
  connects, disconnects, joins_community, joins_post, disconnect, check_captcha, handle_all,
}
use lemmy.Chat.Placement.{IsPlaced, startup-handle_all-IsPlaced}
use lemmy.Chat.Delivery.{received}
use lemmy.Chat.Broadcasts.{send_post-at-most-once, send_comment-at-most}
use lemmy.Chat.Privacy.{
  IsAnonymousPost, IsAnonymousComment, send_post-IsAnonymousPost, send_comment-IsAnonymousComment,
}
use lemmy.Chat.Exactness.{ReachesExactly, messages-ReachesExactly}
use lemmy.Chat.Seats.{Represents, seat_all, no_seats}
use lemmy.Chat.Refinement.{startup-handle_all-Represents}
use lemmy.Chat.Joins.{join_feed_lem, disconnect_lem, disconnect-mod_rooms}
use lemmy.RateLimit.Whole.{whole, too_many, empty, limits, readings}
use lemmy.RateLimit.Limiter.{message}
use lemmy.Chat.Standard.{StandardMessage, Envelope, parse_json_message}
use lemmy.Chat.Isolation.{Spares, parse_json_message-Spares}
use lemmy.Chat.Captcha.{IsGood, check_captcha_twice, check_captcha-IsGood, check_captcha_passes}

abbrev op_name : UserOperation → String
op_name op = "CreatePost"

abbrev to_json : String → Response → Option String
to_json name r = some name

abbrev session : ℕ → SessionInfo
session n = record { addr = n; ip = "10.0.0.1" }

abbrev first_captcha : CaptchaItem
first_captcha = record { uuid = "a"; answer = "xyz"; expires = 100 }

-- Connection 1 reads post 5, connection 2 the front page and its own inbox, connection 3 moderates
-- community 7.
abbrev demo : ChatServer
demo = record {
  sessions = (1, session 11) ∷ (2, session 12) ∷ (3, session 13) ∷ [];
  post_rooms = (5, 1 ∷ []) ∷ [];
  community_rooms = (0, 2 ∷ []) ∷ (7, 3 ∷ []) ∷ [];
  mod_rooms = (7, 3 ∷ []) ∷ [];
  user_rooms = (20, 2 ∷ []) ∷ [];
  captchas = first_captcha ∷ [];
}

demo-IsPlaced : IsPlaced demo
demo-IsPlaced = record { maps = ground arith; placed = λ id. ground arith }

abbrev post : PostResponse
post = record {
  post = record {
    id = 5;
    name = "a post";
    url = none;
    body = none;
    creator_id = 20;
    community_id = 7;
    removed = false;
    locked = false;
    deleted = false;
    nsfw = false;
    stickied = false;
    user_id = some 20;
    my_vote = some (pos 1);
    saved = none;
  };
}

abbrev reply : CommentResponse
reply = record {
  comment = record {
    id = 9;
    creator_id = 21;
    post_id = 5;
    parent_id = none;
    content = "a reply";
    removed = false;
    read = false;
    deleted = false;
    community_id = 7;
    user_id = some 21;
    my_vote = some (pos 1);
    saved = none;
  };
  recipient_ids = 20 ∷ [];
  form_id = none;
}

-- Sent by connection 1, the post reaches the front page and its community.
send_post_run :
    (send_post op_name to_json demo create_post post (some 1)).1
    ≡ record { session = 2; addr = 12; message = "CreatePost" }
      ∷ record { session = 3; addr = 13; message = "CreatePost" }
      ∷ []
unfolding send_post send_community_room_message send_post_room_message post_sent
send_post_run = refl

startup-handle_all-IsPlaced_example : IsPlaced (
    handle_all op_name to_json startup
      (connects 4 (session 14) ∷ joins_community 7 4 ∷ joins_post 5 4 ∷ disconnects 4 ∷ []))
startup-handle_all-IsPlaced_example =
    startup-handle_all-IsPlaced op_name to_json
      (connects 4 (session 14) ∷ joins_community 7 4 ∷ joins_post 5 4 ∷ disconnects 4 ∷ [])

send_post-at-most-once_example :
    received 3 (send_post op_name to_json demo create_post post (some 1)).1 ≤ 1
send_post-at-most-once_example =
    send_post-at-most-once op_name to_json demo create_post post (some 1) 3 demo-IsPlaced
      (omega arith)

send_comment-at-most_example :
    received 2 (send_comment op_name to_json demo create_comment reply (some 1)).1 ≤ 2
send_comment-at-most_example =
    send_comment-at-most op_name to_json demo create_comment reply (some 1) 2 demo-IsPlaced
      (omega arith)

send_post-IsAnonymousPost_example :
    All
      (IsAnonymousPost op_name to_json create_post post)
      (send_post op_name to_json demo create_post post none).1
send_post-IsAnonymousPost_example =
    send_post-IsAnonymousPost op_name to_json demo create_post none post

send_comment-IsAnonymousComment_example :
    All
      (IsAnonymousComment op_name to_json demo.user_rooms create_comment reply)
      (send_comment op_name to_json demo create_comment reply none).1
send_comment-IsAnonymousComment_example =
    send_comment-IsAnonymousComment op_name to_json demo create_comment none reply

messages-ReachesExactly_example :
    ReachesExactly demo none "CreatePost"
      (λ j. Sets.contains j (2 ∷ []))
      (send_user_room_message op_name to_json demo create_post (other_response "mail") 20 none).1
unfolding serialize_websocket_message
messages-ReachesExactly_example =
    ((messages-ReachesExactly op_name to_json demo create_post (other_response "mail") none
        demo-IsPlaced 7 20).1
      "CreatePost" refl).2.1

join_feed_lem_example : (join_community_room demo 7 1).1 ≡ ok tt
join_feed_lem_example = (join_feed_lem demo 7 1).0.0

startup-handle_all-Represents_example :
    Represents
      (handle_all op_name to_json startup (connects 4 (session 14) ∷ joins_post 5 4 ∷ []))
      (seat_all (connects 4 (session 14) ∷ joins_post 5 4 ∷ []) no_seats)
startup-handle_all-Represents_example =
    startup-handle_all-Represents op_name to_json (connects 4 (session 14) ∷ joins_post 5 4 ∷ [])

disconnect_lem_example : get 3 (disconnect demo 3).sessions ≡ none
disconnect_lem_example = (disconnect_lem demo 3 demo-IsPlaced refl).0

disconnect-mod_rooms_example :
    (get 3 (disconnect demo 3).sessions ≡ none)
    × (Sets.contains 3 (members 7 (disconnect demo 3).mod_rooms) ≡ true)
disconnect-mod_rooms_example = disconnect-mod_rooms demo 3 7 demo-IsPlaced refl

check_captcha_twice_example :
    (check_captcha (check_captcha demo (λ i. 10) "a" "xyz").0 (λ i. 11) "a" "xyz").1 ≡ false
check_captcha_twice_example = check_captcha_twice demo (λ i. 10) (λ i. 11) "a" "xyz" "xyz"

check_captcha-IsGood_example :
    (x : CaptchaItem) × Elem x demo.captchas × IsGood (λ i. 10) "a" "xyz" x
unfolding check_captcha
check_captcha-IsGood_example = check_captcha-IsGood demo (λ i. 10) "a" "xyz" refl

check_captcha_passes_example : (check_captcha demo (λ i. 10 + i - i) "a" "xyz").1 ≡ true
check_captcha_passes_example =
    check_captcha_passes demo (λ i. 10 + i - i) first_captcha here (λ i. omega arith)

-- Connection 1 creates a post.
abbrev posting : StandardMessage
posting = record { id = 1; msg = "post" }

abbrev envelope : Envelope
envelope = record { data_text = "{}"; op_text = some "CreatePost" }

parse_json_message-Spares_example :
    Spares message "10.0.0.1" empty
      (parse_json_message whole too_many limits
        (λ msg. some envelope)
        (λ op. some create_post)
        (λ id op content l. (l, ok "done"))
        demo
        posting
        readings
        empty).0
parse_json_message-Spares_example =
    parse_json_message-Spares whole too_many limits (λ msg. some envelope) (λ op. some create_post)
      (λ id op content l. (l, ok "done")) demo posting readings empty (session 11) envelope
      "CreatePost" create_post message "10.0.0.1" refl refl refl refl (λ same. refl) (λ k. inl refl)
