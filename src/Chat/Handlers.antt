-- ===== src/Chat/Handlers.antt =====
-- The actor's handlers (lemmy_websocket/src/handlers.rs) and their messages
-- (lemmy_websocket/src/messages.rs).
use lemmy.Prelude.{
  ℕ, suc, String, Bool, ◌&&◌, not, List, [], ◌∷◌, ◌++◌, Option, none, some, length, retain, any,
  ltb, str_eq, is_some, if◌then◌else◌,
}
use lemmy.Prelude.Maps.{get, insert, remove}
use lemmy.Structs.{UserOperation, Response, CommentResponse, PostResponse}
use lemmy.Chat.Server.{
  ChatServer, SessionInfo, CaptchaItem, leave_all, join_user_room, join_community_room,
  join_mod_room, join_post_room,
}
use lemmy.Chat.Send.{
  Delivery, send_all_message, send_user_room_message, send_community_room_message,
  send_mod_room_message, send_post, send_comment,
}

-- `generated` is the number that the random generator returned.
unfoldable pub connect : ChatServer → ℕ → SessionInfo → ChatServer × ℕ
connect s generated info = (record s { sessions = insert generated info s.sessions }, generated)

unfoldable pub disconnect : ChatServer → ℕ → ChatServer
unfolding leave_all
disconnect s id =
    if is_some (get id s.sessions)
    then record s {
      sessions = remove id s.sessions;
      user_rooms = leave_all id s.user_rooms;
      post_rooms = leave_all id s.post_rooms;
      community_rooms = leave_all id s.community_rooms;
    }
    else s

unfoldable pub users_online : ChatServer → ℕ
users_online s = length s.sessions

unfoldable pub post_users_online : ChatServer → ℕ → ℕ
post_users_online s post_id = elim (get post_id s.post_rooms) [
  | none ↦ 0
  | some users ↦ length users
]

unfoldable pub community_users_online : ChatServer → ℕ → ℕ
community_users_online s community_id = elim (get community_id s.community_rooms) [
  | none ↦ 0
  | some users ↦ length users
]

unfoldable pub add_captcha : ChatServer → CaptchaItem → ChatServer
add_captcha s item = record s { captchas = s.captchas ++ item ∷ [] }

-- `retain(|x| x.expires.gt(&naive_now()))`: the clock is read once for each item, and `clock i` is
-- its reading number `i`.
unfoldable pub retain_unexpired : (ℕ → ℕ) → ℕ → List CaptchaItem → List CaptchaItem
retain_unexpired clock i [] = []
retain_unexpired clock i (x ∷ xs) =
    let rest = retain_unexpired clock (suc i) xs in
    if ltb (clock i) x.expires then x ∷ rest else rest

unfoldable pub answered : String → String → CaptchaItem → Bool
answered uuid answer r = str_eq r.uuid uuid && str_eq r.answer answer

unfoldable pub without_uuid : String → List CaptchaItem → List CaptchaItem
without_uuid uuid items = retain (λ x. not (str_eq x.uuid uuid)) items

unfoldable pub check_captcha : ChatServer → (ℕ → ℕ) → String → String → ChatServer × Bool
unfolding retain_unexpired answered without_uuid
check_captcha s clock uuid answer =
    let live = retain_unexpired clock 0 s.captchas in
    let check = any (answered uuid answer) live in
    (record s { captchas = without_uuid uuid live }, check)

-- The messages of the actor, `StandardMessage` aside, which leaves its state alone.
pub data Message : Type 0 where
  connects : ℕ → SessionInfo → Message
  disconnects : ℕ → Message
  send_all : UserOperation → Response → Option ℕ → Message
  send_user_room : UserOperation → Response → ℕ → Option ℕ → Message
  send_community_room : UserOperation → Response → ℕ → Option ℕ → Message
  send_mod_room : UserOperation → Response → ℕ → Option ℕ → Message
  sends_post : UserOperation → PostResponse → Option ℕ → Message
  sends_comment : UserOperation → CommentResponse → Option ℕ → Message
  joins_user joins_community joins_mod joins_post : ℕ → ℕ → Message
  get_users_online : Message
  get_post_users_online get_community_users_online : ℕ → Message
  captcha_item : CaptchaItem → Message
  checks_captcha : (ℕ → ℕ) → String → String → Message

-- A message handled: the new state and what was sent. The replies are those of the handlers above.
module _ (op_name : UserOperation → String) (to_json : String → Response → Option String) where
  unfoldable pub handle : ChatServer → Message → ChatServer × List Delivery
  handle s (connects generated info) = ((connect s generated info).0, [])
  handle s (disconnects id) = (disconnect s id, [])
  handle s (send_all op response ws) = (s, (send_all_message op_name to_json s op response ws).1)
  handle s (send_user_room op response id ws) =
      (s, (send_user_room_message op_name to_json s op response id ws).1)
  handle s (send_community_room op response id ws) =
      (s, (send_community_room_message op_name to_json s op response id ws).1)
  handle s (send_mod_room op response id ws) =
      (s, (send_mod_room_message op_name to_json s op response id ws).1)
  handle s (sends_post op post ws) = (s, (send_post op_name to_json s op post ws).1)
  handle s (sends_comment op comment ws) = (s, (send_comment op_name to_json s op comment ws).1)
  handle s (joins_user user_id id) = ((join_user_room s user_id id).0, [])
  handle s (joins_community community_id id) = ((join_community_room s community_id id).0, [])
  handle s (joins_mod community_id id) = ((join_mod_room s community_id id).0, [])
  handle s (joins_post post_id id) = ((join_post_room s post_id id).0, [])
  handle s get_users_online = (s, [])
  handle s (get_post_users_online post_id) = (s, [])
  handle s (get_community_users_online community_id) = (s, [])
  handle s (captcha_item item) = (add_captcha s item, [])
  handle s (checks_captcha clock uuid answer) = ((check_captcha s clock uuid answer).0, [])

  -- The mailbox is worked off in order.
  unfoldable pub handle_all : ChatServer → List Message → ChatServer
  unfolding handle
  handle_all s [] = s
  handle_all s (m ∷ ms) = handle_all (handle s m).0 ms
