-- ===== src/Chat/Placement.antt =====
-- Where connections may be: the invariant of the rooms, over all histories of messages.
use lemmy.Prelude.{ℕ, ◌+◌, ◌≤◌, String, Option, List, [], ◌∷◌, ◌++◌, arith}
use lemmy.Prelude.Maps.{IsMap, insert-IsMap, remove-IsMap}
use lemmy.Structs.{UserOperation, Response}
use lemmy.Chat.Server.{
  ChatServer, SessionInfo, CaptchaItem, startup, join_user_room, join_community_room, join_mod_room,
  join_post_room,
}
use lemmy.Chat.Rooms.{presence, presence-leave_all, leave_all-IsMap, joined-IsMap, presence-joined}
use lemmy.Chat.Handlers.{
  Message, connects, disconnects, joins_user, joins_community, joins_mod, joins_post, captcha_item,
  checks_captcha, connect, disconnect, add_captcha, check_captcha, handle, handle_all,
}

-- At most one community or post room, one moderator room and one user room for a connection.
pub record InOneRoom (s : ChatServer) (id : ℕ) : Type 0 where
  pub feed : presence id s.community_rooms + presence id s.post_rooms ≤ 1
  pub moderation : presence id s.mod_rooms ≤ 1
  pub user : presence id s.user_rooms ≤ 1

pub record HasMaps (s : ChatServer) : Type 0 where
  pub session_keys : IsMap s.sessions
  pub post_keys : IsMap s.post_rooms
  pub community_keys : IsMap s.community_rooms
  pub mod_keys : IsMap s.mod_rooms
  pub user_keys : IsMap s.user_rooms

pub record IsPlaced (s : ChatServer) : Type 0 where
  pub maps : HasMaps s
  pub placed : (id : ℕ) → InOneRoom s id

pub startup-IsPlaced : IsPlaced startup
unfolding startup
startup-IsPlaced = record {
  maps = record {
    session_keys = tt;
    post_keys = tt;
    community_keys = tt;
    mod_keys = tt;
    user_keys = tt;
  };
  placed = λ id. omega arith;
}

captchas-IsPlaced :
    (s : ChatServer)
    → IsPlaced s
    → (items : List CaptchaItem) → IsPlaced (record s { captchas = items })
captchas-IsPlaced s h items = record {
  maps = ground (arith, h.maps);
  placed = λ j. ground (arith, h.placed j);
}

module _ (s : ChatServer) (id : ℕ) (h : IsPlaced s) where
  disconnect-IsPlaced : IsPlaced (disconnect s id)
  unfolding disconnect
  disconnect-IsPlaced = record {
    maps = ground (
      arith,
      h.maps,
      remove-IsMap id s.sessions,
      leave_all-IsMap id s.post_rooms,
      leave_all-IsMap id s.community_rooms,
      leave_all-IsMap id s.user_rooms,
    );
    placed = λ j. ground (
      arith,
      h.placed j,
      presence-leave_all j id s.post_rooms,
      presence-leave_all j id s.community_rooms,
      presence-leave_all j id s.user_rooms,
    );
  }

  join_community_room-IsPlaced : (room : ℕ) → IsPlaced (join_community_room s room id).0
  unfolding join_community_room
  join_community_room-IsPlaced room = record {
    maps =
        ground
          (arith, h.maps, leave_all-IsMap id s.post_rooms, joined-IsMap room id s.community_rooms);
    placed = λ j. ground (
      arith,
      h.placed j,
      presence-joined room id s.community_rooms j,
      presence-leave_all j id s.post_rooms,
    );
  }

  join_post_room-IsPlaced : (room : ℕ) → IsPlaced (join_post_room s room id).0
  unfolding join_post_room
  join_post_room-IsPlaced room = record {
    maps =
        ground
          (arith, h.maps, leave_all-IsMap id s.community_rooms, joined-IsMap room id s.post_rooms);
    placed = λ j. ground (
      arith,
      h.placed j,
      presence-joined room id s.post_rooms j,
      presence-leave_all j id s.community_rooms,
    );
  }

  join_mod_room-IsPlaced : (room : ℕ) → IsPlaced (join_mod_room s room id).0
  unfolding join_mod_room
  join_mod_room-IsPlaced room = record {
    maps = ground (arith, h.maps, joined-IsMap room id s.mod_rooms);
    placed = λ j. ground (arith, h.placed j, presence-joined room id s.mod_rooms j);
  }

  join_user_room-IsPlaced : (room : ℕ) → IsPlaced (join_user_room s room id).0
  unfolding join_user_room
  join_user_room-IsPlaced room = record {
    maps = ground (arith, h.maps, joined-IsMap room id s.user_rooms);
    placed = λ j. ground (arith, h.placed j, presence-joined room id s.user_rooms j);
  }

  connect-IsPlaced : (info : SessionInfo) → IsPlaced (connect s id info).0
  unfolding connect
  connect-IsPlaced info = record {
    maps = ground (arith, h.maps, insert-IsMap id info s.sessions);
    placed = λ j. ground (arith, h.placed j);
  }

module _ (op_name : UserOperation → String) (to_json : String → Response → Option String) where
  -- One message keeps every connection in at most one room of each kind.
  pub handle-IsPlaced :
      (s : ChatServer) (m : Message) → IsPlaced s → IsPlaced (handle op_name to_json s m).0
  unfolding handle add_captcha check_captcha
  handle-IsPlaced s (connects id info) h = connect-IsPlaced s id h info
  handle-IsPlaced s (disconnects id) h = disconnect-IsPlaced s id h
  handle-IsPlaced s (joins_user room id) h = join_user_room-IsPlaced s id h room
  handle-IsPlaced s (joins_community room id) h = join_community_room-IsPlaced s id h room
  handle-IsPlaced s (joins_mod room id) h = join_mod_room-IsPlaced s id h room
  handle-IsPlaced s (joins_post room id) h = join_post_room-IsPlaced s id h room
  handle-IsPlaced s (captcha_item item) h = captchas-IsPlaced s h (s.captchas ++ item ∷ [])
  handle-IsPlaced s (checks_captcha clock uuid answer) h = captchas-IsPlaced s h _
  handle-IsPlaced s m h = h

  handle_all-IsPlaced :
      (s : ChatServer) (ms : List Message) → IsPlaced s → IsPlaced (handle_all op_name to_json s ms)
  unfolding handle_all
  handle_all-IsPlaced s [] h = h
  handle_all-IsPlaced s (m ∷ ms) h =
      handle_all-IsPlaced (handle op_name to_json s m).0 ms (handle-IsPlaced s m h)

  -- After any history of messages a connection is in at most one community or post room, in at most
  -- one moderator room and in at most one user room, and no map lists a key twice.
  pub startup-handle_all-IsPlaced :
      (ms : List Message) → IsPlaced (handle_all op_name to_json startup ms)
  startup-handle_all-IsPlaced ms = handle_all-IsPlaced startup ms startup-IsPlaced
