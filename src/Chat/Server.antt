-- ===== src/Chat/Server.antt =====
-- The state of `ChatServer` and its joins (lemmy_websocket/src/chat_server.rs).
-- Handles that the server only passes on (`pool`, `client`, `activity_queue`, `message_handler`)
-- and the random generator are not part of the state: what they return is an argument of the
-- operations that use them.
use lemmy.Prelude.{
  ℕ, String, List, [], none, some, Result, ok, err, internal, is_some, if◌then◌else◌,
}
use lemmy.Prelude.Maps.{Map, get, insert, map_values}
use lemmy.Prelude.Sets as Sets

-- `addr` is the recipient that the session's messages are sent to.
pub record SessionInfo : Type 0 where
  pub addr : ℕ
  pub ip : String

pub record CaptchaItem : Type 0 where
  pub uuid : String
  pub answer : String
  pub expires : ℕ

-- A map from a post, a community or a user to a set of connections.
abbrev pub Rooms : Type 0
Rooms = Map (List ℕ)

pub record ChatServer : Type 0 where
  pub sessions : Map SessionInfo
  pub post_rooms : Rooms
  pub community_rooms : Rooms
  pub mod_rooms : Rooms
  pub user_rooms : Rooms
  pub captchas : List CaptchaItem

unfoldable pub startup : ChatServer
startup = record {
  sessions = [];
  post_rooms = [];
  community_rooms = [];
  mod_rooms = [];
  user_rooms = [];
  captchas = [];
}

-- `for sessions in rooms.values_mut() { sessions.remove(&id); }`
unfoldable pub leave_all : ℕ → Rooms → Rooms
leave_all id rooms = map_values (Sets.remove id) rooms

-- `if rooms.get_mut(&room).is_none() { rooms.insert(room, HashSet::new()); }`
unfoldable pub open_room : ℕ → Rooms → Rooms
open_room room rooms = if is_some (get room rooms) then rooms else insert room [] rooms

-- `rooms.get_mut(&room).context(…)?.insert(id)`
unfoldable pub enter_room : ℕ → ℕ → Rooms → Result Rooms
enter_room room id rooms = elim (get room rooms) [
  | none ↦ err internal
  | some sessions ↦ ok (insert room (Sets.insert id sessions) rooms)
]

-- What a join leaves behind: the rooms after `enter_room`, or as they were if that failed.
unfoldable pub entered : Rooms → Result Rooms → Rooms
entered before (ok rooms) = rooms
entered before (err e) = before

unfoldable pub outcome : Result Rooms → Result (Unit {0})
outcome (ok rooms) = ok tt
outcome (err e) = err e

module _ (s : ChatServer) (room id : ℕ) where
  unfoldable pub join_community_room : ChatServer × Result (Unit {0})
  unfolding leave_all open_room enter_room entered outcome
  join_community_room =
      let rooms = open_room room (leave_all id s.community_rooms) in
      let r = enter_room room id rooms in
      (
        record s { community_rooms = entered rooms r; post_rooms = leave_all id s.post_rooms },
        outcome r,
      )

  unfoldable pub join_mod_room : ChatServer × Result (Unit {0})
  unfolding leave_all open_room enter_room entered outcome
  join_mod_room =
      let rooms = open_room room (leave_all id s.mod_rooms) in
      let r = enter_room room id rooms in (record s { mod_rooms = entered rooms r }, outcome r)

  unfoldable pub join_post_room : ChatServer × Result (Unit {0})
  unfolding leave_all open_room enter_room entered outcome
  join_post_room =
      let rooms = open_room room (leave_all id s.post_rooms) in
      let r = enter_room room id rooms in
      (
        record s { post_rooms = entered rooms r; community_rooms = leave_all id s.community_rooms },
        outcome r,
      )

  unfoldable pub join_user_room : ChatServer × Result (Unit {0})
  unfolding leave_all open_room enter_room entered outcome
  join_user_room =
      let rooms = open_room room (leave_all id s.user_rooms) in
      let r = enter_room room id rooms in (record s { user_rooms = entered rooms r }, outcome r)
