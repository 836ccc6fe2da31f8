-- ===== src/Chat/Joins.antt =====
-- What the joins and a disconnect do to the rooms, on every branch.
use lemmy.Prelude.{ℕ, ◌≡◌, refl, ◌≢◌, true, false, none, ok, arith, ◌==◌, is_some, if◌then◌else◌}
use lemmy.Prelude.Maps.{get, get-remove_self, get-remove_ne}
use lemmy.Prelude.Sets as Sets
use lemmy.Chat.Server.{ChatServer, Rooms, leave_all, join_community_room, join_post_room}
use lemmy.Chat.Rooms.{presence, members, joined, presence-leave_all, presence-joined, outcome-join}
use lemmy.Chat.Seats.{members-leave_all, members-joined}
use lemmy.Chat.Handlers.{disconnect}
use lemmy.Chat.Placement.{IsPlaced}

-- The connection is in this room of `after` and in no other; every other connection is in the rooms
-- in which it was. No connection is listed more often than that.
abbrev pub MovedTo : ℕ → ℕ → Rooms → Rooms → Type 0
MovedTo room id before after =
    ((k j : ℕ)
      → Sets.contains j (members k after)
        ≡ (if j == id then k == room else Sets.contains j (members k before)))
    × ((j : ℕ) → presence j after ≡ (if j == id then 1 else presence j before))

-- The connection is in no room of `after`; every other connection is in the rooms in which it was.
abbrev pub LeftAll : ℕ → Rooms → Rooms → Type 0
LeftAll id before after =
    ((k j : ℕ)
      → Sets.contains j (members k after)
        ≡ (if j == id then false else Sets.contains j (members k before)))
    × ((j : ℕ) → presence j after ≡ (if j == id then 0 else presence j before))

left-LeftAll : (id : ℕ) (rooms : Rooms) → LeftAll id rooms (leave_all id rooms)
left-LeftAll id rooms = (λ k j. members-leave_all k j id rooms, λ j. presence-leave_all j id rooms)

joined-MovedTo : (room id : ℕ) (rooms : Rooms) → MovedTo room id rooms (joined room id rooms)
joined-MovedTo room id rooms =
    (λ k j. members-joined k room j id rooms, presence-joined room id rooms)

module _ (s : ChatServer) (room id : ℕ) where
  -- Joining a community's room succeeds: the connection is then in that room and in no other
  -- community room, and in no post room; nothing else changes.
  join_community_room_lem :
      let (s', r) = join_community_room s room id in
      (r ≡ ok tt)
      × MovedTo room id s.community_rooms s'.community_rooms
      × LeftAll id s.post_rooms s'.post_rooms
      × (s'.mod_rooms ≡ s.mod_rooms)
      × (s'.user_rooms ≡ s.user_rooms)
      × (s'.sessions ≡ s.sessions)
      × (s'.captchas ≡ s.captchas)
  unfolding join_community_room
  join_community_room_lem = (
    outcome-join room id s.community_rooms,
    joined-MovedTo room id s.community_rooms,
    left-LeftAll id s.post_rooms,
    refl,
    refl,
    refl,
    refl,
  )

  -- Joining a post's room succeeds: the connection is then in that room and in no other post room,
  -- and in no community room; nothing else changes.
  join_post_room_lem :
      let (s', r) = join_post_room s room id in
      (r ≡ ok tt)
      × MovedTo room id s.post_rooms s'.post_rooms
      × LeftAll id s.community_rooms s'.community_rooms
      × (s'.mod_rooms ≡ s.mod_rooms)
      × (s'.user_rooms ≡ s.user_rooms)
      × (s'.sessions ≡ s.sessions)
      × (s'.captchas ≡ s.captchas)
  unfolding join_post_room
  join_post_room_lem = (
    outcome-join room id s.post_rooms,
    joined-MovedTo room id s.post_rooms,
    left-LeftAll id s.community_rooms,
    refl,
    refl,
    refl,
    refl,
  )

  -- Joining a community's room or a post's succeeds: the connection is then in that room and in no
  -- other community or post room, every other connection is in the rooms in which it was, and the
  -- rooms of moderators and users, the sessions and the captchas are as before.
  pub join_feed_lem :
      let (s', r) = join_community_room s room id in
      let (s'', r') = join_post_room s room id in
      ((r ≡ ok tt)
        × MovedTo room id s.community_rooms s'.community_rooms
        × LeftAll id s.post_rooms s'.post_rooms
        × (s'.mod_rooms ≡ s.mod_rooms)
        × (s'.user_rooms ≡ s.user_rooms)
        × (s'.sessions ≡ s.sessions)
        × (s'.captchas ≡ s.captchas))
      × ((r' ≡ ok tt)
          × MovedTo room id s.post_rooms s''.post_rooms
          × LeftAll id s.community_rooms s''.community_rooms
          × (s''.mod_rooms ≡ s.mod_rooms)
          × (s''.user_rooms ≡ s.user_rooms)
          × (s''.sessions ≡ s.sessions)
          × (s''.captchas ≡ s.captchas))
  join_feed_lem = (join_community_room_lem, join_post_room_lem)

-- After the disconnect of an open session it has no entry, and it is in no user, post or community
-- room; every other connection is in the rooms in which it was, with its session. The rooms of
-- moderators and the captchas are as before.
pub disconnect_lem :
    (s : ChatServer) (id : ℕ)
    → IsPlaced s
    → is_some (get id s.sessions) ≡ true
    → let s' = disconnect s id in
      (get id s'.sessions ≡ none)
      × LeftAll id s.user_rooms s'.user_rooms
      × LeftAll id s.post_rooms s'.post_rooms
      × LeftAll id s.community_rooms s'.community_rooms
      × ((j : ℕ) → j ≢ id → get j s'.sessions ≡ get j s.sessions)
      × (s'.mod_rooms ≡ s.mod_rooms)
      × (s'.captchas ≡ s.captchas)
unfolding disconnect
disconnect_lem s id h e = (
  rw e (get-remove_self id s.sessions h.maps.session_keys),
  rw e (left-LeftAll id s.user_rooms),
  rw e (left-LeftAll id s.post_rooms),
  rw e (left-LeftAll id s.community_rooms),
  λ j n. rw e (get-remove_ne j id s.sessions n),
  rw e refl,
  rw e refl,
)

-- A connection that has joined a moderator room is still listed there after its session is gone.
pub disconnect-mod_rooms :
    (s : ChatServer) (id room : ℕ)
    → IsPlaced s
    → Sets.contains id (members room s.mod_rooms) ≡ true
    → let s' = disconnect s id in
      (get id s'.sessions ≡ none) × (Sets.contains id (members room s'.mod_rooms) ≡ true)
unfolding disconnect
disconnect-mod_rooms s id room h e =
    ground (arith, get-remove_self id s.sessions h.maps.session_keys)
