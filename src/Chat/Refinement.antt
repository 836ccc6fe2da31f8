-- ===== src/Chat/Refinement.antt =====
-- The rooms of the chat server implement the assignment of places in Chat/Seats.antt
-- (lemmy_websocket/src/chat_server.rs, lemmy_websocket/src/handlers.rs).
use lemmy.Prelude.{
  ℕ, String, Bool, true, false, List, [], ◌∷◌, Option, ◌≡◌, refl, ap, ◌∙◌, arith, inl, inr, ◌==◌,
  ==_refl, ==_ne, eq_or_ne, is_some, if◌then◌else◌,
}
use lemmy.Prelude.Maps.{get, remove, IsMap, get-insert, get-remove_self, get-remove_ne}
use lemmy.Prelude.Sets as Sets
use lemmy.Structs.{UserOperation, Response}
use lemmy.Chat.Server.{
  ChatServer, SessionInfo, startup, leave_all, join_community_room, join_post_room, join_mod_room,
  join_user_room,
}
use lemmy.Chat.Rooms.{members}
use lemmy.Chat.Handlers.{
  Message, connects, disconnects, joins_user, joins_community, joins_mod, joins_post, captcha_item,
  checks_captcha, handle, handle_all, connect, disconnect, add_captcha, check_captcha,
}
use lemmy.Chat.Placement.{IsPlaced, startup-IsPlaced, handle-IsPlaced}
use lemmy.Chat.Seats.{
  Seats, Represents, nowhere, put, no_seats, seat, seat_all, members-leave_all, members-joined,
}

module _ (s : ChatServer) (a : Seats) (id : ℕ) (h : Represents s a) where
  connect-Represents :
      (info : SessionInfo) → Represents (connect s id info).0 (seat (connects id info) a)
  unfolding connect seat
  connect-Represents info = record {
    sessions = λ j. ground (arith, get-insert j id info s.sessions, h.sessions j);
    communities = h.communities;
    posts = h.posts;
  }

  join_community_room-Represents :
      (room : ℕ) → Represents (join_community_room s room id).0 (seat (joins_community room id) a)
  unfolding join_community_room seat
  join_community_room-Represents room = record {
    sessions = h.sessions;
    communities =
        λ r j. ground (arith, members-joined r room j id s.community_rooms, h.communities r j);
    posts = λ r j. ground (arith, members-leave_all r j id s.post_rooms, h.posts r j);
  }

  join_post_room-Represents :
      (room : ℕ) → Represents (join_post_room s room id).0 (seat (joins_post room id) a)
  unfolding join_post_room seat
  join_post_room-Represents room = record {
    sessions = h.sessions;
    communities =
        λ r j. ground (arith, members-leave_all r j id s.community_rooms, h.communities r j);
    posts = λ r j. ground (arith, members-joined r room j id s.post_rooms, h.posts r j);
  }

  gone :
      (j : ℕ)
      → IsMap s.sessions
      → is_some (get j (remove id s.sessions))
        ≡ (if j == id then false else is_some (get j s.sessions))
  gone j maps = elim (eq_or_ne j id) [
    | inl e ↦ rw e (rw (==_refl id) (ap is_some (get-remove_self id s.sessions maps)))
    | inr n ↦ rw (==_ne j id n) (ap is_some (get-remove_ne j id s.sessions n))
  ]

  disconnect-Represents : IsMap s.sessions → Represents (disconnect s id) (seat (disconnects id) a)
  unfolding disconnect seat
  disconnect-Represents maps = go (is_some (get id s.sessions)) (a.is_open id) (h.sessions id)
    where
      go :
          (b c : Bool)
          → b ≡ c
          → Represents
              (if b
                then record s {
                  sessions = remove id s.sessions;
                  user_rooms = leave_all id s.user_rooms;
                  post_rooms = leave_all id s.post_rooms;
                  community_rooms = leave_all id s.community_rooms;
                }
                else s)
              (if c
                then record { is_open = put id false a.is_open; place = put id nowhere a.place }
                else a)
      go true true e = record {
        sessions = λ j. ground (arith, gone j maps, h.sessions j);
        communities =
            λ r j. ground (arith, members-leave_all r j id s.community_rooms, h.communities r j);
        posts = λ r j. ground (arith, members-leave_all r j id s.post_rooms, h.posts r j);
      }
      go true false e = cc
      go false true e = cc
      go false false e = h

  -- Handlers that change neither the sessions nor these rooms.
  same-Represents :
      (s' : ChatServer)
      → s'.sessions ≡ s.sessions
      → s'.community_rooms ≡ s.community_rooms
      → s'.post_rooms ≡ s.post_rooms
      → Represents s' a
  same-Represents s' e f g = record {
    sessions = λ j. ap (λ m. is_some (get j m)) e ∙ h.sessions j;
    communities = λ r j. ap (λ m. Sets.contains j (members r m)) f ∙ h.communities r j;
    posts = λ r j. ap (λ m. Sets.contains j (members r m)) g ∙ h.posts r j;
  }

startup-Represents : Represents startup no_seats
unfolding startup
startup-Represents = record {
  sessions = λ j. refl;
  communities = λ room j. refl;
  posts = λ room j. refl;
}

module _ (op_name : UserOperation → String) (to_json : String → Response → Option String) where
  handle-Represents :
      (s : ChatServer) (a : Seats) (m : Message)
      → IsPlaced s
      → Represents s a
      → Represents (handle op_name to_json s m).0 (seat m a)
  unfolding handle seat join_user_room join_mod_room add_captcha check_captcha
  handle-Represents s a (connects id info) p h = connect-Represents s a id h info
  handle-Represents s a (disconnects id) p h = disconnect-Represents s a id h p.maps.session_keys
  handle-Represents s a (joins_user room id) p h = same-Represents s a id h _ refl refl refl
  handle-Represents s a (joins_community room id) p h = join_community_room-Represents s a id h room
  handle-Represents s a (joins_mod room id) p h = same-Represents s a id h _ refl refl refl
  handle-Represents s a (joins_post room id) p h = join_post_room-Represents s a id h room
  handle-Represents s a (captcha_item item) p h = same-Represents s a 0 h _ refl refl refl
  handle-Represents s a (checks_captcha clock uuid answer) p h =
      same-Represents s a 0 h _ refl refl refl
  handle-Represents s a m p h = h

  run-Represents :
      (s : ChatServer) (a : Seats) (ms : List Message)
      → IsPlaced s
      → Represents s a
      → Represents (handle_all op_name to_json s ms) (seat_all ms a)
  unfolding handle_all seat_all
  run-Represents s a [] p h = h
  run-Represents s a (m ∷ ms) p h =
      run-Represents (handle op_name to_json s m).0 (seat m a) ms
        (handle-IsPlaced op_name to_json s m p) (handle-Represents s a m p h)

  -- After any history of messages the server's sessions, community rooms and post rooms are those of
  -- the plain assignment that the same history makes: a connection is open from its connect to its
  -- disconnect, and it is in the room of the community or the post that it joined last, and in no
  -- other, until it disconnects as an open one.
  pub startup-handle_all-Represents :
      (ms : List Message)
      → Represents (handle_all op_name to_json startup ms) (seat_all ms no_seats)
  startup-handle_all-Represents ms =
      run-Represents startup no_seats ms startup-IsPlaced startup-Represents
