-- ===== src/Chat/Exactness.antt =====
-- One broadcast reaches exactly the connections that it is for.
use lemmy.Prelude.{
  ℕ, ◌≤◌, ◌≡◌, refl, String, Bool, true, ◌&&◌, List, [], ◌∷◌, Option, Result, ok, err, LemmyError,
  arith, All, is_some, if◌then◌else◌,
}
use lemmy.Prelude.Maps.{Map, get, keys, IsMap}
use lemmy.Prelude.Sets as Sets
use lemmy.Structs.{UserOperation, Response}
use lemmy.Chat.Server.{ChatServer, Rooms}
use lemmy.Chat.Rooms.{presence, members, count-members-le}
use lemmy.Chat.Send.{
  Delivery, is_mine, send_room, with_text, serialize_websocket_message, send_mod_room_message,
  send_user_room_message, send_all_message,
}
use lemmy.Chat.Delivery.{
  received, received-send_room, received-send_each, IsDelivered, send_each-IsDelivered,
  send_room-IsDelivered,
}
use lemmy.Chat.Placement.{IsPlaced}

count-keys :
    {V : Type 0} (j : ℕ) (m : Map V)
    → IsMap m
    → Sets.count j (keys m) ≡ (if is_some (get j m) then 1 else 0)
count-keys j [] h = refl
count-keys j ((i, w) ∷ m) h = ground (arith, count-keys j m h.1)

count-members :
    (j room : ℕ) (rooms : Rooms)
    → presence j rooms ≤ 1
    → Sets.count j (members room rooms) ≡ (if Sets.contains j (members room rooms) then 1 else 0)
count-members j room rooms h = ground (
  arith,
  count-members-le j room rooms,
  Sets.contains-count j (members room rooms),
  Sets.count-contains j (members room rooms),
)

-- A connection that is open, is meant and did not cause the message gets it once; no other gets it.
-- What is sent is this text, to the recipient of the connection's session.
abbrev pub ReachesExactly : ChatServer → Option ℕ → String → (ℕ → Bool) → List Delivery → Type 0
ReachesExactly s ws t meant out =
    ((j : ℕ)
      → received j out
        ≡ (if is_mine ws j then 0 else if is_some (get j s.sessions) && meant j then 1 else 0))
    × All (IsDelivered s t) out

module _ (op_name : UserOperation → String) (to_json : String → Response → Option String) where
  module _ (s : ChatServer) (op : UserOperation) (r : Response) (ws : Option ℕ)
      (h : IsPlaced s) where
    abbrev text : Result String
    text = serialize_websocket_message op_name to_json op r

    to_room :
        (t : String) (room : ℕ) (rooms : Rooms)
        → ((j : ℕ) → presence j rooms ≤ 1)
        → ReachesExactly s ws t
            (λ j. Sets.contains j (members room rooms))
            (send_room s rooms room t ws)
    to_room t room rooms one = (
      λ j.
          ground
            (arith, received-send_room s t ws j room rooms, count-members j room rooms (one j)),
      send_room-IsDelivered s t ws room rooms,
    )

    -- A message to everybody fails if its text cannot be made, and nothing is sent then. Otherwise
    -- each open connection but the sender's gets it exactly once.
    send_all_message-ReachesExactly :
        let (res, out) = send_all_message op_name to_json s op r ws in
        ((e : LemmyError) → text ≡ err e → (res ≡ err e) × (out ≡ []))
        × ((t : String) → text ≡ ok t → (res ≡ ok tt) × ReachesExactly s ws t (λ j. true) out)
    unfolding send_all_message with_text
    send_all_message-ReachesExactly = (
      λ e q. rw (q, with_text) (refl, refl),
      λ t q.
          rw (q, with_text)
            (
              refl,
              (
                λ j. ground (
                  arith,
                  received-send_each s t ws j (keys s.sessions),
                  count-keys j s.sessions h.maps.session_keys,
                ),
                send_each-IsDelivered s t ws (keys s.sessions),
              ),
            ),
    )

    -- A message to a moderator room fails if its text cannot be made, and nothing is sent then.
    -- Otherwise each open connection of the room but the sender's gets it exactly once.
    send_mod_room_message-ReachesExactly :
        (c : ℕ)
        → let (res, out) = send_mod_room_message op_name to_json s op r c ws in
          ((e : LemmyError) → text ≡ err e → (res ≡ err e) × (out ≡ []))
          × ((t : String)
              → text ≡ ok t
              → (res ≡ ok tt)
                × ReachesExactly s ws t (λ j. Sets.contains j (members c s.mod_rooms)) out)
    unfolding send_mod_room_message with_text
    send_mod_room_message-ReachesExactly c = (
      λ e q. rw (q, with_text) (refl, refl),
      λ t q. rw (q, with_text) (refl, to_room t c s.mod_rooms (λ j. (h.placed j).moderation)),
    )

    -- A message to a user's room fails if its text cannot be made, and nothing is sent then.
    -- Otherwise each open connection of the room but the sender's gets it exactly once.
    send_user_room_message-ReachesExactly :
        (u : ℕ)
        → let (res, out) = send_user_room_message op_name to_json s op r u ws in
          ((e : LemmyError) → text ≡ err e → (res ≡ err e) × (out ≡ []))
          × ((t : String)
              → text ≡ ok t
              → (res ≡ ok tt)
                × ReachesExactly s ws t (λ j. Sets.contains j (members u s.user_rooms)) out)
    unfolding send_user_room_message with_text
    send_user_room_message-ReachesExactly u = (
      λ e q. rw (q, with_text) (refl, refl),
      λ t q. rw (q, with_text) (refl, to_room t u s.user_rooms (λ j. (h.placed j).user)),
    )

    -- A message to all, to a moderator room or to a user's room fails if its text cannot be made, and
    -- nothing is sent then. Otherwise each open connection, or each open connection of the room, but
    -- the sender's gets exactly one message, which is that text and goes to the recipient of its
    -- session.
    pub messages-ReachesExactly :
        (c u : ℕ)
        → let (res, out) = send_all_message op_name to_json s op r ws in
          let (res', out') = send_mod_room_message op_name to_json s op r c ws in
          let (res'', out'') = send_user_room_message op_name to_json s op r u ws in
          ((e : LemmyError)
            → text ≡ err e
            → ((res ≡ err e) × (out ≡ []))
              × ((res' ≡ err e) × (out' ≡ []))
              × ((res'' ≡ err e) × (out'' ≡ [])))
          × ((t : String)
              → text ≡ ok t
              → ((res ≡ ok tt) × ReachesExactly s ws t (λ j. true) out)
                × ((res' ≡ ok tt)
                    × ReachesExactly s ws t (λ j. Sets.contains j (members c s.mod_rooms)) out')
                × ((res'' ≡ ok tt)
                    × ReachesExactly s ws t (λ j. Sets.contains j (members u s.user_rooms)) out''))
    messages-ReachesExactly c u = (
      λ e q. (
        send_all_message-ReachesExactly.0 e q,
        (send_mod_room_message-ReachesExactly c).0 e q,
        (send_user_room_message-ReachesExactly u).0 e q,
      ),
      λ t q. (
        send_all_message-ReachesExactly.1 t q,
        (send_mod_room_message-ReachesExactly c).1 t q,
        (send_user_room_message-ReachesExactly u).1 t q,
      ),
    )
