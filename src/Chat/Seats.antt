-- ===== src/Chat/Seats.antt =====
-- What the rooms are for: a connection follows one community or one post, the last that it joined.
-- The rooms of `ChatServer` (lemmy_websocket/src/chat_server.rs, lemmy_websocket/src/handlers.rs)
-- implement a plain assignment of places to connections.
use lemmy.Prelude.{
  ℕ, Bool, true, false, ◌||◌, List, [], ◌∷◌, ◌≡◌, arith, inl, inr, ◌==◌, eq_or_ne, is_some,
  if◌then◌else◌,
}
use lemmy.Prelude.Maps.{get, get-insert}
use lemmy.Prelude.Sets as Sets
use lemmy.Chat.Server.{ChatServer, Rooms, leave_all, open_room, entered}
use lemmy.Chat.Rooms.{members, joined, joined-eq-insert}
use lemmy.Chat.Handlers.{Message, connects, disconnects, joins_community, joins_post}

pub data Place : Type 0 where
  nowhere : Place
  at_community at_post : ℕ → Place

-- The abstract state: which connections are open, and where each one is.
pub record Seats : Type 0 where
  pub is_open : ℕ → Bool
  pub place : ℕ → Place

abbrev pub put {ℓ} : {A : Type ℓ} → ℕ → A → (ℕ → A) → ℕ → A
put id a f j = if j == id then a else f j

abbrev pub no_seats : Seats
no_seats = record { is_open = λ j. false; place = λ j. nowhere }

-- What a message does to the places.
unfoldable pub seat : Message → Seats → Seats
seat (connects id info) a = record a { is_open = put id true a.is_open }
seat (disconnects id) a =
    if a.is_open id
    then record { is_open = put id false a.is_open; place = put id nowhere a.place }
    else a
seat (joins_community room id) a = record a { place = put id (at_community room) a.place }
seat (joins_post room id) a = record a { place = put id (at_post room) a.place }
seat m a = a

unfoldable pub seat_all : List Message → Seats → Seats
unfolding seat
seat_all [] a = a
seat_all (m ∷ ms) a = seat_all ms (seat m a)

abbrev pub is_community : ℕ → Place → Bool
is_community room nowhere = false
is_community room (at_community c) = room == c
is_community room (at_post p) = false

abbrev pub is_post : ℕ → Place → Bool
is_post room nowhere = false
is_post room (at_community c) = false
is_post room (at_post p) = room == p

-- The server's maps say the same as the places.
pub record Represents (s : ChatServer) (a : Seats) : Type 0 where
  pub sessions : (j : ℕ) → is_some (get j s.sessions) ≡ a.is_open j
  pub communities :
      (room j : ℕ)
      → Sets.contains j (members room s.community_rooms) ≡ is_community room (a.place j)
  pub posts : (room j : ℕ) → Sets.contains j (members room s.post_rooms) ≡ is_post room (a.place j)

contains-remove :
    (a b : ℕ) (xs : List ℕ)
    → Sets.contains a (Sets.remove b xs) ≡ (if a == b then false else Sets.contains a xs)
contains-remove a b [] = ground arith
contains-remove a b (x ∷ xs) = ground (arith, contains-remove a b xs)

contains-insert :
    (a b : ℕ) (xs : List ℕ) → Sets.contains a (Sets.insert b xs) ≡ (a == b || Sets.contains a xs)
contains-insert a b xs = elim (eq_or_ne a b) [ inl e ↦ ground arith | inr n ↦ ground arith ]

pub members-leave_all :
    (room j id : ℕ) (rooms : Rooms)
    → Sets.contains j (members room (leave_all id rooms))
      ≡ (if j == id then false else Sets.contains j (members room rooms))
unfolding leave_all
members-leave_all room j id [] = ground arith
members-leave_all room j id ((i, ss) ∷ rooms) =
    ground (arith, members-leave_all room j id rooms, contains-remove j id ss)

members-open_room :
    (room opened j : ℕ) (rooms : Rooms)
    → Sets.contains j (members room (open_room opened rooms)) ≡ Sets.contains j (members room rooms)
unfolding open_room
members-open_room room opened j rooms = ground (arith, get-insert room opened [] rooms)

pub members-joined :
    (room entered j id : ℕ) (rooms : Rooms)
    → Sets.contains j (members room (joined entered id rooms))
      ≡ (if j == id then room == entered else Sets.contains j (members room rooms))
members-joined room entered j id rooms =
    let left = leave_all id rooms in
    let ss = members entered left in
    rw (joined-eq-insert entered id rooms) (
      ground (
        arith,
        get-insert room entered (Sets.insert id ss) (open_room entered left),
        contains-insert j id ss,
        members-open_room room entered j left,
        members-leave_all room j id rooms,
        members-leave_all entered j id rooms,
      ))
