-- ===== src/Chat/Rooms.antt =====
-- Where a connection is: the laws of leaving, opening and entering rooms.
use lemmy.Prelude.{
  ℕ, ◌+◌, ◌≤◌, ◌≡◌, refl, ◌≢◌, List, [], ◌∷◌, none, some, ok, arith, inl, inr, ◌==◌, ==_refl, ==_ne,
  eq_or_ne, if◌then◌else◌,
}
use lemmy.Prelude.Maps.{get, insert, IsMap, insert-IsMap, map_values-IsMap, get-insert}
use lemmy.Prelude.Sets as Sets
use lemmy.Chat.Server.{Rooms, leave_all, open_room, enter_room, entered, outcome}

-- In how many rooms the connection is.
abbrev pub presence : ℕ → Rooms → ℕ
presence id [] = 0
presence id ((room, sessions) ∷ rooms) = Sets.count id sessions + presence id rooms

-- The connections of one room.
abbrev pub members : ℕ → Rooms → List ℕ
members room rooms = elim (get room rooms) [ none ↦ [] | some sessions ↦ sessions ]

-- The rooms after a join.
abbrev pub joined : ℕ → ℕ → Rooms → Rooms
joined room id rooms =
    let opened = open_room room (leave_all id rooms) in entered opened (enter_room room id opened)

pub presence-leave_all_self : (id : ℕ) (rooms : Rooms) → presence id (leave_all id rooms) ≡ 0
unfolding leave_all
presence-leave_all_self id [] = refl
presence-leave_all_self id ((room, ss) ∷ rooms) =
    omega (arith, Sets.count-remove_self id ss, presence-leave_all_self id rooms)

pub presence-leave_all_ne :
    (j id : ℕ) (rooms : Rooms) → j ≢ id → presence j (leave_all id rooms) ≡ presence j rooms
unfolding leave_all
presence-leave_all_ne j id [] h = refl
presence-leave_all_ne j id ((room, ss) ∷ rooms) h =
    omega (arith, Sets.count-remove_ne j id ss h, presence-leave_all_ne j id rooms h)

presence-insert :
    (j room : ℕ) (ss : List ℕ) (rooms : Rooms)
    → presence j (insert room ss rooms) + Sets.count j (members room rooms)
      ≡ presence j rooms + Sets.count j ss
presence-insert j room ss [] = omega arith
presence-insert j room ss ((i, w) ∷ rooms) = ground (arith, presence-insert j room ss rooms)

presence-open_room :
    (j room : ℕ) (rooms : Rooms) → presence j (open_room room rooms) ≡ presence j rooms
unfolding open_room
presence-open_room j room rooms = ground (arith, presence-insert j room [] rooms)

get-open_room :
    (room : ℕ) (rooms : Rooms) → get room (open_room room rooms) ≡ some (members room rooms)
unfolding open_room
get-open_room room rooms = ground (arith, get-insert room room [] rooms)

pub count-members-le :
    (j room : ℕ) (rooms : Rooms) → Sets.count j (members room rooms) ≤ presence j rooms
count-members-le j room [] = omega arith
count-members-le j room ((i, w) ∷ rooms) = ground (arith, count-members-le j room rooms)

-- After leaving, the connection is nowhere and every other one is where it was.
pub presence-leave_all :
    (j id : ℕ) (rooms : Rooms)
    → presence j (leave_all id rooms) ≡ (if j == id then 0 else presence j rooms)
presence-leave_all j id rooms = elim (eq_or_ne j id) [
  | inl e ↦ rw e (rw (==_refl id) (presence-leave_all_self id rooms))
  | inr h ↦ rw (==_ne j id h) (presence-leave_all_ne j id rooms h)
]

pub leave_all-IsMap : (id : ℕ) (rooms : Rooms) → IsMap rooms → IsMap (leave_all id rooms)
unfolding leave_all
leave_all-IsMap id rooms h = map_values-IsMap (Sets.remove id) rooms h

open_room-IsMap : (room : ℕ) (rooms : Rooms) → IsMap rooms → IsMap (open_room room rooms)
unfolding open_room
open_room-IsMap room rooms h = ground (arith, insert-IsMap room [] rooms h)

module _ (room id : ℕ) (rooms : Rooms) where
  abbrev opened : Rooms
  opened = open_room room (leave_all id rooms)

  abbrev others : List ℕ
  others = members room (leave_all id rooms)

  pub joined-eq-insert : joined room id rooms ≡ insert room (Sets.insert id others) opened
  unfolding entered enter_room
  joined-eq-insert = ground (arith, get-open_room room (leave_all id rooms))

  -- A join always succeeds.
  pub outcome-join : outcome (enter_room room id opened) ≡ ok tt
  unfolding enter_room outcome
  outcome-join = ground (arith, get-open_room room (leave_all id rooms))

  others_lem : Sets.count id others ≡ 0
  others_lem =
      omega (arith, count-members-le id room (leave_all id rooms), presence-leave_all_self id rooms)

  pub joined-members : members room (joined room id rooms) ≡ id ∷ others
  joined-members = rw joined-eq-insert (
      ground (
        arith,
        get-insert room room (Sets.insert id others) opened,
        others_lem,
        Sets.contains-count id others,
      ))

  pub joined-IsMap : IsMap rooms → IsMap (joined room id rooms)
  joined-IsMap h =
      rw joined-eq-insert
        (insert-IsMap room _ opened (open_room-IsMap room _ (leave_all-IsMap id rooms h)))

  -- After a join the connection is in one room, and every other one is where it was.
  pub presence-joined :
      (j : ℕ) → presence j (joined room id rooms) ≡ (if j == id then 1 else presence j rooms)
  presence-joined j = rw joined-eq-insert (
      ground (
        arith,
        presence-insert j room (Sets.insert id others) opened,
        presence-open_room j room (leave_all id rooms),
        get-open_room room (leave_all id rooms),
        presence-leave_all j id rooms,
        Sets.contains-count id others,
        Sets.count-insert_ne j id others,
        others_lem,
      ))
