-- ===== src/Chat/Delivery.antt =====
-- Who receives what: the sends of the chat server, counted for each connection.
use lemmy.Prelude.{
  ℕ, ◌≡◌, refl, String, Bool, true, false, List, [], ◌∷◌, Option, some, Result, ok, err, arith,
  ◌==◌, eq_or_ne, Option-cases, inl, inr, is_some, if◌then◌else◌, count_where, count_where-append,
  All, All-append,
}
use lemmy.Prelude.Maps.{get}
use lemmy.Prelude.Sets as Sets
use lemmy.Chat.Server.{ChatServer, SessionInfo, Rooms}
use lemmy.Chat.Rooms.{members}
use lemmy.Chat.Send.{Delivery, Sent, ◌>>◌, is_mine, sendit, send_each, send_room, with_text}

-- How many messages went to a connection.
abbrev pub received : ℕ → List Delivery → ℕ
received j out = count_where (λ d. d.session == j) out

-- What a connection gets of one broadcast: it has a session and did not cause the message.
abbrev pub share : ChatServer → Option ℕ → ℕ → ℕ → ℕ
share s ws j n = if is_mine ws j then 0 else if is_some (get j s.sessions) then n else 0

received-sendit :
    (s : ChatServer) (t : String) (j id : ℕ)
    → received j (sendit s t id)
      ≡ (if id == j then if is_some (get j s.sessions) then 1 else 0 else 0)
unfolding sendit
received-sendit s t j id = elim (eq_or_ne id j) [
  | inl e ↦ rw e (ground arith)
  | inr n ↦ ground arith
]

received-step :
    (s : ChatServer) (t : String) (ws : Option ℕ) (j id : ℕ)
    → received j (if is_mine ws id then [] else sendit s t id)
      ≡ (if id == j then share s ws j 1 else 0)
received-step s t ws j id = elim (eq_or_ne id j) [
  | inl e ↦ rw e (ground (arith, received-sendit s t j j))
  | inr n ↦ ground (arith, received-sendit s t j id)
]

pub received-send_each :
    (s : ChatServer) (t : String) (ws : Option ℕ) (j : ℕ) (ids : List ℕ)
    → received j (send_each s t ws ids) ≡ share s ws j (Sets.count j ids)
unfolding send_each
received-send_each s t ws j [] = ground arith
received-send_each s t ws j (id ∷ ids) =
    rw
      (
        count_where-append (λ d. d.session == j) (if is_mine ws id then [] else sendit s t id)
            (send_each s t ws ids),
        received-step s t ws j id,
        received-send_each s t ws j ids,
      )
      (ground arith)

pub received-send_room :
    (s : ChatServer) (t : String) (ws : Option ℕ) (j room : ℕ) (rooms : Rooms)
    → received j (send_room s rooms room t ws) ≡ share s ws j (Sets.count j (members room rooms))
unfolding send_room
received-send_room s t ws j room rooms = elim (Option-cases (get room rooms)) [
  | inl e ↦ rw (e, send_room) (ground arith)
  | inr (ids, e) ↦ rw (e, send_room, members) (received-send_each s t ws j ids)
]

-- What holds of each message that a broadcast sends.
module _ {ℓ} (P : Delivery → Type ℓ) (s : ChatServer) (t : String) where
  sendit-All :
      (id : ℕ)
      → ((addr : ℕ) → P (record { session = id; addr = addr; message = t }))
      → All P (sendit s t id)
  unfolding sendit
  sendit-All id h = elim (Option-cases (get id s.sessions)) [
    | inl e ↦ rw (e, sendit) tt
    | inr (info, e) ↦ rw (e, sendit) (h info.addr, tt)
  ]

  send_each-All :
      (ws : Option ℕ) (ids : List ℕ)
      → ((id addr : ℕ)
          → Sets.contains id ids ≡ true
          → P (record { session = id; addr = addr; message = t }))
      → All P (send_each s t ws ids)
  unfolding send_each
  send_each-All ws [] h = tt
  send_each-All ws (id ∷ ids) h =
      All-append P (if is_mine ws id then [] else sendit s t id) (send_each s t ws ids)
        (own (is_mine ws id)) (send_each-All ws ids (λ k addr m. h k addr (ground arith)))
    where
      own : (b : Bool) → All P (if b then [] else sendit s t id)
      own true = tt
      own false = sendit-All id (λ addr. h id addr (ground arith))

  pub send_room-All :
      (ws : Option ℕ) (room : ℕ) (rooms : Rooms)
      → ((id addr : ℕ)
          → Sets.contains id (members room rooms) ≡ true
          → P (record { session = id; addr = addr; message = t }))
      → All P (send_room s rooms room t ws)
  unfolding send_room
  send_room-All ws room rooms h = elim (Option-cases (get room rooms)) [
    | inl e ↦ rw (e, send_room) tt
    | inr (ids, e) ↦
        rw (e, send_room) (send_each-All ws ids (λ id addr m. h id addr (ground arith)))
  ]

-- The text goes to the recipient of an open session.
abbrev pub IsDelivered : ChatServer → String → Delivery → Type 0
IsDelivered s t d =
    (d.message ≡ t)
    × ((info : SessionInfo) × (get d.session s.sessions ≡ some info) × (info.addr ≡ d.addr))

module _ (s : ChatServer) (t : String) where
  sendit-IsDelivered : (id : ℕ) → All (IsDelivered s t) (sendit s t id)
  unfolding sendit
  sendit-IsDelivered id = elim (Option-cases (get id s.sessions)) [
    | inl e ↦ rw (e, sendit) tt
    | inr (info, e) ↦ rw (e, sendit) ((refl, (info, e, refl)), tt)
  ]

  pub send_each-IsDelivered :
      (ws : Option ℕ) (ids : List ℕ) → All (IsDelivered s t) (send_each s t ws ids)
  unfolding send_each
  send_each-IsDelivered ws [] = tt
  send_each-IsDelivered ws (id ∷ ids) =
      All-append (IsDelivered s t) (if is_mine ws id then [] else sendit s t id)
        (send_each s t ws ids) (own (is_mine ws id)) (send_each-IsDelivered ws ids)
    where
      own : (b : Bool) → All (IsDelivered s t) (if b then [] else sendit s t id)
      own true = tt
      own false = sendit-IsDelivered id

  pub send_room-IsDelivered :
      (ws : Option ℕ) (room : ℕ) (rooms : Rooms)
      → All (IsDelivered s t) (send_room s rooms room t ws)
  unfolding send_room
  send_room-IsDelivered ws room rooms = elim (Option-cases (get room rooms)) [
    | inl e ↦ rw (e, send_room) tt
    | inr (ids, e) ↦ rw (e, send_room) (send_each-IsDelivered ws ids)
  ]

pub All->> {ℓ} : (P : Delivery → Type ℓ) (m k : Sent) → All P m.1 → All P k.1 → All P (m >> k).1
All->> P (ok u, out) (r, out') h g = All-append P out out' h g
All->> P (err e, out) k h g = h

pub with_text-All {ℓ} :
    (P : Delivery → Type ℓ) (r : Result String) (send : String → List Delivery)
    → ((t : String) → r ≡ ok t → All P (send t))
    → All P (with_text r send).1
unfolding with_text
with_text-All P (ok t) send h = h t refl
with_text-All P (err e) send h = tt
