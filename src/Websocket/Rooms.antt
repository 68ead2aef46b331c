-- ===== src/Websocket/Rooms.antt =====
-- src/internal/websocket/rooms.ts: rooms of sockets. A socket is known by a number, a JavaScript `Set`
-- is a map to `Unit`, and what the heartbeat and the sockets are told is an entry of a log, the
-- newest first.
pub mod Nested
pub mod Membership
pub mod Sessions
mod Tests
use kenojs.Prelude.{
  ℕ, Bool, true, false, Option, none, some, List, [], ◌∷◌, length, is_some, if◌then◌else◌, not,
  ℕ_key,
}
use kenojs.Prelude.Maps.{get, set, delete}
use kenojs.Prelude.Text.{Text, trim, trim_start, trim_end, text_key, is_empty}

pub data Notice : Type 0 where
  track untrack : (socket : ℕ) → Notice
  -- `once` and `off` of the handler for "close".
  bind_close unbind_close : (socket : ℕ) → Notice
  send_data : (socket : ℕ) → Notice

pub record Rooms (M : Type 0) : Type 0 where
  pub close_bindings : List (ℕ × Unit {0})
  pub rooms : List (Text × List (ℕ × Option M))
  pub socket_rooms : List (ℕ × List (Text × Unit {0}))
  pub log : List Notice

abbrev pub or_new {ℓ} : {A : Type ℓ} → Option (List A) → List A
or_new none = []
or_new (some xs) = xs

-- None where the source throws a TypeError.
unfoldable pub normalize_room_name : Text → Option Text
normalize_room_name value =
    let room_name = trim value in if is_empty room_name then none else some room_name

module _ {M : Type 0} where
  unfoldable pub no_rooms : Rooms M
  no_rooms = record { close_bindings = []; rooms = []; socket_rooms = []; log = [] }

  unfoldable pub ensure_socket_cleanup : ℕ → Rooms M → Rooms M
  ensure_socket_cleanup socket r = if is_some (get socket r.close_bindings) then r else record r {
    close_bindings = set socket tt r.close_bindings;
    log = bind_close socket ∷ r.log;
  }

  -- The maps' part of `join`.
  unfoldable pub insert_member : Text → ℕ → Option M → Rooms M → Rooms M
  insert_member room socket meta r = record r {
    rooms = set room (set socket meta (or_new (get room r.rooms))) r.rooms;
    socket_rooms = set socket (set room tt (or_new (get socket r.socket_rooms))) r.socket_rooms;
  }

  -- `join` from where the name is known.
  unfoldable pub add_member : Text → ℕ → Option M → Rooms M → Rooms M
  add_member room socket meta r =
      let bound = ensure_socket_cleanup socket (insert_member room socket meta r) in
      record bound { log = track socket ∷ bound.log }

  unfoldable pub join : Text → ℕ → Option M → Rooms M → Option (Rooms M)
  join room_name socket meta r = elim (normalize_room_name room_name) [
    | none ↦ none
    | some room ↦ some (add_member room socket meta r)
  ]

  -- `room.delete(socket)`, and the room goes with its last member.
  unfoldable pub drop_member : ℕ → Text → Rooms M → Rooms M
  drop_member socket room r = elim (get room r.rooms) [
    | none ↦ r
    | some members ↦
        let kept = delete socket members in
        record r { rooms = if is_empty kept then delete room r.rooms else set room kept r.rooms }
  ]

  unfoldable pub unbind : ℕ → Rooms M → Rooms M
  unbind socket r =
      if is_some (get socket r.close_bindings)
      then record r {
        close_bindings = delete socket r.close_bindings;
        log = unbind_close socket ∷ untrack socket ∷ r.log;
      }
      else record r { log = untrack socket ∷ r.log }

  unfoldable pub drop_room : ℕ → Text → Rooms M → Rooms M
  drop_room socket room r = elim (get socket r.socket_rooms) [
    | none ↦ r
    | some assigned ↦
        let kept = delete room assigned in
        if is_empty kept
        then unbind socket (record r { socket_rooms = delete socket r.socket_rooms })
        else record r { socket_rooms = set socket kept r.socket_rooms }
  ]

  unfoldable pub remove_socket_from_room : ℕ → Text → Rooms M → Rooms M
  remove_socket_from_room socket room r = drop_room socket room (drop_member socket room r)

  unfoldable pub remove_from_rooms : ℕ → List (Text × Unit {0}) → Rooms M → Rooms M
  remove_from_rooms socket [] r = r
  remove_from_rooms socket ((room, mark) ∷ rooms) r =
      remove_from_rooms socket rooms (remove_socket_from_room socket room r)

  -- `leave` without a room, which the handler for "close" calls too.
  unfoldable pub leave_all : ℕ → Rooms M → Rooms M
  leave_all socket r = elim (get socket r.socket_rooms) [
    | none ↦ r
    | some rooms ↦ remove_from_rooms socket rooms r
  ]

  -- An absent name and an empty one are both falsy.
  unfoldable pub leave : ℕ → Option Text → Rooms M → Option (Rooms M)
  leave socket none r = some (leave_all socket r)
  leave socket (some room_name) r =
      if is_empty room_name
      then some (leave_all socket r)
      else elim (normalize_room_name room_name) [
        | none ↦ none
        | some room ↦ some (remove_socket_from_room socket room r)
      ]

  -- The sends of `broadcast`, to the members whose state is open.
  abbrev pub send_open : (ℕ → Bool) → List (ℕ × Option M) → List Notice → List Notice
  send_open is_open [] log = log
  send_open is_open ((socket, meta) ∷ members) log =
      send_open is_open members (if is_open socket then send_data socket ∷ log else log)

  unfoldable pub broadcast : (ℕ → Bool) → Text → Rooms M → Option (Rooms M)
  broadcast is_open room_name r = elim (normalize_room_name room_name) [
    | none ↦ none
    | some room ↦ some (elim (get room r.rooms) [
      | none ↦ r
      | some members ↦ record r { log = send_open is_open members r.log }
    ])
  ]

  unfoldable pub members : Text → Rooms M → Option (List (ℕ × Option M))
  members room_name r = elim (normalize_room_name room_name) [
    | none ↦ none
    | some room ↦ some (or_new (get room r.rooms))
  ]

  unfoldable pub size : Text → Rooms M → Option ℕ
  size room_name r = elim (normalize_room_name room_name) [
    | none ↦ none
    | some room ↦ some (length (or_new (get room r.rooms)))
  ]
