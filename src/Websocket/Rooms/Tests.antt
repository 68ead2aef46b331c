-- ===== src/Websocket/Rooms/Tests.antt =====
-- Runs of the rooms, and the theorems about them at concrete inputs.
use kenojs.Prelude.{ℕ, ◌≡◌, refl, none, some, List, [], ◌∷◌, ℕ_key}
use kenojs.Prelude.Text.{trim, trim_start, trim_end, text_key}
use kenojs.Prelude.Maps.{get, set, delete}
use kenojs.Websocket.Rooms.{
  no_rooms, normalize_room_name, ensure_socket_cleanup, insert_member, add_member, join,
  drop_member, unbind, drop_room, remove_socket_from_room, remove_from_rooms, leave_all, leave,
  size,
}
use kenojs.Websocket.Rooms.Membership.{Linked}
use kenojs.Websocket.Rooms.Sessions.{Call, call_join, call_leave, on_call, on_calls, maps_agree}

rooms : Unit {0}
unfolding trim trim_start trim_end get set delete no_rooms normalize_room_name ensure_socket_cleanup
    insert_member add_member join drop_member unbind drop_room remove_socket_from_room
    remove_from_rooms leave_all leave size on_call on_calls
rooms = tt

-- Two sockets in the room "a", one of them in "b" too.
abbrev calls : List (Call ℕ)
calls =
    call_join (32 ∷ 97 ∷ []) 1 none
    ∷ call_join (97 ∷ 32 ∷ []) 2 (some 7)
    ∷ call_join (98 ∷ []) 1 none
    ∷ call_leave 2 (some (98 ∷ []))
    ∷ []

two_members : size (97 ∷ []) (on_calls no_rooms calls) ≡ some 2
unfolding rooms
two_members = refl

maps_agree_example : Linked (on_calls no_rooms calls)
maps_agree_example = maps_agree calls
