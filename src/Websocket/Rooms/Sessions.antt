-- ===== src/Websocket/Rooms/Sessions.antt =====
-- The maps of rooms.ts over any calls of its methods.
use kenojs.Prelude.{ℕ, refl, Option, none, some, List, [], ◌∷◌, if_rule, Option_rule, ℕ_key}
use kenojs.Prelude.Text.{Text, text_key, is_empty}
use kenojs.Prelude.Maps.{get}
use kenojs.Websocket.Rooms.{Rooms, no_rooms, normalize_room_name, join, leave_all, leave}
use kenojs.Websocket.Rooms.Membership.{Linked, add_member-Linked, remove-Linked, leave_all-Linked}

-- The calls that change the rooms; the last one is the handler for a socket's "close".
pub data Call (M : Type 0) : Type 0 where
  call_join : Text → (socket : ℕ) → Option M → Call M
  call_leave : (socket : ℕ) → Option Text → Call M
  socket_closed : (socket : ℕ) → Call M

-- A call that throws has changed nothing.
abbrev pub or_else {ℓ} : {A : Type ℓ} → A → Option A → A
or_else a none = a
or_else a (some b) = b

module _ {M : Type 0} where
  unfoldable pub on_call : Rooms M → Call M → Rooms M
  on_call r (call_join room_name s meta) = or_else r (join room_name s meta r)
  on_call r (call_leave s room_name) = or_else r (leave s room_name r)
  on_call r (socket_closed s) = leave_all s r

  unfoldable pub on_calls : Rooms M → List (Call M) → Rooms M
  on_calls r [] = r
  on_calls r (c ∷ cs) = on_calls (on_call r c) cs

  join-Linked :
      (room_name : Text) (s : ℕ) (meta : Option M) (r : Rooms M)
      → Linked r
      → Linked (or_else r (join room_name s meta r))
  unfolding join
  join-Linked room_name s meta r v =
      Option_rule (λ o. Linked (or_else r o)) (normalize_room_name room_name) (λ e. v)
        (λ room e. add_member-Linked room s meta r v)

  leave-Linked :
      (s : ℕ) (room_name : Option Text) (r : Rooms M)
      → Linked r
      → Linked (or_else r (leave s room_name r))
  unfolding leave
  leave-Linked s none r v = leave_all-Linked s r v
  leave-Linked s (some room_name) r v =
      if_rule (λ o. Linked (or_else r o)) (is_empty room_name) (λ e. leave_all-Linked s r v)
        (λ e.
          Option_rule (λ o. Linked (or_else r o)) (normalize_room_name room_name) (λ f. v)
            (λ room f. remove-Linked s room r v))

  on_call-Linked : (r : Rooms M) (c : Call M) → Linked r → Linked (on_call r c)
  unfolding on_call
  on_call-Linked r (call_join room_name s meta) v = join-Linked room_name s meta r v
  on_call-Linked r (call_leave s room_name) v = leave-Linked s room_name r v
  on_call-Linked r (socket_closed s) v = leave_all-Linked s r v

  on_calls-Linked : (cs : List (Call M)) (r : Rooms M) → Linked r → Linked (on_calls r cs)
  unfolding on_calls
  on_calls-Linked [] r v = v
  on_calls-Linked (c ∷ cs) r v = on_calls-Linked cs (on_call r c) (on_call-Linked r c v)

  no_rooms-Linked : Linked {M = M} no_rooms
  unfolding no_rooms get
  no_rooms-Linked = record {
    agree = λ c d. refl;
    rooms_filled = λ a inner e. cc;
    sockets_filled = λ a inner e. cc;
    bound = λ s. refl;
  }

  -- After any calls of `join` and `leave` and any sockets that closed, the members of the rooms are
  -- those that the sockets' own sets name, no empty room or set is kept, and the handler for
  -- "close" is bound for just the sockets that are in a room.
  pub maps_agree : (cs : List (Call M)) → Linked (on_calls no_rooms cs)
  maps_agree cs = on_calls-Linked cs no_rooms no_rooms-Linked
