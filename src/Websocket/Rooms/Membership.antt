-- ===== src/Websocket/Rooms/Membership.antt =====
-- The two directions of membership in rooms.ts.
use kenojs.Prelude.{
  ℕ, ◌≡◌, refl, sym, ◌∙◌, ap, subst, not, ◌&&◌, ◌||◌, Option, List, [], ◌∷◌, is_some, if_rule,
  Option_rule, arith, ℕ_key, ◌==◌, ==_iff,
}
use kenojs.Prelude.Maps.{get, set, delete, get-set, get-delete}
use kenojs.Prelude.Text.{Text, same_text, text_key, is_empty}
use kenojs.Websocket.Rooms.{
  Rooms, or_new, ensure_socket_cleanup, add_member, insert_member, drop_member, unbind, drop_room,
  remove_socket_from_room, remove_from_rooms, leave_all,
}
use kenojs.Websocket.Rooms.Nested.{
  has, has-set, has-absent, has-drop_entry, Filled, set-Filled, delete-Filled, insert-Filled,
  drop_entry-Filled, is_some-set,
}

module _ {M : Type 0} where
  -- The two maps agree, neither keeps an empty room or socket, and a socket's handler for "close"
  -- is bound just while it is in a room.
  pub record Linked (r : Rooms M) : Type 0 where
    pub agree : (room : Text) (s : ℕ) → has room s r.rooms ≡ has s room r.socket_rooms
    pub rooms_filled : Filled r.rooms
    pub sockets_filled : Filled r.socket_rooms
    pub bound : (s : ℕ) → is_some (get s r.close_bindings) ≡ is_some (get s r.socket_rooms)

  ensure_bound :
      (s t : ℕ) (r : Rooms M)
      → is_some (get t (ensure_socket_cleanup s r).close_bindings)
        ≡ ((s == t) || is_some (get t r.close_bindings))
  unfolding ensure_socket_cleanup
  ensure_bound s t r =
      if_rule
        (λ (q : Rooms M).
          is_some (get t q.close_bindings) ≡ ((s == t) || is_some (get t r.close_bindings)))
        (is_some (get s r.close_bindings)) (λ e. ground (arith, ==_iff s t))
        (λ e. ground (arith, get-set s t tt r.close_bindings))

  ensure_rooms :
      (s : ℕ) (r : Rooms M)
      → ((ensure_socket_cleanup s r).rooms ≡ r.rooms)
        × ((ensure_socket_cleanup s r).socket_rooms ≡ r.socket_rooms)
  unfolding ensure_socket_cleanup
  ensure_rooms s r =
      if_rule (λ (q : Rooms M). (q.rooms ≡ r.rooms) × (q.socket_rooms ≡ r.socket_rooms))
        (is_some (get s r.close_bindings)) (λ e. (refl, refl)) (λ e. (refl, refl))

  pub add_member-Linked :
      (room : Text) (s : ℕ) (meta : Option M) (r : Rooms M)
      → Linked r
      → Linked (add_member room s meta r)
  unfolding add_member insert_member
  add_member-Linked room s meta r v =
      let joined = insert_member room s meta r in
      let kept = ensure_rooms s joined in
      record {
        agree = λ c d. ground (
          arith,
          ap (λ m. has c d m) kept.0,
          ap (λ m. has d c m) kept.1,
          has-set room c s d meta r.rooms,
          has-set s d room c tt r.socket_rooms,
          v.agree c d,
        );
        rooms_filled = subst Filled (sym kept.0) (insert-Filled room s meta r.rooms v.rooms_filled);
        sockets_filled =
            subst Filled (sym kept.1) (insert-Filled s room tt r.socket_rooms v.sockets_filled);
        bound = λ t. ground (
          arith,
          ensure_bound s t joined,
          ap (λ m. is_some (get t m)) kept.1,
          v.bound t,
          is_some-set s t (set room tt (or_new (get s r.socket_rooms))) r.socket_rooms,
        );
      }

  pub unbind-bound :
      (s t : ℕ) (r : Rooms M)
      → is_some (get t (unbind s r).close_bindings)
        ≡ (not (s == t) && is_some (get t r.close_bindings))
  unfolding unbind
  unbind-bound s t r =
      if_rule
        (λ (q : Rooms M).
          is_some (get t q.close_bindings) ≡ (not (s == t) && is_some (get t r.close_bindings)))
        (is_some (get s r.close_bindings)) (λ e. ground (arith, get-delete s t r.close_bindings))
        (λ e. ground (arith, ==_iff s t))

  -- What removing a socket from a room does to the two maps.
  has-drop_member :
      (s d : ℕ) (room c : Text) (r : Rooms M)
      → has c d (drop_member s room r).rooms
        ≡ (has c d r.rooms && not (same_text room c && (s == d)))
  unfolding drop_member
  has-drop_member s d room c r =
      Option_rule
        (λ (q : Rooms M). has c d q.rooms ≡ (has c d r.rooms && not (same_text room c && (s == d))))
        (get room r.rooms) (λ e. has-absent room c s d r.rooms e)
        (λ inner e. has-drop_entry room c s d inner r.rooms e)

  drop_member-Filled :
      (s : ℕ) (room : Text) (r : Rooms M) → Filled r.rooms → Filled (drop_member s room r).rooms
  unfolding drop_member
  drop_member-Filled s room r f =
      Option_rule (λ (q : Rooms M). Filled q.rooms) (get room r.rooms) (λ e. f)
        (λ inner e. drop_entry-Filled room s inner r.rooms f)

  drop_member-others :
      (s : ℕ) (room : Text) (r : Rooms M)
      → ((drop_member s room r).socket_rooms ≡ r.socket_rooms)
        × ((drop_member s room r).close_bindings ≡ r.close_bindings)
  unfolding drop_member
  drop_member-others s room r =
      Option_rule
        (λ (q : Rooms M). (q.socket_rooms ≡ r.socket_rooms) × (q.close_bindings ≡ r.close_bindings))
        (get room r.rooms) (λ e. (refl, refl)) (λ inner e. (refl, refl))

  unbind-others :
      (s : ℕ) (r : Rooms M)
      → ((unbind s r).socket_rooms ≡ r.socket_rooms) × ((unbind s r).rooms ≡ r.rooms)
  unfolding unbind
  unbind-others s r =
      if_rule (λ (q : Rooms M). (q.socket_rooms ≡ r.socket_rooms) × (q.rooms ≡ r.rooms))
        (is_some (get s r.close_bindings)) (λ e. (refl, refl)) (λ e. (refl, refl))

  -- What `drop_room` leaves.
  record DropsRoom (s : ℕ) (room : Text) (r q : Rooms M) : Type 0 where
    same_rooms : q.rooms ≡ r.rooms
    dropped :
        (d : ℕ) (c : Text)
        → has d c q.socket_rooms ≡ (has d c r.socket_rooms && not ((s == d) && same_text room c))
    filled : Filled r.socket_rooms → Filled q.socket_rooms
    still_bound :
        ((t : ℕ) → is_some (get t r.close_bindings) ≡ is_some (get t r.socket_rooms))
        → (t : ℕ) → is_some (get t q.close_bindings) ≡ is_some (get t q.socket_rooms)

  drop_room-DropsRoom :
      (s : ℕ) (room : Text) (r : Rooms M) → DropsRoom s room r (drop_room s room r)
  unfolding drop_room
  drop_room-DropsRoom s room r =
      Option_rule (DropsRoom s room r) (get s r.socket_rooms)
        (λ e. record {
          same_rooms = refl;
          dropped = λ d c. has-absent s d room c r.socket_rooms e;
          filled = λ f. f;
          still_bound = λ f. f;
        })
        (λ assigned e.
          if_rule (DropsRoom s room r) (is_empty (delete room assigned))
            (λ f.
              let emptied = record r { socket_rooms = delete s r.socket_rooms } in
              let others = unbind-others s emptied in
              record {
                same_rooms = others.1;
                dropped = λ d c. ground (
                  arith,
                  f,
                  has-drop_entry s d room c assigned r.socket_rooms e,
                  ap (λ m. has d c m) others.0,
                );
                filled = λ g. subst Filled (sym others.0) (delete-Filled s r.socket_rooms g);
                still_bound = λ g t. ground (
                  arith,
                  unbind-bound s t emptied,
                  ap (λ m. is_some (get t m)) others.0,
                  g t,
                  get-delete s t r.socket_rooms,
                );
              })
            (λ f. record {
              same_rooms = refl;
              dropped =
                  λ d c. ground (arith, f, has-drop_entry s d room c assigned r.socket_rooms e);
              filled = λ g. set-Filled s (delete room assigned) r.socket_rooms f g;
              still_bound =
                  λ g t. ground (arith, g t, is_some-set s t (delete room assigned) r.socket_rooms);
            }))

  pub remove-Linked :
      (s : ℕ) (room : Text) (r : Rooms M) → Linked r → Linked (remove_socket_from_room s room r)
  unfolding remove_socket_from_room
  remove-Linked s room r v =
      let first = drop_member s room r in
      let same = drop_member-others s room r in
      let second = drop_room-DropsRoom s room first in
      record {
        agree = λ c d. ground (
          arith,
          ap (λ m. has c d m) second.same_rooms,
          second.dropped d c,
          has-drop_member s d room c r,
          ap (λ m. has d c m) same.0,
          v.agree c d,
        );
        rooms_filled =
            subst Filled (sym second.same_rooms) (drop_member-Filled s room r v.rooms_filled);
        sockets_filled = second.filled (subst Filled (sym same.0) v.sockets_filled);
        bound = second.still_bound (λ t. ground (
          arith,
          ap (λ m. is_some (get t m)) same.0,
          ap (λ m. is_some (get t m)) same.1,
          v.bound t,
        ));
      }

  has-remove :
      (s d : ℕ) (room c : Text) (r : Rooms M)
      → has c d (remove_socket_from_room s room r).rooms
        ≡ (has c d r.rooms && not (same_text room c && (s == d)))
  unfolding remove_socket_from_room
  has-remove s d room c r =
      ap (λ m. has c d m) (drop_room-DropsRoom s room (drop_member s room r)).same_rooms
      ∙ has-drop_member s d room c r

  remove_from_rooms-Linked :
      (s : ℕ) (list : List (Text × Unit)) (r : Rooms M)
      → Linked r
      → Linked (remove_from_rooms s list r)
  unfolding remove_from_rooms
  remove_from_rooms-Linked s [] r v = v
  remove_from_rooms-Linked s ((room, u) ∷ list) r v =
      remove_from_rooms-Linked s list (remove_socket_from_room s room r) (remove-Linked s room r v)

  has-remove_from_rooms :
      (s d : ℕ) (c : Text) (list : List (Text × Unit)) (r : Rooms M)
      → has c d (remove_from_rooms s list r).rooms
        ≡ (has c d r.rooms && not (is_some (get c list) && (s == d)))
  unfolding remove_from_rooms get
  has-remove_from_rooms s d c [] r = ground arith
  has-remove_from_rooms s d c ((room, u) ∷ list) r = ground (
    arith,
    has-remove_from_rooms s d c list (remove_socket_from_room s room r),
    has-remove s d room c r,
  )

  pub leave_all-Linked : (s : ℕ) (r : Rooms M) → Linked r → Linked (leave_all s r)
  unfolding leave_all
  leave_all-Linked s r v =
      Option_rule Linked (get s r.socket_rooms) (λ e. v)
        (λ list e. remove_from_rooms-Linked s list r v)

  -- While the maps agree, `leave` without a room takes the socket out of every room, and no other
  -- socket out of any.
  pub leave_all-leaves :
      (s d : ℕ) (c : Text) (r : Rooms M)
      → Linked r
      → has c d (leave_all s r).rooms ≡ (has c d r.rooms && not (s == d))
  unfolding leave_all get
  leave_all-leaves s d c r v =
      Option_rule (λ (q : Rooms M). has c d q.rooms ≡ (has c d r.rooms && not (s == d)))
        (get s r.socket_rooms) (λ e. ground (arith, v.agree c s, ==_iff s d))
        (λ list e. ground (arith, v.agree c s, ==_iff s d, has-remove_from_rooms s d c list r))
