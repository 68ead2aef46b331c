-- ===== src/Websocket/Heartbeat/Silence.antt =====
-- What ticks of heartbeat.ts do to sockets that do not answer.
use kenojs.Prelude.{
  ℕ, ◌+◌, ◌≤◌, ◌<◌, ◌≡◌, refl, Bool, true, false, not, ◌||◌, Option, none, some, List, [], ◌∷◌,
  ◌==◌, ==_iff, leb, if_rule, All, arith,
}
use kenojs.Websocket.Heartbeat.{
  HeartbeatOptions, HeartbeatState, Signal, close_socket, terminate_socket, Heartbeat, Sockets,
  end_socket, tick_socket, keep, tick_all, tick,
}

-- The entry's socket is open and has been pinged, and has until later than `now` to answer.
abbrev pub Waits : Sockets → ℕ → ℕ × HeartbeatState → Type 0
Waits sockets now (socket, state) =
    (sockets.is_open socket ≡ true) × (state.awaiting_pong ≡ true) × (now < state.deadline_at)

abbrev pub ends : ℕ → Signal → Bool
ends s (close_socket t code reason) = t == s
ends s (terminate_socket t) = t == s
ends s _ = false

-- Whether a socket was closed or terminated.
abbrev pub ended : ℕ → List Signal → Bool
ended s [] = false
ended s (e ∷ log) = ends s e || ended s log

module _ (options : HeartbeatOptions) (sockets : Sockets) where
  keep-All :
      (now : ℕ) (P : ℕ × HeartbeatState → Type 0) (s : ℕ) (o : Option HeartbeatState)
      (m : List (ℕ × HeartbeatState))
      → ((state : HeartbeatState) → o ≡ some state → P (s, state))
      → All P m
      → All P (keep options sockets now s o m)
  keep-All now P s none m h v = v
  keep-All now P s (some state) m h v = (h state refl, v)

  tick_socket-Waits :
      (now s : ℕ) (state kept : HeartbeatState) (log : List Signal)
      → 1 ≤ options.timeout_ms
      → (tick_socket options sockets now s state log).0 ≡ some kept
      → Waits sockets now (s, kept)
  unfolding tick_socket
  tick_socket-Waits now s state kept log t e =
      let Stays = λ (r : Option HeartbeatState × List Signal).
        (k : HeartbeatState) → r.0 ≡ some k → Waits sockets now (s, k) in
      let stays : Stays (tick_socket options sockets now s state log) =
        if_rule Stays (not (sockets.is_open s)) (λ a k e. cc)
          (λ a.
            if_rule Stays state.awaiting_pong
              (λ b. if_rule Stays (leb state.deadline_at now) (λ c k e. cc) (λ c k e. ground arith))
              (λ b. if_rule Stays (sockets.ping_throws s) (λ c k e. cc) (λ c k e. ground arith))) in
      stays kept e

  tick_all-Waits :
      (now : ℕ) (m : List (ℕ × HeartbeatState)) (log : List Signal)
      → 1 ≤ options.timeout_ms
      → All (Waits sockets now) (tick_all options sockets now m log).states
  unfolding tick_all
  tick_all-Waits now [] log t = tt
  tick_all-Waits now ((s, state) ∷ m) log t =
      let round = tick_socket options sockets now s state log in
      keep-All now (Waits sockets now) s round.0 (tick_all options sockets now m round.1).states
        (λ kept e. tick_socket-Waits now s state kept log t e) (tick_all-Waits now m round.1 t)

  -- With a time to answer that is not zero, what a tick leaves is tracked sockets that are open, were pinged, and have
  -- time left.
  pub tick-Waits :
      (now : ℕ) (h : Heartbeat)
      → 1 ≤ options.timeout_ms
      → All (Waits sockets now) (tick options sockets now h).states
  unfolding tick
  tick-Waits now h t = tick_all-Waits now h.states h.log t

  -- Deadlines are never further away than the time to answer.
  abbrev pub Near : ℕ → ℕ × HeartbeatState → Type 0
  Near now (socket, state) = state.deadline_at ≤ now + options.timeout_ms

  tick_socket-Near :
      (now s : ℕ) (state kept : HeartbeatState) (log : List Signal)
      → Near now (s, state)
      → (tick_socket options sockets now s state log).0 ≡ some kept
      → Near now (s, kept)
  unfolding tick_socket
  tick_socket-Near now s state kept log n e =
      let Stays = λ (r : Option HeartbeatState × List Signal).
        (k : HeartbeatState) → r.0 ≡ some k → Near now (s, k) in
      let stays : Stays (tick_socket options sockets now s state log) =
        if_rule Stays (not (sockets.is_open s)) (λ a k e. cc)
          (λ a.
            if_rule Stays state.awaiting_pong
              (λ b. if_rule Stays (leb state.deadline_at now) (λ c k e. cc) (λ c k e. ground arith))
              (λ b. if_rule Stays (sockets.ping_throws s) (λ c k e. cc) (λ c k e. ground arith))) in
      stays kept e

  pub tick_all-Near :
      (now : ℕ) (m : List (ℕ × HeartbeatState)) (log : List Signal)
      → All (Near now) m
      → All (Near now) (tick_all options sockets now m log).states
  unfolding tick_all
  tick_all-Near now [] log n = tt
  tick_all-Near now ((s, state) ∷ m) log (n, ns) =
      let round = tick_socket options sockets now s state log in
      keep-All now (Near now) s round.0 (tick_all options sockets now m round.1).states
        (λ kept e. tick_socket-Near now s state kept log n e) (tick_all-Near now m round.1 ns)

  -- The entry's socket has been pinged, and its time is over.
  abbrev pub Overdue : ℕ → ℕ × HeartbeatState → Type 0
  Overdue now (socket, state) = (state.awaiting_pong ≡ true) × (state.deadline_at ≤ now)

  late_dropped :
      (now s : ℕ) (state : HeartbeatState) (log : List Signal)
      → Overdue now (s, state)
      → (tick_socket options sockets now s state log).0 ≡ none
  unfolding tick_socket
  late_dropped now s state log o = ground arith

  late_ended :
      (now s : ℕ) (state : HeartbeatState) (log : List Signal)
      → Overdue now (s, state)
      → sockets.is_open s ≡ true
      → ended s (tick_socket options sockets now s state log).1 ≡ true
  unfolding tick_socket end_socket
  late_ended now s state log o e = ground (arith, ==_iff s s)

  ended-tick_socket :
      (now s t : ℕ) (state : HeartbeatState) (log : List Signal)
      → ended t log ≡ true
      → ended t (tick_socket options sockets now s state log).1 ≡ true
  unfolding tick_socket end_socket
  ended-tick_socket now s t state log e = ground arith

  ended-tick_all :
      (now t : ℕ) (m : List (ℕ × HeartbeatState)) (log : List Signal)
      → ended t log ≡ true
      → ended t (tick_all options sockets now m log).log ≡ true
  unfolding tick_all
  ended-tick_all now t [] log e = e
  ended-tick_all now t ((s, state) ∷ m) log e =
      ended-tick_all now t m _ (ended-tick_socket now s t state log e)

  -- A tick untracks the sockets whose time is over, and ends those of them that are open.
  pub late_tick :
      (now : ℕ) (m : List (ℕ × HeartbeatState)) (log : List Signal)
      → All (Overdue now) m
      → let after = tick_all options sockets now m log in
        (after.states ≡ []) × All (λ e. sockets.is_open e.0 ≡ true → ended e.0 after.log ≡ true) m
  unfolding tick_all
  late_tick now [] log o = (refl, tt)
  late_tick now ((s, state) ∷ m) log (o, os) =
      let round = tick_socket options sockets now s state log in
      let others = late_tick now m round.1 os in
      (
        rw (late_dropped now s state log o, others.0),
        (λ e. ended-tick_all now s m round.1 (late_ended now s state log o e), others.1),
      )

Waits-Overdue :
    (options : HeartbeatOptions) (sockets : Sockets) (first second : ℕ)
    (m : List (ℕ × HeartbeatState))
    → first + options.timeout_ms ≤ second
    → All (Waits sockets first) m
    → All (Near options sockets first) m
    → All (Overdue options sockets second) m
Waits-Overdue options sockets first second [] h w n = tt
Waits-Overdue options sockets first second ((s, state) ∷ m) h (w, ws) (n, ns) =
    ((w.1, omega arith), Waits-Overdue options sockets first second m h ws ns)

-- Where no pong arrives between two ticks that are at least the time to answer apart, that time is
-- not zero, and no deadline is further than that time after the first tick, the second tick untracks
-- every socket that the first one left, and closes or terminates those of them that are still open.
pub silence_ends :
    (options : HeartbeatOptions) (before later : Sockets) (first second : ℕ) (h : Heartbeat)
    → 1 ≤ options.timeout_ms
    → All (Near options before first) h.states
    → first + options.timeout_ms ≤ second
    → let pinged = tick options before first h in
      let after = tick options later second pinged in
      (after.states ≡ [])
      × All (λ e. later.is_open e.0 ≡ true → ended e.0 after.log ≡ true) pinged.states
unfolding tick
silence_ends options before later first second h t n d =
    let pinged = tick_all options before first h.states h.log in
    let overdue =
      Waits-Overdue options before first second pinged.states d
        (tick-Waits options before first h t)
        (tick_all-Near options before first h.states h.log n) in
    late_tick options later second pinged.states pinged.log overdue
