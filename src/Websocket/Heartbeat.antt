-- ===== src/Websocket/Heartbeat.antt =====
-- src/internal/websocket/heartbeat.ts: pings for the sockets that are tracked, and the end of those
-- that do not answer. Sockets are numbers; what they are told is an entry of a log, the newest first.
-- Whether a socket is open, and whether its `ping` or `close` throws, is a parameter of a tick.
pub mod Silence
mod Tests
use kenojs.Prelude.{
  ℕ, ◌+◌, String, Bool, true, false, not, Option, none, some, List, [], ◌∷◌, ◌++◌, leb,
  if◌then◌else◌, is_some, ℕ_key,
}
use kenojs.Prelude.Maps.{get, set, delete}
use kenojs.Prelude.Text.{Text}

pub record HeartbeatOptions : Type 0 where
  pub close_code : ℕ
  pub close_reason : String
  pub interval_ms : ℕ
  pub timeout_ms : ℕ
  pub payload : Option Text

-- `WebSocketHeartbeatOptions`, and what the constructor makes of it.
pub record GivenOptions : Type 0 where
  pub close_code : Option ℕ
  pub close_reason : Option String
  pub interval_ms : Option ℕ
  pub timeout_ms : Option ℕ
  pub payload : Option Text

abbrev pub default_to {ℓ} : {A : Type ℓ} → A → Option A → A
default_to d none = d
default_to d (some a) = a

unfoldable pub make_options : GivenOptions → HeartbeatOptions
make_options o = record {
  close_code = default_to 1001 o.close_code;
  close_reason = default_to "Heartbeat timeout" o.close_reason;
  interval_ms = default_to 30000 o.interval_ms;
  timeout_ms = default_to 10000 o.timeout_ms;
  payload = o.payload;
}

pub record HeartbeatState : Type 0 where
  pub awaiting_pong : Bool
  pub deadline_at : ℕ

pub data Signal : Type 0 where
  -- The listeners for "pong" and "close".
  listen unlisten : (socket : ℕ) → Signal
  send_ping : (socket : ℕ) → Text → Signal
  close_socket : (socket code : ℕ) (reason : String) → Signal
  terminate_socket : (socket : ℕ) → Signal
  clear_interval : Signal

pub record Heartbeat : Type 0 where
  pub states : List (ℕ × HeartbeatState)
  pub log : List Signal

-- What a socket's own methods do when the timer fires.
pub record Sockets : Type 0 where
  pub is_open : ℕ → Bool
  pub close_throws : ℕ → Bool
  pub ping_throws : ℕ → Bool

unfoldable pub track : ℕ → Heartbeat → Heartbeat
track socket h = if is_some (get socket h.states) then h else record {
  states = set socket (record { awaiting_pong = false; deadline_at = 0 }) h.states;
  log = listen socket ∷ h.log;
}

unfoldable pub untrack : ℕ → Heartbeat → Heartbeat
untrack socket h =
    if is_some (get socket h.states)
    then record { states = delete socket h.states; log = unlisten socket ∷ h.log }
    else h

unfoldable pub on_pong : ℕ → Heartbeat → Heartbeat
on_pong socket h = elim (get socket h.states) [
  | none ↦ h
  | some state ↦ record h { states = set socket (record state { awaiting_pong = false }) h.states }
]

abbrev pub untrack_all : List (ℕ × HeartbeatState) → Heartbeat → Heartbeat
untrack_all [] h = h
untrack_all ((socket, state) ∷ states) h = untrack_all states (untrack socket h)

unfoldable pub close : Heartbeat → Heartbeat
close h = untrack_all h.states (record h { log = clear_interval ∷ h.log })

module _ (options : HeartbeatOptions) (sockets : Sockets) (now : ℕ) where
  -- The end of a socket whose deadline has passed.
  unfoldable pub end_socket : ℕ → List Signal → List Signal
  end_socket socket log =
      if sockets.close_throws socket
      then terminate_socket socket ∷ log
      else close_socket socket options.close_code options.close_reason ∷ log

  -- One round of the loop of `tick`: the entry, if it stays, and the log.
  unfoldable pub tick_socket :
      ℕ → HeartbeatState → List Signal → Option HeartbeatState × List Signal
  tick_socket socket state log =
      if not (sockets.is_open socket)
      then (none, unlisten socket ∷ log)
      else if state.awaiting_pong
      then if leb state.deadline_at now
        then (none, end_socket socket (unlisten socket ∷ log))
        else (some state, log)
      else if sockets.ping_throws socket
      then (none, unlisten socket ∷ log)
      else (
        some (record { awaiting_pong = true; deadline_at = now + options.timeout_ms }),
        send_ping socket (default_to [] options.payload) ∷ log,
      )

  abbrev pub keep :
      ℕ → Option HeartbeatState → List (ℕ × HeartbeatState) → List (ℕ × HeartbeatState)
  keep socket none states = states
  keep socket (some state) states = (socket, state) ∷ states

  -- The loop over the map; a round changes or deletes its own entry only.
  unfoldable pub tick_all : List (ℕ × HeartbeatState) → List Signal → Heartbeat
  tick_all [] log = record { states = []; log = log }
  tick_all ((socket, state) ∷ states) log =
      let round = tick_socket socket state log in
      let others = tick_all states round.1 in
      record others { states = keep socket round.0 others.states }

  unfoldable pub tick : Heartbeat → Heartbeat
  tick h = tick_all h.states h.log
