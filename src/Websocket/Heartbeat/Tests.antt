-- ===== src/Websocket/Heartbeat/Tests.antt =====
-- Runs of the heartbeat, and the theorems about it at concrete inputs.
use kenojs.Prelude.{◌≡◌, refl, true, false, none, some, [], All, ◌==◌, arith, ℕ_key}
use kenojs.Prelude.Maps.{get, set, delete}
use kenojs.Websocket.Heartbeat.{
  HeartbeatOptions, Heartbeat, Sockets, make_options, track, untrack, on_pong, end_socket,
  tick_socket, tick_all, tick,
}
use kenojs.Websocket.Heartbeat.Silence.{ended, silence_ends}

heartbeat : Unit {0}
unfolding make_options track untrack on_pong end_socket tick_socket tick_all tick get set delete
heartbeat = tt

abbrev options : HeartbeatOptions
options = record {
  close_code = 1001;
  close_reason = "Heartbeat timeout";
  interval_ms = 30000;
  timeout_ms = 10000;
  payload = none;
}

-- Every socket is open, and the close of the second throws.
abbrev sockets : Sockets
sockets = record { is_open = λ _. true; close_throws = λ s. s == 2; ping_throws = λ _. false }

abbrev tracked : Heartbeat
tracked = track 2 (track 1 (record { states = []; log = [] }))

-- The first socket answers, and is still tracked after the second tick.
answered :
    get 1 (tick options sockets 31000 (on_pong 1 (tick options sockets 1000 tracked))).states
    ≡ some (record { awaiting_pong = true; deadline_at = 41000 })
unfolding heartbeat
answered = refl

silence_ends_example :
    ((tick options sockets 31000 (tick options sockets 1000 tracked)).states ≡ [])
    × All
        (λ e.
          true ≡ true
          → ended e.0 (tick options sockets 31000 (tick options sockets 1000 tracked)).log ≡ true)
        (tick options sockets 1000 tracked).states
unfolding heartbeat
silence_ends_example =
    silence_ends options sockets sockets 1000 31000 tracked (omega arith)
      (omega arith, (omega arith, tt)) (omega arith)
