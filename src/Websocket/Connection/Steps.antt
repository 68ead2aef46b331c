-- ===== src/Websocket/Connection/Steps.antt =====
-- The life of a `KenoWebSocket` of connection.ts as a sequence of inputs: what the raw socket, the
-- timer and the compressor report, and the methods that the application calls.
use kenojs.Prelude.{ℕ, String, Bool, true, false, List, [], ◌∷◌, ltb, ◌==◌, ◌||◌, if◌then◌else◌}
use kenojs.Websocket.Frame.{Bytes}
use kenojs.Websocket.Connection.State.{
  Env, Options, Failure, Event, emit, State, connecting, closing, closed, Outcome, ok, fails,
  effect, emit_error,
}
use kenojs.Websocket.Connection.State
use kenojs.Websocket.Connection.Outgoing
use kenojs.Websocket.Connection.Incoming

pub data Input : Type 0 where
  chunk : Bytes → Input
  raw_drain raw_close raw_end raw_finish : Input
  raw_error : Failure → Input
  send_text : String → Input
  send_binary ping pong : Bytes → Input
  close : (code : ℕ) (reason : String) → Input
  terminate pause resume close_timeout : Input
  compressed : (payload : Bytes) (was_compressed wrote : Bool) → Input
  drained : Input
  flush_failed : Failure → Input

-- A method that throws leaves the state that it has reached.
abbrev pub after : Outcome → State
after (ok s) = s
after (fails s e) = s

unfoldable pub handle_end : Options → State → State
handle_end options s =
    Incoming.handle_close options
      (if ltb s.ready_state closing then record s { ready_state = closing } else s)

unfoldable pub handle_finish : Options → State → State
handle_finish options s = if ltb s.ready_state closing then s else Incoming.handle_close options s

unfoldable pub pause_socket : State → State
pause_socket s =
    if s.ready_state == closed || s.ready_state == connecting
    then s
    else record (effect State.pause s) { paused = true }

unfoldable pub resume_socket : State → State
resume_socket s =
    if s.ready_state == closed || s.ready_state == connecting
    then s
    else record (effect State.resume s) { paused = false }

module _ (env : Env) (options : Options) where
  unfoldable pub step : State → Input → State
  step s (chunk bytes) = Incoming.handle_chunk env options bytes s
  step s raw_drain = effect (emit State.drain) s
  step s raw_close = Incoming.handle_close options s
  step s raw_end = handle_end options s
  step s raw_finish = handle_finish options s
  step s (raw_error e) = emit_error env e s
  step s (send_text payload) = after (Outgoing.send_text env options payload s)
  step s (send_binary payload) = after (Outgoing.send_binary env options payload s)
  step s (ping payload) = after (Outgoing.ping env options payload s)
  step s (pong payload) = after (Outgoing.pong env options payload s)
  step s (close code reason) = after (Outgoing.close env options code reason s)
  step s terminate = Outgoing.terminate options s
  step s pause = pause_socket s
  step s resume = resume_socket s
  step s close_timeout = Outgoing.terminate options s
  step s (compressed payload was_compressed wrote) =
      Outgoing.flush_compressed env options payload was_compressed wrote s
  step s drained = Outgoing.flush_drained options s
  step s (flush_failed e) = Outgoing.flush_failed env options e s

  unfoldable pub run : State → List Input → State
  run s [] = s
  run s (i ∷ is) = run (step s i) is
