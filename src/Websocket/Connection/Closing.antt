-- ===== src/Websocket/Connection/Closing.antt =====
-- The close handshake of connection.ts over every sequence of inputs.
use kenojs.Prelude.{
  ℕ, ◌+◌, ◌≤◌, ◌≡◌, refl, ◌⊎◌, String, Bool, true, false, none, some, List, [], ◌∷◌, ◌++◌, is_some,
  arith, inl, inr, Option-cases,
}
use kenojs.Websocket.Frame.{build_frame, Bytes, ParsedFrame, WebSocketProtocolError}
use kenojs.Websocket.Connection.State.{
  Env, Options, Failure, Effect, write, emit, close_frame, data_frame, State, fresh, Outcome, ok,
  fails, ◌>>=◌, emit_error,
}
use kenojs.Websocket.Connection.State
use kenojs.Websocket.Connection.Outgoing.{
  flush_finally, flush_loop, flush_compressed_queue, write_close_frame,
  has_pending_compressed_frames,
}
use kenojs.Websocket.Connection.Outgoing
use kenojs.Websocket.Connection.Incoming
use kenojs.Websocket.Connection.Rounds.{with_buffer, Reaches, parse_frames_rule}
use kenojs.Websocket.Connection.Steps.{Input, step, run, after, handle_end, handle_finish}
use kenojs.Websocket.Connection.Steps
use kenojs.Websocket.Frame.Opcodes

abbrev pub sent_of : Effect → ℕ
sent_of (write close_frame bytes) = 1
sent_of _ = 0

-- The close frames that were written.
abbrev pub close_frames : List Effect → ℕ
close_frames [] = 0
close_frames (e ∷ log) = sent_of e + close_frames log

abbrev pub reported_of : Effect → ℕ
reported_of (emit (State.close code reason clean)) = 1
reported_of _ = 0

-- The "close" events that were emitted.
abbrev pub close_events : List Effect → ℕ
close_events [] = 0
close_events (e ∷ log) = reported_of e + close_events log

abbrev pub once : Bool → ℕ
once true = 1
once false = 0

-- No data frame was written after a close frame; the log has the newest entry first.
abbrev pub IsOrdered : List Effect → Type 0
IsOrdered [] = Unit
IsOrdered (write data_frame bytes ∷ log) = (close_frames log ≡ 0) × IsOrdered log
IsOrdered (_ ∷ log) = IsOrdered log

pub record Inv (options : Options) (s : State) : Type 0 where
  pub sent_closing : s.has_sent_close_frame ≡ true → 2 ≤ s.ready_state
  pub pending_unsent : is_some s.pending_close_frame ≡ true → s.has_sent_close_frame ≡ false
  pub pending_closing : is_some s.pending_close_frame ≡ true → 2 ≤ s.ready_state
  pub frames : close_frames s.log ≡ once s.has_sent_close_frame
  pub events : close_events s.log ≡ once s.has_reported_close
  pub ordered : options.per_message_deflate ≡ false → IsOrdered s.log
  pub idle : options.per_message_deflate ≡ false → s.flush ≡ State.idle

with_buffer-Inv :
    {options : Options} (b : Bytes) (s : State) → Inv options s → Inv options (with_buffer b s)
with_buffer-Inv b s v = ground arith

destroy_raw-Inv :
    {options : Options} (s : State) → Inv options s → Inv options (State.destroy_raw s)
destroy_raw-Inv s v = ground arith

module _ (options : Options) where
  flush_finally-Inv : (s : State) → Inv options s → Inv options (flush_finally options s)
  unfolding flush_finally write_close_frame
  flush_finally-Inv s v = ground arith

  flush_loop-Inv : (s : State) → Inv options s → Inv options (flush_loop options s)
  unfolding flush_loop
  flush_loop-Inv s v = ground (arith, flush_finally-Inv s v)

  flush_compressed_queue-Inv :
      (s : State) → Inv options s → Inv options (flush_compressed_queue options s)
  unfolding flush_compressed_queue
  flush_compressed_queue-Inv s v =
      ground (arith, flush_loop-Inv (record s { flushing_compressed_queue = true }))

  terminate-Inv : (s : State) → Inv options s → Inv options (Outgoing.terminate options s)
  unfolding Outgoing.terminate
  terminate-Inv s v = ground arith

  handle_close-Inv : (s : State) → Inv options s → Inv options (Incoming.handle_close options s)
  unfolding Incoming.handle_close
  handle_close-Inv s v = ground arith

  flush_drained-Inv : (s : State) → Inv options s → Inv options (Outgoing.flush_drained options s)
  unfolding Outgoing.flush_drained
  flush_drained-Inv s v = ground (arith, flush_loop-Inv s v)

module _ (env : Env) (options : Options) where
  emit_error-Inv : (e : Failure) (s : State) → Inv options s → Inv options (emit_error env e s)
  unfolding emit_error
  emit_error-Inv e s v = ground arith

  flush_failed-Inv :
      (e : Failure) (s : State)
      → Inv options s
      → Inv options (Outgoing.flush_failed env options e s)
  unfolding Outgoing.flush_failed
  flush_failed-Inv e s v = ground (
    arith,
    emit_error-Inv e s v,
    flush_finally-Inv options (State.destroy_raw (emit_error env e s)),
  )

  write_data_frame-Inv :
      (opcode : ℕ) (payload : Bytes) (compressed : Bool) (s : State)
      → (options.per_message_deflate ≡ true) ⊎ (s.ready_state ≡ 1)
      → Inv options s
      → Inv options (Outgoing.write_data_frame env opcode payload compressed s)
  unfolding Outgoing.write_data_frame
  write_data_frame-Inv opcode payload compressed s h v = ground arith

  flush_written-Inv :
      (frame : State.PendingCompressedFrame) (payload : Bytes) (compressed wrote : Bool) (s : State)
      → options.per_message_deflate ≡ true
      → Inv options s
      → Inv options (Outgoing.flush_written env options frame payload compressed wrote s)
  unfolding Outgoing.flush_written
  flush_written-Inv frame payload compressed wrote s h v =
      let s' = record s { compressed_queue_index = s.compressed_queue_index + 1 } in
      let written = Outgoing.write_data_frame env frame.opcode payload compressed s' in
      let kept = write_data_frame-Inv frame.opcode payload compressed s' (inl h) (ground arith) in
      ground (arith, kept, flush_loop-Inv options written kept)

  flush_compressed-Inv :
      (payload : Bytes) (compressed wrote : Bool) (s : State)
      → Inv options s
      → Inv options (Outgoing.flush_compressed env options payload compressed wrote s)
  unfolding Outgoing.flush_compressed
  flush_compressed-Inv payload compressed wrote s v = go s.flush refl
    where
      go :
          (f : State.Flush)
          → s.flush ≡ f
          → Inv options (elim f [
            | State.compressing frame ↦
                Outgoing.flush_written env options frame payload compressed wrote s
            | _ ↦ s
          ])
      go (State.compressing frame) e =
          flush_written-Inv frame payload compressed wrote s (ground arith) v
      go _ e = v

  write_frame-Inv :
      (opcode : ℕ) (payload : Bytes) (s : State)
      → (options.per_message_deflate ≡ true) ⊎ (s.ready_state ≡ 1)
      → Inv options s
      → Inv options (Outgoing.write_frame env options opcode payload s)
  unfolding Outgoing.write_frame Outgoing.enqueue_compressed_frame
  write_frame-Inv opcode payload s h v = ground (
    arith,
    write_data_frame-Inv opcode payload false s,
    flush_compressed_queue-Inv options (record s {
      compressed_queue = s.compressed_queue ++ (record { opcode = opcode; payload = payload }) ∷ [];
    }),
  )

  send_text-Inv :
      (payload : String) (s : State)
      → Inv options s
      → Inv options (after (Outgoing.send_text env options payload s))
  unfolding Outgoing.send_text Outgoing.assert_open Outgoing.write_text_frame
  send_text-Inv payload s v = ground (arith, write_frame-Inv Opcodes.text (env.from_text payload) s)

  send_binary-Inv :
      (payload : Bytes) (s : State)
      → Inv options s
      → Inv options (after (Outgoing.send_binary env options payload s))
  unfolding Outgoing.send_binary Outgoing.assert_open
  send_binary-Inv payload s v = ground (arith, write_frame-Inv Opcodes.binary payload s)

  ping-Inv :
      (payload : Bytes) (s : State)
      → Inv options s
      → Inv options (after (Outgoing.ping env options payload s))
  unfolding Outgoing.ping Outgoing.assert_open
  ping-Inv payload s v = ground (arith, write_frame-Inv Opcodes.ping payload s)

  pong-Inv :
      (payload : Bytes) (s : State)
      → Inv options s
      → Inv options (after (Outgoing.pong env options payload s))
  unfolding Outgoing.pong Outgoing.assert_open
  pong-Inv payload s v = ground (arith, write_frame-Inv Opcodes.pong payload s)

  close-Inv :
      (code : ℕ) (reason : String) (s : State)
      → Inv options s
      → Inv options (after (Outgoing.close env options code reason s))
  unfolding Outgoing.close write_close_frame
  close-Inv code reason s v = ground (
    arith,
    flush_compressed_queue-Inv options (record s {
      close_code = code;
      close_reason = reason;
      ready_state = State.closing;
      pending_close_frame = some (
          build_frame Opcodes.close (Outgoing.build_close_payload env code reason)
            (record { fin = none; rsv1 = none }));
    }),
  )

  emit_message-Inv :
      (opcode : ℕ) (payload : Bytes) (compressed : Bool) (s : State)
      → Inv options s
      → Reaches (Inv options) (Incoming.emit_message env options opcode payload compressed s)
  unfolding Incoming.emit_message Incoming.emit_inflated Incoming.ensure_payload_limit
  emit_message-Inv opcode payload compressed s v = ground arith

  handle_data_frame-Inv :
      (frame : ParsedFrame) (s : State)
      → Inv options s
      → Reaches (Inv options) (Incoming.handle_data_frame env options frame s)
  unfolding Incoming.handle_data_frame Incoming.ensure_payload_limit
  handle_data_frame-Inv frame s v =
      ground (arith, emit_message-Inv frame.opcode frame.payload frame.rsv1 s v)

  handle_close_frame-Inv :
      (payload : Bytes) (s : State)
      → Inv options s
      → Reaches (Inv options) (Incoming.handle_close_frame env options payload s)
  unfolding Incoming.handle_close_frame Incoming.read_close Incoming.answer_close
  handle_close_frame-Inv payload s v = ground arith

  fail-Inv :
      (e : WebSocketProtocolError) (s : State) → Inv options s → Inv options (Incoming.fail env e s)
  unfolding Incoming.fail emit_error
  fail-Inv e s v = ground arith

  continue_message-Inv :
      (opcode : ℕ) (frame : ParsedFrame) (s : State)
      → Inv options s
      → Reaches (Inv options) (Incoming.continue_message env options opcode frame s)
  unfolding Incoming.continue_message Incoming.ensure_payload_limit
  continue_message-Inv opcode frame s v = ground (
    arith,
    emit_message-Inv opcode (Incoming.concat (s.fragments ++ frame.payload ∷ []))
        s.fragmented_compressed
        (record s {
          fragments = [];
          fragmented_compressed = false;
          fragmented_length = 0;
          fragmented_opcode = none;
        }),
  )

  handle_continuation-Inv :
      (frame : ParsedFrame) (s : State)
      → Inv options s
      → Reaches (Inv options) (Incoming.handle_continuation env options frame s)
  unfolding Incoming.handle_continuation
  handle_continuation-Inv frame s v = elim (Option-cases s.fragmented_opcode) [
    | inl e ↦ rw (e, Incoming.handle_continuation) v
    | inr (opcode, e) ↦ rw (e, Incoming.handle_continuation) (continue_message-Inv opcode frame s v)
  ]

  handle_frame-Inv :
      (frame : ParsedFrame) (s : State)
      → Inv options s
      → Reaches (Inv options) (Incoming.handle_frame env options frame s)
  unfolding Incoming.handle_frame
  handle_frame-Inv frame s v = ground (
    arith,
    handle_continuation-Inv frame s v,
    handle_data_frame-Inv frame s v,
    handle_close_frame-Inv frame.payload s v,
    write_frame-Inv Opcodes.pong frame.payload (State.effect (emit (State.ping frame.payload)) s),
  )

  recover-Inv : (o : Outcome) → Reaches (Inv options) o → Inv options (Incoming.recover env o)
  unfolding Incoming.recover
  recover-Inv (ok t) h = h
  recover-Inv (fails t (State.protocol e)) h = fail-Inv e t h
  recover-Inv (fails t (State.other m)) h =
      destroy_raw-Inv (emit_error env (State.other m) t) (emit_error-Inv (State.other m) t h)

  handle_chunk-Inv :
      (bytes : Bytes) (s : State)
      → Inv options s
      → Inv options (Incoming.handle_chunk env options bytes s)
  unfolding Incoming.handle_chunk
  handle_chunk-Inv bytes s v = recover-Inv _ (
      parse_frames_rule env options (Inv options) handle_frame-Inv with_buffer-Inv _ _
        (with_buffer-Inv (s.buffer ++ bytes) s v))

  -- Every input keeps the invariant.
  step-Inv : (s : State) (i : Input) → Inv options s → Inv options (step env options s i)
  unfolding step handle_end handle_finish Steps.pause_socket Steps.resume_socket
  step-Inv s (Steps.chunk bytes) v = handle_chunk-Inv bytes s v
  step-Inv s Steps.raw_drain v = ground arith
  step-Inv s Steps.raw_close v = handle_close-Inv options s v
  step-Inv s Steps.raw_end v = ground (
    arith,
    handle_close-Inv options s v,
    handle_close-Inv options (record s { ready_state = State.closing }),
  )
  step-Inv s Steps.raw_finish v = ground (arith, handle_close-Inv options s v)
  step-Inv s (Steps.raw_error e) v = emit_error-Inv e s v
  step-Inv s (Steps.send_text payload) v = send_text-Inv payload s v
  step-Inv s (Steps.send_binary payload) v = send_binary-Inv payload s v
  step-Inv s (Steps.ping payload) v = ping-Inv payload s v
  step-Inv s (Steps.pong payload) v = pong-Inv payload s v
  step-Inv s (Steps.close code reason) v = close-Inv code reason s v
  step-Inv s Steps.terminate v = terminate-Inv options s v
  step-Inv s Steps.pause v = ground arith
  step-Inv s Steps.resume v = ground arith
  step-Inv s Steps.close_timeout v = terminate-Inv options s v
  step-Inv s (Steps.compressed payload compressed wrote) v =
      flush_compressed-Inv payload compressed wrote s v
  step-Inv s Steps.drained v = flush_drained-Inv options s v
  step-Inv s (Steps.flush_failed e) v = flush_failed-Inv e s v

  pub run-Inv : (s : State) (is : List Input) → Inv options s → Inv options (run env options s is)
  unfolding run
  run-Inv s [] v = v
  run-Inv s (i ∷ is) v = run-Inv (step env options s i) is (step-Inv s i v)

  -- Over any inputs at all, a connection writes at most one close frame and emits at most one
  -- "close" event; each has happened exactly when its flag says so.
  pub closes_once :
      (is : List Input)
      → let s = run env options fresh is in
        (close_frames s.log ≤ 1)
        × (close_events s.log ≤ 1)
        × (close_frames s.log ≡ once s.has_sent_close_frame)
        × (close_events s.log ≡ once s.has_reported_close)
  closes_once is = ground (arith, run-Inv fresh is (ground arith))

  -- Without permessage-deflate no data frame is written after a close frame, over any inputs.
  pub data_before_close :
      (is : List Input)
      → options.per_message_deflate ≡ false
      → IsOrdered (run env options fresh is).log
  data_before_close is h = (run-Inv fresh is (ground arith)).ordered h
