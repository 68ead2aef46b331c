-- ===== src/Websocket/Connection/Incoming.antt =====
-- What connection.ts does with the bytes that arrive: the parsing loop, the handlers of each kind
-- of frame, and the close handshake.
use kenojs.Prelude.{
  ℕ, zero, suc, ◌+◌, ◌*◌, String, Bool, true, false, not, ◌&&◌, ◌||◌, Option, none, some, List, [],
  ◌∷◌, ◌++◌, ltb, ◌==◌, if◌then◌else◌, length, get_or, drop, is_some,
}
use kenojs.Websocket.Frame.{
  Bytes, WebSocketProtocolError, ParsedFrame, FrameBuildOptions, incomplete, complete, throws,
  try_parse_frame, build_frame, is_valid_close_code,
}
use kenojs.Websocket.Frame.Opcodes
use kenojs.Websocket.Connection.State.{
  Env, Options, Failure, protocol, other, message_text, text, message_binary, binary, ping, pong,
  close, emit, write, close_frame, end, clear_timer, close_compressor, State, opened, closing,
  closed, Outcome, ok, fails, ◌>>=◌, effect, destroy_raw, emit_error,
}
use kenojs.Websocket.Connection.Outgoing.{build_close_payload, write_frame}

abbrev violation : String → ℕ → Failure
violation message code = protocol (record { message = message; close_code = code })

abbrev plain : FrameBuildOptions
plain = record { fin = none; rsv1 = none }

unfoldable pub ensure_payload_limit : Options → ℕ → State → Outcome
ensure_payload_limit options n s =
    if ltb options.max_payload n
    then fails s (violation "Message exceeds the configured max payload" 1009)
    else ok s

abbrev pub sync_flush_trailer : Bytes
sync_flush_trailer = 0x00 ∷ 0x00 ∷ 0xff ∷ 0xff ∷ []

-- `decompressMessage` of permessage-deflate.ts.
unfoldable pub decompress_message : Env → Bytes → Option Bytes
decompress_message env payload = env.inflate_raw_sync (payload ++ sync_flush_trailer)

-- What `emitMessage` does once the message is inflated.
unfoldable pub emit_inflated : Env → Options → ℕ → Bytes → State → Outcome
emit_inflated env options opcode message s =
    if opcode == Opcodes.text
    then (if not options.skip_utf8_validation && not (env.is_utf8 message)
        then fails s (violation "Received invalid UTF-8 data" 1007)
        else ok (
            effect (emit (text (env.to_text message)))
              (effect (emit (message_text (env.to_text message))) s)))
    else ok (effect (emit (binary message)) (effect (emit (message_binary message)) s))

unfoldable pub emit_message : Env → Options → ℕ → Bytes → Bool → State → Outcome
emit_message env options opcode payload compressed s =
    if not compressed
    then emit_inflated env options opcode payload s
    else if not options.per_message_deflate
    then fails s (violation "Compressed messages require permessage-deflate support" 1002)
    else elim (decompress_message env payload) [
      | none ↦ fails s (violation "Invalid permessage-deflate payload" 1007)
      | some message ↦
          ensure_payload_limit options (length message) s
          >>= emit_inflated env options opcode message
    ]

abbrev pub concat : List Bytes → Bytes
concat [] = []
concat (b ∷ bs) = b ++ concat bs

-- `handleContinuation` with a message in progress.
unfoldable pub continue_message : Env → Options → ℕ → ParsedFrame → State → Outcome
continue_message env options opcode frame s =
    if frame.rsv1
    then fails s (violation "Continuation frames must not enable RSV1" 1002)
    else let total = s.fragmented_length + length frame.payload in
      ensure_payload_limit options total (record s { fragmented_length = total }) >>= λ s'.
      let pushed = record s' { fragments = s'.fragments ++ frame.payload ∷ [] } in
      if not frame.fin
      then ok pushed
      else emit_message env options opcode (concat pushed.fragments) s.fragmented_compressed
          (record pushed {
            fragments = [];
            fragmented_compressed = false;
            fragmented_length = 0;
            fragmented_opcode = none;
          })

unfoldable pub handle_continuation : Env → Options → ParsedFrame → State → Outcome
handle_continuation env options frame s = elim s.fragmented_opcode [
  | none ↦ fails s (violation "Unexpected continuation frame" 1002)
  | some opcode ↦ continue_message env options opcode frame s
]

unfoldable pub handle_data_frame : Env → Options → ParsedFrame → State → Outcome
handle_data_frame env options frame s =
    ensure_payload_limit options (length frame.payload) s >>= λ s'.
    if is_some s'.fragmented_opcode
    then fails s' (violation "A fragmented message is already in progress" 1002)
    else if not frame.fin
    then ok (record s' {
      fragmented_opcode = some frame.opcode;
      fragmented_compressed = frame.rsv1;
      fragmented_length = length frame.payload;
      fragments = frame.payload ∷ [];
    })
    else emit_message env options frame.opcode frame.payload frame.rsv1 s'

-- The code and the reason that a close frame carries, if it is well formed.
unfoldable pub read_close : Env → Options → Bytes → State → Outcome
read_close env options payload s =
    if length payload == 1
    then fails s (violation "Close frames must be empty or include a two-byte close code" 1002)
    else if ltb (length payload) 2
    then ok s
    else let code = get_or payload 0 0 * 256 + get_or payload 1 0 in
      let reason = drop 2 payload in
      if not (is_valid_close_code code)
      then fails s (violation "Invalid close code" 1002)
      else if ltb 0 (length reason) && not options.skip_utf8_validation && not (env.is_utf8 reason)
      then fails s (violation "Close reason must be valid UTF-8" 1007)
      else ok (record s { close_code = code; close_reason = env.to_text reason })

-- The answer to a close frame.
unfoldable pub answer_close : Env → Bytes → State → State
answer_close env payload s =
    let answered =
      if s.has_sent_close_frame
      then s
      else let echo = if length payload == 0 then build_close_payload env 1000 "" else payload in
        record s {
          pending_close_frame = none;
          has_sent_close_frame = true;
          log = write close_frame (build_frame Opcodes.close echo plain) ∷ s.log;
        } in
    effect end (record answered { ready_state = closing })

unfoldable pub handle_close_frame : Env → Options → Bytes → State → Outcome
handle_close_frame env options payload s =
    read_close env options payload (record s { has_received_close_frame = true }) >>= λ s'.
    ok (answer_close env payload s')

unfoldable pub handle_frame : Env → Options → ParsedFrame → State → Outcome
handle_frame env options frame s =
    if frame.opcode == Opcodes.continuation
    then handle_continuation env options frame s
    else if frame.opcode == Opcodes.text || frame.opcode == Opcodes.binary
    then handle_data_frame env options frame s
    else if frame.opcode == Opcodes.ping
    then (let heard = effect (emit (ping frame.payload)) s in
        ok (
          if options.auto_pong && heard.ready_state == opened
          then write_frame env options Opcodes.pong frame.payload heard
          else heard))
    else if frame.opcode == Opcodes.pong
    then ok (effect (emit (pong frame.payload)) s)
    else if frame.opcode == Opcodes.close
    then handle_close_frame env options frame.payload s
    else fails s (violation "Unsupported opcode" 1002)

unfoldable pub fail : Env → WebSocketProtocolError → State → State
fail env e s =
    let told = emit_error env (protocol e) s in
    destroy_raw (
      if not told.has_sent_close_frame && ltb told.ready_state closing
      then record told {
        ready_state = closing;
        has_sent_close_frame = true;
        log =
            write close_frame
              (build_frame Opcodes.close (build_close_payload env e.close_code e.message) plain)
            ∷ told.log;
      }
      else told)

-- One round of the loop of `handleChunk`, on fuel.
unfoldable pub parse_frames : Env → Options → ℕ → State → Outcome
parse_frames env options zero s = ok s
parse_frames env options (suc fuel) s =
    elim (try_parse_frame env.buffer_util s.buffer options.per_message_deflate) [
      | incomplete ↦ ok s
      | throws e ↦ fails s (protocol e)
      | complete consumed frame ↦
          handle_frame env options frame (record s { buffer = drop consumed s.buffer })
          >>= parse_frames env options fuel
    ]

-- The `catch` of `handleChunk`.
unfoldable pub recover : Env → Outcome → State
recover env (ok s) = s
recover env (fails s (protocol e)) = fail env e s
recover env (fails s (other m)) = destroy_raw (emit_error env (other m) s)

-- Each round takes at least a byte, so that the buffer's length is fuel enough.
unfoldable pub handle_chunk : Env → Options → Bytes → State → State
handle_chunk env options chunk s =
    let joined = record s { buffer = s.buffer ++ chunk } in
    recover env (parse_frames env options (length joined.buffer) joined)

unfoldable pub handle_close : Options → State → State
handle_close options s =
    if s.has_reported_close
    then s
    else let cleared = record s {
      has_reported_close = true;
      close_timer = false;
      log = if s.close_timer then clear_timer ∷ s.log else s.log;
      ready_state = closed;
      compressed_queue = [];
      compressed_queue_index = 0;
      pending_close_frame = none;
      paused = false;
    } in
      let quiet =
        if options.per_message_deflate then effect close_compressor cleared else cleared in
      let was_clean = s.has_received_close_frame || s.has_sent_close_frame in
      effect (emit (close s.close_code s.close_reason was_clean)) quiet
