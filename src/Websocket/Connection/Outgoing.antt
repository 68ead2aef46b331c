-- ===== src/Websocket/Connection/Outgoing.antt =====
-- What connection.ts writes: data, control and close frames, and the queue of compressed frames,
-- whose asynchronous flush is cut at its `await`s. A message leaves out what the source puts into
-- it by a template.
use kenojs.Prelude.{
  ℕ, ◌+◌, String, Bool, true, false, not, ◌&&◌, ◌||◌, none, some, [], ◌∷◌, ◌++◌, ltb, leb, ◌==◌,
  if◌then◌else◌, length, get_elem?,
}
use kenojs.Websocket.Frame.{
  Bytes, FrameBuildOptions, build_frame, build_frame_header, is_valid_close_code, write_uint16_be,
}
use kenojs.Websocket.Frame.Opcodes
use kenojs.Websocket.Connection.State.{
  Env, Options, Failure, other, close_frame, control_frame, data_frame, write, cork, uncork, end,
  set_timer, close_compressor, PendingCompressedFrame, idle, compressing, draining, State, opened,
  closing, closed, Outcome, ok, fails, ◌>>=◌, effect, destroy_raw, emit_error,
}

abbrev plain : FrameBuildOptions
plain = record { fin = none; rsv1 = none }

abbrev with_rsv1 : Bool → FrameBuildOptions
with_rsv1 compressed = record { fin = none; rsv1 = some compressed }

unfoldable pub build_close_payload : Env → ℕ → String → Bytes
build_close_payload env code reason = write_uint16_be code ++ env.from_text reason

unfoldable pub assert_open : State → Outcome
assert_open s = if s.ready_state == opened then ok s else fails s (other "WebSocket is not open")

unfoldable pub has_pending_compressed_frames : State → Bool
has_pending_compressed_frames s =
    s.flushing_compressed_queue || ltb s.compressed_queue_index (length s.compressed_queue)

-- The header and the payload in two writes when the socket can be corked.
unfoldable pub write_data_frame : Env → ℕ → Bytes → Bool → State → State
write_data_frame env opcode payload compressed s =
    if env.has_cork
    then effect uncork (
        effect (write data_frame payload) (
          effect
            (write data_frame (build_frame_header opcode (length payload) (with_rsv1 compressed)))
            (effect cork s)))
    else effect (write data_frame (build_frame opcode payload (with_rsv1 compressed))) s

unfoldable pub write_text_frame : Env → String → State → State
write_text_frame env payload s =
    if env.has_cork
    then effect uncork (
        effect (write data_frame (env.from_text payload)) (
          effect
            (write data_frame
              (build_frame_header Opcodes.text (length (env.from_text payload)) plain))
            (effect cork s)))
    else effect (write data_frame (build_frame Opcodes.text (env.from_text payload) plain)) s

unfoldable pub write_close_frame : Options → Bytes → State → State
write_close_frame options frame s = record s {
  has_sent_close_frame = true;
  close_timer = true;
  log = end ∷ set_timer options.close_timeout ∷ write close_frame frame ∷ s.log;
}

-- The `finally` block of `flushCompressedQueue`.
unfoldable pub flush_finally : Options → State → State
flush_finally options s =
    let done = record s {
      compressed_queue =
          if leb (length s.compressed_queue) s.compressed_queue_index
          then []
          else s.compressed_queue;
      compressed_queue_index =
          if leb (length s.compressed_queue) s.compressed_queue_index
          then 0
          else s.compressed_queue_index;
      flushing_compressed_queue = false;
      flush = idle;
    } in
    elim done.pending_close_frame [
      | none ↦ done
      | some frame ↦
          if not (has_pending_compressed_frames done) && not done.raw_destroyed
          then record (write_close_frame options frame done) { pending_close_frame = none }
          else done
    ]

-- The head of the loop, up to the call of the compressor.
unfoldable pub flush_loop : Options → State → State
flush_loop options s = elim (get_elem? s.compressed_queue s.compressed_queue_index) [
  | none ↦ flush_finally options s
  | some frame ↦
      if not options.per_message_deflate || s.raw_destroyed
      then flush_finally options s
      else record s { flush = compressing frame }
]

unfoldable pub flush_compressed_queue : Options → State → State
flush_compressed_queue options s =
    if s.flushing_compressed_queue
    then s
    else flush_loop options (record s { flushing_compressed_queue = true })

-- The rest of a round once the compressor has a result; `wrote` is what the socket's `write` answers.
unfoldable pub flush_written :
    Env → Options → PendingCompressedFrame → Bytes → Bool → Bool → State → State
flush_written env options frame payload compressed wrote s =
    let written =
      write_data_frame env frame.opcode payload compressed
        (record s { compressed_queue_index = s.compressed_queue_index + 1 }) in
    if not wrote && not written.raw_destroyed
    then record written { flush = draining }
    else flush_loop options written

unfoldable pub flush_compressed : Env → Options → Bytes → Bool → Bool → State → State
flush_compressed env options payload compressed wrote s = elim s.flush [
  | compressing frame ↦ flush_written env options frame payload compressed wrote s
  | _ ↦ s
]

unfoldable pub flush_drained : Options → State → State
flush_drained options s = elim s.flush [ draining ↦ flush_loop options s | _ ↦ s ]

-- The compressor or the wait for the socket has failed.
unfoldable pub flush_failed : Env → Options → Failure → State → State
flush_failed env options e s = elim s.flush [
  | idle ↦ s
  | _ ↦ flush_finally options (destroy_raw (emit_error env e s))
]

unfoldable pub enqueue_compressed_frame : Options → ℕ → Bytes → State → State
enqueue_compressed_frame options opcode payload s = flush_compressed_queue options (record s {
  compressed_queue = s.compressed_queue ++ (record { opcode = opcode; payload = payload }) ∷ [];
})

unfoldable pub write_frame : Env → Options → ℕ → Bytes → State → State
write_frame env options opcode payload s =
    if options.per_message_deflate && (opcode == Opcodes.text || opcode == Opcodes.binary)
    then enqueue_compressed_frame options opcode payload s
    else if opcode == Opcodes.text || opcode == Opcodes.binary
    then write_data_frame env opcode payload false s
    else effect (write control_frame (build_frame opcode payload plain)) s

unfoldable pub send_text : Env → Options → String → State → Outcome
send_text env options payload s = assert_open s >>= λ s'. ok (
    if not options.per_message_deflate
    then write_text_frame env payload s'
    else write_frame env options Opcodes.text (env.from_text payload) s')

unfoldable pub send_binary : Env → Options → Bytes → State → Outcome
send_binary env options payload s =
    assert_open s >>= λ s'. ok (write_frame env options Opcodes.binary payload s')

unfoldable pub ping : Env → Options → Bytes → State → Outcome
ping env options payload s = assert_open s >>= λ s'.
    if ltb 125 (length payload)
    then fails s' (other "Ping payloads must be 125 bytes or smaller")
    else ok (write_frame env options Opcodes.ping payload s')

unfoldable pub pong : Env → Options → Bytes → State → Outcome
pong env options payload s = assert_open s >>= λ s'.
    if ltb 125 (length payload)
    then fails s' (other "Pong payloads must be 125 bytes or smaller")
    else ok (write_frame env options Opcodes.pong payload s')

unfoldable pub close : Env → Options → ℕ → String → State → Outcome
close env options code reason s =
    if leb closing s.ready_state
    then ok s
    else if not (is_valid_close_code code)
    then fails s (other "Invalid close code")
    else if ltb 123 (length (env.from_text reason))
    then fails s (other "Close reason must be 123 bytes or smaller")
    else let frame = build_frame Opcodes.close (build_close_payload env code reason) plain in
      let left = record s { close_code = code; close_reason = reason; ready_state = closing } in
      ok (
        if has_pending_compressed_frames left
        then flush_compressed_queue options (record left { pending_close_frame = some frame })
        else write_close_frame options frame left)

unfoldable pub terminate : Options → State → State
terminate options s =
    let quiet = if options.per_message_deflate then effect close_compressor s else s in
    destroy_raw (record quiet {
      compressed_queue = [];
      compressed_queue_index = 0;
      pending_close_frame = none;
      paused = false;
      ready_state = closed;
    })
