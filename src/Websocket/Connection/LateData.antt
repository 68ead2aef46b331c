-- ===== src/Websocket/Connection/LateData.antt =====
-- The queue of compressed frames of connection.ts against a close frame from the client.
use kenojs.Prelude.{ℕ, ◌+◌, ◌≤◌, ◌≡◌, ◌∙◌, Bool, false, [], arith}
use kenojs.Websocket.Frame.{Bytes}
use kenojs.Websocket.Connection.State.{Env, Options, State, PendingCompressedFrame, compressing, ok}
use kenojs.Websocket.Connection.Outgoing.{
  flush_compressed, flush_written, flush_loop, flush_finally, write_close_frame, write_data_frame,
}
use kenojs.Websocket.Connection.Incoming.{handle_close_frame, read_close, answer_close}
use kenojs.Websocket.Connection.Closing.{IsOrdered, close_frames}

-- The rest of the flush keeps what was written.
flush_finally-IsOrdered :
    (options : Options) (s : State) → IsOrdered (flush_finally options s).log → IsOrdered s.log
unfolding flush_finally write_close_frame
flush_finally-IsOrdered options s o = ground arith

flush_loop-IsOrdered :
    (options : Options) (s : State) → IsOrdered (flush_loop options s).log → IsOrdered s.log
unfolding flush_loop
flush_loop-IsOrdered options s o = ground (arith, flush_finally-IsOrdered options s)

write_data_frame-IsOrdered :
    (env : Env) (opcode : ℕ) (payload : Bytes) (compressed : Bool) (s : State)
    → IsOrdered (write_data_frame env opcode payload compressed s).log
    → close_frames s.log ≡ 0
unfolding write_data_frame
write_data_frame-IsOrdered env opcode payload compressed s o = ground arith

flush_written-IsOrdered :
    (env : Env) (options : Options) (frame : PendingCompressedFrame) (payload : Bytes)
    (compressed wrote : Bool) (s : State)
    → IsOrdered (flush_written env options frame payload compressed wrote s).log
    → close_frames s.log ≡ 0
unfolding flush_written
flush_written-IsOrdered env options frame payload compressed wrote s o =
    let s' = record s { compressed_queue_index = s.compressed_queue_index + 1 } in
    let written = write_data_frame env frame.opcode payload compressed s' in
    ground (
      arith,
      flush_loop-IsOrdered options written,
      write_data_frame-IsOrdered env frame.opcode payload compressed s',
    )

-- The state that an empty close frame leaves.
answered :
    (env : Env) (options : Options) (s t : State)
    → s.has_sent_close_frame ≡ false
    → handle_close_frame env options [] s ≡ ok t
    → (t.flush ≡ s.flush) × (1 ≤ close_frames t.log)
unfolding handle_close_frame read_close answer_close
answered env options s t h k = ground arith

-- The flush goes on after the close handshake: whenever the client's empty close frame is handled
-- while a message is being compressed and no close frame was sent, the message's data frame is
-- written after the server's close frame.
pub late_data_frame :
    (env : Env) (options : Options) (s t : State) (frame : PendingCompressedFrame) (payload : Bytes)
    (was_compressed wrote : Bool)
    → s.flush ≡ compressing frame
    → s.has_sent_close_frame ≡ false
    → handle_close_frame env options [] s ≡ ok t
    → ¬ IsOrdered (flush_compressed env options payload was_compressed wrote t).log
unfolding flush_compressed
late_data_frame env options s t frame payload was_compressed wrote e h k o =
    let (same, sent) = answered env options s t h k in
    let o' =
      flush_written-IsOrdered env options frame payload was_compressed wrote t
        (rw (same ∙ e, flush_compressed) at o) in
    absurd (omega arith)
