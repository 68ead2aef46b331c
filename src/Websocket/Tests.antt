-- ===== src/Websocket/Tests.antt =====
-- Runs of the frame codec and of the connection, and the theorems about them at concrete inputs.
use kenojs.Prelude.{◌≤◌, ◌≡◌, refl, inr, true, false, none, some, List, [], ◌∷◌, ◌++◌, arith}
use kenojs.Websocket.Frame.{
  Bytes, complete, build_frame, try_parse_frame, parse_body, read_length, unmask_payload,
}
use kenojs.Websocket.Frame.Format.{short, build_frame-frame_bytes}
use kenojs.Websocket.Frame.Masking.{apply_mask, unmask_payload-apply_mask}
use kenojs.Websocket.Frame.Parsing.{try_parse_frame-frame_bytes}
use kenojs.Websocket.Connection.State.{Env, Options, State, fresh, compressing}
use kenojs.Websocket.Connection.Outgoing.{flush_compressed}
use kenojs.Websocket.Connection.Incoming.{
  handle_chunk, handle_frame, handle_close_frame, read_close, answer_close, parse_frames,
}
use kenojs.Websocket.Connection.Rounds.{with_buffer}
use kenojs.Websocket.Connection.Chunks.{handle_chunk-append}
use kenojs.Websocket.Connection.Steps
use kenojs.Websocket.Connection.Steps.{Input, run}
use kenojs.Websocket.Connection.Closing.{close_frames, IsOrdered, closes_once, data_before_close}
use kenojs.Websocket.Connection.LateData.{late_data_frame}
use kenojs.Websocket.Connection.Messages.{handle_frames, tail_frames, fragments_join}

-- An environment for runs: every byte sequence is valid and reads "t", every text is two bytes.
abbrev env : Env
env = record {
  buffer_util = none;
  is_utf8 = λ _. true;
  to_text = λ _. "t";
  from_text = λ _. 104 ∷ 105 ∷ [];
  inflate_raw_sync = some;
  has_cork = true;
  listens_to_errors = true;
}

abbrev plain : Options
plain = record {
  auto_pong = true;
  close_timeout = 5000;
  max_payload = 1048576;
  per_message_deflate = false;
  protocol = "";
  skip_utf8_validation = false;
}

abbrev deflated : Options
deflated = record plain { per_message_deflate = true }

-- The masked text "Hi" under the key 1, 2, 3, 4.
abbrev hi_frame : Bytes
hi_frame = 0x81 ∷ 0x82 ∷ 1 ∷ 2 ∷ 3 ∷ 4 ∷ 73 ∷ 107 ∷ []

parser : Unit {0}
unfolding try_parse_frame parse_body read_length unmask_payload
parser = tt

parsed_hi :
    try_parse_frame none hi_frame false
    ≡ complete 8 (record { fin = true; opcode = 1; payload = 72 ∷ 105 ∷ []; rsv1 = false })
unfolding parser
parsed_hi = refl

try_parse_frame-frame_bytes_example :
    try_parse_frame none (hi_frame ++ 9 ∷ []) false
    ≡ complete 8 (record { fin = true; opcode = 1; payload = 72 ∷ 105 ∷ []; rsv1 = false })
unfolding apply_mask
try_parse_frame-frame_bytes_example =
    try_parse_frame-frame_bytes none true false false 1 1 2 3 4 (72 ∷ 105 ∷ []) (9 ∷ [])
      (short (omega arith)) tt (omega arith) (omega arith) (omega arith) (omega arith) (λ h. cc)
      (λ h. absurd (omega arith))

build_frame-frame_bytes_example :
    build_frame 2 (7 ∷ 8 ∷ []) (record { fin = none; rsv1 = none }) ≡ 0x82 ∷ 2 ∷ 7 ∷ 8 ∷ []
build_frame-frame_bytes_example =
    build_frame-frame_bytes 2 (7 ∷ 8 ∷ []) (record { fin = none; rsv1 = none })
      (short (omega arith)) (omega arith) (omega arith)

unmask_payload-apply_mask_example :
    unmask_payload none (9 ∷ 8 ∷ 7 ∷ 6 ∷ 5 ∷ []) 1 2 3 4
    ≡ apply_mask (1 ∷ 2 ∷ 3 ∷ 4 ∷ []) 0 (9 ∷ 8 ∷ 7 ∷ 6 ∷ 5 ∷ [])
unmask_payload-apply_mask_example =
    unmask_payload-apply_mask (9 ∷ 8 ∷ 7 ∷ 6 ∷ 5 ∷ []) 1 2 3 4 (omega arith) (omega arith)
      (omega arith) (omega arith) (omega arith)

-- The first three bytes of the frame, and then the rest of it.
handle_chunk-append_example :
    handle_chunk env plain
      (2 ∷ 3 ∷ 4 ∷ 73 ∷ 107 ∷ [])
      (handle_chunk env plain (0x81 ∷ 0x82 ∷ 1 ∷ []) fresh)
    ≡ handle_chunk env plain hi_frame fresh
unfolding parser parse_frames
handle_chunk-append_example =
    handle_chunk-append env plain fresh (with_buffer (0x81 ∷ 0x82 ∷ 1 ∷ []) fresh)
      (0x81 ∷ 0x82 ∷ 1 ∷ []) (2 ∷ 3 ∷ 4 ∷ 73 ∷ 107 ∷ []) refl

abbrev session : List Input
session =
    Steps.send_binary (1 ∷ 2 ∷ [])
    ∷ Steps.chunk hi_frame
    ∷ Steps.close 1000 "t"
    ∷ Steps.raw_end
    ∷ []

closes_once_example : close_frames (run env plain fresh session).log ≤ 1
closes_once_example = (closes_once env plain session).0

data_before_close_example : IsOrdered (run env plain fresh session).log
data_before_close_example = data_before_close env plain session refl

abbrev busy : State
busy = record fresh {
  flush = compressing (record { opcode = 2; payload = 1 ∷ [] });
  flushing_compressed_queue = true;
}

late_data_frame_example :
    ¬ IsOrdered
      (flush_compressed env deflated
        (1 ∷ [])
        false
        true
        (answer_close env [] (record busy { has_received_close_frame = true }))).log
unfolding handle_close_frame read_close
late_data_frame_example =
    late_data_frame env deflated busy _ (record { opcode = 2; payload = 1 ∷ [] }) (1 ∷ []) false
      true refl refl refl

fragments_join_example :
    handle_frames env plain
      ((record { fin = false; opcode = 2; payload = 1 ∷ []; rsv1 = false })
        ∷ tail_frames ((2 ∷ []) ∷ []) (3 ∷ []))
      fresh
    ≡ handle_frame env plain
        (record { fin = true; opcode = 2; payload = 1 ∷ 2 ∷ 3 ∷ []; rsv1 = false })
        fresh
fragments_join_example =
    fragments_join env plain 2 false (1 ∷ []) ((2 ∷ []) ∷ []) (3 ∷ []) fresh (inr refl)
      (ground arith) (omega arith)
