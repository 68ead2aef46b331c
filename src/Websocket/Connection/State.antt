-- ===== src/Websocket/Connection/State.antt =====
-- The state of a `KenoWebSocket` of connection.ts. What a method does to the raw socket, to timers
-- and to listeners is an entry of a log, the newest first; a throwing method is an `Outcome`.
-- Listeners are called back after the log, so none of them calls a method in the midst of another.
use kenojs.Prelude.{ℕ, String, Bool, true, false, Option, none, List, [], ◌∷◌, if◌then◌else◌}
use kenojs.Websocket.Frame.{Bytes, WebSocketProtocolError}

-- What the connection takes from Node.js: the unmasking module, the UTF-8 tests and conversions,
-- `inflateRawSync`, whether the raw socket can be corked, and whether errors are listened to.
pub record Env : Type 0 where
  pub buffer_util : Option (Bytes → Bytes → Bytes)
  pub is_utf8 : Bytes → Bool
  pub to_text : Bytes → String
  pub from_text : String → Bytes
  pub inflate_raw_sync : Bytes → Option Bytes
  pub has_cork : Bool
  pub listens_to_errors : Bool

pub record Options : Type 0 where
  pub auto_pong : Bool
  pub close_timeout : ℕ
  pub max_payload : ℕ
  pub per_message_deflate : Bool
  pub protocol : String
  pub skip_utf8_validation : Bool

pub data Failure : Type 0 where
  protocol : WebSocketProtocolError → Failure
  other : String → Failure

pub data Event : Type 0 where
  message_text text : String → Event
  message_binary binary ping pong : Bytes → Event
  close : (code : ℕ) (reason : String) (was_clean : Bool) → Event
  error : Failure → Event
  drain : Event

-- The frame that a write belongs to; the bytes themselves do not tell it.
pub data Kind : Type 0 where
  close_frame control_frame data_frame : Kind

pub data Effect : Type 0 where
  write : Kind → Bytes → Effect
  cork uncork end destroy pause resume close_compressor clear_timer : Effect
  set_timer : ℕ → Effect
  emit : Event → Effect

pub record PendingCompressedFrame : Type 0 where
  pub opcode : ℕ
  pub payload : Bytes

-- Where the asynchronous `flushCompressedQueue` waits.
pub data Flush : Type 0 where
  idle : Flush
  compressing : PendingCompressedFrame → Flush
  draining : Flush

pub record State : Type 0 where
  pub buffer : Bytes
  pub close_code : ℕ
  pub close_reason : String
  pub close_timer : Bool
  pub compressed_queue : List PendingCompressedFrame
  pub compressed_queue_index : ℕ
  pub fragmented_compressed : Bool
  pub fragmented_length : ℕ
  pub fragmented_opcode : Option ℕ
  pub fragments : List Bytes
  pub flushing_compressed_queue : Bool
  pub flush : Flush
  pub has_received_close_frame : Bool
  pub has_reported_close : Bool
  pub has_sent_close_frame : Bool
  pub pending_close_frame : Option Bytes
  pub paused : Bool
  pub ready_state : ℕ
  pub raw_destroyed : Bool
  pub log : List Effect

abbrev pub connecting : ℕ
connecting = 0

abbrev pub opened : ℕ
opened = 1

abbrev pub closing : ℕ
closing = 2

abbrev pub closed : ℕ
closed = 3

abbrev pub fresh : State
fresh = record {
  buffer = [];
  close_code = 1005;
  close_reason = "";
  close_timer = false;
  compressed_queue = [];
  compressed_queue_index = 0;
  fragmented_compressed = false;
  fragmented_length = 0;
  fragmented_opcode = none;
  fragments = [];
  flushing_compressed_queue = false;
  flush = idle;
  has_received_close_frame = false;
  has_reported_close = false;
  has_sent_close_frame = false;
  pending_close_frame = none;
  paused = false;
  ready_state = opened;
  raw_destroyed = false;
  log = [];
}

-- A method that ends, or throws in the state that it has reached.
pub data Outcome : Type 0 where
  ok : State → Outcome
  fails : State → Failure → Outcome

infixl 5 ◌>>=◌
abbrev pub ◌>>=◌ : Outcome → (State → Outcome) → Outcome
ok s >>= k = k s
fails s e >>= k = fails s e

abbrev pub effect : Effect → State → State
effect e s = record s { log = e ∷ s.log }

abbrev pub destroy_raw : State → State
destroy_raw s = record s { raw_destroyed = true; log = destroy ∷ s.log }

unfoldable pub emit_error : Env → Failure → State → State
emit_error env e s = if env.listens_to_errors then effect (emit (error e)) s else s
