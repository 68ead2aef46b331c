-- ===== src/Websocket/Compression.antt =====
-- src/internal/websocket/permessage-deflate.ts: the gate that limits how many messages are compressed at
-- a time, and the compressor, whose stream is node:zlib's: what it emits is an input, and the calls
-- of it are a log, the newest first.
pub mod Waking
pub mod Draining
pub mod Streams
mod Tests
use kenojs.Prelude.{
  ℕ, zero, suc, ◌+◌, ◌-◌, Bool, true, false, Option, none, some, ◌&&◌, List, [], ◌∷◌, ◌++◌, length,
  take, drop, ltb, leb, ◌==◌, if◌then◌else◌,
}
use kenojs.Prelude.Text.{same_text}
use kenojs.Websocket.Frame.{Bytes}
use kenojs.Websocket.Connection.Incoming.{concat, sync_flush_trailer}

-- `active` tasks run. The tasks of `pending` wait for their promise, and those of `woken` have it resolved
-- and go on, the oldest first, when the caller's turn ends.
pub record Gate : Type 0 where
  pub active : ℕ
  pub pending : List ℕ
  pub woken : List ℕ
  pub running : List ℕ

abbrev pub new_gate : Gate
new_gate = record { active = 0; pending = []; woken = []; running = [] }

-- `this.active += 1` and the start of the task.
abbrev pub start_task : ℕ → Gate → Gate
start_task task g = record g { active = g.active + 1; running = g.running ++ task ∷ [] }

-- `run` up to its first await.
unfoldable pub run : (limit task : ℕ) → Gate → Gate
run limit task g =
    if leb limit g.active then record g { pending = g.pending ++ task ∷ [] } else start_task task g

-- `run` after the promise.
abbrev pub resume : Gate → Gate
resume g = elim g.woken [ [] ↦ g | task ∷ woken ↦ start_task task (record g { woken = woken }) ]

abbrev pub wake_next : Gate → Gate
wake_next g = elim g.pending [
  | [] ↦ g
  | task ∷ pending ↦ record g { pending = pending; woken = g.woken ++ task ∷ [] }
]

abbrev pub remove : ℕ → List ℕ → List ℕ
remove task [] = []
remove task (other ∷ others) = if other == task then others else other ∷ remove task others

abbrev pub contains : ℕ → List ℕ → Bool
contains task [] = false
contains task (other ∷ others) = if other == task then true else contains task others

-- The `finally` of a task that runs.
unfoldable pub finish : ℕ → Gate → Gate
finish task g =
    if contains task g.running
    then wake_next (record g { active = g.active - 1; running = remove task g.running })
    else g

pub data GateStep : Type 0 where
  runs ends : ℕ → GateStep
  goes_on : GateStep

abbrev pub gate_step : (limit : ℕ) → GateStep → Gate → Gate
gate_step limit (runs task) g = run limit task g
gate_step limit (ends task) g = finish task g
gate_step limit goes_on g = resume g

abbrev pub gate_steps : (limit : ℕ) → List GateStep → Gate → Gate
gate_steps limit [] g = g
gate_steps limit (s ∷ ss) g = gate_steps limit ss (gate_step limit s g)

-- A limit as a JavaScript number: one that is not finite or not positive, or its integer part.
pub data LimitNumber : Type 0 where
  not_positive : LimitNumber
  positive : (truncated : ℕ) → LimitNumber

abbrev pub default_concurrency_limit : ℕ
default_concurrency_limit = 10

-- The limit of the gate that `getConcurrencyGate` returns.
abbrev pub normalized_limit : LimitNumber → ℕ
normalized_limit not_positive = default_concurrency_limit
normalized_limit (positive zero) = 1
normalized_limit (positive (suc n)) = suc n

pub data StreamCall : Type 0 where
  created flushed was_reset closed : StreamCall
  written : Bytes → StreamCall

-- `rejectPending` is set while a message is awaited.
pub record Compressor (E : Type 0) : Type 0 where
  pub has_stream : Bool
  pub pending_chunks : List Bytes
  pub pending_length : ℕ
  pub pending_error : Option E
  pub awaited : Bool
  pub log : List StreamCall

pub data Settled (E : Type 0) : Type 0 where
  resolved : (compressed : Bool) → Bytes → Settled E
  rejected : E → Settled E
  rejected_closed : Settled E

unfoldable pub trim_sync_flush_trailer : Bytes → Bytes
trim_sync_flush_trailer payload =
    let kept = length payload - 4 in
    if ltb 4 (length payload) && same_text (drop kept payload) sync_flush_trailer
    then take kept payload
    else payload

-- `Buffer.concat` to a length: shorter, or filled up with zeros.
abbrev pub fit : ℕ → Bytes → Bytes
fit zero bytes = []
fit (suc n) [] = 0 ∷ fit n []
fit (suc n) (b ∷ bytes) = b ∷ fit n bytes

abbrev pub consume_pending_chunks : List Bytes → (total_length : ℕ) → Bytes
consume_pending_chunks [] total_length = []
consume_pending_chunks (chunk ∷ []) total_length = chunk
consume_pending_chunks (chunk ∷ other ∷ chunks) total_length =
    fit total_length (concat (chunk ∷ other ∷ chunks))

module _ {E : Type 0} where
  abbrev pub new_compressor : Compressor E
  new_compressor = record {
    has_stream = false;
    pending_chunks = [];
    pending_length = 0;
    pending_error = none;
    awaited = false;
    log = [];
  }

  abbrev pub get_deflate : Compressor E → Compressor E
  get_deflate c = if c.has_stream then c else record c { has_stream = true; log = created ∷ c.log }

  -- `compressWithStream` up to its promise.
  unfoldable pub compress_with_stream : Bytes → Compressor E → Compressor E
  compress_with_stream payload c =
      let opened = get_deflate c in
      record opened {
        pending_error = none;
        awaited = true;
        log = flushed ∷ written payload ∷ opened.log;
      }

  -- The listeners of the stream's events.
  abbrev pub on_data : Bytes → Compressor E → Compressor E
  on_data chunk c = record c {
    pending_chunks = c.pending_chunks ++ chunk ∷ [];
    pending_length = c.pending_length + length chunk;
  }

  abbrev pub on_error : E → Compressor E → Compressor E
  on_error error c = record c { pending_error = some error }

  -- With what it settles the promise that was awaited.
  unfoldable pub close : Compressor E → Option (Settled E) × Compressor E
  close c =
      let emptied = record c {
        pending_chunks = [];
        pending_length = 0;
        pending_error = none;
        awaited = false;
      } in
      (
        if c.awaited then some rejected_closed else none,
        if c.has_stream
            then record emptied { has_stream = false; log = closed ∷ c.log }
            else emptied,
      )

  -- The callback of the flush.
  unfoldable pub complete : Bytes → Compressor E → Settled E × Compressor E
  complete payload c = elim c.pending_error [
    | some error ↦ (rejected error, (close (record c { awaited = false })).1)
    | none ↦
        let trimmed =
          trim_sync_flush_trailer (consume_pending_chunks c.pending_chunks c.pending_length) in
        (
          if leb (length payload) (length trimmed)
              then resolved false payload
              else resolved true trimmed,
          record c {
            pending_chunks = [];
            pending_length = 0;
            awaited = false;
            log = was_reset ∷ c.log;
          },
        )
  ]

  -- A message below the threshold stays as it is; another one goes through the gate.
  unfoldable pub compress : (threshold : ℕ) → Bytes → Option (Settled E)
  compress threshold payload =
      if ltb (length payload) threshold then some (resolved false payload) else none
