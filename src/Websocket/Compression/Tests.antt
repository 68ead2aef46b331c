-- ===== src/Websocket/Compression/Tests.antt =====
-- Runs of the gate and the compressor, and the theorems about them at these.
use kenojs.Prelude.{
  ℕ, ◌≤◌, ◌≡◌, refl, inl, true, false, Option, none, some, List, [], ◌∷◌, if◌then◌else◌, arith,
}
use kenojs.Prelude.Text.{same_text}
use kenojs.Websocket.Frame.{Bytes}
use kenojs.Websocket.Connection.Incoming.{sync_flush_trailer}
use kenojs.Websocket.Connection.State.{Env}
use kenojs.Websocket.Compression.{
  new_gate, run, finish, GateStep, runs, ends, goes_on, gate_steps, Compressor, new_compressor,
  resolved, trim_sync_flush_trailer, compress_with_stream, complete,
}
use kenojs.Websocket.Compression.Waking.{IsFair, gate_steps-IsFair}
use kenojs.Websocket.Compression.Draining.{drain, measure, IsEmpty, drain-IsEmpty}
use kenojs.Websocket.Compression.Streams.{IsIdle, compressed, Restores, compressed-Restores}

-- One runs, and two wait; after the first has ended another one comes before the one that was woken goes on.
abbrev overtaken : List GateStep
overtaken = runs 1 ∷ runs 2 ∷ ends 1 ∷ runs 3 ∷ goes_on ∷ []

-- Two tasks run at a limit of one.
over_the_limit :
    gate_steps 1 overtaken new_gate
    ≡ record { active = 2; pending = []; woken = []; running = 3 ∷ 2 ∷ [] }
unfolding run finish
over_the_limit = refl

abbrev waiting : List GateStep
waiting = runs 1 ∷ runs 2 ∷ runs 3 ∷ []

waiting-IsFair : IsFair 1 (gate_steps 1 waiting new_gate)
waiting-IsFair = gate_steps-IsFair 1 waiting new_gate (refl, inl refl)

waiting-measure : measure (gate_steps 1 waiting new_gate) ≤ 7
unfolding run
waiting-measure = omega arith

drain-IsEmpty_example : IsEmpty (drain 7 (gate_steps 1 waiting new_gate))
drain-IsEmpty_example =
    drain-IsEmpty 1 (omega arith) 7 (gate_steps 1 waiting new_gate) waiting-IsFair waiting-measure

abbrev message : Bytes
message = 1 ∷ 2 ∷ 3 ∷ 4 ∷ 5 ∷ []

-- A stream that emits 9 and 8 for the message, in two chunks with the trailer.
abbrev chunks : List Bytes
chunks = (9 ∷ []) ∷ (8 ∷ sync_flush_trailer) ∷ []

abbrev inflate : Bytes → Option Bytes
inflate bytes = if same_text bytes (9 ∷ 8 ∷ sync_flush_trailer) then some message else none

-- The other side.
abbrev env : Env
env = record {
  buffer_util = none;
  is_utf8 = λ _. true;
  to_text = λ _. "";
  from_text = λ _. [];
  inflate_raw_sync = inflate;
  has_cork = false;
  listens_to_errors = true;
}

abbrev fresh : Compressor ℕ
fresh = new_compressor

compressed_message : (compressed message chunks fresh).0 ≡ resolved true (9 ∷ 8 ∷ [])
unfolding compress_with_stream complete trim_sync_flush_trailer
compressed_message = refl

compressed-Restores_example :
    Restores env message (compressed message chunks fresh).0
    × IsIdle (compressed message chunks fresh).1
compressed-Restores_example =
    compressed-Restores env message (9 ∷ 8 ∷ []) chunks fresh (refl, refl, refl) refl (omega arith)
      refl
