-- ===== src/Websocket/Frame/Opcodes.antt =====
-- `OPCODES` of src/internal/websocket/frame.ts.
use kenojs.Prelude.{ℕ}

abbrev pub binary : ℕ
binary = 0x02

abbrev pub close : ℕ
close = 0x08

abbrev pub continuation : ℕ
continuation = 0x00

abbrev pub ping : ℕ
ping = 0x09

abbrev pub pong : ℕ
pong = 0x0a

abbrev pub text : ℕ
text = 0x01
