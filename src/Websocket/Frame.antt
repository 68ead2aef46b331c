-- ===== src/Websocket/Frame.antt =====
-- src/internal/websocket/frame.ts: frames of RFC 6455, built by the server and parsed from a client.
-- A `Buffer` is a list of bytes. `bufferutil`, which may be installed, is a parameter.
pub mod Format
pub mod Masking
pub mod Opcodes
pub mod Parsing
use Prim.Native.Nat.{bit_and, bit_or, bit_xor}
use kenojs.Prelude.{
  ℕ, suc, ◌+◌, ◌*◌, ◌/◌, ◌%◌, ◌^◌, String, Bool, true, false, not, ◌&&◌, ◌||◌, Option, none, some,
  List, [], ◌∷◌, ◌++◌, ltb, leb, ◌==◌, if◌then◌else◌, length, get_or, take, drop,
}
use kenojs.Prelude.Bytes.{word}

abbrev pub Bytes : Type 0
Bytes = List ℕ

pub record WebSocketProtocolError : Type 0 where
  pub message : String
  pub close_code : ℕ

abbrev pub protocol_error : String → WebSocketProtocolError
protocol_error message = record { message = message; close_code = 1002 }

pub record ParsedFrame : Type 0 where
  pub fin : Bool
  pub opcode : ℕ
  pub payload : Bytes
  pub rsv1 : Bool

pub record FrameBuildOptions : Type 0 where
  pub fin : Option Bool
  pub rsv1 : Option Bool

abbrev has : List ℕ → ℕ → Bool
has [] code = false
has (c ∷ cs) code = c == code || has cs code

abbrev valid_control_codes : List ℕ
valid_control_codes = 1000 ∷ 1001 ∷ 1002 ∷ 1003 ∷ 1007 ∷ 1008 ∷ 1009 ∷ 1010 ∷ 1011 ∷ []

unfoldable pub is_valid_close_code : ℕ → Bool
is_valid_close_code code =
    if has valid_control_codes code then true else leb 3000 code && ltb code 5000

abbrev or_default : Option Bool → Bool → Bool
or_default none d = d
or_default (some b) d = b

-- `writeUInt16BE` and `writeBigUInt64BE`.
abbrev pub write_uint16_be : ℕ → Bytes
write_uint16_be n = (n / 256 % 256) ∷ (n % 256) ∷ []

abbrev pub write_uint64_be : ℕ → Bytes
write_uint64_be n =
    (n / 2 ^ 56 % 256)
    ∷ (n / 2 ^ 48 % 256)
    ∷ (n / 2 ^ 40 % 256)
    ∷ (n / 2 ^ 32 % 256)
    ∷ (n / 2 ^ 24 % 256)
    ∷ (n / 2 ^ 16 % 256)
    ∷ (n / 2 ^ 8 % 256)
    ∷ (n % 256)
    ∷ []

-- The length as the header's second byte holds it, and the bytes that follow it.
encoded_length : ℕ → ℕ × Bytes
encoded_length payload_length =
    if ltb 125 payload_length && ltb payload_length 65536
    then (126, write_uint16_be payload_length)
    else if leb 65536 payload_length
    then (127, write_uint64_be payload_length)
    else (payload_length, [])

unfoldable pub build_frame_header : ℕ → ℕ → FrameBuildOptions → Bytes
unfolding encoded_length
build_frame_header opcode payload_length options =
    let fin = or_default options.fin true in
    let rsv1 = or_default options.rsv1 false in
    let (encoded, extended) = encoded_length payload_length in
    (bit_or (bit_or opcode (if fin then 0x80 else 0)) (if rsv1 then 0x40 else 0) % 256)
    ∷ encoded
    ∷ extended

unfoldable pub build_frame : ℕ → Bytes → FrameBuildOptions → Bytes
build_frame opcode payload options = build_frame_header opcode (length payload) options ++ payload

-- `x << k` on 32-bit integers, and `>>> 0`.
abbrev shl32 : ℕ → ℕ → ℕ
shl32 x k = x * 2 ^ k % 2 ^ 32

mask_word : ℕ → ℕ → ℕ → ℕ → ℕ
mask_word mask0 mask1 mask2 mask3 =
    bit_or
      (bit_or (bit_or (shl32 (bit_and mask0 0xff) 24) (shl32 (bit_and mask1 0xff) 16))
        (shl32 (bit_and mask2 0xff) 8))
      (bit_and mask3 0xff)

abbrev write_uint32_be : ℕ → Bytes → Bytes
write_uint32_be n rest =
    (n / 2 ^ 24 % 256) ∷ (n / 2 ^ 16 % 256) ∷ (n / 2 ^ 8 % 256) ∷ (n % 256) ∷ rest

abbrev mask_at : ℕ → ℕ → ℕ → ℕ → ℕ → ℕ
mask_at mask0 mask1 mask2 mask3 index =
    if index % 4 == 0
    then mask0
    else if index % 4 == 1
    then mask1
    else if index % 4 == 2
    then mask2
    else mask3

-- The second loop, over the bytes that fill no word; the list is the payload from `index` on.
unmask_tail : ℕ → ℕ → ℕ → ℕ → ℕ → Bytes → Bytes
unmask_tail mask0 mask1 mask2 mask3 index [] = []
unmask_tail mask0 mask1 mask2 mask3 index (v ∷ vs) =
    bit_xor v (mask_at mask0 mask1 mask2 mask3 index)
    ∷ unmask_tail mask0 mask1 mask2 mask3 (index + 1) vs

-- The first loop, a word at a time while `index + 4 <= payload.byteLength`.
unmask_words : ℕ → ℕ → ℕ → ℕ → ℕ → Bytes → Bytes
unmask_words mask0 mask1 mask2 mask3 index (v0 ∷ v1 ∷ v2 ∷ v3 ∷ vs) =
    write_uint32_be (bit_xor (word v0 v1 v2 v3) (mask_word mask0 mask1 mask2 mask3))
      (unmask_words mask0 mask1 mask2 mask3 (index + 4) vs)
unmask_words mask0 mask1 mask2 mask3 index vs = unmask_tail mask0 mask1 mask2 mask3 index vs

-- What the parser makes of the bytes at hand: `null`, a frame, or an exception.
pub data Parsed : Type 0 where
  incomplete : Parsed
  complete : (consumed : ℕ) → ParsedFrame → Parsed
  throws : WebSocketProtocolError → Parsed

-- The payload's length and the offset of what follows it.
pub data LengthField : Type 0 where
  wait : LengthField
  refused : WebSocketProtocolError → LengthField
  known : (payload_length offset : ℕ) → LengthField

abbrev pub max_safe_integer : ℕ
max_safe_integer = 9007199254740991

read_uint16_be : Bytes → ℕ → ℕ
read_uint16_be buffer offset = get_or buffer offset 0 * 256 + get_or buffer (offset + 1) 0

read_uint64_be : Bytes → ℕ → ℕ
read_uint64_be buffer offset =
    word (at 0) (at 1) (at 2) (at 3) * 2 ^ 32 + word (at 4) (at 5) (at 6) (at 7)
  where
    at : ℕ → ℕ
    at i = get_or buffer (offset + i) 0

unfoldable pub read_length : Bytes → ℕ → LengthField
unfolding read_uint16_be read_uint64_be
read_length buffer short =
    if short == 126
    then (if ltb (length buffer) 4 then wait else known (read_uint16_be buffer 2) 4)
    else if short == 127
    then (if ltb (length buffer) 10
        then wait
        else if ltb max_safe_integer (read_uint64_be buffer 2)
        then refused
            (record { message = "Payload length exceeds JavaScript limits"; close_code = 1009 })
        else known (read_uint64_be buffer 2) 10)
    else known short 2

module _ (buffer_util : Option (Bytes → Bytes → Bytes)) where
  unfoldable pub unmask_payload : Bytes → ℕ → ℕ → ℕ → ℕ → Bytes
  unfolding unmask_words unmask_tail mask_word
  unmask_payload payload mask0 mask1 mask2 mask3 = elim buffer_util [
    | some unmask ↦ unmask payload (mask0 ∷ mask1 ∷ mask2 ∷ mask3 ∷ [])
    | none ↦ unmask_words mask0 mask1 mask2 mask3 0 payload
  ]

  -- The part of the parser after the length.
  unfoldable pub parse_body : Bytes → Bool → Bool → ℕ → LengthField → Parsed
  parse_body buffer fin rsv1 opcode wait = incomplete
  parse_body buffer fin rsv1 opcode (refused e) = throws e
  parse_body buffer fin rsv1 opcode (known payload_length offset) =
      if leb 0x08 opcode && (rsv1 || not fin || ltb 125 payload_length)
      then throws (protocol_error "Invalid control frame")
      else if ltb (length buffer) (offset + 4 + payload_length)
      then incomplete
      else complete (offset + 4 + payload_length) (record {
        fin = fin;
        opcode = opcode;
        payload =
            unmask_payload (take payload_length (drop (offset + 4) buffer)) (get_or buffer offset 0)
              (get_or buffer (offset + 1) 0) (get_or buffer (offset + 2) 0)
              (get_or buffer (offset + 3) 0);
        rsv1 = rsv1;
      })

  unfoldable pub try_parse_frame : Bytes → Bool → Parsed
  try_parse_frame buffer allow_rsv1 =
      if ltb (length buffer) 2
      then incomplete
      else let first_byte = get_or buffer 0 0 in
        let second_byte = get_or buffer 1 0 in
        let rsv1 = bit_and first_byte 0x40 == 0x40 in
        if not (bit_and first_byte 0x30 == 0) || (rsv1 && not allow_rsv1)
        then throws (protocol_error "Reserved bits are not supported")
        else if not (bit_and second_byte 0x80 == 0x80)
        then throws (protocol_error "Client frames must be masked")
        else parse_body buffer (bit_and first_byte 0x80 == 0x80) rsv1 (bit_and first_byte 0x0f)
            (read_length buffer (bit_and second_byte 0x7f))
