-- ===== src/Websocket/Frame/Format.antt =====
-- The frame format of RFC 6455, section 5.2, written down independently of frame.ts, and the frames
-- that the server builds.
use Prim.Native.Nat.{bit_and, bit_or}
use kenojs.Prelude.{
  ℕ, zero, suc, ◌+◌, ◌/◌, ◌%◌, ◌^◌, ◌≤◌, ◌<◌, ◌≡◌, refl, Bool, true, false, ◌&&◌, Option, none,
  some, [], ◌∷◌, ◌++◌, ◌==◌, length, arith,
}
use kenojs.Prelude.Bytes.{all_below, holds_below}
use kenojs.Websocket.Frame.{Bytes, FrameBuildOptions, build_frame, build_frame_header}

-- The `k` bytes of `n`, the highest first.
unfoldable pub be_bytes : ℕ → ℕ → Bytes
be_bytes zero n = []
be_bytes (suc k) n = be_bytes k (n / 256) ++ (n % 256) ∷ []

-- The shortest of the three forms: seven bits, or one of two markers with two or eight bytes.
pub data LengthForm (n : ℕ) : Type 0 where
  short : n ≤ 125 → LengthForm n
  medium : 125 < n → n < 65536 → LengthForm n
  long : 65536 ≤ n → LengthForm n

abbrev pub seven_bits : {n : ℕ} → LengthForm n → ℕ
seven_bits {n} (short h) = n
seven_bits (medium h g) = 126
seven_bits (long h) = 127

abbrev pub extended : {n : ℕ} → LengthForm n → Bytes
extended (short h) = []
extended {n} (medium h g) = be_bytes 2 n
extended {n} (long h) = be_bytes 8 n

abbrev pub bit : Bool → ℕ → ℕ
bit true n = n
bit false n = 0

abbrev pub key_bytes : Option Bytes → Bytes
key_bytes none = []
key_bytes (some key) = key

abbrev pub is_masked : Option Bytes → Bool
is_masked none = false
is_masked (some key) = true

-- FIN, RSV1, the opcode, the mask bit and length, the key, and the bytes as they are sent.
abbrev pub frame_bytes : {n : ℕ} → Bool → Bool → ℕ → LengthForm n → Option Bytes → Bytes → Bytes
frame_bytes fin rsv1 opcode form key sent =
    (bit fin 128 + bit rsv1 64 + opcode)
      ∷ (bit (is_masked key) 128 + seven_bits form)
      ∷ extended form
    ++ (key_bytes key ++ sent)

abbrev flags_hold : Bool → Bool → ℕ → Bool
flags_hold fin rsv1 opcode =
    let byte = bit fin 128 + bit rsv1 64 + opcode in
    (bit_and byte 0x30 == 0)
    && (bit_and byte 0x40 == bit rsv1 0x40)
    && (bit_and byte 0x80 == bit fin 0x80)
    && (bit_and byte 0x0f == opcode)
    && (bit_or (bit_or opcode (bit fin 0x80)) (bit rsv1 0x40) % 256 == byte)

flags_table : (fin rsv1 : Bool) → all_below 16 (flags_hold fin rsv1) ≡ true
unfolding all_below
flags_table true true = refl
flags_table true false = refl
flags_table false true = refl
flags_table false false = refl

-- The first byte: what the bitwise tests read is what the sum was made of.
pub record FirstByte (fin rsv1 : Bool) (opcode byte : ℕ) : Type 0 where
  pub reserved : bit_and byte 0x30 ≡ 0
  pub rsv1_bit : bit_and byte 0x40 ≡ bit rsv1 0x40
  pub fin_bit : bit_and byte 0x80 ≡ bit fin 0x80
  pub opcode_bits : bit_and byte 0x0f ≡ opcode
  pub joined : bit_or (bit_or opcode (bit fin 0x80)) (bit rsv1 0x40) % 256 ≡ byte

pub first_byte :
    (fin rsv1 : Bool) (opcode : ℕ)
    → opcode < 16
    → FirstByte fin rsv1 opcode (bit fin 128 + bit rsv1 64 + opcode)
first_byte fin rsv1 opcode h =
    ground (arith, holds_below 16 (flags_hold fin rsv1) opcode (flags_table fin rsv1) h)

second_table :
    all_below 128 (λ x. (bit_and (128 + x) 0x80 == 0x80) && (bit_and (128 + x) 0x7f == x)) ≡ true
unfolding all_below
second_table = refl

pub second_byte : (x : ℕ) → x < 128 → (bit_and (128 + x) 0x80 ≡ 0x80) × (bit_and (128 + x) 0x7f ≡ x)
second_byte x h = ground (
  arith,
  holds_below 128 (λ y. (bit_and (128 + y) 0x80 == 0x80) && (bit_and (128 + y) 0x7f == y)) x
      second_table h,
)

abbrev pub fin_of : FrameBuildOptions → Bool
fin_of options = elim options.fin [ none ↦ true | some b ↦ b ]

abbrev pub rsv1_of : FrameBuildOptions → Bool
rsv1_of options = elim options.rsv1 [ none ↦ false | some b ↦ b ]

-- The server's frames have the format of RFC 6455: the flags that were asked for (FIN by default),
-- no mask, and the shortest form of the length.
pub build_frame-frame_bytes :
    (opcode : ℕ) (payload : Bytes) (options : FrameBuildOptions)
    (form : LengthForm (length payload))
    → opcode < 16
    → length payload < 2 ^ 64
    → build_frame opcode payload options
      ≡ frame_bytes (fin_of options) (rsv1_of options) opcode form none payload
unfolding build_frame build_frame_header be_bytes
build_frame-frame_bytes opcode payload options (short h) ho hn =
    ground (arith, first_byte (fin_of options) (rsv1_of options) opcode ho)
build_frame-frame_bytes opcode payload options (medium h g) ho hn =
    ground (arith, first_byte (fin_of options) (rsv1_of options) opcode ho)
build_frame-frame_bytes opcode payload options (long h) ho hn =
    ground (arith, first_byte (fin_of options) (rsv1_of options) opcode ho)
