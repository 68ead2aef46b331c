-- ===== src/Websocket/Frame/Parsing.antt =====
-- What the parser of frame.ts makes of a prefix of the stream, and of a client's frame.
use Prim.Native.Nat.{bit_and}
use kenojs.Prelude.{
  ℕ, zero, suc, ◌+◌, ◌≤◌, ◌<◌, ◌≡◌, ◌≢◌, refl, sym, ap, ◌∙◌, Bool, true, false, Option, some, [],
  ◌∷◌, ◌++◌, ◌==◌, length, get_or, drop, arith, All, get_or-append_lt, take-append_le,
  drop-append_le, length-append, length-drop, take-append_self,
}
use kenojs.Websocket.Frame.{
  Bytes, ParsedFrame, incomplete, complete, LengthField, wait, refused, known, read_length,
  unmask_payload, parse_body, try_parse_frame, max_safe_integer,
}
use kenojs.Websocket.Frame.Masking.{
  IsByte, apply_mask, Unmasks, unmask_with, apply_mask-apply_mask, length-apply_mask,
  apply_mask-IsByte,
}
use kenojs.Websocket.Frame.Format.{
  LengthForm, short, medium, long, frame_bytes, bit, first_byte, second_byte, be_bytes, seven_bits,
  extended,
}

-- More bytes do not change a length field that could be read.
read_length-append :
    (buffer more : Bytes) (marker : ℕ)
    → read_length buffer marker ≢ wait
    → read_length (buffer ++ more) marker ≡ read_length buffer marker
unfolding read_length
read_length-append buffer more marker h = ground (
  arith,
  length-append buffer more,
  get_or-append_lt buffer more 2 0,
  get_or-append_lt buffer more 3 0,
  get_or-append_lt buffer more 4 0,
  get_or-append_lt buffer more 5 0,
  get_or-append_lt buffer more 6 0,
  get_or-append_lt buffer more 7 0,
  get_or-append_lt buffer more 8 0,
  get_or-append_lt buffer more 9 0,
)

module _ (buffer_util : Option (Bytes → Bytes → Bytes)) where
  parse_body-append :
      (buffer more : Bytes) (fin rsv1 : Bool) (opcode : ℕ) (field : LengthField)
      → parse_body buffer_util buffer fin rsv1 opcode field ≢ incomplete
      → parse_body buffer_util (buffer ++ more) fin rsv1 opcode field
        ≡ parse_body buffer_util buffer fin rsv1 opcode field
  unfolding parse_body
  parse_body-append buffer more fin rsv1 opcode wait h = refl
  parse_body-append buffer more fin rsv1 opcode (refused e) h = refl
  parse_body-append buffer more fin rsv1 opcode (known n offset) h = ground (
    arith,
    length-append buffer more,
    get_or-append_lt buffer more offset 0,
    get_or-append_lt buffer more (offset + 1) 0,
    get_or-append_lt buffer more (offset + 2) 0,
    get_or-append_lt buffer more (offset + 3) 0,
    drop-append_le (offset + 4) buffer more,
    take-append_le n (drop (offset + 4) buffer) more,
    length-drop (offset + 4) buffer,
  )

  not_waiting :
      (buffer : Bytes) (fin rsv1 : Bool) (opcode : ℕ) (field : LengthField)
      → parse_body buffer_util buffer fin rsv1 opcode field ≢ incomplete
      → field ≢ wait
  unfolding parse_body
  not_waiting buffer fin rsv1 opcode field h e = h (rw (e, parse_body))

  measured-append :
      (buffer more : Bytes) (fin rsv1 : Bool) (opcode marker : ℕ)
      → parse_body buffer_util buffer fin rsv1 opcode (read_length buffer marker) ≢ incomplete
      → parse_body buffer_util
          (buffer ++ more)
          fin
          rsv1
          opcode
          (read_length (buffer ++ more) marker)
        ≡ parse_body buffer_util buffer fin rsv1 opcode (read_length buffer marker)
  measured-append buffer more fin rsv1 opcode marker h =
      rw (read_length-append buffer more marker (not_waiting buffer fin rsv1 opcode _ h))
        (parse_body-append buffer more fin rsv1 opcode _ h)

  -- Once the bytes at hand give a frame or an error, more bytes give the same one.
  pub try_parse_frame-append :
      (buffer more : Bytes) (allow_rsv1 : Bool)
      → try_parse_frame buffer_util buffer allow_rsv1 ≢ incomplete
      → try_parse_frame buffer_util (buffer ++ more) allow_rsv1
        ≡ try_parse_frame buffer_util buffer allow_rsv1
  unfolding try_parse_frame
  try_parse_frame-append buffer more allow_rsv1 h = ground (
    arith,
    length-append buffer more,
    get_or-append_lt buffer more 0 0,
    get_or-append_lt buffer more 1 0,
    measured-append buffer more (bit_and (get_or buffer 0 0) 0x80 == 0x80)
        (bit_and (get_or buffer 0 0) 0x40 == 0x40) (bit_and (get_or buffer 0 0) 0x0f)
        (bit_and (get_or buffer 1 0) 0x7f),
  )

  -- A frame takes at least the header and the key, and no more than the bytes at hand.
  pub consumed_bounds :
      (buffer : Bytes) (allow_rsv1 : Bool) (n : ℕ) (frame : ParsedFrame)
      → try_parse_frame buffer_util buffer allow_rsv1 ≡ complete n frame
      → (6 ≤ n) × (n ≤ length buffer)
  unfolding try_parse_frame parse_body read_length
  consumed_bounds buffer allow_rsv1 n frame e = ground arith

abbrev pub IsKey : ℕ → ℕ → ℕ → ℕ → Type 0
IsKey a b c d = IsByte a × IsByte b × IsByte c × IsByte d

-- The frame's length is read back in each of its three forms.
read_length-frame_bytes :
    (first second : ℕ) (n : ℕ) (form : LengthForm n) (key_and_sent : Bytes)
    → n ≤ max_safe_integer
    → read_length (first ∷ second ∷ extended form ++ key_and_sent) (seven_bits form)
      ≡ known n (2 + length (extended form))
unfolding read_length be_bytes
read_length-frame_bytes first second n (short h) tail hn = ground arith
read_length-frame_bytes first second n (medium h g) tail hn = ground arith
read_length-frame_bytes first second n (long h) tail hn = ground arith

-- A control frame is final, uncompressed and short.
abbrev pub IsControlFit : Bool → Bool → ℕ → ℕ → Type 0
IsControlFit fin rsv1 opcode n = 8 ≤ opcode → (fin ≡ true) × (rsv1 ≡ false) × (n ≤ 125)

get_or-IsByte :
    (a b c d : ℕ)
    → IsByte a
    → IsByte b
    → IsByte c
    → IsByte d
    → (i : ℕ) → IsByte (get_or (a ∷ b ∷ c ∷ d ∷ []) i 0)
get_or-IsByte a b c d ha hb hc hd zero = ha
get_or-IsByte a b c d ha hb hc hd (suc zero) = hb
get_or-IsByte a b c d ha hb hc hd (suc (suc zero)) = hc
get_or-IsByte a b c d ha hb hc hd (suc (suc (suc zero))) = hd
get_or-IsByte a b c d ha hb hc hd (suc (suc (suc (suc i)))) = omega arith

seven_bits-lt : {n : ℕ} (form : LengthForm n) → seven_bits form < 128
seven_bits-lt (short h) = omega arith
seven_bits-lt (medium h g) = omega arith
seven_bits-lt (long h) = omega arith

frame_bytes-append :
    (first second : ℕ) {n : ℕ} (form : LengthForm n) (a b c d : ℕ) (sent rest : Bytes)
    → (first ∷ second ∷ extended form ++ ((a ∷ b ∷ c ∷ d ∷ []) ++ sent)) ++ rest
      ≡ first ∷ second ∷ extended form ++ (a ∷ b ∷ c ∷ d ∷ sent ++ rest)
unfolding be_bytes
frame_bytes-append first second (short h) a b c d sent rest = refl
frame_bytes-append first second (medium h g) a b c d sent rest = refl
frame_bytes-append first second (long h) a b c d sent rest = refl

length-frame_bytes :
    (first second : ℕ) {n : ℕ} (form : LengthForm n) (a b c d : ℕ) (sent : Bytes)
    → length (first ∷ second ∷ extended form ++ ((a ∷ b ∷ c ∷ d ∷ []) ++ sent))
      ≡ 2 + length (extended form) + 4 + length sent
unfolding be_bytes
length-frame_bytes first second (short h) a b c d sent = omega arith
length-frame_bytes first second (medium h g) a b c d sent = omega arith
length-frame_bytes first second (long h) a b c d sent = omega arith

module _ (buffer_util : Option (Bytes → Bytes → Bytes)) where
  parse_body-frame_bytes :
      (first second : ℕ) (n : ℕ) (form : LengthForm n) (fin rsv1 : Bool) (opcode : ℕ) (a b c d : ℕ)
      (sent rest : Bytes)
      → n ≡ length sent
      → IsControlFit fin rsv1 opcode n
      → parse_body buffer_util
          (first ∷ second ∷ extended form ++ (a ∷ b ∷ c ∷ d ∷ sent ++ rest))
          fin
          rsv1
          opcode
          (known n (2 + length (extended form)))
        ≡ complete (2 + length (extended form) + 4 + n) (record {
          fin = fin;
          opcode = opcode;
          payload = unmask_payload buffer_util sent a b c d;
          rsv1 = rsv1;
        })
  unfolding parse_body be_bytes
  parse_body-frame_bytes first second n (short h) fin rsv1 opcode a b c d sent rest e fit =
      ground (arith, length-append sent rest, take-append_self sent rest)
  parse_body-frame_bytes first second n (medium h g) fin rsv1 opcode a b c d sent rest e fit =
      ground (arith, length-append sent rest, take-append_self sent rest)
  parse_body-frame_bytes first second n (long h) fin rsv1 opcode a b c d sent rest e fit =
      ground (arith, length-append sent rest, take-append_self sent rest)

  -- Masking and unmasking by one key is the identity.
  unmask_payload-key :
      (a b c d : ℕ) (payload : Bytes)
      → Unmasks buffer_util
      → All IsByte payload
      → IsKey a b c d
      → unmask_payload buffer_util (apply_mask (a ∷ b ∷ c ∷ d ∷ []) 0 payload) a b c d ≡ payload
  unmask_payload-key a b c d payload u hp (ha, hb, hc, hd) =
      unmask_with buffer_util _ a b c d u
        (apply_mask-IsByte (a ∷ b ∷ c ∷ d ∷ []) 0 payload hp (get_or-IsByte a b c d ha hb hc hd)) ha
        hb hc hd
      ∙ apply_mask-apply_mask (a ∷ b ∷ c ∷ d ∷ []) 0 payload hp (get_or-IsByte a b c d ha hb hc hd)

  -- The tests on the first two bytes pass, and read what the bytes were made of.
  header :
      (fin rsv1 allow_rsv1 : Bool) (opcode marker : ℕ) (tail : Bytes)
      → opcode < 16
      → marker < 128
      → (rsv1 ≡ true → allow_rsv1 ≡ true)
      → let buffer = (bit fin 128 + bit rsv1 64 + opcode) ∷ (128 + marker) ∷ tail in
        try_parse_frame buffer_util buffer allow_rsv1
        ≡ parse_body buffer_util buffer fin rsv1 opcode (read_length buffer marker)
  unfolding try_parse_frame
  header true true allow_rsv1 opcode marker tail ho hm hr =
      ground (arith, first_byte true true opcode ho, second_byte marker hm)
  header true false allow_rsv1 opcode marker tail ho hm hr =
      ground (arith, first_byte true false opcode ho, second_byte marker hm)
  header false true allow_rsv1 opcode marker tail ho hm hr =
      ground (arith, first_byte false true opcode ho, second_byte marker hm)
  header false false allow_rsv1 opcode marker tail ho hm hr =
      ground (arith, first_byte false false opcode ho, second_byte marker hm)

  -- Every client frame in the format of RFC 6455 is parsed, whatever follows it in the buffer: the
  -- flags, the opcode and the unmasked payload come back, and exactly the frame's bytes are consumed.
  -- The payload's length fits the safe integers, RSV1 is set only if allowed, a control frame is
  -- final and short, and a native unmasking module does what its documentation says.
  pub try_parse_frame-frame_bytes :
      (fin rsv1 allow_rsv1 : Bool) (opcode a b c d : ℕ) (payload rest : Bytes)
      (form : LengthForm (length payload))
      → Unmasks buffer_util
      → opcode < 16
      → All IsByte payload
      → IsKey a b c d
      → length payload ≤ max_safe_integer
      → (rsv1 ≡ true → allow_rsv1 ≡ true)
      → IsControlFit fin rsv1 opcode (length payload)
      → let key = a ∷ b ∷ c ∷ d ∷ [] in
        let sent = frame_bytes fin rsv1 opcode form (some key) (apply_mask key 0 payload) in
        try_parse_frame buffer_util (sent ++ rest) allow_rsv1
        ≡ complete
            (length sent)
            (record { fin = fin; opcode = opcode; payload = payload; rsv1 = rsv1 })
  try_parse_frame-frame_bytes fin rsv1 allow_rsv1 opcode a b c d payload rest form u ho hp hk hn hr
        fit =
      let key = a ∷ b ∷ c ∷ d ∷ [] in
      let masked = apply_mask key 0 payload in
      let sent = frame_bytes fin rsv1 opcode form (some key) masked in
      let n = length payload in
      let first : ℕ = bit fin 128 + bit rsv1 64 + opcode in
      let second : ℕ = 128 + seven_bits form in
      let back = unmask_payload-key a b c d payload u hp hk in
      rw (frame_bytes-append first second form a b c d masked rest) (
        header fin rsv1 allow_rsv1 opcode (seven_bits form) _ ho (seven_bits-lt form) hr
        ∙ ap (parse_body buffer_util _ fin rsv1 opcode)
            (read_length-frame_bytes first second n form _ hn)
        ∙ parse_body-frame_bytes first second n form fin rsv1 opcode a b c d masked rest
            (sym (length-apply_mask key 0 payload)) fit
        ∙ ground (
          arith,
          back,
          length-frame_bytes first second form a b c d masked,
          length-apply_mask key 0 payload,
        ))
