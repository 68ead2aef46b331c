-- ===== src/Websocket/Frame/Masking.antt =====
-- The masking of frame.ts against the rule of RFC 6455, section 5.3.
use Prim.Native.Nat.{bit_xor}
use native.Mathlib.Omega.{arith}
use kenojs.Prelude.{
  ℕ, ◌+◌, ◌*◌, ◌/◌, ◌%◌, ◌^◌, ◌<◌, ◌≡◌, refl, Option, none, some, [], ◌∷◌, All, get_or, length,
}
use kenojs.Prelude.Bytes.{
  word, bit_xor-word, bit_xor-lt, bit_xor-bit_xor, bit_or-shifted, bit_and-low_byte,
}
use kenojs.Websocket.Frame.{Bytes, mask_word, unmask_tail, unmask_words, unmask_payload}

abbrev pub IsByte : ℕ → Type 0
IsByte b = b < 256

-- Byte `i` of the payload is combined with byte `i mod 4` of the key.
unfoldable pub apply_mask : Bytes → ℕ → Bytes → Bytes
apply_mask key index [] = []
apply_mask key index (v ∷ vs) = bit_xor v (get_or key (index % 4) 0) ∷ apply_mask key (index + 1) vs

mask_word-word :
    (a b c d : ℕ) → IsByte a → IsByte b → IsByte c → IsByte d → mask_word a b c d ≡ word a b c d
unfolding mask_word
mask_word-word a b c d ha hb hc hd = ground (
  arith,
  bit_and-low_byte a ha,
  bit_and-low_byte b hb,
  bit_and-low_byte c hc,
  bit_and-low_byte d hd,
  bit_or-shifted 24 a (b * 2 ^ 16),
  bit_or-shifted 16 (a * 256 + b) (c * 2 ^ 8),
  bit_or-shifted 8 ((a * 256 + b) * 256 + c) d,
)

four : (q k : ℕ) → (4 * q + 4 + k) % 4 ≡ k % 4
four q k = omega arith

unmask_tail-apply_mask :
    (a b c d index : ℕ) (vs : Bytes)
    → unmask_tail a b c d index vs ≡ apply_mask (a ∷ b ∷ c ∷ d ∷ []) index vs
unfolding unmask_tail apply_mask
unmask_tail-apply_mask a b c d index [] = refl
unmask_tail-apply_mask a b c d index (v ∷ vs) =
    ground (arith, unmask_tail-apply_mask a b c d (index + 1) vs)

-- A word's bytes, read back.
word_bytes :
    (x y z w : ℕ)
    → IsByte x
    → IsByte y
    → IsByte z
    → IsByte w
    → (word x y z w / 2 ^ 24 % 256 ≡ x)
      × (word x y z w / 2 ^ 16 % 256 ≡ y)
      × (word x y z w / 2 ^ 8 % 256 ≡ z)
      × (word x y z w % 256 ≡ w)
word_bytes x y z w hx hy hz hw = omega arith

module _ (a b c d : ℕ) (ha : IsByte a) (hb : IsByte b) (hc : IsByte c) (hd : IsByte d) where
  -- One round of the word loop.
  masked_word :
      (v0 v1 v2 v3 : ℕ)
      → IsByte v0
      → IsByte v1
      → IsByte v2
      → IsByte v3
      → bit_xor (word v0 v1 v2 v3) (mask_word a b c d)
        ≡ word (bit_xor v0 a) (bit_xor v1 b) (bit_xor v2 c) (bit_xor v3 d)
  masked_word v0 v1 v2 v3 h0 h1 h2 h3 =
      rw (mask_word-word a b c d ha hb hc hd) (bit_xor-word v0 v1 v2 v3 a b c d h1 h2 h3 hb hc hd)

  unmask_words-apply_mask :
      (q : ℕ) (vs : Bytes)
      → All IsByte vs
      → unmask_words a b c d (4 * q) vs ≡ apply_mask (a ∷ b ∷ c ∷ d ∷ []) (4 * q) vs
  unfolding unmask_words apply_mask
  unmask_words-apply_mask q [] h = unmask_tail-apply_mask a b c d (4 * q) []
  unmask_words-apply_mask q (v0 ∷ []) h = unmask_tail-apply_mask a b c d (4 * q) (v0 ∷ [])
  unmask_words-apply_mask q (v0 ∷ v1 ∷ []) h = unmask_tail-apply_mask a b c d (4 * q) (v0 ∷ v1 ∷ [])
  unmask_words-apply_mask q (v0 ∷ v1 ∷ v2 ∷ []) h =
      unmask_tail-apply_mask a b c d (4 * q) (v0 ∷ v1 ∷ v2 ∷ [])
  unmask_words-apply_mask q (v0 ∷ v1 ∷ v2 ∷ v3 ∷ vs) (h0, (h1, (h2, (h3, hs)))) = ground (
    arith,
    masked_word v0 v1 v2 v3 h0 h1 h2 h3,
    word_bytes (bit_xor v0 a) (bit_xor v1 b) (bit_xor v2 c) (bit_xor v3 d),
    bit_xor-lt v0 a h0 ha,
    bit_xor-lt v1 b h1 hb,
    bit_xor-lt v2 c h2 hc,
    bit_xor-lt v3 d h3 hd,
    unmask_words-apply_mask (q + 1) vs hs,
  )

-- What the documentation of `bufferutil` says of `unmask(buffer, mask)`.
abbrev pub Unmasks : Option (Bytes → Bytes → Bytes) → Type 0
Unmasks none = Unit
Unmasks (some unmask) =
    (payload : Bytes) (a b c d : ℕ)
    → unmask payload (a ∷ b ∷ c ∷ d ∷ []) ≡ apply_mask (a ∷ b ∷ c ∷ d ∷ []) 0 payload

-- Without a native module the word loop follows the rule of RFC 6455: byte i of the payload is combined with
-- byte i mod 4 of the key, for any payload and key of bytes.
pub unmask_payload-apply_mask :
    (payload : Bytes) (a b c d : ℕ)
    → All IsByte payload
    → IsByte a
    → IsByte b
    → IsByte c
    → IsByte d
    → unmask_payload none payload a b c d ≡ apply_mask (a ∷ b ∷ c ∷ d ∷ []) 0 payload
unfolding unmask_payload
unmask_payload-apply_mask payload a b c d h ha hb hc hd =
    unmask_words-apply_mask a b c d ha hb hc hd 0 payload h

-- The same with a native module that does so.
pub unmask_with :
    (buffer_util : Option (Bytes → Bytes → Bytes)) (payload : Bytes) (a b c d : ℕ)
    → Unmasks buffer_util
    → All IsByte payload
    → IsByte a
    → IsByte b
    → IsByte c
    → IsByte d
    → unmask_payload buffer_util payload a b c d ≡ apply_mask (a ∷ b ∷ c ∷ d ∷ []) 0 payload
unfolding unmask_payload
unmask_with none payload a b c d u h ha hb hc hd =
    unmask_payload-apply_mask payload a b c d h ha hb hc hd
unmask_with (some unmask) payload a b c d u h ha hb hc hd = u payload a b c d

-- Masking twice with bytes changes nothing.
pub apply_mask-apply_mask :
    (key : Bytes) (index : ℕ) (payload : Bytes)
    → All IsByte payload
    → ((i : ℕ) → IsByte (get_or key i 0))
    → apply_mask key index (apply_mask key index payload) ≡ payload
unfolding apply_mask
apply_mask-apply_mask key index [] h k = refl
apply_mask-apply_mask key index (v ∷ vs) (hv, hs) k = ground (
  arith,
  bit_xor-bit_xor v (get_or key (index % 4) 0) hv (k (index % 4)),
  apply_mask-apply_mask key (index + 1) vs hs k,
)

pub length-apply_mask :
    (key : Bytes) (index : ℕ) (payload : Bytes)
    → length (apply_mask key index payload) ≡ length payload
unfolding apply_mask
length-apply_mask key index [] = refl
length-apply_mask key index (v ∷ vs) = omega (arith, length-apply_mask key (index + 1) vs)

pub apply_mask-IsByte :
    (key : Bytes) (index : ℕ) (payload : Bytes)
    → All IsByte payload
    → ((i : ℕ) → IsByte (get_or key i 0))
    → All IsByte (apply_mask key index payload)
unfolding apply_mask
apply_mask-IsByte key index [] h k = tt
apply_mask-IsByte key index (v ∷ vs) (hv, hs) k = (
  bit_xor-lt v (get_or key (index % 4) 0) hv (k (index % 4)),
  apply_mask-IsByte key (index + 1) vs hs k,
)
