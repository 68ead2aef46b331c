-- ===== src/Prelude/Bytes.antt =====
-- Bytes and big-endian words, and the bitwise operations at variables: a law for each binary
-- digit, and one for the parts of a number above and below a bit, which splits a word into bytes.
use Prim.Native.Nat.{
  ℕ, zero, suc, ◌+◌, ◌*◌, ◌/◌, ◌%◌, ◌^◌, ◌≤◌, ◌<◌, max, bit_xor, bit_or, bit_and, digits, bitwise,
  differ, bit_xor-bitwise, bit_or-bitwise,
}
use mathlib.Core.Path.{◌≡◌, refl, ap}
use native.Mathlib.Nat.{pow-suc}
use native.Mathlib.Omega.{arith}
use mathlib.Core.Bool.{Bool, true, ◌&&◌}
use kenojs.Prelude.Tests.{◌==◌, ==_iff}

-- The recursion behind an operation gives one result for every fuel that covers its first number.
module _ (above : ℕ → ℕ) (digit : ℕ → ℕ → ℕ) where
  digits-eq_fuel :
      (a b n m : ℕ) → a ≤ n → a ≤ m → digits above digit n a b ≡ digits above digit m a b
  digits-eq_fuel a b zero zero p q = refl
  digits-eq_fuel zero b zero (suc m) p q = refl
  digits-eq_fuel (suc a) b zero m p q = absurd (omega arith)
  digits-eq_fuel zero b (suc n) zero p q = refl
  digits-eq_fuel (suc a) b (suc n) zero p q = absurd (omega arith)
  digits-eq_fuel zero b (suc n) (suc m) p q = refl
  digits-eq_fuel (suc a) b (suc n) (suc m) p q =
      let ih = digits-eq_fuel (suc a / 2) (b / 2) n m (omega arith) (omega arith) in
      ap (λ (t : ℕ). t * 2 + digit (suc a % 2) (b % 2)) ih

  bitwise_step :
      (a b : ℕ)
      → bitwise above digit (suc a) b
        ≡ bitwise above digit (suc a / 2) (b / 2) * 2 + digit (suc a % 2) (b % 2)
  bitwise_step a b =
      ap (λ (t : ℕ). t * 2 + digit (suc a % 2) (b % 2))
        (digits-eq_fuel (suc a / 2) (b / 2) a (suc a / 2) (omega arith) (omega arith))

xor_digit : (x y : ℕ) → bit_xor x y ≡ differ (x % 2) (y % 2) + 2 * bit_xor (x / 2) (y / 2)
xor_digit zero y = simp bit_xor-bitwise (omega arith)
xor_digit (suc x) y = simp bit_xor-bitwise (omega (arith, bitwise_step (λ d. d) differ x y))

or_digit : (x y : ℕ) → bit_or x y ≡ max (x % 2) (y % 2) + 2 * bit_or (x / 2) (y / 2)
or_digit zero y = simp bit_or-bitwise (omega arith)
or_digit (suc x) y = simp bit_or-bitwise (omega (arith, bitwise_step (λ d. d) max x y))

double : (q k : ℕ) → q * 2 ^ suc k ≡ 2 * (q * 2 ^ k)
double q k = omega (arith, ap (λ (t : ℕ). q * t) (pow-suc 2 k))

-- An operation that works digit by digit works on the parts above and below any bit.
module _ (op : ℕ → ℕ → ℕ) (digit : ℕ → ℕ → ℕ) (none_set : op 0 0 ≡ 0)
    (step : (a b : ℕ) → op a b ≡ digit (a % 2) (b % 2) + 2 * op (a / 2) (b / 2)) where
  parts :
      (k a b c d : ℕ)
      → b < 2 ^ k
      → d < 2 ^ k
      → op (a * 2 ^ k + b) (c * 2 ^ k + d) ≡ op a c * 2 ^ k + op b d
  parts zero a b c d p q = ground (arith, none_set)
  parts (suc k) a b c d p q = ground (
    arith,
    step (a * 2 ^ suc k + b) (c * 2 ^ suc k + d),
    step b d,
    double a k,
    double c k,
    double (op a c) k,
    double 1 k,
    parts k a (b / 2) c (d / 2),
  )

  at_zero : ((a : ℕ) → a < 2 → digit a 0 ≡ a) → (k a : ℕ) → a < 2 ^ k → op a 0 ≡ a
  at_zero keeps zero a p = ground (arith, none_set)
  at_zero keeps (suc k) a p =
      ground (arith, step a 0, keeps (a % 2), double 1 k, at_zero keeps k (a / 2))

  below_pow :
      ((a b : ℕ) → a < 2 → b < 2 → digit a b < 2)
      → (k a b : ℕ) → a < 2 ^ k
      → b < 2 ^ k
      → op a b < 2 ^ k
  below_pow small zero a b p q = ground (arith, none_set)
  below_pow small (suc k) a b p q =
      ground (arith, step a b, small (a % 2) (b % 2), double 1 k, below_pow small k (a / 2) (b / 2))

  undone :
      ((a b : ℕ) → a < 2 → b < 2 → digit a b < 2)
      → ((a b : ℕ) → a < 2 → b < 2 → digit (digit a b) b ≡ a)
      → (k a b : ℕ) → a < 2 ^ k
      → b < 2 ^ k
      → op (op a b) b ≡ a
  undone small back zero a b p q = ground (arith, none_set)
  undone small back (suc k) a b p q = ground (
    arith,
    step a b,
    step (op a b) b,
    small (a % 2) (b % 2),
    back (a % 2) (b % 2),
    double 1 k,
    undone small back k (a / 2) (b / 2),
  )

differ_small : (a b : ℕ) → a < 2 → b < 2 → differ a b < 2
differ_small zero b p q = q
differ_small (suc zero) zero p q = omega arith
differ_small (suc zero) (suc b) p q = ground arith
differ_small (suc (suc a)) b p q = absurd (omega arith)

differ_back : (a b : ℕ) → a < 2 → b < 2 → differ (differ a b) b ≡ a
differ_back zero zero p q = refl
differ_back zero (suc zero) p q = refl
differ_back zero (suc (suc b)) p q = absurd (omega arith)
differ_back (suc zero) zero p q = refl
differ_back (suc zero) (suc zero) p q = refl
differ_back (suc zero) (suc (suc b)) p q = absurd (omega arith)
differ_back (suc (suc a)) b p q = absurd (omega arith)

pub bit_xor-lt : (a b : ℕ) → a < 256 → b < 256 → bit_xor a b < 256
bit_xor-lt = below_pow bit_xor differ refl xor_digit differ_small 8

pub bit_xor-bit_xor : (a b : ℕ) → a < 256 → b < 256 → bit_xor (bit_xor a b) b ≡ a
bit_xor-bit_xor = undone bit_xor differ refl xor_digit differ_small differ_back 8

-- Four bytes as a big-endian word.
abbrev pub word : ℕ → ℕ → ℕ → ℕ → ℕ
word a b c d = ((a * 256 + b) * 256 + c) * 256 + d

pub bit_xor-word :
    (a b c d w x y z : ℕ)
    → b < 256
    → c < 256
    → d < 256
    → x < 256
    → y < 256
    → z < 256
    → bit_xor (word a b c d) (word w x y z)
      ≡ word (bit_xor a w) (bit_xor b x) (bit_xor c y) (bit_xor d z)
bit_xor-word a b c d w x y z hb hc hd hx hy hz =
    let part = parts bit_xor differ refl xor_digit 8 in
    omega (
      arith,
      part ((a * 256 + b) * 256 + c) d ((w * 256 + x) * 256 + y) z hd hz,
      part (a * 256 + b) c (w * 256 + x) y hc hy,
      part a b w x hb hx,
    )

bit_or-zero_left : (a : ℕ) → bit_or 0 a ≡ a
bit_or-zero_left a = simp bit_or-bitwise

max_zero : (a : ℕ) → a < 2 → max a 0 ≡ a
max_zero a h = omega arith

-- `(q << k) | r` is a sum when `r` fits `k` bits.
pub bit_or-shifted : (k q r : ℕ) → q < 2 ^ 32 → r < 2 ^ k → bit_or (q * 2 ^ k) r ≡ q * 2 ^ k + r
bit_or-shifted k q r p h = ground (
  arith,
  parts bit_or max refl or_digit k q 0 0 r,
  bit_or-zero_left r,
  at_zero bit_or max refl or_digit max_zero 32 q,
)

-- A table of all values under a bound settles a claim about a byte.
unfoldable pub all_below : ℕ → (ℕ → Bool) → Bool
all_below zero p = true
all_below (suc n) p = p n && all_below n p

pub holds_below : (n : ℕ) (p : ℕ → Bool) (x : ℕ) → all_below n p ≡ true → x < n → p x ≡ true
unfolding all_below
holds_below zero p x table h = absurd (omega arith)
holds_below (suc n) p x table h = ground (arith, holds_below n p x)

low_byte_table : all_below 256 (λ x. bit_and x 0xff == x) ≡ true
unfolding all_below
low_byte_table = refl

pub bit_and-low_byte : (x : ℕ) → x < 256 → bit_and x 0xff ≡ x
bit_and-low_byte x h = (==_iff _ x).0 (holds_below 256 _ x low_byte_table h)
