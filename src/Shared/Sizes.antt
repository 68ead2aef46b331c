-- ===== src/Shared/Sizes.antt =====
-- `parseSize` of src/internal/shared/utils.ts. A number is a natural one here, of any size.
mod Tests
use kenojs.Prelude.{
  ℕ, ◌+◌, ◌-◌, ◌*◌, Bool, ◌&&◌, Option, none, some, List, [], ◌∷◌, if◌then◌else◌, leb,
}
use kenojs.Prelude.Text.{Text, same_text, codes, is_empty, trim, lower}

-- A size that is left out, a number, or a text.
pub data SizeInput : Type 0 where
  omitted : SizeInput
  amount : ℕ → SizeInput
  written : Text → SizeInput

abbrev pub is_digit : ℕ → Bool
is_digit c = leb 48 c && leb c 57

-- The digits at the start and what follows them.
unfoldable pub split_digits : Text → Text × Text
split_digits [] = ([], [])
split_digits (c ∷ cs) =
    let others = split_digits cs in if is_digit c then (c ∷ others.0, others.1) else ([], c ∷ cs)

-- `Number.parseInt` of digits, after those whose value is `before`.
abbrev pub digits_value : (before : ℕ) → Text → ℕ
digits_value before [] = before
digits_value before (c ∷ cs) = digits_value (before * 10 + (c - 48)) cs

-- How many bytes a unit has, none where the pattern does not match.
unfoldable pub unit_size : Text → Option ℕ
unit_size unit =
    if same_text unit (codes "b")
    then some 1
    else if same_text unit (codes "kb")
    then some 1024
    else if same_text unit (codes "mb")
    then some (1024 * 1024)
    else if same_text unit (codes "gb")
    then some (1024 * 1024 * 1024)
    else none

abbrev pub measured : Text → Option ℕ → Option ℕ
measured amount_text none = none
measured [] (some unit) = none
measured (c ∷ amount_text) (some unit) = some (digits_value 0 (c ∷ amount_text) * unit)

-- None where a TypeError is thrown.
unfoldable pub parse_size : SizeInput → (fallback : ℕ) → Option ℕ
parse_size omitted fallback = some fallback
parse_size (amount n) fallback = some n
parse_size (written value) fallback =
    let parts = split_digits (trim value) in measured parts.0 (unit_size (lower parts.1))
