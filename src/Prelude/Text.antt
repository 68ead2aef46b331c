-- ===== src/Prelude/Text.antt =====
-- Texts as JavaScript has them: lists of UTF-16 code units.
use Prim.Native.Nat.{ℕ, ◌+◌}
use Prim.Native.Char.{code}
use Prim.Native.String.{String}
use mathlib.Core.Path.{◌≡◌, refl}
use mathlib.Core.Logic.{◌↔◌}
use mathlib.Core.Bool.{Bool, true, false, ◌&&◌, ◌||◌}
use mathlib.Core.List.{List, [], ◌∷◌, ◌++◌}
use native.Mathlib.Omega.{arith}
use kenojs.Prelude.Tests.{◌==◌, leb, Key, if◌then◌else◌}

abbrev pub Text : Type 0
Text = List ℕ

abbrev pub same_text : Text → Text → Bool
same_text [] [] = true
same_text [] (d ∷ ds) = false
same_text (c ∷ cs) [] = false
same_text (c ∷ cs) (d ∷ ds) = (c == d) && same_text cs ds

same_text_to : (s t : Text) → same_text s t ≡ true → s ≡ t
same_text_to [] [] h = refl
same_text_to [] (d ∷ ds) h = cc
same_text_to (c ∷ cs) [] h = cc
same_text_to (c ∷ cs) (d ∷ ds) h = ground (arith, same_text_to cs ds)

same_text_refl : (s : Text) → same_text s s ≡ true
same_text_refl [] = refl
same_text_refl (c ∷ cs) = ground (arith, same_text_refl cs)

pub same_text_iff : (s t : Text) → (same_text s t ≡ true) ↔ (s ≡ t)
same_text_iff s t = (same_text_to s t, λ e. rw (e, same_text_refl t))

instance abbrev pub text_key : Key Text
text_key = record { same = same_text; same_iff = same_text_iff }

-- The white space that `trim` removes.
abbrev pub is_space : ℕ → Bool
is_space c =
    (leb 9 c && leb c 13)
    || (c == 32)
    || (c == 160)
    || (c == 0x1680)
    || (leb 0x2000 c && leb c 0x200a)
    || (c == 0x2028)
    || (c == 0x2029)
    || (c == 0x202f)
    || (c == 0x205f)
    || (c == 0x3000)
    || (c == 0xfeff)

unfoldable pub trim_start : Text → Text
trim_start [] = []
trim_start (c ∷ cs) = if is_space c then trim_start cs else c ∷ cs

unfoldable pub trim_end : Text → Text
trim_end [] = []
trim_end (c ∷ cs) = elim (trim_end cs) [
  | [] ↦ if is_space c then [] else c ∷ []
  | d ∷ ds ↦ c ∷ d ∷ ds
]

unfoldable pub trim : Text → Text
trim s = trim_end (trim_start s)

-- The code units of a text literal.
abbrev pub codes : String → Text
codes String.[] = []
codes (String.◌∷◌ c s) = code c ∷ codes s

abbrev pub is_empty {ℓ} : {A : Type ℓ} → List A → Bool
is_empty [] = true
is_empty (x ∷ xs) = false

-- `startsWith`.
abbrev pub has_prefix : Text → Text → Bool
has_prefix [] s = true
has_prefix (c ∷ cs) [] = false
has_prefix (c ∷ cs) (d ∷ ds) = (c == d) && has_prefix cs ds

pub has_prefix-split : (p s : Text) → has_prefix p s ≡ true → (rest : Text) × (s ≡ p ++ rest)
has_prefix-split [] s h = (s, refl)
has_prefix-split (c ∷ cs) [] h = cc
has_prefix-split (c ∷ cs) (d ∷ ds) h =
    let (rest, e) = has_prefix-split cs ds (ground arith) in (rest, ground arith)

-- `includes` of one code unit.
abbrev pub includes : ℕ → Text → Bool
includes c [] = false
includes c (d ∷ ds) = (d == c) || includes c ds

-- `split` at one code unit: the first part and the others.
unfoldable pub split_parts : ℕ → Text → Text × List Text
split_parts c [] = ([], [])
split_parts c (d ∷ ds) =
    let rest = split_parts c ds in if d == c then ([], rest.0 ∷ rest.1) else (d ∷ rest.0, rest.1)

unfoldable pub split_on : ℕ → Text → List Text
split_on c s = let parts = split_parts c s in parts.0 ∷ parts.1

abbrev pub lower_char : ℕ → ℕ
lower_char c = if leb 65 c && leb c 90 then c + 32 else c

-- `toLowerCase`, of ASCII letters.
abbrev pub lower : Text → Text
lower [] = []
lower (c ∷ cs) = lower_char c ∷ lower cs
