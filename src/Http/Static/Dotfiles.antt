-- ===== src/Http/Static/Dotfiles.antt =====
-- Which paths static-service.ts takes for hidden files.
use kenojs.Prelude.{
  ℕ, ◌≡◌, refl, ap, Bool, false, not, ◌&&◌, ◌||◌, List, [], ◌∷◌, ◌++◌, ◌==◌, Bool_rule, arith,
}
use kenojs.Prelude.Text.{Text, includes}
use kenojs.Http.Paths.{slash, split_slash}
use kenojs.Http.Static.{DotfileMode, is_allow, dot, is_hidden, has_hidden, should_block_dotfile}

abbrev pub some_hidden : List Text → Bool
some_hidden [] = false
some_hidden (s ∷ ss) = is_hidden s || some_hidden ss

append_assoc_one : (s t : Text) (c : ℕ) → (s ++ c ∷ []) ++ t ≡ s ++ c ∷ t
append_assoc_one [] t c = refl
append_assoc_one (d ∷ s) t c = ap (λ r. d ∷ r) (append_assoc_one s t c)

append_nil : (s : Text) → s ++ [] ≡ s
append_nil [] = refl
append_nil (d ∷ s) = ap (λ r. d ∷ r) (append_nil s)

has_hidden-split :
    (segment cs : Text)
    → has_hidden segment cs ≡ some_hidden ((segment ++ (split_slash cs).0) ∷ (split_slash cs).1)
unfolding has_hidden split_slash
has_hidden-split segment [] = ground (arith, append_nil segment)
has_hidden-split segment (c ∷ cs) = ground (
  arith,
  append_nil segment,
  append_assoc_one segment (split_slash cs).0 c,
  has_hidden-split [] cs,
  has_hidden-split (segment ++ c ∷ []) cs,
)

includes-append : (c : ℕ) (s t : Text) → includes c (s ++ t) ≡ (includes c s || includes c t)
includes-append c [] t = refl
includes-append c (d ∷ s) t = ground (arith, includes-append c s t)

no_dot_hidden : (segment : Text) → includes dot segment ≡ false → is_hidden segment ≡ false
unfolding is_hidden
no_dot_hidden [] h = refl
no_dot_hidden (d ∷ segment) h = ground arith

has_hidden-no_dot :
    (segment cs : Text)
    → includes dot segment ≡ false
    → includes dot cs ≡ false
    → has_hidden segment cs ≡ false
unfolding has_hidden
has_hidden-no_dot segment [] h k = no_dot_hidden segment h
has_hidden-no_dot segment (c ∷ cs) h k =
    Bool_rule (λ (b : Bool). b ≡ false) (c == slash)
      (λ e. ground (arith, no_dot_hidden segment, has_hidden-no_dot [] cs))
      (λ e.
        has_hidden-no_dot (segment ++ c ∷ []) cs
          (ground (arith, includes-append dot segment (c ∷ []))) (ground arith))

-- A path is blocked exactly when dotfiles are not allowed and one of its segments, the parts between
-- slashes, starts with a dot and is neither "." nor "..".
pub should_block_dotfile_lem :
    (pathname : Text) (mode : DotfileMode)
    → should_block_dotfile pathname mode
      ≡ (not (is_allow mode) && some_hidden ((split_slash pathname).0 ∷ (split_slash pathname).1))
unfolding should_block_dotfile
should_block_dotfile_lem pathname mode =
    ground (arith, has_hidden-no_dot [] pathname refl, has_hidden-split [] pathname)
