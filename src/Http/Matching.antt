-- ===== src/Http/Matching.antt =====
-- `compilePath` and `matchPath` of src/internal/http/path.ts. A matcher is the regular expression that is
-- built, as a list of its tokens and its end, and matching it backtracks as JavaScript does.
use kenojs.Prelude.{
  ℕ, ◌-◌, Bool, true, false, not, ◌||◌, Option, none, some, List, [], ◌∷◌, ◌++◌, take, length, ◌==◌,
  if◌then◌else◌,
}
use kenojs.Prelude.Maps.{set}
use kenojs.Prelude.Text.{Text, same_text, text_key, codes, is_empty, split_on}
use kenojs.Http.Paths.{slash, root_path, normalize_path, strip_trailing_slash}
use kenojs.Http.RouteTree.{colon, star, wildcard_name, first_of}

pub data Token : Type 0 where
  -- A character, and one that a star repeats.
  literal repeated : ℕ → Token
  -- `([^/]+)`, `(.*)` and `(.*)?`.
  parameter rest optional_rest : Token

pub data Ending : Type 0 where
  -- `/?$`, `(?:/|$)`, `$`, and nothing.
  slash_then_end slash_or_end only_end open_end : Ending

pub record PathMatcher : Type 0 where
  pub end : Bool
  pub tokens : List Token
  pub ending : Ending
  pub keys : List Text
  pub path : Text

pub record PathMatch : Type 0 where
  pub matched_path : Text
  pub params : List (Text × Text)

-- The characters of a segment: a star in it is not escaped, so it repeats what is before it, and a
-- second one is a SyntaxError (none).
unfoldable pub literals : Text → Option (List Token)
literals [] = some []
literals (c ∷ []) = if c == star then none else some (literal c ∷ [])
literals (c ∷ d ∷ cs) = elim (c == star) [
  | true ↦ none
  | false ↦ elim (d == star) [
    | true ↦ elim (literals cs) [ none ↦ none | some ts ↦ some (repeated c ∷ ts) ]
    | false ↦ elim (literals (d ∷ cs)) [ none ↦ none | some ts ↦ some (literal c ∷ ts) ]
  ]
]

abbrev pub add_tokens :
    List Token → List Text → Option (List Token × List Text) → Option (List Token × List Text)
add_tokens ts ks none = none
add_tokens ts ks (some (tokens, keys)) = some (ts ++ tokens, ks ++ keys)

-- The loop over the segments: the tokens and the keys.
unfoldable pub compile_segments : List Text → Option (List Token × List Text)
compile_segments [] = some ([], [])
compile_segments ([] ∷ segments) = compile_segments segments
compile_segments ((c ∷ name) ∷ segments) = elim (c == star) [
  | true ↦ some (literal slash ∷ rest ∷ [], (if is_empty name then wildcard_name else name) ∷ [])
  | false ↦ elim (c == colon) [
    | true ↦ add_tokens (literal slash ∷ parameter ∷ []) (name ∷ []) (compile_segments segments)
    | false ↦ elim (literals (c ∷ name)) [
      | none ↦ none
      | some ts ↦ add_tokens (literal slash ∷ ts) [] (compile_segments segments)
    ]
  ]
]

unfoldable pub compile_path : Text → Bool → Option PathMatcher
compile_path path end =
    let normalized = normalize_path path in
    let all_paths =
      same_text normalized (codes "/*")
      || same_text normalized (codes "/*wildcard")
      || same_text normalized (codes "/*rest") in
    if all_paths
    then some (record {
      end = end;
      tokens = if end then literal slash ∷ optional_rest ∷ [] else literal slash ∷ [];
      ending = if end then only_end else open_end;
      keys = wildcard_name ∷ [];
      path = normalized;
    })
    else if same_text normalized root_path
    then some (record {
      end = end;
      tokens = if end then [] else literal slash ∷ [];
      ending = if end then slash_then_end else open_end;
      keys = [];
      path = normalized;
    })
    else elim (compile_segments (split_on slash normalized)) [
      | none ↦ none
      | some (tokens, keys) ↦ some (record {
        end = end;
        tokens = tokens;
        ending = if end then slash_then_end else slash_or_end;
        keys = keys;
        path = normalized;
      })
    ]

-- What follows the match, if the end of the expression matches.
unfoldable pub match_ending : Ending → Text → Option Text
match_ending slash_then_end [] = some []
match_ending slash_then_end (c ∷ []) = if c == slash then some [] else none
match_ending slash_then_end (c ∷ d ∷ s) = none
match_ending slash_or_end [] = some []
match_ending slash_or_end (c ∷ s) = if c == slash then some s else none
match_ending only_end [] = some []
match_ending only_end (c ∷ s) = none
match_ending open_end s = some s

-- `.` does not match a line end.
abbrev pub is_any : ℕ → Bool
is_any c = not ((c == 10) || (c == 13) || (c == 0x2028) || (c == 0x2029))

abbrev pub is_segment_char : ℕ → Bool
is_segment_char c = not (c == slash)

-- The captures and the text that is left.
abbrev pub Matched : Type 0
Matched = List (Option Text) × Text

abbrev pub captured : Text → Option Matched → Option (Text × Matched)
captured s none = none
captured s (some m) = some (s, m)

abbrev pub longer : ℕ → Option (Text × Matched) → Option (Text × Matched)
longer c none = none
longer c (some (s, m)) = some (c ∷ s, m)

-- As many characters of a class as the rest of the expression lets: the longest first.
unfoldable pub many : (ℕ → Bool) → (Text → Option Matched) → Text → Option (Text × Matched)
many p k [] = captured [] (k [])
many p k (c ∷ s) =
    let more = many p k s in
    if p c then first_of (longer c more) (captured [] (k (c ∷ s))) else captured [] (k (c ∷ s))

abbrev pub capture : Option (Text × Matched) → Option Matched
capture none = none
capture (some (s, (captures, left))) = some (some s ∷ captures, left)

-- A group that is optional captures nothing where it would match nothing.
abbrev pub capture_some : Option (Text × Matched) → Option Matched
capture_some none = none
capture_some (some ([], (captures, left))) = some (none ∷ captures, left)
capture_some (some (c ∷ s, (captures, left))) = some (some (c ∷ s) ∷ captures, left)

abbrev pub forget : Option (Text × Matched) → Option Matched
forget none = none
forget (some (s, m)) = some m

unfoldable pub match_tokens : List Token → Ending → Text → Option Matched
match_tokens [] ending s = elim (match_ending ending s) [
  | none ↦ none
  | some left ↦ some ([], left)
]
match_tokens (literal c ∷ ts) ending [] = none
match_tokens (literal c ∷ ts) ending (d ∷ s) =
    let after = match_tokens ts ending s in if c == d then after else none
match_tokens (repeated c ∷ ts) ending s = forget (many (λ d. d == c) (match_tokens ts ending) s)
match_tokens (parameter ∷ ts) ending [] = none
match_tokens (parameter ∷ ts) ending (d ∷ s) =
    let after = many is_segment_char (match_tokens ts ending) s in
    if is_segment_char d then capture (longer d after) else none
match_tokens (rest ∷ ts) ending s = capture (many is_any (match_tokens ts ending) s)
match_tokens (optional_rest ∷ ts) ending s = capture_some (many is_any (match_tokens ts ending) s)

-- The loop over the keys; `decodeComponent` is a parameter.
unfoldable pub read_params :
    (Text → Text) → List Text → List (Option Text) → List (Text × Text) → List (Text × Text)
read_params decode_component [] captures params = params
read_params decode_component (key ∷ keys) [] params = params
read_params decode_component (key ∷ keys) (none ∷ captures) params =
    read_params decode_component keys captures params
read_params decode_component (key ∷ keys) (some value ∷ captures) params =
    read_params decode_component keys captures (set key (decode_component value) params)

unfoldable pub match_path : (Text → Text) → PathMatcher → Text → Option PathMatch
match_path decode_component matcher pathname =
    elim (match_tokens matcher.tokens matcher.ending pathname) [
      | none ↦ none
      | some (captures, left) ↦
          let stripped = strip_trailing_slash (take (length pathname - length left) pathname) in
          some (record {
            matched_path = if is_empty stripped then root_path else stripped;
            params = read_params decode_component matcher.keys captures [];
          })
    ]
