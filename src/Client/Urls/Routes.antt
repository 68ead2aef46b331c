-- ===== src/Client/Urls/Routes.antt =====
-- That the text which `applyPathParams` of src/internal/client/http.ts makes for a route is one that the routes of the server match.
use kenojs.Prelude.{
  ℕ, ◌≡◌, ◌≢◌, refl, sym, ap, ◌∙◌, true, false, Option, none, some, List, [], ◌∷◌, ◌++◌, map, ◌==◌,
  All, All-append, All-weaken, arith,
}
use mathlib.Core.List.{append_assoc, append-nil}
use kenojs.Prelude.Text.{Text, text_key, same_text, same_text_iff}
use kenojs.Http.Paths.{slash, split_slash, get_segments}
use kenojs.Http.RouteTree.{colon, star, is_parameter, is_wildcard}
use kenojs.Http.RouteTree.Adding.{matches}
use kenojs.Client.Urls.{
  HttpClientPathParams, is_key_char, before, replaced, replace_keys, encode_path_param, and_then,
  apply_path_params,
}

-- A segment of a route: a name, or a parameter with its key.
pub data Piece : Type 0 where
  named param : Text → Piece

abbrev pub shown : Piece → Text
shown (named name) = name
shown (param key) = colon ∷ key

abbrev pub pattern_of : List Piece → List Text
pattern_of pieces = map shown pieces

abbrev pub path_of : List Text → Text
path_of [] = []
path_of (s ∷ segments) = slash ∷ s ++ path_of segments

-- No colon, star or slash.
abbrev pub IsPlainChar : ℕ → Type 0
IsPlainChar c = ((c == colon) ≡ false) × ((c == star) ≡ false) × ((c == slash) ≡ false)

-- Not empty, and within one segment.
abbrev pub IsSegment : Text → Type 0
IsSegment s = (s ≢ []) × All (λ c. (c == slash) ≡ false) s

-- What fills a piece: a name that is plain itself, and a key of key characters the encoded value that the
-- parameters have for it.
abbrev pub Fills : (encode : Text → Text) → HttpClientPathParams → List Piece → List Text → Type 0
Fills encode params [] [] = Unit
Fills encode params [] (s ∷ segments) = ⊥
Fills encode params (piece ∷ pieces) [] = ⊥
Fills encode params (named name ∷ pieces) (s ∷ segments) =
    (s ≡ name) × All IsPlainChar name × IsSegment s × Fills encode params pieces segments
Fills encode params (param key ∷ pieces) (s ∷ segments) =
    (encode_path_param encode params false key ≡ some s)
    × (key ≢ [])
    × All (λ c. is_key_char c ≡ true) key
    × IsSegment s
    × Fills encode params pieces segments

key_char_plain : (c : ℕ) → is_key_char c ≡ true → IsPlainChar c
unfolding is_key_char
key_char_plain c h = (ground arith, ground arith, ground arith)

before_nothing : (o : Option Text) → o ≡ before [] o
before_nothing none = refl
before_nothing (some s) = refl

before-before : (s t : Text) (o : Option Text) → before s (before t o) ≡ before (s ++ t) o
before-before s t none = refl
before-before s t (some u) = ap some (sym (append_assoc s t u))

module _ (marker : ℕ) (fill : Text → Option Text) where
  other_char :
      (c : ℕ) (cs : Text)
      → (c == marker) ≡ false
      → replace_keys marker fill none (c ∷ cs) ≡ before (c ∷ []) (replace_keys marker fill none cs)
  unfolding replace_keys
  other_char c cs g =
      ap
        (λ b. elim b [
          | true ↦ replace_keys marker fill (some []) cs
          | false ↦ before (c ∷ []) (replace_keys marker fill none cs)
        ])
        g

  key_char :
      (key : Text) (c : ℕ) (cs : Text)
      → is_key_char c ≡ true
      → replace_keys marker fill (some key) (c ∷ cs)
        ≡ replace_keys marker fill (some (key ++ c ∷ [])) cs
  unfolding replace_keys
  key_char key c cs g =
      ap
        (λ b. elim b [
          | true ↦ replace_keys marker fill (some (key ++ c ∷ [])) cs
          | false ↦ replaced marker fill key (elim (c == marker) [
            | true ↦ replace_keys marker fill (some []) cs
            | false ↦ before (c ∷ []) (replace_keys marker fill none cs)
          ])
        ])
        g

  -- Without the marker nothing is replaced.
  replace_keys-plain :
      (t u : Text)
      → All (λ c. (c == marker) ≡ false) t
      → replace_keys marker fill none (t ++ u) ≡ before t (replace_keys marker fill none u)
  replace_keys-plain [] u a = before_nothing (replace_keys marker fill none u)
  replace_keys-plain (c ∷ t) u (g, a) =
      other_char c (t ++ u) g
      ∙ ap (before (c ∷ [])) (replace_keys-plain t u a)
      ∙ before-before (c ∷ []) t (replace_keys marker fill none u)

  -- A key goes on to the end of its segment.
  replace_keys-key :
      (key k : Text) (segments : List Text)
      → (slash == marker) ≡ false
      → All (λ c. is_key_char c ≡ true) k
      → replace_keys marker fill (some key) (k ++ path_of segments)
        ≡ replaced marker fill (key ++ k) (replace_keys marker fill none (path_of segments))
  unfolding replace_keys is_key_char
  replace_keys-key key [] [] m a = ap (λ q. replaced marker fill q (some [])) (sym (append-nil key))
  replace_keys-key key [] (s ∷ segments) m a =
      ap
        (λ q.
          replaced marker fill q (replace_keys marker fill none (slash ∷ s ++ path_of segments)))
        (sym (append-nil key))
  replace_keys-key key (c ∷ k) segments m (g, a) =
      key_char key c (k ++ path_of segments) g
      ∙ replace_keys-key (key ++ c ∷ []) k segments m a
      ∙ ap (λ q. replaced marker fill q (replace_keys marker fill none (path_of segments)))
          (append_assoc key (c ∷ []) k)

-- No star stands in the route.
pattern_unstarred :
    (encode : Text → Text) (params : HttpClientPathParams) (pieces : List Piece)
    (segments : List Text)
    → Fills encode params pieces segments
    → All (λ c. (c == star) ≡ false) (path_of (pattern_of pieces))
pattern_unstarred encode params [] [] f = tt
pattern_unstarred encode params [] (s ∷ segments) f = absurd f
pattern_unstarred encode params (named name ∷ pieces) [] f = absurd f
pattern_unstarred encode params (param key ∷ pieces) [] f = absurd f
pattern_unstarred encode params (named name ∷ pieces) (s ∷ segments) (e, p, i, f) = (
  refl,
  All-append (λ c. (c == star) ≡ false) name (path_of (pattern_of pieces))
      (All-weaken IsPlainChar (λ c. (c == star) ≡ false) name (λ c g. g.1) p)
      (pattern_unstarred encode params pieces segments f),
)
pattern_unstarred encode params (param key ∷ pieces) (s ∷ segments) (e, n, k, i, f) = (
  refl,
  (
    refl,
    All-append (λ c. (c == star) ≡ false) key (path_of (pattern_of pieces))
        (All-weaken (λ c. is_key_char c ≡ true) (λ c. (c == star) ≡ false) key
          (λ c g. (key_char_plain c g).1) k)
        (pattern_unstarred encode params pieces segments f),
  ),
)

replaced-some :
    (fill : Text → Option Text) (key s t : Text)
    → key ≢ []
    → fill key ≡ some s
    → replaced colon fill key (some t) ≡ some (s ++ t)
replaced-some fill [] s t n e = absurd (n refl)
replaced-some fill (c ∷ key) s t n e =
    ap (λ o. elim o [ none ↦ none | some value ↦ before value (some t) ]) e

pattern_filled :
    (encode : Text → Text) (params : HttpClientPathParams) (pieces : List Piece)
    (segments : List Text)
    → Fills encode params pieces segments
    → replace_keys colon (encode_path_param encode params false) none (path_of (pattern_of pieces))
      ≡ some (path_of segments)
unfolding replace_keys
pattern_filled encode params [] [] f = refl
pattern_filled encode params [] (s ∷ segments) f = absurd f
pattern_filled encode params (named name ∷ pieces) [] f = absurd f
pattern_filled encode params (param key ∷ pieces) [] f = absurd f
pattern_filled encode params (named name ∷ pieces) (s ∷ segments) (e, p, i, f) =
    let fill = encode_path_param encode params false in
    ap (before (slash ∷ [])) (
      replace_keys-plain colon fill name (path_of (pattern_of pieces))
        (All-weaken IsPlainChar (λ c. (c == colon) ≡ false) name (λ c g. g.0) p)
      ∙ ap (before name) (pattern_filled encode params pieces segments f))
    ∙ ap (λ q. some (slash ∷ q ++ path_of segments)) (sym e)
pattern_filled encode params (param key ∷ pieces) (s ∷ segments) (e, n, k, i, f) =
    let fill = encode_path_param encode params false in
    ap (before (slash ∷ [])) (
      replace_keys-key colon fill [] key (pattern_of pieces) refl k
      ∙ ap (replaced colon fill key) (pattern_filled encode params pieces segments f)
      ∙ replaced-some fill key s (path_of segments) n e)

matches_named :
    (c : ℕ) (name s : Text) (pattern segments : List Text)
    → IsPlainChar c
    → same_text (c ∷ name) s ≡ true
    → matches pattern segments ≡ true
    → matches ((c ∷ name) ∷ pattern) (s ∷ segments) ≡ true
unfolding matches is_parameter is_wildcard
matches_named c name s pattern segments (g, h, i) t m = ground arith

filled_matches :
    (encode : Text → Text) (params : HttpClientPathParams) (pieces : List Piece)
    (segments : List Text)
    → Fills encode params pieces segments
    → matches (pattern_of pieces) segments ≡ true
unfolding matches is_parameter is_wildcard
filled_matches encode params [] [] f = refl
filled_matches encode params [] (s ∷ segments) f = absurd f
filled_matches encode params (named name ∷ pieces) [] f = absurd f
filled_matches encode params (param key ∷ pieces) [] f = absurd f
filled_matches encode params (named [] ∷ pieces) (s ∷ segments) (e, p, (n, i), f) = absurd (n e)
filled_matches encode params (named (c ∷ name) ∷ pieces) (s ∷ segments) (e, (g, p), i, f) =
    let t : same_text (c ∷ name) s ≡ true = (same_text_iff (c ∷ name) s).1 (sym e) in
    matches_named c name s (pattern_of pieces) segments g t
      (filled_matches encode params pieces segments f)
filled_matches encode params (param key ∷ pieces) (s ∷ segments) (e, n, k, i, f) =
    filled_matches encode params pieces segments f

Fills-IsSegment :
    (encode : Text → Text) (params : HttpClientPathParams) (pieces : List Piece)
    (segments : List Text)
    → Fills encode params pieces segments
    → All IsSegment segments
Fills-IsSegment encode params [] [] f = tt
Fills-IsSegment encode params [] (s ∷ segments) f = absurd f
Fills-IsSegment encode params (named name ∷ pieces) [] f = absurd f
Fills-IsSegment encode params (param key ∷ pieces) [] f = absurd f
Fills-IsSegment encode params (named name ∷ pieces) (s ∷ segments) (e, p, i, f) =
    (i, Fills-IsSegment encode params pieces segments f)
Fills-IsSegment encode params (param key ∷ pieces) (s ∷ segments) (e, n, k, i, f) =
    (i, Fills-IsSegment encode params pieces segments f)

split_slash-plain :
    (s t : Text)
    → All (λ c. (c == slash) ≡ false) s
    → split_slash (s ++ t) ≡ (s ++ (split_slash t).0, (split_slash t).1)
unfolding split_slash
split_slash-plain [] t a = refl
split_slash-plain (c ∷ s) t (g, a) = rw (split_slash-plain s t a, g) refl

split_slash-path_of :
    (s : Text) (segments : List Text)
    → IsSegment s
    → All IsSegment segments
    → split_slash (s ++ path_of segments) ≡ (s, segments)
unfolding split_slash
split_slash-path_of s [] (n, i) a = split_slash-plain s [] i ∙ ap (λ q. (q, [])) (append-nil s)
split_slash-path_of s (t ∷ segments) (n, i) (j, a) =
    split_slash-plain s (slash ∷ t ++ path_of segments) i
    ∙ ap (λ (parts : Text × List Text). (s ++ [], parts.0 ∷ parts.1))
        (split_slash-path_of t segments j a)
    ∙ ap (λ q. (q, t ∷ segments)) (append-nil s)

-- What the tree of routes splits a path into.
get_segments-path_of :
    (s : Text) (segments : List Text)
    → IsSegment s
    → All IsSegment segments
    → get_segments (path_of (s ∷ segments)) ≡ s ∷ segments
unfolding get_segments
get_segments-path_of [] segments (n, i) a = absurd (n refl)
get_segments-path_of (c ∷ s) segments i a =
    ap (λ (parts : Text × List Text). parts.0 ∷ parts.1) (split_slash-path_of (c ∷ s) segments i a)

-- Let a route have one or more segments, each a plain name or a parameter, and let the parameters of a request
-- have a value for each key whose encoded text is one segment. Then the text that `applyPathParams` makes of
-- the route has those segments, and they match the route.
pub apply_path_params-matches :
    (encode : Text → Text) (params : HttpClientPathParams) (pieces : List Piece) (s : Text)
    (segments : List Text)
    → Fills encode params pieces (s ∷ segments)
    → (apply_path_params encode (path_of (pattern_of pieces)) (some params)
        ≡ some (path_of (s ∷ segments)))
      × (get_segments (path_of (s ∷ segments)) ≡ s ∷ segments)
      × (matches (pattern_of pieces) (s ∷ segments) ≡ true)
unfolding apply_path_params replace_keys
apply_path_params-matches encode params pieces s segments f =
    let path = path_of (pattern_of pieces) in
    let starred = encode_path_param encode params true in
    let unstarred : replace_keys star starred none path ≡ some path =
      ap (replace_keys star starred none) (sym (append-nil path))
      ∙ replace_keys-plain star starred path []
          (pattern_unstarred encode params pieces (s ∷ segments) f)
      ∙ ap some (append-nil path) in
    let (i, a) = Fills-IsSegment encode params pieces (s ∷ segments) f in
    (
      ap (λ o. and_then o (replace_keys colon (encode_path_param encode params false) none))
            unstarred
          ∙ pattern_filled encode params pieces (s ∷ segments) f,
      get_segments-path_of s segments i a,
      filled_matches encode params pieces (s ∷ segments) f,
    )
