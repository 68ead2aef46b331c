-- ===== src/Shared/Cookies/RoundTrip.antt =====
-- That a cookie that src/internal/shared/cookies.ts writes is read back.
use kenojs.Prelude.{
  ℕ, ◌≡◌, refl, ap, ◌∙◌, ◌<◌, true, false, Option, none, some, List, [], ◌∷◌, ◌++◌, ◌==◌,
  if◌then◌else◌, All, All-append, All-weaken, length, arith,
}
use kenojs.Prelude.Maps.{set}
use kenojs.Prelude.Text.{
  Text, same_text, text_key, is_space, is_empty, trim, trim_start, trim_end, split_parts, split_on,
}
use kenojs.Shared.Cookies.{
  semicolon, equals_sign, Cookies, add_cookie, add_cookies, parse_cookies, no_options,
  serialize_cookie, proto_key,
}

-- No character of it separates entries or a name from a value, or is white space.
abbrev pub IsPlainChar : ℕ → Type 0
IsPlainChar c = (is_space c ≡ false) × ((c == semicolon) ≡ false) × ((c == equals_sign) ≡ false)

abbrev pub IsPlain : Text → Type 0
IsPlain = All IsPlainChar

-- Without white space nothing is trimmed.
trim_end-unspaced : (s : Text) → All (λ c. is_space c ≡ false) s → trim_end s ≡ s
unfolding trim_end
trim_end-unspaced [] a = refl
trim_end-unspaced (c ∷ s) (g, a) = ap after (trim_end-unspaced s a) ∙ go s
  where
    after : Text → Text
    after t = elim t [ [] ↦ if is_space c then [] else c ∷ [] | d ∷ ds ↦ c ∷ d ∷ ds ]

    go : (t : Text) → after t ≡ c ∷ t
    go [] = rw g refl
    go (d ∷ ds) = refl

trim-unspaced : (s : Text) → All (λ c. is_space c ≡ false) s → trim s ≡ s
unfolding trim trim_start
trim-unspaced [] a = trim_end-unspaced [] a
trim-unspaced (c ∷ s) (g, a) =
    ap (λ b. trim_end (if b then trim_start s else c ∷ s)) g ∙ trim_end-unspaced (c ∷ s) (g, a)

split_parts-unsplit : (d : ℕ) (s : Text) → All (λ c. (c == d) ≡ false) s → split_parts d s ≡ (s, [])
unfolding split_parts
split_parts-unsplit d [] a = refl
split_parts-unsplit d (c ∷ s) (g, a) = rw (split_parts-unsplit d s a, g) refl

split_parts-at :
    (d : ℕ) (s t : Text)
    → All (λ c. (c == d) ≡ false) s
    → (d == d) ≡ true
    → split_parts d (s ++ d ∷ t) ≡ (s, (split_parts d t).0 ∷ (split_parts d t).1)
unfolding split_parts
split_parts-at d [] t a r = rw r refl
split_parts-at d (c ∷ s) t (g, a) r = rw (split_parts-at d s t a r, g) refl

-- So is a pair of plain texts, but for the sign between them.
All-pair :
    (Good : ℕ → Type 0) (n v : Text)
    → ((c : ℕ) → IsPlainChar c → Good c)
    → Good equals_sign
    → IsPlain n
    → IsPlain v
    → All Good (n ++ equals_sign ∷ v)
All-pair Good n v f g p q =
    All-append Good n (equals_sign ∷ v) (All-weaken IsPlainChar Good n f p)
      (g, All-weaken IsPlainChar Good v f q)

split_on-pair :
    (n v : Text) → IsPlain n → IsPlain v → split_on equals_sign (n ++ equals_sign ∷ v) ≡ n ∷ v ∷ []
unfolding split_on
split_on-pair n v p q =
    ap (λ (parts : Text × List Text). parts.0 ∷ parts.1)
      (split_parts-at equals_sign n v
          (All-weaken IsPlainChar (λ c. (c == equals_sign) ≡ false) n (λ c g. g.2) p) refl
        ∙ ap (λ (parts : Text × List Text). (n, parts.0 ∷ parts.1))
            (split_parts-unsplit equals_sign v
              (All-weaken IsPlainChar (λ c. (c == equals_sign) ≡ false) v (λ c g. g.2) q)))

split_on-whole : (s : Text) → All (λ c. (c == semicolon) ≡ false) s → split_on semicolon s ≡ s ∷ []
unfolding split_on
split_on-whole s a =
    ap (λ (parts : Text × List Text). parts.0 ∷ parts.1) (split_parts-unsplit semicolon s a)

-- If the encoded name and value are plain, the name is neither empty nor "__proto__", and decoding reads
-- back what was encoded, then a cookie without options is read back from its own text, alone.
pub parse_cookies-serialize_cookie :
    (encode : Text → Text) (decode : Text → Option Text) (show : ℕ → Text) (name value : Text)
    → same_text name proto_key ≡ false
    → 0 < length (encode name)
    → IsPlain (encode name)
    → IsPlain (encode value)
    → decode (encode name) ≡ some name
    → decode (encode value) ≡ some value
    → parse_cookies decode (some (serialize_cookie encode show name value no_options))
      ≡ some ((name, value) ∷ [])
unfolding parse_cookies serialize_cookie add_cookies set
parse_cookies-serialize_cookie encode decode show name value y l p q d e =
    go (encode name) (encode value) l p q d e
  where
    add_split : List Text → Option Cookies
    add_split parts = elim (add_cookie decode parts []) [ none ↦ none | some added ↦ some added ]

    go :
        (n v : Text)
        → 0 < length n
        → IsPlain n
        → IsPlain v
        → decode n ≡ some name
        → decode v ≡ some value
        → (if is_empty (n ++ equals_sign ∷ v)
            then some []
            else add_cookies decode (split_on semicolon (n ++ equals_sign ∷ v)) [])
          ≡ some ((name, value) ∷ [])
    go [] v l p q d e = absurd (omega arith)
    go (c ∷ n) v l p q d e =
        ap (λ es. add_cookies decode es [])
          (split_on-whole ((c ∷ n) ++ equals_sign ∷ v)
            (All-pair (λ x. (x == semicolon) ≡ false) (c ∷ n) v (λ x g. g.1) refl p q))
        ∙ ap (λ ps. add_split ps)
            (ap (split_on equals_sign) (
                trim-unspaced ((c ∷ n) ++ equals_sign ∷ v)
                  (All-pair (λ x. is_space x ≡ false) (c ∷ n) v (λ x g. g.0) refl p q))
              ∙ split_on-pair (c ∷ n) v p q)
        ∙ rw (d, e, y) refl
