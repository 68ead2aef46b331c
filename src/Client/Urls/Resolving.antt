-- ===== src/Client/Urls/Resolving.antt =====
-- That the URL which src/internal/client/http.ts resolves for a route has a path that the routes of the server
-- match.
use kenojs.Prelude.{
  ℕ, ◌≡◌, ◌≢◌, ap, ◌∙◌, Bool, true, false, ◌&&◌, ◌||◌, some, List, [], ◌∷◌, leb, All,
}
use kenojs.Prelude.Text.{Text, text_key, codes, includes, lower, same_text}
use kenojs.Http.Paths.{get_segments}
use kenojs.Http.RouteTree.Adding.{matches}
use kenojs.Client.Urls.{
  HttpClientPathParams, HttpClientQueryValue, Urls, and_then, with_query, resolve_request_url,
}
use kenojs.Client.Urls.Routes.{Piece, path_of, pattern_of, Fills, apply_path_params-matches}

-- What `encodeURIComponent` leaves alone, and the sign of what it encodes.
abbrev pub is_url_char : ℕ → Bool
is_url_char c =
    (leb 65 c && leb c 90)
    || (leb 97 c && leb c 122)
    || (leb 48 c && leb c 57)
    || includes c (codes "-_.!~*'()%")

-- The segments that the URL class takes for the own or the parent directory.
abbrev pub is_dots : Text → Bool
is_dots s =
    same_text s (codes ".")
    || same_text s (codes "..")
    || same_text (lower s) (codes "%2e")
    || same_text (lower s) (codes ".%2e")
    || same_text (lower s) (codes "%2e.")
    || same_text (lower s) (codes "%2e%2e")

abbrev pub IsUrlSegment : Text → Type 0
IsUrlSegment s = (s ≢ []) × All (λ c. is_url_char c ≡ true) s × (is_dots s ≡ false)

module _ {U : Type 0} (urls : Urls U) (pathname : U → Text) where
  -- Such segments stay as they are when the URL class reads them as a path against a base.
  abbrev pub KeepsPaths : (base : Text) → Type 0
  KeepsPaths base =
      (s : Text) (segments : List Text)
      → All IsUrlSegment (s ∷ segments)
      → (url : U) × (urls.parse_against (path_of (s ∷ segments)) base ≡ some url)
        × (pathname url ≡ path_of (s ∷ segments))

  -- The search parameters are no part of the path.
  abbrev pub IsPathApart : Type 0
  IsPathApart =
      (params : List (Text × Text)) (url : U)
      → pathname (urls.with_search_params params url) ≡ pathname url

  -- Let a route have one or more segments, each a plain name or a parameter, let the parameters of a
  -- request have a value for each key, and let each name and each encoded value be a segment of URL
  -- characters that is not "." or ".."; and let the URL class keep such segments against the base, and
  -- the path when the query is set. Then the request has a URL, whose path has those segments when the
  -- tree of a server's routes splits it, and they match the route.
  pub resolve_request_url-matches :
      (encode : Text → Text) (c : ℕ) (base : Text) (params : HttpClientPathParams)
      (query : List (Text × HttpClientQueryValue)) (pieces : List Piece) (s : Text)
      (segments : List Text)
      → KeepsPaths (c ∷ base)
      → IsPathApart
      → Fills encode params pieces (s ∷ segments)
      → All IsUrlSegment (s ∷ segments)
      → (url : U) × (resolve_request_url urls encode
            (some (c ∷ base))
            (path_of (pattern_of pieces))
            (some params)
            query
          ≡ some url)
        × (get_segments (pathname url) ≡ s ∷ segments)
        × (matches (pattern_of pieces) (s ∷ segments) ≡ true)
  unfolding resolve_request_url
  resolve_request_url-matches encode c base params query pieces s segments keeps apart f a =
      let (made, split, matched) = apply_path_params-matches encode params pieces s segments f in
      let (url, parsed, kept) = keeps s segments a in
      (
        with_query urls query url,
        ap
              (λ o. and_then o (λ raw_input.
                and_then (urls.parse_against raw_input (c ∷ base))
                  (λ u. some (with_query urls query u))))
              made
            ∙ ap (λ o. and_then o (λ u. some (with_query urls query u))) parsed,
        ap get_segments (apart _ url ∙ kept) ∙ split,
        matched,
      )
