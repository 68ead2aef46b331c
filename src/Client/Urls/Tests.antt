-- ===== src/Client/Urls/Tests.antt =====
-- Paths and queries that the client makes, and the theorem about them at one of these.
use kenojs.Prelude.{◌≡◌, refl, none, some, List, [], ◌∷◌, true}
use kenojs.Prelude.Maps.{get, set}
use kenojs.Prelude.Text.{Text, codes, split_parts, split_on}
use kenojs.Http.Paths.{get_segments}
use kenojs.Http.RouteTree.Adding.{matches}
use kenojs.Client.Urls.{
  is_key_char, replace_keys, apply_path_params, absent, primitive, values, value, no_values,
  append_query_value, append_query_values, apply_query, json_value, json_payload,
  serialize_request_body, Urls, SearchParams, resolve_request_url,
}
use kenojs.Client.Urls.Routes.{Piece, Fills, named, param, path_of, pattern_of}
use kenojs.Client.Urls.Resolving.{resolve_request_url-matches}

abbrev same : Text → Text
same t = t

abbrev params : List (Text × Text)
params = (codes "id", codes "42") ∷ (codes "rest", codes "a/b") ∷ []

filled :
    apply_path_params same (codes "/users/:id/*rest") (some params) ≡ some (codes "/users/42/a/b")
unfolding apply_path_params replace_keys is_key_char get split_on split_parts
filled = refl

-- The port of an absolute URL counts as a parameter, which is missing.
port_refused : apply_path_params same (codes "http://localhost:3000/users/:id") (some params) ≡ none
unfolding apply_path_params replace_keys is_key_char get
port_refused = refl

query :
    apply_query
      ((
        codes "a",
        values (
            value (primitive (codes "1")) (value absent (value (primitive (codes "2")) no_values))),
      )
        ∷ (codes "b", absent)
        ∷ [])
      []
    ≡ (codes "a", codes "1") ∷ (codes "a", codes "2") ∷ []
unfolding apply_query append_query_value append_query_values
query = refl

json : serialize_request_body {B = Text} (json_value (some (codes "{}"))) [] ≡ (
  json_payload (codes "{}"),
  (codes "content-type", codes "application/json; charset=utf-8") ∷ [],
)
unfolding serialize_request_body get set
json = refl

abbrev route : List Piece
route = named (codes "u") ∷ param (codes "id") ∷ []

abbrev segments : List Text
segments = codes "42" ∷ []

route_filled : Fills same params route (codes "u" ∷ segments)
unfolding is_key_char get
route_filled = (
  refl,
  ((refl, refl, refl), tt),
  ((λ e. cc), (refl, tt)),
  (refl, (λ e. cc), (refl, (refl, tt)), ((λ e. cc), (refl, (refl, tt))), tt),
)

-- A URL is its path and its search parameters.
abbrev urls : Urls (Text × SearchParams)
urls = record {
  parse = λ input. none;
  parse_against = λ input base. some (input, []);
  search_params = λ url. url.1;
  with_search_params = λ params url. (url.0, params);
}

abbrev pathname : Text × SearchParams → Text
pathname url = url.0

resolve_request_url-matches_example :
    (url : Text × SearchParams) × (resolve_request_url urls same
        (some (codes "http://a"))
        (path_of (pattern_of route))
        (some params)
        ((codes "q", primitive (codes "1")) ∷ [])
      ≡ some url)
    × (get_segments (pathname url) ≡ codes "u" ∷ segments)
    × (matches (pattern_of route) (codes "u" ∷ segments) ≡ true)
resolve_request_url-matches_example =
    resolve_request_url-matches urls pathname same 104 (codes "ttp://a") params
      ((codes "q", primitive (codes "1")) ∷ []) route (codes "u") segments
      (λ s others a. ((path_of (s ∷ others), []), refl, refl)) (λ ps url. refl) route_filled
      (((λ e. cc), (refl, tt), refl), (((λ e. cc), (refl, (refl, tt)), refl), tt))
