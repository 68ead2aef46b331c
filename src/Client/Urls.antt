-- ===== src/Client/Urls.antt =====
-- `applyPathParams`, `applyQuery`, `serializeRequestBody` and `resolveRequestUrl` of src/internal/client/http.ts.
-- `encodeURIComponent`, the texts of values, and the URL class are parameters. None stands for a TypeError.
pub mod Resolving
pub mod Routes
mod Tests
use kenojs.Prelude.{
  ℕ, Bool, true, false, not, ◌&&◌, ◌||◌, Option, none, some, List, [], ◌∷◌, ◌++◌, ◌==◌, leb,
  is_some, if◌then◌else◌,
}
use kenojs.Prelude.Maps.{get, set}
use kenojs.Prelude.Text.{Text, text_key, codes, split_on}
use kenojs.Http.Paths.{slash, join_slash}
use kenojs.Http.RouteTree.{colon, star}

-- The texts of the parameters.
abbrev pub HttpClientPathParams : Type 0
HttpClientPathParams = List (Text × Text)

-- `[A-Za-z0-9_]`.
unfoldable pub is_key_char : ℕ → Bool
is_key_char c =
    (leb 65 c && leb c 90) || (leb 97 c && leb c 122) || (leb 48 c && leb c 57) || (c == 95)

abbrev pub before : Text → Option Text → Option Text
before s none = none
before s (some t) = some (s ++ t)

-- What replaces a marker with the key after it: without a key the marker stays.
abbrev pub replaced :
    (marker : ℕ) (fill : Text → Option Text) (key : Text) → Option Text → Option Text
replaced marker fill [] rest = before (marker ∷ []) rest
replaced marker fill (c ∷ key) rest = elim (fill (c ∷ key)) [
  | none ↦ none
  | some value ↦ before value rest
]

-- `replace` of each marker and its key, from outside a key or within one.
unfoldable pub replace_keys :
    (marker : ℕ) (fill : Text → Option Text) (key : Option Text) → Text → Option Text
replace_keys marker fill none [] = some []
replace_keys marker fill (some key) [] = replaced marker fill key (some [])
replace_keys marker fill none (c ∷ cs) = elim (c == marker) [
  | true ↦ replace_keys marker fill (some []) cs
  | false ↦ before (c ∷ []) (replace_keys marker fill none cs)
]
replace_keys marker fill (some key) (c ∷ cs) = elim (is_key_char c) [
  | true ↦ replace_keys marker fill (some (key ++ c ∷ [])) cs
  | false ↦ replaced marker fill key (elim (c == marker) [
    | true ↦ replace_keys marker fill (some []) cs
    | false ↦ before (c ∷ []) (replace_keys marker fill none cs)
  ])
]

abbrev pub encode_segments : (encode : Text → Text) → List Text → List Text
encode_segments encode [] = []
encode_segments encode (s ∷ segments) = encode s ∷ encode_segments encode segments

abbrev pub encoded : (encode : Text → Text) (wildcard : Bool) → Option Text → Option Text
encoded encode wildcard none = none
encoded encode wildcard (some value) =
    some (
      if wildcard then join_slash (encode_segments encode (split_on slash value)) else encode value)

abbrev pub encode_path_param :
    (encode : Text → Text) → HttpClientPathParams → (wildcard : Bool) → (key : Text) → Option Text
encode_path_param encode params wildcard key = encoded encode wildcard (get key params)

abbrev pub and_then {ℓ κ} : {A : Type ℓ} {B : Type κ} → Option A → (A → Option B) → Option B
and_then none f = none
and_then (some a) f = f a

unfoldable pub apply_path_params :
    (encode : Text → Text) → (input : Text) → Option HttpClientPathParams → Option Text
apply_path_params encode input none = some input
apply_path_params encode input (some params) =
    and_then (replace_keys star (encode_path_param encode params true) none input)
      (replace_keys colon (encode_path_param encode params false) none)

mutual
  -- A value of a query: null or undefined, one with its text, or an array.
  pub data HttpClientQueryValue : Type 0 where
    absent : HttpClientQueryValue
    primitive : Text → HttpClientQueryValue
    values : QueryValues → HttpClientQueryValue

  pub data QueryValues : Type 0 where
    no_values : QueryValues
    value : HttpClientQueryValue → QueryValues → QueryValues

abbrev pub SearchParams : Type 0
SearchParams = List (Text × Text)

unfoldable mutual
  pub append_query_value : Text → HttpClientQueryValue → SearchParams → SearchParams
  append_query_value key absent params = params
  append_query_value key (primitive text) params = params ++ (key, text) ∷ []
  append_query_value key (values vs) params = append_query_values key vs params

  pub append_query_values : Text → QueryValues → SearchParams → SearchParams
  append_query_values key no_values params = params
  append_query_values key (value v vs) params =
      append_query_values key vs (append_query_value key v params)

unfoldable pub apply_query : List (Text × HttpClientQueryValue) → SearchParams → SearchParams
apply_query [] params = params
apply_query ((key, v) ∷ query) params = apply_query query (append_query_value key v params)

-- What a URL is, and how one is read, alone or against a base, and given its search parameters.
pub record Urls (U : Type 0) : Type 0 where
  pub parse : (input : Text) → Option U
  pub parse_against : (input base : Text) → Option U
  pub search_params : U → SearchParams
  pub with_search_params : SearchParams → U → U

module _ {U : Type 0} (urls : Urls U) where
  abbrev pub with_query : List (Text × HttpClientQueryValue) → U → U
  with_query query url = urls.with_search_params (apply_query query (urls.search_params url)) url

  abbrev pub parse_input : (base_url : Option Text) (raw_input : Text) → Option U
  parse_input none raw_input = urls.parse raw_input
  parse_input (some []) raw_input = urls.parse raw_input
  parse_input (some (c ∷ base)) raw_input = urls.parse_against raw_input (c ∷ base)

  unfoldable pub resolve_request_url :
      (encode : Text → Text)
      → (base_url : Option Text) → (input : Text) → Option HttpClientPathParams
      → List (Text × HttpClientQueryValue)
      → Option U
  resolve_request_url encode base_url input params query =
      and_then (apply_path_params encode input params) (λ raw_input.
        and_then (parse_input base_url raw_input) (λ url. some (with_query query url)))

-- The body of a request: left out, one that `fetch` takes, or a value with its JSON text, if it has one.
pub data RequestBody (B : Type 0) : Type 0 where
  no_request_body : RequestBody B
  body_init : B → RequestBody B
  json_value : Option Text → RequestBody B

pub data SerializedBody (B : Type 0) : Type 0 where
  nothing : SerializedBody B
  passed_on : B → SerializedBody B
  json_payload : Text → SerializedBody B

-- The headers by their lower-case names.
abbrev pub with_content_type : List (Text × Text) → List (Text × Text)
with_content_type headers =
    if is_some (get (codes "content-type") headers)
    then headers
    else set (codes "content-type") (codes "application/json; charset=utf-8") headers

unfoldable pub serialize_request_body :
    {B : Type 0} → RequestBody B → List (Text × Text) → SerializedBody B × List (Text × Text)
serialize_request_body no_request_body headers = (nothing, headers)
serialize_request_body (body_init body) headers = (passed_on body, headers)
serialize_request_body (json_value none) headers = (nothing, headers)
serialize_request_body (json_value (some payload)) headers =
    (json_payload payload, with_content_type headers)
