-- ===== src/Websocket/Handshake.antt =====
-- src/internal/websocket/handshake.ts, and the negotiation in src/internal/websocket/permessage-deflate.ts:
-- from a request to its session. Texts are code units, lower case is that of ASCII, and the
-- hooks of a route are functions of the request. A TypeError that the source throws is `threw`.
pub mod Upgrading
pub mod Protocols
pub mod Headers
pub mod Checks
mod Tests
use kenojs.Prelude.{
  ℕ, zero, suc, Bool, true, false, not, ◌&&◌, ◌||◌, ◌+◌, Option, none, some, List, [], ◌∷◌, ◌++◌,
  map, leb, ltb, ◌==◌, length, if◌then◌else◌, is_some,
}
use kenojs.Prelude.Maps.{get, set}
use kenojs.Shared.Sizes.{SizeInput}
use kenojs.Prelude.Text.{
  Text, same_text, text_key, codes, is_empty, includes, trim, trim_start, trim_end, split_on, lower,
}

abbrev pub Headers : Type 0
Headers = List (Text × Text)

-- A request: its method, and `get` of a header.
pub record Request : Type 0 where
  pub method : Text
  pub header : Text → Option Text

pub record Verification : Type 0 where
  pub ok : Bool
  pub status : Option ℕ
  pub message : Option Text
  pub headers : Option Headers

pub data VerificationResult : Type 0 where
  plainly : Bool → VerificationResult
  fully : Verification → VerificationResult

pub data DeflateOption : Type 0 where
  disabled enabled : DeflateOption
  with_options : (concurrency_limit level mem_level threshold : Option ℕ) → DeflateOption

pub record NegotiatedPerMessageDeflate : Type 0 where
  pub client_no_context_takeover : Bool
  pub concurrency_limit : ℕ
  pub level : ℕ
  pub mem_level : ℕ
  pub server_no_context_takeover : Bool
  pub threshold : ℕ

pub record RouteOptions : Type 0 where
  pub verify_client : Option (Request → VerificationResult)
  pub headers : Request → Headers
  pub handle_protocols : Option (List Text → Request → Option Text)
  pub protocols : List Text
  pub per_message_deflate : DeflateOption
  pub max_payload : SizeInput

abbrev pub is_letter_or_digit : ℕ → Bool
is_letter_or_digit c = (leb 48 c && leb c 57) || (leb 65 c && leb c 90) || (leb 97 c && leb c 122)

-- The class of TOKEN_PATTERN and HEADER_NAME_PATTERN.
unfoldable pub is_token_char : ℕ → Bool
is_token_char c = is_letter_or_digit c || includes c (codes "!#$%&'*+-.^_`|~")

abbrev pub all_of : (ℕ → Bool) → Text → Bool
all_of p [] = true
all_of p (c ∷ cs) = p c && all_of p cs

unfoldable pub is_token : Text → Bool
is_token s = not (is_empty s) && all_of is_token_char s

-- `n` characters of the class of KEY_PATTERN, and then the end of it.
unfoldable pub key_rest : ℕ → Text → Bool
key_rest n [] = false
key_rest zero (c ∷ s) = same_text (c ∷ s) (codes "==")
key_rest (suc n) (c ∷ s) = (is_letter_or_digit c || (c == 43) || (c == 47)) && key_rest n s

unfoldable pub is_key : Text → Bool
is_key s = key_rest 22 s

abbrev pub contains : Text → List Text → Bool
contains s [] = false
contains s (t ∷ ts) = same_text t s || contains s ts

-- `add` to a `Set`, in insertion order.
unfoldable pub add_protocol : Text → List Text → List Text
add_protocol s set = if contains s set then set else set ++ s ∷ []

-- The loop of `parseProtocols`; none where it throws.
unfoldable pub collect_protocols : List Text → List Text → Option (List Text)
collect_protocols [] protocols = some protocols
collect_protocols (entry ∷ entries) protocols =
    let protocol = trim entry in
    let others =
      collect_protocols entries
        (if is_empty protocol then protocols else add_protocol protocol protocols) in
    if is_empty protocol || is_token protocol then others else none

unfoldable pub parse_protocols : Option Text → Option (List Text)
parse_protocols none = some []
parse_protocols (some value) =
    if is_empty value then some [] else collect_protocols (split_on 44 value) []

unfoldable pub normalize_verification_result : VerificationResult → Verification
normalize_verification_result (plainly ok) = record {
  ok = ok;
  status = none;
  message = none;
  headers = none;
}
normalize_verification_result (fully v) = v

-- Result of a step that may throw a TypeError.
pub data Fallible {ℓ} (A : Type ℓ) : Type ℓ where
  ok : A → Fallible A
  threw : Fallible A

abbrev pub first_in : List Text → List Text → Option Text
first_in [] requested = none
first_in (p ∷ ps) requested = if contains p requested then some p else first_in ps requested

abbrev pub head_of : List Text → Option Text
head_of [] = none
head_of (s ∷ ss) = some s

-- The choice of a hook: an empty text is falsy.
abbrev pub chosen : Option Text → List Text → Fallible (Option Text)
chosen none requested = ok none
chosen (some s) requested =
    if is_empty s then ok none else if contains s requested then ok (some s) else threw

unfoldable pub select_protocol : RouteOptions → Request → List Text → Fallible (Option Text)
select_protocol o request requested = elim o.handle_protocols [
  | some hook ↦ chosen (hook requested request) requested
  | none ↦ ok (if is_empty o.protocols then head_of requested else first_in o.protocols requested)
]

abbrev pub extension_name : Text
extension_name = codes "permessage-deflate"

abbrev pub until : ℕ → Text → Text
until c [] = []
until c (d ∷ ds) = if d == c then [] else d ∷ until c ds

unfoldable pub includes_extension : Text → Text → Bool
includes_extension value extension =
    contains extension (map (λ entry. lower (trim (until 59 entry))) (split_on 44 value))

abbrev pub or_default : Option ℕ → ℕ → ℕ
or_default none d = d
or_default (some n) d = n

abbrev pub negotiated :
    (concurrency_limit level mem_level threshold : ℕ) → NegotiatedPerMessageDeflate
negotiated concurrency_limit level mem_level threshold = record {
  client_no_context_takeover = true;
  concurrency_limit = concurrency_limit;
  level = level;
  mem_level = mem_level;
  server_no_context_takeover = true;
  threshold = threshold;
}

-- The threshold of the options is a number of bytes here.
abbrev pub deflate_settings : DeflateOption → Option NegotiatedPerMessageDeflate
deflate_settings disabled = none
deflate_settings enabled = some (negotiated 10 1 5 1024)
deflate_settings (with_options concurrency_limit level mem_level threshold) =
    let limit = or_default concurrency_limit 10 in
    some (
      negotiated (if leb 1 limit then limit else 1) (or_default level 1) (or_default mem_level 5)
        (or_default threshold 1024))

unfoldable pub negotiate_per_message_deflate :
    Option Text → DeflateOption → Option NegotiatedPerMessageDeflate
negotiate_per_message_deflate none option = none
negotiate_per_message_deflate (some value) option =
    if includes_extension value extension_name then deflate_settings option else none

unfoldable pub per_message_deflate_response_header : Text
per_message_deflate_response_header =
    codes "permessage-deflate; server_no_context_takeover; client_no_context_takeover"

pub data Session : Type 0 where
  refused : (headers : Option Headers) (message : Option Text) (status : Option ℕ) → Session
  prepared :
      (extra_headers : Headers) (per_message_deflate : Option NegotiatedPerMessageDeflate)
      (selected_protocol : Option Text)
      → Session

-- The part of `prepareWebSocketSession` after the client was verified.
unfoldable pub prepare_verified : RouteOptions → Request → Fallible Session
prepare_verified o request =
    elim (parse_protocols (request.header (codes "sec-websocket-protocol"))) [
      | none ↦ threw
      | some requested ↦ elim (select_protocol o request requested) [
        | threw ↦ threw
        | ok selected ↦ ok (
            prepared (o.headers request)
              (negotiate_per_message_deflate (request.header (codes "sec-websocket-extensions"))
                o.per_message_deflate)
              selected)
      ]
    ]

unfoldable pub prepare_web_socket_session : RouteOptions → Request → Fallible Session
prepare_web_socket_session o request = elim o.verify_client [
  | none ↦ prepare_verified o request
  | some verify ↦
      let result = normalize_verification_result (verify request) in
      if result.ok
      then prepare_verified o request
      else ok (refused result.headers result.message result.status)
]
