-- ===== src/Websocket/Handshake/Upgrading.antt =====
-- The answers of src/internal/websocket/handshake.ts: the headers it writes, the upgrade over HTTP/1 and the
-- extended CONNECT over HTTP/2.
use kenojs.Prelude.{
  ℕ, ◌*◌, Bool, true, false, not, ◌&&◌, ◌||◌, Option, none, some, List, [], ◌∷◌, ◌++◌,
  if◌then◌else◌,
}
use kenojs.Prelude.Maps.{set}
use kenojs.Prelude.Text.{
  Text, same_text, text_key, codes, is_empty, includes, trim_start, trim_end, split_on, lower,
}
use kenojs.Websocket.Handshake.{
  Headers, Request, NegotiatedPerMessageDeflate, RouteOptions, is_token, is_key, contains, Fallible,
  or_default, per_message_deflate_response_header, Session, prepare_web_socket_session, ok,
  prepared, refused, threw,
}
use kenojs.Shared.Sizes.{parse_size}

unfoldable pub is_safe_header : Text → Text → Bool
is_safe_header name value = is_token name && not (includes 13 value || includes 10 value)

unfoldable pub sanitize_http1_headers : Headers → Headers
sanitize_http1_headers [] = []
sanitize_http1_headers ((name, value) ∷ headers) =
    let rest = sanitize_http1_headers headers in
    if is_safe_header name value then (name, value) ∷ rest else rest

abbrev pub http2_forbidden_response_headers : List Text
http2_forbidden_response_headers =
    codes "connection"
    ∷ codes "keep-alive"
    ∷ codes "proxy-connection"
    ∷ codes "transfer-encoding"
    ∷ codes "upgrade"
    ∷ []

-- Two names that differ in case fall together, and the later value stays.
unfoldable pub sanitize_http2 : Headers → Headers → Headers
sanitize_http2 [] sanitized = sanitized
sanitize_http2 ((name, value) ∷ headers) sanitized = sanitize_http2 headers (
    if not (is_safe_header name value) || contains (lower name) http2_forbidden_response_headers
    then sanitized
    else set (lower name) value sanitized)

unfoldable pub sanitize_http2_headers : Headers → Headers
sanitize_http2_headers headers = sanitize_http2 headers []

-- The tables of Node.js and its hashes: the text of a status, `String(Buffer.byteLength(message))`,
-- and the value of Sec-WebSocket-Accept for a key.
pub record Node : Type 0 where
  pub status_message : ℕ → Text
  pub byte_length : Text → Text
  pub accept_value : Text → Text

-- What is written to the raw socket or stream.
pub data Answer : Type 0 where
  destroy nothing close_stream : Answer
  end_response : (status : ℕ) → Headers → (message : Text) → Answer
  switch_protocols : Headers → (unshift : Bool) → Answer
  respond : (status : ℕ) → Headers → Answer

-- The answer, and the protocol and the compression of the WebSocket if there is one; or an exception,
-- before or after an answer was written.
pub data Outcome : Type 0 where
  rejected : Answer → Outcome
  fails : Outcome
  fails_after : Answer → Outcome
  accepted :
      Answer
      → (protocol : Text) → (per_message_deflate : Option NegotiatedPerMessageDeflate) → Outcome

-- `{ ...base, ...others }`.
abbrev pub spread : Headers → Headers → Headers
spread base [] = base
spread base ((name, value) ∷ others) = spread (set name value base) others

unfoldable pub reject_upgrade : Node → (writable : Bool) → ℕ → Text → Headers → Answer
reject_upgrade node writable status message headers =
    if not writable
    then destroy
    else end_response status
        (spread
          ((codes "Connection", codes "close")
            ∷ (codes "Content-Length", node.byte_length message)
            ∷ (codes "Content-Type", codes "text/plain; charset=utf-8")
            ∷ [])
          (sanitize_http1_headers headers))
        message

unfoldable pub reject_extended_connect : Node → (destroyed : Bool) → ℕ → Text → Headers → Answer
reject_extended_connect node destroyed status message headers =
    if destroyed
    then nothing
    else end_response status
        (spread
          ((codes "content-length", node.byte_length message)
            ∷ (codes "content-type", codes "text/plain; charset=utf-8")
            ∷ [])
          (sanitize_http2_headers headers))
        message

abbrev pub or_text : Option Text → Text → Text
or_text none d = d
or_text (some s) d = s

abbrev pub or_headers : Option Headers → Headers
or_headers none = []
or_headers (some h) = h

abbrev pub is_text : Option Text → Text → Bool
is_text none s = false
is_text (some t) s = same_text t s

-- The spaces beside the commas go, those at the ends stay.
abbrev pub trim_inner : (is_first : Bool) → List Text → List Text
trim_inner is_first [] = []
trim_inner is_first (p ∷ []) = (if is_first then p else trim_start p) ∷ []
trim_inner is_first (p ∷ q ∷ ps) =
    trim_end (if is_first then p else trim_start p) ∷ trim_inner false (q ∷ ps)

unfoldable pub has_upgrade : Option Text → Bool
has_upgrade none = false
has_upgrade (some connection) =
    contains (codes "upgrade") (trim_inner true (split_on 44 (lower connection)))

abbrev pub is_lower_text : Option Text → Text → Bool
is_lower_text none s = false
is_lower_text (some t) s = same_text (lower t) s

abbrev pub is_valid_key : Option Text → Bool
is_valid_key none = false
is_valid_key (some key) = is_key key

abbrev pub protocol_header : Text → Option Text → Headers
protocol_header name none = []
protocol_header name (some protocol) = if is_empty protocol then [] else (name, protocol) ∷ []

abbrev pub extension_header : Text → Option NegotiatedPerMessageDeflate → Headers
extension_header name none = []
extension_header name (some deflate) = (name, per_message_deflate_response_header) ∷ []

-- The options of `createWebSocket` are made after the answer was written.
unfoldable pub open_socket :
    RouteOptions → Answer → (protocol : Text) → Option NegotiatedPerMessageDeflate → Outcome
open_socket o answer protocol deflate = elim (parse_size o.max_payload (1024 * 1024)) [
  | none ↦ fails_after answer
  | some max_payload ↦ accepted answer protocol deflate
]

unfoldable pub finish_upgrade :
    Node
    → RouteOptions
    → (writable has_head can_unshift : Bool) → (key : Text) → Fallible Session
    → Outcome
finish_upgrade node o writable has_head can_unshift key threw = fails
finish_upgrade node o writable has_head can_unshift key (ok (refused headers message status)) =
    rejected (
      reject_upgrade node writable (or_default status 401)
        (or_text message (codes "Unauthorized WebSocket client")) (or_headers headers))
finish_upgrade node o writable has_head can_unshift key
      (ok (prepared extra_headers deflate protocol)) =
    open_socket o
      (switch_protocols
        (((codes "Connection", codes "Upgrade")
            ∷ (codes "Upgrade", codes "websocket")
            ∷ (codes "Sec-WebSocket-Accept", node.accept_value key)
            ∷ [])
          ++ (protocol_header (codes "Sec-WebSocket-Protocol") protocol
              ++ (extension_header (codes "Sec-WebSocket-Extensions") deflate
                  ++ sanitize_http1_headers extra_headers)))
        (has_head && can_unshift))
      (or_text protocol []) deflate

unfoldable pub upgrade_web_socket :
    Node → RouteOptions → (writable has_head can_unshift : Bool) → Request → Outcome
upgrade_web_socket node o writable has_head can_unshift request =
    let refuse =
      λ (status : ℕ) (message : Text). rejected (reject_upgrade node writable status message []) in
    let key = request.header (codes "sec-websocket-key") in
    if not (same_text request.method (codes "GET"))
    then refuse 405 (codes "Invalid HTTP method")
    else if not (is_lower_text (request.header (codes "upgrade")) (codes "websocket"))
    then refuse 400 (codes "Invalid Upgrade header")
    else if not (has_upgrade (request.header (codes "connection")))
    then refuse 400 (codes "Invalid Connection header")
    else if not (is_valid_key key)
    then refuse 400 (codes "Missing or invalid Sec-WebSocket-Key header")
    else if not (is_text (request.header (codes "sec-websocket-version")) (codes "13"))
    then rejected (
        reject_upgrade node writable 400 (codes "Missing or invalid Sec-WebSocket-Version header")
          ((codes "Sec-WebSocket-Version", codes "13") ∷ []))
    else finish_upgrade node o writable has_head can_unshift (or_text key [])
        (prepare_web_socket_session o request)

unfoldable pub finish_extended_connect :
    Node → RouteOptions → (destroyed : Bool) → Fallible Session → Outcome
finish_extended_connect node o destroyed threw = fails
finish_extended_connect node o destroyed (ok (refused headers message status)) = rejected (
    reject_extended_connect node destroyed (or_default status 401)
      (or_text message (codes "Unauthorized WebSocket client")) (or_headers headers))
finish_extended_connect node o destroyed (ok (prepared extra_headers deflate protocol)) =
    open_socket o
      (respond 200 (
        spread
          (protocol_header (codes "sec-websocket-protocol") protocol
            ++ extension_header (codes "sec-websocket-extensions") deflate)
          (sanitize_http2_headers extra_headers)))
      (or_text protocol []) deflate

unfoldable pub accept_extended_connect_web_socket :
    Node → RouteOptions → (destroyed : Bool) → Request → Outcome
accept_extended_connect_web_socket node o destroyed request =
    if not (same_text request.method (codes "CONNECT"))
    then rejected (reject_extended_connect node destroyed 405 (codes "Invalid HTTP method") [])
    else if not (is_lower_text (request.header (codes ":protocol")) (codes "websocket"))
    then rejected (reject_extended_connect node destroyed 400 (codes "Invalid :protocol header") [])
    else if not (is_text (request.header (codes "sec-websocket-version")) (codes "13"))
    then rejected (
        reject_extended_connect node destroyed 400
          (codes "Missing or invalid Sec-WebSocket-Version header")
          ((codes "sec-websocket-version", codes "13") ∷ []))
    else finish_extended_connect node o destroyed (prepare_web_socket_session o request)
