-- ===== src/Websocket/Handshake/Tests.antt =====
-- Runs of the handshake, and the theorems about it at concrete inputs.
use kenojs.Prelude.{◌≡◌, refl, true, false, Option, none, some, List, [], ◌∷◌}
use kenojs.Prelude.Maps.{get, set}
use kenojs.Prelude.Text.{Text, codes, text_key, trim, trim_start, trim_end, split_parts, split_on}
use kenojs.Shared.Sizes.{omitted, parse_size}
use kenojs.Websocket.Handshake.{
  Request, RouteOptions, plainly, enabled, is_token_char, is_token, key_rest, is_key, add_protocol,
  collect_protocols, parse_protocols, normalize_verification_result, select_protocol,
  includes_extension, negotiated, negotiate_per_message_deflate,
  per_message_deflate_response_header, prepare_verified, prepare_web_socket_session,
}
use kenojs.Websocket.Handshake.Upgrading.{
  Node, accepted, switch_protocols, open_socket, is_safe_header, sanitize_http1_headers,
  has_upgrade, finish_upgrade, upgrade_web_socket, accept_extended_connect_web_socket,
}
use kenojs.Websocket.Handshake.Protocols.{Agreed, prepare_web_socket_session-Agreed}
use kenojs.Websocket.Handshake.Headers.{one_line, CleanOutcome, upgrade-CleanOutcome}

handshake : Unit {0}
unfolding get set trim trim_start trim_end split_parts split_on is_token_char is_token key_rest
    is_key add_protocol collect_protocols parse_protocols normalize_verification_result
    select_protocol includes_extension negotiate_per_message_deflate
    per_message_deflate_response_header prepare_verified prepare_web_socket_session is_safe_header
    open_socket parse_size sanitize_http1_headers has_upgrade finish_upgrade upgrade_web_socket
    one_line
handshake = tt

-- The key of RFC 6455, and two protocols of which the route knows the second.
abbrev headers : List (Text × Text)
headers =
    (codes "upgrade", codes "WebSocket")
    ∷ (codes "connection", codes "keep-alive , Upgrade")
    ∷ (codes "sec-websocket-key", codes "dGhlIHNhbXBsZSBub25jZQ==")
    ∷ (codes "sec-websocket-version", codes "13")
    ∷ (codes "sec-websocket-protocol", codes "chat, superchat")
    ∷ (codes "sec-websocket-extensions", codes "permessage-deflate; client_max_window_bits")
    ∷ []

unfoldable header_of : Text → Option Text
unfolding get
header_of name = get name headers

abbrev request : Request
request = record { method = codes "GET"; header = header_of }

-- One of the two extra headers would split the response.
abbrev options : RouteOptions
options = record {
  verify_client = some (λ r. plainly true);
  headers = λ r. (codes "x-a", codes "1") ∷ (codes "x-b", 49 ∷ 13 ∷ 10 ∷ []) ∷ [];
  handle_protocols = none;
  protocols = codes "superchat" ∷ [];
  per_message_deflate = enabled;
  max_payload = omitted;
}

abbrev node : Node
node = record {
  status_message = λ n. [];
  byte_length = λ s. codes "9";
  accept_value = λ k. codes "s3p";
}

upgraded :
    upgrade_web_socket node options true false true request
    ≡ accepted
        (switch_protocols
          ((codes "Connection", codes "Upgrade")
            ∷ (codes "Upgrade", codes "websocket")
            ∷ (codes "Sec-WebSocket-Accept", codes "s3p")
            ∷ (codes "Sec-WebSocket-Protocol", codes "superchat")
            ∷ (
              codes "Sec-WebSocket-Extensions",
              codes "permessage-deflate; server_no_context_takeover; client_no_context_takeover",
            )
            ∷ (codes "x-a", codes "1")
            ∷ [])
          false)
        (codes "superchat")
        (some (negotiated 10 1 5 1024))
unfolding handshake header_of
upgraded = refl

prepare_web_socket_session-Agreed_example :
    Agreed request (prepare_web_socket_session options request)
prepare_web_socket_session-Agreed_example = prepare_web_socket_session-Agreed options request

upgrade-CleanOutcome_example :
    CleanOutcome (upgrade_web_socket node options true false true request)
    × CleanOutcome (accept_extended_connect_web_socket node options false request)
unfolding one_line
upgrade-CleanOutcome_example =
    upgrade-CleanOutcome node options (λ s. refl) (λ k. refl) true false true false request
