-- ===== src/Http/Application/Tests.antt =====
-- Requests to an application, and the theorems about it at these.
use kenojs.Prelude.{
  ℕ, ◌≡◌, refl, true, false, Option, none, some, List, [], ◌∷◌, length, ◌==◌, if◌then◌else◌,
  if_rule,
}
use kenojs.Prelude.Maps.{get, set}
use kenojs.Prelude.Text.{Text, text_key, codes, trim, trim_start, trim_end, split_parts, split_on}
use kenojs.Shared.Sizes.{omitted, written, parse_size, split_digits, unit_size}
use kenojs.Http.Paths.{
  collapse, normalize_path, normalize_incoming_path, split_slash, get_segments, consume_path,
  join_paths, strip_trailing_slash,
}
use kenojs.Http.Matching.{
  literals, compile_segments, compile_path, match_ending, many, match_tokens, read_params,
  match_path,
}
use kenojs.Http.RouteTree
use kenojs.Http.RouteTree.{
  find_child, set_child, add_entry, add_segments, add, resolve_node_route, resolve_exact_route,
  resolve_node, resolve, is_parameter, is_wildcard,
}
use kenojs.Http.Router.{
  is_method_match, disable_route_tree, add_route, use_entry, use_entries, use_all, add_web_socket,
  has_web_socket_routes, some_web_socket, is_web_socket, resolve_tree_route, resolve_in_layers,
  resolve_in_layer, Router, make_router, use_handler, Run, Handlers, Ending, calls_next, throws,
  resolve_web_socket_route,
}
use kenojs.Http.Router.Registering.{use_with, web_socket, register, register_all}
use kenojs.Http.Response.{Response, Texts, set_header, set_default, end_raw, send_raw, json}
use kenojs.Http.Application.{
  Thrown, plain_error, Exchange, send_error, finish, complete, handle_node_request,
}
use kenojs.Http.Application.Answering.{IsOrderly, IsAnswered, handle_node_request-IsAnswered}
use kenojs.Http.Application.Upgrading.{
  SocketRoute, HandlerEnd, rejects, Event, handle_upgrade, answered,
}
use kenojs.Websocket.Handshake.{
  Request, RouteOptions, disabled, is_token_char, is_token, key_rest, is_key, add_protocol,
  collect_protocols, parse_protocols, normalize_verification_result, select_protocol,
  includes_extension, negotiate_per_message_deflate, prepare_verified, prepare_web_socket_session,
}
use kenojs.Websocket.Handshake.Upgrading.{
  Node, open_socket, is_safe_header, sanitize_http1_headers, has_upgrade, finish_upgrade,
  upgrade_web_socket, reject_upgrade,
}

abbrev texts : Texts
texts = record {
  status_message = λ n. codes "Internal Server Error";
  byte_length = λ t. length t;
  show = λ n. codes "500";
  encode = λ t. t;
}

abbrev fresh : Response
fresh = record {
  status_code = 200;
  headers = [];
  headers_sent = false;
  writable_ended = false;
  destroyed = false;
  body = none;
  late_write = false;
}

-- Handler 1 passes on, the others throw.
abbrev handlers : Handlers ℕ Thrown (Exchange ℕ)
handlers = record {
  call = λ h error within world.
      if h == 1 then (calls_next none, world) else (throws (plain_error (codes "secret")), world);
  decode_component = λ t. t;
}

abbrev start : Run ℕ Thrown (Exchange ℕ)
start = record {
  request_scope = record { base_url = []; params = []; route_path = [] };
  world = record { response = fresh; unhandled = false; outside = 0 };
  calls = [];
}

-- The text of an error that is no HttpError is not sent.
not_told :
    (complete texts
      (λ message. message)
      false
      (some (plain_error (codes "secret")))
      start).world.response.body
    ≡ (complete texts
        (λ message. message)
        false
        (some (plain_error (codes "other")))
        start).world.response.body
unfolding complete finish send_error json send_raw set_default set_header end_raw get set
not_told = refl

-- A handler that fails after the headers were sent leaves a rejection that nothing catches.
fails_late :
    (complete texts
      (λ message. message)
      false
      (some (plain_error (codes "late")))
      (record start {
        world = record start.world { response = record fresh { headers_sent = true } };
      })).world.unhandled
    ≡ true
unfolding complete finish send_error json send_raw set_default set_header end_raw get set
fails_late = refl

abbrev or_empty : {H : Type 0} → Option (Router H) → Router H
or_empty none = make_router
or_empty (some r) = r

abbrev app : Router ℕ
app =
    or_empty (
      register_all (use_with none (use_handler 1 false ∷ use_handler 2 false ∷ []) ∷ [])
        make_router)

handle_node_request-IsAnswered_example :
    IsAnswered texts
      (λ message. message)
      false
      handlers
      (handle_node_request texts (λ message. message) false handlers app "GET" (codes "/") [] start)
handle_node_request-IsAnswered_example =
    handle_node_request-IsAnswered texts (λ message. message) false handlers app "GET" (codes "/")
      [] start
      (λ h error within world o.
        if_rule
          (λ (outcome : Ending Thrown × Exchange ℕ).
            IsOrderly texts (λ message. message) false handlers outcome.1)
          (h == 1) (λ e. o) (λ e. o))
      (refl, refl)

abbrev options : RouteOptions
options = record {
  verify_client = none;
  headers = λ r. [];
  handle_protocols = none;
  protocols = [];
  per_message_deflate = disabled;
  max_payload = omitted;
}

abbrev sockets : Router (SocketRoute ℕ)
sockets = or_empty (
    register_all (web_socket (codes "/chat") (record { handler = 7; options = options }) ∷ [])
      make_router)

abbrev unsized : Router (SocketRoute ℕ)
unsized = or_empty (
    register_all
      (web_socket (codes "/chat") (record {
        handler = 7;
        options = record options { max_payload = written (codes "large") };
      })
        ∷ [])
      make_router)

abbrev node : Node
node = record {
  status_message = λ n. [];
  byte_length = λ s. codes "9";
  accept_value = λ k. codes "s3p";
}

abbrev headers : List (Text × Text)
headers =
    (codes "upgrade", codes "websocket")
    ∷ (codes "connection", codes "Upgrade")
    ∷ (codes "sec-websocket-key", codes "dGhlIHNhbXBsZSBub25jZQ==")
    ∷ (codes "sec-websocket-version", codes "13")
    ∷ []

abbrev request : Request
request = record { method = codes "GET"; header = λ name. get name headers }

abbrev run : ℕ → HandlerEnd
run h = rejects false true

sockets_run : Unit {0}
unfolding collapse normalize_path normalize_incoming_path split_slash get_segments consume_path
    join_paths strip_trailing_slash split_parts split_on literals compile_segments compile_path
    match_ending many match_tokens read_params match_path RouteTree.clear find_child set_child
    add_entry add_segments add resolve_node_route resolve_exact_route resolve_node resolve
    is_parameter is_wildcard get set is_method_match disable_route_tree add_route use_entry
    use_entries use_all add_web_socket has_web_socket_routes some_web_socket is_web_socket
    resolve_tree_route resolve_web_socket_route resolve_in_layers resolve_in_layer register
    register_all handle_upgrade parse_size split_digits unit_size trim trim_start trim_end
    has_upgrade is_key key_rest upgrade_web_socket finish_upgrade open_socket reject_upgrade
    prepare_verified prepare_web_socket_session parse_protocols collect_protocols add_protocol
    select_protocol negotiate_per_message_deflate normalize_verification_result is_token_char
    is_token includes_extension sanitize_http1_headers is_safe_header
sockets_run = tt

abbrev opened : List (Event ℕ)
opened =
    handle_upgrade (λ t. t) [] (codes "/chat") sockets run node (codes "bad") request true false
      true

-- With a maximal payload that is not a size, two answers are written.
abbrev opened_twice : List (Event ℕ)
opened_twice =
    handle_upgrade (λ t. t) [] (codes "/chat") unsized run node (codes "bad") request true false
      true

answered_twice : answered opened_twice ≡ 2
unfolding sockets_run
answered_twice = refl
