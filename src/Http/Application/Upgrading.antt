-- ===== src/Http/Application/Upgrading.antt =====
-- `handleUpgrade` and `handleHttp2Stream` of src/internal/http/application.ts: from a request to the handler of a
-- WebSocket route, as a list of what they do.
use kenojs.Prelude.{
  ℕ, ◌+◌, ◌*◌, ◌≡◌, ◌⊎◌, Bool, true, false, Option, none, some, List, [], ◌∷◌, ◌++◌, if◌then◌else◌,
}
use kenojs.Prelude.Text.{Text, codes}
use kenojs.Http.Router.{Router, RequestScope, ResolvedWebSocketRoute, resolve_web_socket_route}
use kenojs.Websocket.Handshake.{Request, RouteOptions, NegotiatedPerMessageDeflate}
use kenojs.Websocket.Handshake.Upgrading.{
  Node, Answer, Outcome, rejected, fails, fails_after, accepted, destroy, nothing, close_stream,
  end_response, switch_protocols, respond, reject_upgrade, reject_extended_connect,
  upgrade_web_socket, accept_extended_connect_web_socket,
}
use kenojs.Websocket.Handshake.Checks.{Checked}
use kenojs.Shared.Sizes.{parse_size}

-- What a router keeps for a WebSocket route.
pub record SocketRoute (K : Type 0) : Type 0 where
  pub handler : K
  pub options : RouteOptions

pub data Event (K : Type 0) : Type 0 where
  sets_scope : RequestScope → Event K
  answers : Answer → Event K
  -- `server.registerWebSocket`.
  registers : (protocol : Text) → Option NegotiatedPerMessageDeflate → Event K
  calls_handler : K → Event K
  emits_error : Event K
  closes : (code : ℕ) → Event K
  -- The promise of `handleUpgrade` is rejected.
  escapes : Event K

-- How the call of a handler ends: it throws before it gives a promise; the promise is rejected, the
-- socket then having a listener for errors or not, and closing already or not; or neither.
pub data HandlerEnd : Type 0 where
  fulfils throws : HandlerEnd
  rejects : (has_error_listener is_open : Bool) → HandlerEnd

abbrev pub scope_of : {K : Type 0} → ResolvedWebSocketRoute (SocketRoute K) → RequestScope
scope_of route = record {
  base_url = route.base_url;
  params = route.params;
  route_path = route.route_path;
}

module _ {K : Type 0} where
  abbrev pub when : Bool → Event K → List (Event K)
  when true event = event ∷ []
  when false event = []

  -- The `catch` of a handler's promise, which a synchronous exception does not reach.
  abbrev pub after_handler : HandlerEnd → List (Event K)
  after_handler fulfils = []
  after_handler throws = escapes ∷ []
  after_handler (rejects has_error_listener is_open) =
      when has_error_listener emits_error ++ when is_open (closes 1011)

  -- After the handshake, with what answers if it throws: the `refusal`, and the `late` one where an
  -- answer was written before.
  abbrev pub after_handshake :
      (K → HandlerEnd) → K → (refusal late : Answer) → Outcome → List (Event K)
  after_handshake run handler refusal late fails = answers refusal ∷ []
  after_handshake run handler refusal late (fails_after answer) = answers answer ∷ answers late ∷ []
  after_handshake run handler refusal late (rejected answer) = answers answer ∷ []
  after_handshake run handler refusal late (accepted answer protocol deflate) =
      answers answer
      ∷ registers protocol deflate
      ∷ calls_handler handler
      ∷ after_handler (run handler)

  module _ (decode_component : Text → Text) (hostname path : Text) (app : Router (SocketRoute K))
      (run : K → HandlerEnd) (node : Node) (failure : Text) (request : Request) where
    unfoldable pub handle_upgrade : (writable has_head can_unshift : Bool) → List (Event K)
    handle_upgrade writable has_head can_unshift =
        elim (resolve_web_socket_route decode_component hostname app path [] []) [
          | none ↦
              answers (reject_upgrade node writable 404 (codes "Unknown WebSocket route") []) ∷ []
          | some route ↦
              sets_scope (scope_of route)
              ∷ after_handshake run route.handler.handler
                  (reject_upgrade node writable 400 failure [])
                  (reject_upgrade node writable 400 failure [])
                  (upgrade_web_socket node route.handler.options writable has_head can_unshift
                    request)
        ]

    -- A second response on a stream throws, and the stream is closed.
    unfoldable pub handle_http2_stream : (destroyed : Bool) → List (Event K)
    handle_http2_stream destroyed =
        elim (resolve_web_socket_route decode_component hostname app path [] []) [
          | none ↦
              answers
                (reject_extended_connect node destroyed 404 (codes "Unknown WebSocket route") [])
              ∷ []
          | some route ↦
              sets_scope (scope_of route)
              ∷ after_handshake run route.handler.handler
                  (reject_extended_connect node destroyed 400 failure [])
                  (if destroyed then nothing else close_stream)
                  (accept_extended_connect_web_socket node route.handler.options destroyed request)
        ]

  -- How many answers are written to the raw socket; a socket that is destroyed gets none.
  abbrev pub answered : List (Event K) → ℕ
  answered [] = 0
  answered (answers destroy ∷ events) = answered events
  answered (answers nothing ∷ events) = answered events
  answered (answers close_stream ∷ events) = answered events
  answered (answers (end_response status headers message) ∷ events) = 1 + answered events
  answered (answers (switch_protocols headers unshift) ∷ events) = 1 + answered events
  answered (answers (respond status headers) ∷ events) = 1 + answered events
  answered (_ ∷ events) = answered events

  -- How many sockets are registered, and handlers called.
  abbrev pub begun : List (Event K) → ℕ
  begun [] = 0
  begun (registers protocol deflate ∷ events) = 1 + begun events
  begun (calls_handler handler ∷ events) = 1 + begun events
  begun (_ ∷ events) = begun events

  -- The events of a route whose handshake was accepted.
  abbrev pub OpensRoute :
      (run : K → HandlerEnd)
      → Request
      → ResolvedWebSocketRoute (SocketRoute K)
      → List (Event K)
      → Type 0
  OpensRoute run request route events =
      (headers : List (Text × Text)) × (unshift : Bool) × (protocol : Text) × (deflate : Option
        NegotiatedPerMessageDeflate)
      × Checked route.handler.options request protocol deflate
      × (events
          ≡ sets_scope (scope_of route)
            ∷ answers (switch_protocols headers unshift)
            ∷ registers protocol deflate
            ∷ calls_handler route.handler.handler
            ∷ after_handler (run route.handler.handler))

  -- One answer or, where nothing can be written, none, and no socket.
  abbrev pub Refuses : (writable : Bool) → List (Event K) → Type 0
  Refuses writable events =
      (begun events ≡ 0) × ((answered events ≡ 1) ⊎ ((writable ≡ false) × (answered events ≡ 0)))

  -- The maximal payload of a route, where one is resolved, is a size.
  abbrev pub HasSize : Option (ResolvedWebSocketRoute (SocketRoute K)) → Type 0
  HasSize none = Unit
  HasSize (some route) = parse_size route.handler.options.max_payload (1024 * 1024) ≡ none → ⊥

  module _ (decode_component : Text → Text) (hostname path : Text) (app : Router (SocketRoute K))
      (run : K → HandlerEnd) (node : Node) (failure : Text) (request : Request)
      (writable has_head can_unshift : Bool) where
    abbrev resolved : Option (ResolvedWebSocketRoute (SocketRoute K))
    resolved = resolve_web_socket_route decode_component hostname app path [] []

    abbrev Opens : List (Event K) → Type 0
    Opens events =
        (route : ResolvedWebSocketRoute (SocketRoute K)) × (resolved ≡ some route)
        × OpensRoute run request route events
