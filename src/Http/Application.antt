-- ===== src/Http/Application.antt =====
-- `handleNodeRequest`, `handleUpgrade` and `sendError` of src/internal/http/application.ts (KenoApplication), with
-- src/internal/shared/errors.ts. An exchange is the world of the handlers; the text of `{ error: message }`
-- is a parameter.
pub mod Answering
pub mod Upgrading
mod Tests
use kenojs.Prelude.{
  ℕ, Bool, true, false, not, Option, none, some, String, List, [], ◌∷◌, if◌then◌else◌, leb, ltb,
}
use kenojs.Prelude.Text.{Text, codes}
use kenojs.Http.Router.{
  Router, router, RequestScope, DispatchState, Run, Handlers, resolve_tree_route,
  resolve_web_socket_route, ResolvedWebSocketRoute,
}
use kenojs.Http.Router.Dispatching.{dispatch, dispatch_direct_route}
use kenojs.Http.Response.{Response, Texts, ◌>>=◌, finished, status, set_header, single, json}

pub record HttpError : Type 0 where
  pub status_code : ℕ
  pub message : Text
  pub expose : Bool
  pub headers : List (Text × Text)

-- The constructor, with what its options have.
abbrev pub make_http_error :
    (status_code : ℕ) → (message : Text) → (expose : Option Bool) → List (Text × Text) → HttpError
make_http_error status_code message none headers = record {
  status_code = status_code;
  message = message;
  expose = ltb status_code 500;
  headers = headers;
}
make_http_error status_code message (some expose) headers = record {
  status_code = status_code;
  message = message;
  expose = expose;
  headers = headers;
}

-- What a handler throws or passes to `next`: an HttpError, another error, or another value.
pub data Thrown : Type 0 where
  http_error : HttpError → Thrown
  plain_error : (message : Text) → Thrown
  other_value : Thrown

abbrev pub resolve_error : Texts → Thrown → HttpError
resolve_error texts (http_error e) = e
resolve_error texts (plain_error message) = make_http_error 500 message (some false) []
resolve_error texts other_value = make_http_error 500 (texts.status_message 500) (some false) []

abbrev pub set_headers : List (Text × Text) → Response → Option Response
set_headers [] r = some r
set_headers ((name, value) ∷ headers) r = set_header name (single value) r >>= set_headers headers

-- What the client is told of an error.
abbrev pub told : Texts → HttpError → Text
told texts e = if e.expose then e.message else texts.status_message e.status_code

pub record Exchange (V : Type 0) : Type 0 where
  pub response : Response
  -- A rejection that nothing catches.
  pub unhandled : Bool
  pub outside : V

module _ (texts : Texts) (error_json : Text → Text) (is_head : Bool) where
  unfoldable pub send_error : Thrown → Response → Option Response
  send_error thrown r =
      let e = resolve_error texts thrown in
      let sent =
        set_headers e.headers r
        >>= (λ s. json texts is_head (some (error_json (told texts e))) (status e.status_code s)) in
      if finished r then some r else sent

  unfoldable pub finish : Option Thrown → Response → Option Response
  finish (some thrown) r = send_error thrown r
  finish none r =
      let sent = json texts is_head (some (error_json (codes "Not Found"))) (status 404 r) in
      if finished r then some r else sent

  module _ {H V : Type 0} where
    -- `finish`, and `sendError` again if it throws.
    unfoldable pub complete : Option Thrown → Run H Thrown (Exchange V) → Run H Thrown (Exchange V)
    complete error run = elim (finish error run.world.response) [
      | some r ↦ record run { world = record run.world { response = r } }
      | none ↦
          elim (send_error (plain_error (codes "Cannot set headers after they are sent"))
            run.world.response) [
              | some r ↦ record run { world = record run.world { response = r } }
              | none ↦ record run { world = record run.world { unhandled = true } }
            ]
    ]

    unfoldable pub try_dispatch_direct_route :
        Handlers H Thrown (Exchange V)
        → Router H
        → DispatchState
        → (Option Thrown → Run H Thrown (Exchange V) → Run H Thrown (Exchange V))
        → Run H Thrown (Exchange V)
        → Option (Run H Thrown (Exchange V))
    try_dispatch_direct_route hs (router ls tree enabled) state done run =
        elim (resolve_tree_route hs.decode_component tree enabled state.method state.pathname) [
          | none ↦ none
          | some matched ↦ some (dispatch_direct_route hs state matched done run)
        ]

    unfoldable pub handle_node_request :
        Handlers H Thrown (Exchange V)
        → Router H
        → (method : String) → (path hostname : Text) → Run H Thrown (Exchange V)
        → Run H Thrown (Exchange V)
    handle_node_request hs app method path hostname run =
        let state : DispatchState = record {
          base_url = [];
          method = method;
          params = [];
          pathname = path;
          hostname = hostname;
        } in
        elim (try_dispatch_direct_route hs app state complete run) [
          | some direct ↦ direct
          | none ↦ dispatch hs app state complete none run
        ]
