-- ===== src/Http/Router.antt =====
-- src/internal/http/router.ts: layers of middleware, routes, nested routers, host scopes, static services
-- and WebSocket routes, and the dispatch of a request through them.
-- What a handler does is a parameter: it is called with the scope, the world of the request and
-- response, and an error if there is one; it calls `next` at most once, as its last act. A router that
-- another one uses is given as it is when a request comes.
pub mod Registering
pub mod Dispatching
pub mod Traces
pub mod Outcomes
pub mod Ordering
pub mod Errors
pub mod Sockets
pub mod Worlds
mod Tests
use kenojs.Prelude.{
  Bool, true, false, not, ◌&&◌, ◌||◌, String, Option, none, some, List, [], ◌∷◌, ◌++◌,
  if◌then◌else◌, is_some, str_eq,
}
use kenojs.Prelude.Maps.{get, set}
use kenojs.Prelude.Text.{Text, text_key}
use kenojs.Http.Paths.{root_path, consume_path, join_paths, normalize_path}
use kenojs.Http.Matching.{PathMatcher, PathMatch, compile_path, match_path}
use kenojs.Http.RouteTree
use kenojs.Http.RouteTree.{RouteTree, create_tree_node, ResolvedRouteTreeMatch, first_of}
use kenojs.Http.Static.{matches_static_mount}

abbrev pub Params : Type 0
Params = List (Text × Text)

-- `{ ...params, ...others }`.
abbrev pub merge : Params → Params → Params
merge params [] = params
merge params ((key, value) ∷ others) = merge (set key value params) others

mutual
  pub data Layer (H : Type 0) : Type 0 where
    middleware : H → (is_error_handler : Bool) → PathMatcher → (path : Text) → Layer H
    route : H → PathMatcher → (method : String) → (path : Text) → Layer H
    nested : PathMatcher → (path : Text) → Router H → Layer H
    scope : (test : Text → Bool) → Router H → Layer H
    static : (mount_path path : Text) → (service : H) → Layer H
    ws : H → PathMatcher → (path : Text) → Layer H

  pub data Layers (H : Type 0) : Type 0 where
    no_layer : Layers H
    layer : Layer H → Layers H → Layers H

  -- The layers, the route tree and whether it is enabled.
  pub data Router (H : Type 0) : Type 0 where
    router : Layers H → RouteTree H → (enabled : Bool) → Router H

pub record RequestScope : Type 0 where
  pub base_url : Text
  pub params : Params
  pub route_path : Text

pub record DispatchState : Type 0 where
  pub base_url : Text
  pub method : String
  pub params : Params
  pub pathname : Text
  pub hostname : Text

-- How a call of a handler ends.
pub data Ending (E : Type 0) : Type 0 where
  returns : Ending E
  calls_next : Option E → Ending E
  throws : E → Ending E

pub record Called (H E : Type 0) : Type 0 where
  pub handler : H
  pub error : Option E
  pub within : RequestScope

-- The request's scope, the world of the handlers, and their calls so far, the oldest first.
pub record Run (H E W : Type 0) : Type 0 where
  pub request_scope : RequestScope
  pub world : W
  pub calls : List (Called H E)

pub record Handlers (H E W : Type 0) : Type 0 where
  pub call : H → Option E → RequestScope → W → Ending E × W
  pub decode_component : Text → Text

-- What `use` and `host` are given; `handler` with the number of its parameters.
pub data UseEntry (H : Type 0) : Type 0 where
  use_router : Router H → UseEntry H
  use_static : H → UseEntry H
  use_handler : H → (is_error_handler : Bool) → UseEntry H

abbrev pub resolve_use_path : Option Text → Text
resolve_use_path none = root_path
resolve_use_path (some path) = path

unfoldable pub is_method_match : (route_method incoming_method : String) → Bool
is_method_match route_method incoming_method =
    str_eq route_method "ALL"
    || str_eq route_method incoming_method
    || (str_eq incoming_method "HEAD" && str_eq route_method "GET")

module _ {H : Type 0} where
  abbrev pub append_layers : Layers H → Layers H → Layers H
  append_layers no_layer others = others
  append_layers (layer l ls) others = layer l (append_layers ls others)

  abbrev pub add_layer : Layer H → Router H → Router H
  add_layer l (router ls tree enabled) = router (append_layers ls (layer l no_layer)) tree enabled

  abbrev pub empty_tree : RouteTree H
  empty_tree = record { exact_routes = []; root = create_tree_node }

  -- A router that is new.
  abbrev pub make_router : Router H
  make_router = router no_layer empty_tree true

  unfoldable pub disable_route_tree : Router H → Router H
  disable_route_tree (router ls tree enabled) =
      if enabled then router ls (RouteTree.clear tree) false else router ls tree enabled

  abbrev pub route_layers : List H → PathMatcher → String → Text → Layers H
  route_layers [] matcher method path = no_layer
  route_layers (h ∷ hs) matcher method path =
      layer (route h matcher method path) (route_layers hs matcher method path)

  -- None where the expression of the path is a SyntaxError.
  unfoldable pub add_route : String → Text → List H → Router H → Option (Router H)
  add_route method path handlers (router ls tree enabled) = elim (compile_path path true) [
    | none ↦ none
    | some matcher ↦ some (
        router (append_layers ls (route_layers handlers matcher method path))
          (if enabled then RouteTree.add method path handlers tree else tree) enabled)
  ]

  -- One round of the loop of `use`.
  unfoldable pub use_entry : Text → UseEntry H → Router H → Option (Router H)
  use_entry path (use_static service) r =
      some (add_layer (static (normalize_path path) path service) r)
  use_entry path (use_router other) r = elim (compile_path path false) [
    | none ↦ none
    | some matcher ↦ some (add_layer (nested matcher path other) r)
  ]
  use_entry path (use_handler h is_error_handler) r = elim (compile_path path false) [
    | none ↦ none
    | some matcher ↦ some (add_layer (middleware h is_error_handler matcher path) r)
  ]

  unfoldable pub use_entries : Text → List (UseEntry H) → Router H → Option (Router H)
  use_entries path [] r = some r
  use_entries path (e ∷ es) r = elim (use_entry path e r) [
    | none ↦ none
    | some r' ↦ use_entries path es r'
  ]

  -- `use`, with or without a path.
  unfoldable pub use_all : Option Text → List (UseEntry H) → Router H → Option (Router H)
  use_all given entries r = use_entries (resolve_use_path given) entries (disable_route_tree r)

  unfoldable pub add_web_socket : Text → H → Router H → Option (Router H)
  add_web_socket path handler r = elim (compile_path path true) [
    | none ↦ none
    | some matcher ↦ some (add_layer (ws handler matcher path) (disable_route_tree r))
  ]

  -- `host`; the matcher of the pattern is a function of host names.
  unfoldable pub host :
      (Text → Bool) → Option Text → List (UseEntry H) → Router H → Option (Router H)
  host test given entries r = elim (use_all given entries make_router) [
    | none ↦ none
    | some inner ↦ some (add_layer (scope test inner) (disable_route_tree r))
  ]

  unfoldable mutual
    pub has_web_socket_routes : Router H → Bool
    has_web_socket_routes (router ls tree enabled) = some_web_socket ls

    pub some_web_socket : Layers H → Bool
    some_web_socket no_layer = false
    some_web_socket (layer l ls) = is_web_socket l || some_web_socket ls

    pub is_web_socket : Layer H → Bool
    is_web_socket (ws h matcher path) = true
    is_web_socket (nested matcher path r) = has_web_socket_routes r
    is_web_socket (scope test r) = has_web_socket_routes r
    is_web_socket (middleware h is_error_handler matcher path) = false
    is_web_socket (route h matcher method path) = false
    is_web_socket (static mount_path path service) = false

  unfoldable pub resolve_tree_route :
      (Text → Text) → RouteTree H → Bool → String → Text → Option (ResolvedRouteTreeMatch H)
  resolve_tree_route decode_component tree enabled method pathname =
      if enabled then RouteTree.resolve decode_component tree method pathname else none

-- `resolveWebSocketRoute`: the layers in their order, the first route that matches.
pub record ResolvedWebSocketRoute (H : Type 0) : Type 0 where
  pub base_url : Text
  pub handler : H
  pub params : Params
  pub route_path : Text

module _ {H : Type 0} (decode_component : Text → Text) (hostname : Text) where
  unfoldable mutual
    pub resolve_web_socket_route :
        Router H → (pathname base_url : Text) → Params → Option (ResolvedWebSocketRoute H)
    resolve_web_socket_route (router ls tree enabled) pathname base_url params =
        resolve_in_layers ls pathname base_url params

    pub resolve_in_layers :
        Layers H → (pathname base_url : Text) → Params → Option (ResolvedWebSocketRoute H)
    resolve_in_layers no_layer pathname base_url params = none
    resolve_in_layers (layer l ls) pathname base_url params =
        first_of (resolve_in_layer l pathname base_url params)
          (resolve_in_layers ls pathname base_url params)

    pub resolve_in_layer :
        Layer H → (pathname base_url : Text) → Params → Option (ResolvedWebSocketRoute H)
    resolve_in_layer (nested matcher path r) pathname base_url params =
        elim (match_path decode_component matcher pathname) [
          | none ↦ none
          | some found ↦
              resolve_web_socket_route r (consume_path pathname found.matched_path)
                (join_paths base_url found.matched_path) (merge params found.params)
        ]
    resolve_in_layer (scope test r) pathname base_url params =
        let resolved = resolve_web_socket_route r pathname base_url params in
        if test hostname then resolved else none
    resolve_in_layer (ws h matcher path) pathname base_url params =
        elim (match_path decode_component matcher pathname) [
          | none ↦ none
          | some found ↦ some (record {
            base_url = base_url;
            handler = h;
            params = merge params found.params;
            route_path = path;
          })
        ]
    resolve_in_layer (middleware h is_error_handler matcher path) pathname base_url params = none
    resolve_in_layer (route h matcher method path) pathname base_url params = none
    resolve_in_layer (static mount_path path service) pathname base_url params = none
