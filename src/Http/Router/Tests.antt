-- ===== src/Http/Router/Tests.antt =====
-- Runs of the router, and its theorems at them.
use kenojs.Prelude.{
  ℕ, ◌+◌, ◌≡◌, refl, true, false, Option, none, some, List, [], ◌∷◌, map, ◌==◌, if◌then◌else◌,
}
use kenojs.Prelude.Maps.{get, set}
use kenojs.Prelude.Text.{Text, codes, split_parts, split_on}
use kenojs.Http.Paths.{
  collapse, normalize_path, normalize_incoming_path, split_slash, get_segments, consume_path,
  join_paths, strip_trailing_slash,
}
use kenojs.Http.Matching.{
  literals, compile_segments, compile_path, match_ending, many, match_tokens, read_params,
  match_path,
}
use kenojs.Http.RouteTree
use kenojs.Http.RouteTree.{
  find_child, set_child, add_entry, add_segments, add, resolve_node_route, resolve_exact_route,
  resolve_node, resolve, is_parameter, is_wildcard,
}
use kenojs.Http.Router.{
  Router, make_router, DispatchState, returns, calls_next, throws, Called, Run, Handlers,
  use_router, use_handler, is_method_match, disable_route_tree, add_route, use_entry, use_entries,
  use_all, add_web_socket, has_web_socket_routes, some_web_socket, is_web_socket,
  resolve_tree_route, resolve_web_socket_route, resolve_in_layers, resolve_in_layer,
}
use kenojs.Http.Router.Dispatching.{
  invoke_handler, direct_handlers, dispatch_direct_route, dispatch, dispatch_layers, dispatch_layer,
}
use kenojs.Http.Router.Registering.{
  Registration, register, handle, use_with, web_socket, register_all, register_all-IsConsistent,
  ConsistentResult,
}
use kenojs.Http.Router.Traces.{without_tree, all_without_tree, layer_without_tree}
use kenojs.Http.Router.Ordering.{dispatch_scope_kept}
use kenojs.Http.Router.Errors.{
  NoErrors, has_error_handlers, some_error_handler, is_error_handling, dispatch-NoErrors,
}

computed : Unit {0}
unfolding collapse normalize_path normalize_incoming_path split_slash get_segments consume_path
    join_paths strip_trailing_slash split_parts split_on literals compile_segments compile_path
    match_ending many match_tokens read_params match_path RouteTree.clear find_child set_child
    add_entry add_segments add resolve_node_route resolve_exact_route resolve_node resolve
    is_parameter is_wildcard get set is_method_match disable_route_tree add_route use_entry
    use_entries use_all add_web_socket has_web_socket_routes some_web_socket is_web_socket
    resolve_tree_route resolve_web_socket_route resolve_in_layers resolve_in_layer register
    register_all invoke_handler direct_handlers dispatch_direct_route dispatch dispatch_layers
    dispatch_layer without_tree all_without_tree layer_without_tree has_error_handlers
    some_error_handler is_error_handling
computed = tt

-- Handler 1 passes on, 2 throws, and the others answer; an error handler is 9.
abbrev handlers : Handlers ℕ ℕ ℕ
handlers = record {
  call = λ h error within w.
      if h == 1
      then (calls_next none, w + 1)
      else if h == 2
      then (throws 5, w + 1)
      else (returns, w + 1);
  decode_component = λ t. t;
}

abbrev registered : List (Registration ℕ)
registered =
    use_with none (use_handler 1 false ∷ [])
    ∷ handle "GET" (codes "/users/:id") (1 ∷ 2 ∷ 3 ∷ [])
    ∷ use_with none (use_handler 9 true ∷ [])
    ∷ []

abbrev or_empty : Option (Router ℕ) → Router ℕ
or_empty none = make_router
or_empty (some r) = r

abbrev app : Router ℕ
app = or_empty (register_all registered make_router)

abbrev start : Run ℕ ℕ ℕ
start = record {
  request_scope = record { base_url = []; params = []; route_path = [] };
  world = 0;
  calls = [];
}

abbrev request : Text → DispatchState
request path = record { base_url = []; method = "GET"; params = []; pathname = path; hostname = [] }

abbrev handler_of : Called ℕ ℕ → ℕ × Option ℕ
handler_of c = (c.handler, c.error)

-- The middleware, the handlers of the route up to the one that throws, and the error handler.
app_calls :
    map handler_of (dispatch handlers app (request (codes "/users/42")) (λ e r. r) none start).calls
    ≡ (1, none) ∷ (1, none) ∷ (2, none) ∷ (9, some 5) ∷ []
unfolding computed
app_calls = refl

-- With its tree the router goes to the handlers directly, past the route that was registered first.
abbrev routes : Router ℕ
routes = or_empty (
    register_all (handle "GET" (codes "/:id") (3 ∷ []) ∷ handle "GET" (codes "/me") (4 ∷ []) ∷ [])
      make_router)

routes_calls :
    map handler_of (dispatch handlers routes (request (codes "/me")) (λ e r. r) none start).calls
    ≡ (4, none) ∷ []
unfolding computed
routes_calls = refl

abbrev finished : Option ℕ → Run ℕ ℕ ℕ → Run ℕ ℕ ℕ
finished error run = run

app-without_tree : without_tree app ≡ true
unfolding computed
app-without_tree = refl

dispatch_scope_kept_example :
    (dispatch handlers app (request (codes "/users/42")) finished none start).request_scope
    ≡ start.request_scope
dispatch_scope_kept_example =
    dispatch_scope_kept handlers finished app (request (codes "/users/42")) none start
      app-without_tree (λ e later. refl)

routes_plain : has_error_handlers routes ≡ false
unfolding computed
routes_plain = refl

dispatch-NoErrors_example :
    NoErrors (dispatch handlers routes (request (codes "/me")) finished none start).calls
dispatch-NoErrors_example =
    dispatch-NoErrors handlers routes (request (codes "/me")) none start routes_plain tt

register_all-IsConsistent_example : ConsistentResult (register_all registered make_router)
register_all-IsConsistent_example = register_all-IsConsistent registered make_router tt

-- A router with a socket under "/chat", and one without.
abbrev sockets : Router ℕ
sockets = or_empty (register_all (web_socket (codes "/:room") 7 ∷ []) make_router)

abbrev site : Router ℕ
site = or_empty (
    register_all
      (use_with (some (codes "/app")) (use_router app ∷ [])
        ∷ use_with (some (codes "/chat")) (use_router sockets ∷ [])
        ∷ [])
      make_router)

site_resolves :
    resolve_web_socket_route (λ t. t) [] site (codes "/chat/x") [] []
    ≡ some (record {
      base_url = codes "/chat";
      handler = 7;
      params = (codes "room", codes "x") ∷ [];
      route_path = codes "/:room";
    })
unfolding computed
site_resolves = refl

app_without_sockets : has_web_socket_routes app ≡ false
unfolding computed
app_without_sockets = refl
