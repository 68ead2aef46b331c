-- ===== src/Http/Router/Dispatching.antt =====
-- `dispatch`, `dispatchLayer`, `dispatchDirectRoute` and `invokeHandler` of src/internal/http/router.ts, with
-- what follows a layer, and `done`, as functions; `done` does not throw.
use kenojs.Prelude.{
  Bool, true, false, not, ◌&&◌, Option, none, some, List, [], ◌∷◌, ◌++◌, if◌then◌else◌, is_some,
}
use kenojs.Prelude.Text.{Text}
use kenojs.Http.Paths.{consume_path, join_paths}
use kenojs.Http.Matching.{match_path}
use kenojs.Http.RouteTree.{ResolvedRouteTreeMatch}
use kenojs.Http.Router.{
  Params, merge, Layer, middleware, route, nested, scope, static, ws, Layers, no_layer, layer,
  Router, router, RequestScope, DispatchState, Ending, returns, calls_next, throws, Run, Handlers,
  is_method_match, resolve_tree_route,
}
use kenojs.Http.Static.{matches_static_mount}

abbrev pub with_params : Params → DispatchState → DispatchState
with_params params state = record {
  base_url = state.base_url;
  method = state.method;
  params = params;
  pathname = state.pathname;
  hostname = state.hostname;
}

-- The state for a router under a path that matched.
abbrev pub under : (matched_path : Text) → Params → DispatchState → DispatchState
under matched_path params state = record {
  base_url = join_paths state.base_url matched_path;
  method = state.method;
  params = merge state.params params;
  pathname = consume_path state.pathname matched_path;
  hostname = state.hostname;
}

-- Whether a middleware is an error handler as there is an error.
abbrev pub takes_error {ℓ} : {E : Type ℓ} → Bool → Option E → Bool
takes_error true error = is_some error
takes_error false error = not (is_some error)

module _ {H E W : Type 0} (hs : Handlers H E W) where
  -- The scope of the request is `within` for the handler and stays so.
  abbrev pub after_call : H → Option E → RequestScope → Run H E W → Ending E × Run H E W
  after_call h error within run =
      let outcome = hs.call h error within run.world in
      (
        outcome.0,
        record {
          request_scope = within;
          world = outcome.1;
          calls = run.calls ++ record { handler = h; error = error; within = within } ∷ [];
        },
      )

  abbrev pub restore : RequestScope → Run H E W → Run H E W
  restore snapshot run = record { request_scope = snapshot; world = run.world; calls = run.calls }

  abbrev pub continue_with : (Option E → Run H E W → Run H E W) → Ending E → Run H E W → Run H E W
  continue_with next returns run = run
  continue_with next (calls_next error) run = next error run
  continue_with next (throws error) run = next (some error) run

  unfoldable pub invoke_handler :
      H
      → DispatchState
      → Params
      → Text
      → (Option E → Run H E W → Run H E W)
      → Option E
      → Run H E W
      → Run H E W
  invoke_handler h state params route_path next error run =
      let within : RequestScope = record {
        base_url = state.base_url;
        params = params;
        route_path = route_path;
      } in
      let called = after_call h error within run in
      continue_with next called.0 (restore run.request_scope called.1)

  -- The loop over the handlers of a route of the tree.
  abbrev pub after_direct :
      (others : Run H E W → Run H E W) (done : Option E → Run H E W → Run H E W)
      → Ending E
      → Run H E W
      → Run H E W
  after_direct others done returns run = run
  after_direct others done (throws error) run = done (some error) run
  after_direct others done (calls_next (some error)) run = done (some error) run
  after_direct others done (calls_next none) run = others run

  unfoldable pub direct_handlers :
      List H → RequestScope → (Option E → Run H E W → Run H E W) → Run H E W → Run H E W
  direct_handlers [] within done run = done none run
  direct_handlers (h ∷ others) within done run =
      let called = after_call h none within run in
      after_direct (direct_handlers others within done) done called.0 called.1

  unfoldable pub dispatch_direct_route :
      DispatchState
      → ResolvedRouteTreeMatch H
      → (Option E → Run H E W → Run H E W)
      → Run H E W
      → Run H E W
  dispatch_direct_route state matched done run =
      let within : RequestScope = record {
        base_url = state.base_url;
        params = merge state.params matched.params;
        route_path = matched.path;
      } in
      direct_handlers matched.handlers within done (restore within run)

  unfoldable mutual
    pub dispatch :
        Router H
        → DispatchState
        → (Option E → Run H E W → Run H E W)
        → Option E
        → Run H E W
        → Run H E W
    dispatch (router ls tree enabled) state done (some error) run =
        dispatch_layers ls state done (some error) run
    dispatch (router ls tree enabled) state done none run =
        elim (resolve_tree_route hs.decode_component tree enabled state.method state.pathname) [
          | none ↦ dispatch_layers ls state done none run
          | some matched ↦ dispatch_direct_route state matched done run
        ]

    -- `dispatchLayer` from one of the layers on.
    pub dispatch_layers :
        Layers H
        → DispatchState
        → (Option E → Run H E W → Run H E W)
        → Option E
        → Run H E W
        → Run H E W
    dispatch_layers no_layer state done error run = done error run
    dispatch_layers (layer l ls) state done error run =
        dispatch_layer l state
          (λ later next_error later_run. dispatch_layers ls later done next_error later_run) error
          run

    -- One layer, with the layers after it.
    pub dispatch_layer :
        Layer H
        → DispatchState
        → (DispatchState → Option E → Run H E W → Run H E W)
        → Option E
        → Run H E W
        → Run H E W
    dispatch_layer (ws h matcher path) state rest error run = rest state error run
    dispatch_layer (scope test r) state rest error run =
        if test state.hostname
        then dispatch r state (rest state) error run
        else rest state error run
    dispatch_layer (static mount_path path service) state rest error run =
        if not (is_some error) && matches_static_mount state.pathname mount_path
        then invoke_handler service state state.params path (rest state) none run
        else rest state error run
    dispatch_layer (nested matcher path r) state rest error run =
        elim (match_path hs.decode_component matcher state.pathname) [
          | none ↦ rest state error run
          | some found ↦
              dispatch r (under found.matched_path found.params state) (rest state) error run
        ]
    dispatch_layer (route h matcher method path) state rest error run =
        elim (match_path hs.decode_component matcher state.pathname) [
          | none ↦ rest state error run
          | some found ↦
              let merged = merge state.params found.params in
              if not (is_some error) && is_method_match method state.method
              then invoke_handler h state merged path (rest (with_params merged state)) none run
              else rest state error run
        ]
    dispatch_layer (middleware h is_error_handler matcher path) state rest error run =
        elim (match_path hs.decode_component matcher state.pathname) [
          | none ↦ rest state error run
          | some found ↦
              let merged = merge state.params found.params in
              if takes_error is_error_handler error
              then invoke_handler h state merged path (rest (with_params merged state)) error run
              else rest state error run
        ]
