-- ===== src/Http/Router/Worlds.antt =====
-- What the dispatch of src/internal/http/router.ts keeps of the world of its handlers.
use kenojs.Prelude.{
  ◌≡◌, refl, not, ◌&&◌, Option, none, some, List, [], ◌∷◌, is_some, if_rule, Option_rule,
}
use kenojs.Prelude.Text.{Text}
use kenojs.Http.Matching.{match_path}
use kenojs.Http.Static.{matches_static_mount}
use kenojs.Http.Router.{
  Params, merge, Layer, middleware, route, nested, scope, static, ws, Layers, no_layer, layer,
  Router, router, RequestScope, DispatchState, Ending, returns, calls_next, throws, Run, Handlers,
  is_method_match, resolve_tree_route,
}
use kenojs.Http.Router.Dispatching.{
  with_params, under, takes_error, after_call, restore, continue_with, invoke_handler, after_direct,
  direct_handlers, dispatch_direct_route, dispatch, dispatch_layers, dispatch_layer,
}

-- Let the handlers keep a property of the world, and let a result be good if a handler that returned left
-- it: what then follows a dispatch is good if all that may follow is.
module _ {H E W : Type 0} (hs : Handlers H E W) (IsKept : W → Type 0) (IsGood : Run H E W → Type 0)
    (keeps : (h : H) (error : Option E) (within : RequestScope) (world : W)
      → IsKept world
      → IsKept (hs.call h error within world).1)
    (ended : (h : H) (error : Option E) (within : RequestScope) (world : W) (run : Run H E W)
      → IsKept world
      → (hs.call h error within world).0 ≡ returns
      → run.world ≡ (hs.call h error within world).1
      → IsGood run) where
  abbrev pub Follows : (Option E → Run H E W → Run H E W) → Type 0
  Follows next = (error : Option E) (run : Run H E W) → IsKept run.world → IsGood (next error run)

  invoke_handler-IsGood :
      (h : H) (state : DispatchState) (params : Params) (route_path : Text)
      (next : Option E → Run H E W → Run H E W) (error : Option E) (run : Run H E W)
      → Follows next
      → IsKept run.world
      → IsGood (invoke_handler hs h state params route_path next error run)
  unfolding invoke_handler
  invoke_handler-IsGood h state params route_path next error run f k =
      go (hs.call h error within run.world).0 refl
    where
      within : RequestScope
      within = record { base_url = state.base_url; params = params; route_path = route_path }

      later : Run H E W
      later = restore hs run.request_scope (after_call hs h error within run).1

      go :
          (ending : Ending E)
          → (hs.call h error within run.world).0 ≡ ending
          → IsGood (continue_with hs next ending later)
      go returns e = ended h error within run.world later k e refl
      go (calls_next error') e = f error' later (keeps h error within run.world k)
      go (throws error') e = f (some error') later (keeps h error within run.world k)

  direct_handlers-IsGood :
      (handlers : List H) (within : RequestScope) (done : Option E → Run H E W → Run H E W)
      (run : Run H E W)
      → Follows done
      → IsKept run.world
      → IsGood (direct_handlers hs handlers within done run)
  unfolding direct_handlers
  direct_handlers-IsGood [] within done run f k = f none run k
  direct_handlers-IsGood (h ∷ others) within done run f k =
      go (hs.call h none within run.world).0 refl
        (λ r. direct_handlers-IsGood others within done r f)
    where
      later : Run H E W
      later = (after_call hs h none within run).1

      kept : IsKept later.world
      kept = keeps h none within run.world k

      go :
          (ending : Ending E)
          → (hs.call h none within run.world).0 ≡ ending
          → ((r : Run H E W) → IsKept r.world → IsGood (direct_handlers hs others within done r))
          → IsGood (after_direct hs (direct_handlers hs others within done) done ending later)
      go returns e again = ended h none within run.world later k e refl
      go (throws error) e again = f (some error) later kept
      go (calls_next (some error)) e again = f (some error) later kept
      go (calls_next none) e again = again later kept

  mutual
    unfolding dispatch dispatch_layers dispatch_layer dispatch_direct_route

    pub dispatch-IsGood :
        (r : Router H) (state : DispatchState) (done : Option E → Run H E W → Run H E W)
        (error : Option E) (run : Run H E W)
        → Follows done
        → IsKept run.world
        → IsGood (dispatch hs r state done error run)
    dispatch-IsGood (router ls tree enabled) state done (some error) run f k =
        layers-IsGood ls state done (some error) run f k
    dispatch-IsGood (router ls tree enabled) state done none run f k =
        Option_rule IsGood
          (resolve_tree_route hs.decode_component tree enabled state.method state.pathname)
          (λ e. layers-IsGood ls state done none run f k)
          (λ matched e. direct_handlers-IsGood matched.handlers _ done _ f k)

    layers-IsGood :
        (ls : Layers H) (state : DispatchState) (done : Option E → Run H E W → Run H E W)
        (error : Option E) (run : Run H E W)
        → Follows done
        → IsKept run.world
        → IsGood (dispatch_layers hs ls state done error run)
    layers-IsGood no_layer state done error run f k = f error run k
    layers-IsGood (layer l ls) state done error run f k =
        layer-IsGood l state
          (λ later next_error later_run. dispatch_layers hs ls later done next_error later_run)
          error run
          (λ later next_error later_run. layers-IsGood ls later done next_error later_run f) k

    layer-IsGood :
        (l : Layer H) (state : DispatchState)
        (rest : DispatchState → Option E → Run H E W → Run H E W) (error : Option E)
        (run : Run H E W)
        → ((later : DispatchState) → Follows (rest later))
        → IsKept run.world
        → IsGood (dispatch_layer hs l state rest error run)
    layer-IsGood (ws h matcher path) state rest error run f k = f state error run k
    layer-IsGood (scope test r) state rest error run f k =
        if_rule IsGood (test state.hostname)
          (λ e. dispatch-IsGood r state (rest state) error run (f state) k)
          (λ e. f state error run k)
    layer-IsGood (static mount_path path service) state rest error run f k =
        if_rule IsGood (not (is_some error) && matches_static_mount state.pathname mount_path)
          (λ e.
            invoke_handler-IsGood service state state.params path (rest state) none run (f state) k)
          (λ e. f state error run k)
    layer-IsGood (nested matcher path r) state rest error run f k =
        Option_rule IsGood (match_path hs.decode_component matcher state.pathname)
          (λ e. f state error run k)
          (λ found e.
            dispatch-IsGood r (under found.matched_path found.params state) (rest state) error run
              (f state) k)
    layer-IsGood (route h matcher method path) state rest error run f k =
        Option_rule IsGood (match_path hs.decode_component matcher state.pathname)
          (λ e. f state error run k)
          (λ found e.
            let merged = merge state.params found.params in
            if_rule IsGood (not (is_some error) && is_method_match method state.method)
              (λ g.
                invoke_handler-IsGood h state merged path (rest (with_params merged state)) none run
                  (f (with_params merged state)) k)
              (λ g. f state error run k))
    layer-IsGood (middleware h is_error_handler matcher path) state rest error run f k =
        Option_rule IsGood (match_path hs.decode_component matcher state.pathname)
          (λ e. f state error run k)
          (λ found e.
            let merged = merge state.params found.params in
            if_rule IsGood (takes_error is_error_handler error)
              (λ g.
                invoke_handler-IsGood h state merged path (rest (with_params merged state)) error
                  run (f (with_params merged state)) k)
              (λ g. f state error run k))
