-- ===== src/Http/Router/Ordering.antt =====
-- In which order src/internal/http/router.ts calls the handlers of a router, and with which errors.
use kenojs.Prelude.{
  ◌≡◌, refl, ◌∙◌, ◌⊎◌, inl, inr, Bool, true, false, not, ◌&&◌, Option, none, some, List, ◌++◌,
  is_some, if_rule, Option_rule, arith,
}
use kenojs.Http.Matching.{match_path}
use kenojs.Http.RouteTree.{RouteTree}
use kenojs.Http.Router.{
  merge, Layer, middleware, route, nested, scope, static, ws, Layers, no_layer, layer, Router,
  router, DispatchState, Called, Run, Handlers, is_method_match, resolve_tree_route,
}
use kenojs.Http.Router.Dispatching.{
  with_params, takes_error, under, dispatch, dispatch_layers, dispatch_layer,
}
use kenojs.Http.Router.Traces.{
  without_tree, all_without_tree, layer_without_tree, Follows, directly, in_layers, FollowsLayers,
  ended, in_turn, FollowsLayer, skipped, in_nested, in_scope,
}
use kenojs.Http.Static.{matches_static_mount}
use kenojs.Http.Router.Outcomes.{
  Outcome, final, passed, pass_on, widen, after_outcome, invoke_handler-Outcome,
  dispatch_direct_route-Outcome, Single-route, Single-static, Single-middleware,
}

module _ {H E W : Type 0} (hs : Handlers H E W) where
  resolved_or_layers :
      (ls : Layers H) (tree : RouteTree H) (enabled : Bool)
      (next : DispatchState → Option E → Run H E W → Run H E W) (s : DispatchState)
      (state : DispatchState) (run : Run H E W)
      → Outcome
          (FollowsLayers ls)
          (all_without_tree ls)
          run
          next
          (dispatch_layers hs ls state (next s) none run)
      → Outcome
          (Follows (router ls tree enabled))
          (without_tree (router ls tree enabled))
          run
          next
          (dispatch hs (router ls tree enabled) state (next s) none run)
  unfolding dispatch resolve_tree_route without_tree
  resolved_or_layers ls tree false next s state run o = widen (λ cs f. in_layers f) (λ k. k) o
  resolved_or_layers ls tree true next s state run o =
      Option_rule (Outcome (Follows (router ls tree true)) false run next)
        (resolve_tree_route hs.decode_component tree true state.method state.pathname)
        (λ e. widen (λ cs f. in_layers f) (λ k. cc) o)
        (λ matched e.
          widen (λ cs f. directly hs.decode_component state.method state.pathname matched e f)
            (λ k. cc) (dispatch_direct_route-Outcome hs next state matched s run))

-- What a router, its layers and a layer do to a request.
module _ {H E W : Type 0} (hs : Handlers H E W) where
  mutual
    unfolding dispatch dispatch_layers dispatch_layer without_tree all_without_tree
        layer_without_tree

    dispatch-Outcome :
        (r : Router H) (next : DispatchState → Option E → Run H E W → Run H E W) (s : DispatchState)
        (state : DispatchState) (error : Option E) (run : Run H E W)
        → Outcome (Follows r) (without_tree r) run next (dispatch hs r state (next s) error run)
    dispatch-Outcome (router ls tree enabled) next s state (some e) run =
        widen (λ cs f. in_layers f) (λ k. ground arith)
          (dispatch_layers-Outcome ls next s state (some e) run)
    dispatch-Outcome (router ls tree enabled) next s state none run =
        resolved_or_layers hs ls tree enabled next s state run
          (dispatch_layers-Outcome ls next s state none run)

    dispatch_layers-Outcome :
        (ls : Layers H) (next : DispatchState → Option E → Run H E W → Run H E W)
        (s : DispatchState) (state : DispatchState) (error : Option E) (run : Run H E W)
        → Outcome
            (FollowsLayers ls)
            (all_without_tree ls)
            run
            next
            (dispatch_layers hs ls state (next s) error run)
    dispatch_layers-Outcome no_layer next s state error run = pass_on s error run ended
    dispatch_layers-Outcome (layer l ls) next s state error run =
        after_outcome (λ cs ds f g. in_turn f g) ended (λ k. (ground arith, ground arith))
          (dispatch_layer-Outcome l (λ later e r. dispatch_layers hs ls later (next s) e r) state
            error run)
          (λ later e middle. dispatch_layers-Outcome ls next s later e middle)

    dispatch_layer-Outcome :
        (l : Layer H) (rest : DispatchState → Option E → Run H E W → Run H E W)
        (state : DispatchState) (error : Option E) (run : Run H E W)
        → Outcome
            (FollowsLayer l)
            (layer_without_tree l)
            run
            rest
            (dispatch_layer hs l state rest error run)
    dispatch_layer-Outcome (ws h matcher path) rest state error run =
        pass_on state error run skipped
    dispatch_layer-Outcome (scope test r) rest state error run =
        if_rule (Outcome (FollowsLayer (scope test r)) (without_tree r) run rest)
          (test state.hostname)
          (λ e. widen (λ cs f. in_scope f) (λ k. k) (dispatch-Outcome r rest state state error run))
          (λ e. pass_on state error run skipped)
    dispatch_layer-Outcome (static mount_path path service) rest state error run =
        if_rule (Outcome (FollowsLayer (static mount_path path service)) true run rest)
          (not (is_some error) && matches_static_mount state.pathname mount_path)
          (λ e.
            widen (λ cs f. Single-static f) (λ k. refl)
              (invoke_handler-Outcome hs rest service state state.params path state none run))
          (λ e. pass_on state error run skipped)
    dispatch_layer-Outcome (nested matcher path r) rest state error run =
        Option_rule (Outcome (FollowsLayer (nested matcher path r)) (without_tree r) run rest)
          (match_path hs.decode_component matcher state.pathname)
          (λ e. pass_on state error run skipped)
          (λ found e.
            widen (λ cs f. in_nested f) (λ k. k)
              (dispatch-Outcome r rest state (under found.matched_path found.params state) error
                run))
    dispatch_layer-Outcome (route h matcher method path) rest state error run =
        Option_rule (Outcome (FollowsLayer (route h matcher method path)) true run rest)
          (match_path hs.decode_component matcher state.pathname)
          (λ e. pass_on state error run skipped)
          (λ found e.
            let merged = merge state.params found.params in
            if_rule (Outcome (FollowsLayer (route h matcher method path)) true run rest)
              (not (is_some error) && is_method_match method state.method)
              (λ f.
                widen (λ cs g. Single-route g) (λ k. refl)
                  (invoke_handler-Outcome hs rest h state merged path (with_params merged state)
                    none run))
              (λ f. pass_on state error run skipped))
    dispatch_layer-Outcome (middleware h is_error_handler matcher path) rest state error run =
        Option_rule
          (Outcome (FollowsLayer (middleware h is_error_handler matcher path)) true run rest)
          (match_path hs.decode_component matcher state.pathname)
          (λ e. pass_on state error run skipped)
          (λ found e.
            let merged = merge state.params found.params in
            if_rule
              (Outcome (FollowsLayer (middleware h is_error_handler matcher path)) true run rest)
              (takes_error is_error_handler error)
              (λ f.
                widen (λ cs g. Single-middleware f g) (λ k. refl)
                  (invoke_handler-Outcome hs rest h state merged path (with_params merged state)
                    error run))
              (λ f. pass_on state error run skipped))

module _ {H E W : Type 0} (hs : Handlers H E W) (done : Option E → Run H E W → Run H E W) where
  -- What a dispatch does, from the run that it starts with: calls that the router may make, one after the
  -- other, and then a handler has ended the request or `done` is called, once.
  abbrev pub Dispatches : Router H → Run H E W → Run H E W → Type 0
  Dispatches r run result =
      (added : List (Called H E)) × (later : Run H E W) × (later.calls ≡ run.calls ++ added)
      × Follows r added
      × ((result ≡ later) ⊎ ((error : Option E) × (result ≡ done error later)))

  -- What a dispatch adds to the calls of a run, for handlers that end in one of the ways of `Ending`.
  pub dispatch_lem :
      (r : Router H) (state : DispatchState) (error : Option E) (run : Run H E W)
      → Dispatches r run (dispatch hs r state done error run)
  dispatch_lem r state error run = go (dispatch-Outcome hs r (λ s. done) state state error run)
    where
      go :
          {result : Run H E W}
          → Outcome (Follows r) (without_tree r) run (λ (s : DispatchState). done) result
          → Dispatches r run result
      go (final {later} g) = (g.added, later, g.calls_added, g.allowed, inl refl)
      go (passed s e later g) = (g.added, later, g.calls_added, g.allowed, inr (e, refl))

  -- If no router in it has its tree and `done` keeps the scope of the request, a dispatch leaves the
  -- scope as it was, whether the handlers return, call next or throw.
  pub dispatch_scope_kept :
      (r : Router H) (state : DispatchState) (error : Option E) (run : Run H E W)
      → without_tree r ≡ true
      → ((e : Option E) (later : Run H E W) → (done e later).request_scope ≡ later.request_scope)
      → (dispatch hs r state done error run).request_scope ≡ run.request_scope
  dispatch_scope_kept r state error run w d =
      go (dispatch-Outcome hs r (λ s. done) state state error run)
    where
      go :
          {result : Run H E W}
          → Outcome (Follows r) (without_tree r) run (λ (s : DispatchState). done) result
          → result.request_scope ≡ run.request_scope
      go (final g) = g.scope_kept w
      go (passed s e later g) = d e later ∙ g.scope_kept w
