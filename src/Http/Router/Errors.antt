-- ===== src/Http/Router/Errors.antt =====
-- Which handlers of src/internal/http/router.ts are called with an error.
use kenojs.Prelude.{
  ◌≡◌, refl, Bool, false, ◌||◌, Option, none, some, List, [], ◌∷◌, ◌++◌, inl, inr, is_some, arith,
}
use kenojs.Http.Router.{
  Layer, middleware, route, nested, scope, static, ws, Layers, no_layer, layer, Router, router,
  DispatchState, Called, Run, Handlers,
}
use kenojs.Http.Router.Dispatching.{dispatch}
use kenojs.Http.Router.Traces.{
  FollowsHandlers, stopped, called, Follows, directly, in_layers, FollowsLayers, ended, in_turn,
  FollowsLayer, skipped, by_middleware, by_route, by_static, in_nested, in_scope,
}
use kenojs.Http.Router.Ordering.{dispatch_lem}

unfoldable mutual
  pub has_error_handlers : {H : Type 0} → Router H → Bool
  has_error_handlers (router ls tree enabled) = some_error_handler ls

  pub some_error_handler : {H : Type 0} → Layers H → Bool
  some_error_handler no_layer = false
  some_error_handler (layer l ls) = is_error_handling l || some_error_handler ls

  pub is_error_handling : {H : Type 0} → Layer H → Bool
  is_error_handling (middleware h is_error_handler matcher path) = is_error_handler
  is_error_handling (nested matcher path r) = has_error_handlers r
  is_error_handling (scope test r) = has_error_handlers r
  is_error_handling (route h matcher method path) = false
  is_error_handling (static mount_path path service) = false
  is_error_handling (ws h matcher path) = false

-- No call of the list is with an error.
abbrev pub NoErrors : {H E : Type 0} → List (Called H E) → Type 0
NoErrors [] = Unit
NoErrors (c ∷ cs) = (c.error ≡ none) × NoErrors cs

without_error : {E : Type 0} (error : Option E) → is_some error ≡ false → error ≡ none
without_error none h = refl
without_error (some e) h = cc

module _ {H E : Type 0} where
  NoErrors-append : (cs ds : List (Called H E)) → NoErrors cs → NoErrors ds → NoErrors (cs ++ ds)
  NoErrors-append [] ds n m = m
  NoErrors-append (c ∷ cs) ds (e, n) m = (e, NoErrors-append cs ds n m)

  FollowsHandlers-NoErrors :
      {hs : List H} {cs : List (Called H E)} → FollowsHandlers hs cs → NoErrors cs
  FollowsHandlers-NoErrors stopped = tt
  FollowsHandlers-NoErrors (called e n f) = (n, FollowsHandlers-NoErrors f)

  mutual
    unfolding has_error_handlers some_error_handler is_error_handling

    Follows-NoErrors :
        {r : Router H} {cs : List (Called H E)}
        → Follows r cs
        → has_error_handlers r ≡ false
        → NoErrors cs
    Follows-NoErrors (directly d method pathname matched e f) h = FollowsHandlers-NoErrors f
    Follows-NoErrors (in_layers f) h = FollowsLayers-NoErrors f h

    FollowsLayers-NoErrors :
        {ls : Layers H} {cs : List (Called H E)}
        → FollowsLayers ls cs
        → some_error_handler ls ≡ false
        → NoErrors cs
    FollowsLayers-NoErrors ended h = tt
    FollowsLayers-NoErrors (in_turn {cs = cs} {ds} f g) h =
        NoErrors-append cs ds (FollowsLayer-NoErrors f (ground arith))
          (FollowsLayers-NoErrors g (ground arith))

    FollowsLayer-NoErrors :
        {l : Layer H} {cs : List (Called H E)}
        → FollowsLayer l cs
        → is_error_handling l ≡ false
        → NoErrors cs
    FollowsLayer-NoErrors skipped h = tt
    FollowsLayer-NoErrors (by_middleware c e f) h = (without_error c.error (ground arith), tt)
    FollowsLayer-NoErrors (by_route c e f) h = (f, tt)
    FollowsLayer-NoErrors (by_static c e f) h = (f, tt)
    FollowsLayer-NoErrors (in_nested f) h = Follows-NoErrors f h
    FollowsLayer-NoErrors (in_scope f) h = Follows-NoErrors f h

  -- If neither the router nor a router in it has an error handler, a dispatch calls no handler with an
  -- error, whatever the handlers throw or pass to next.
  pub dispatch-NoErrors :
      {W : Type 0} (hs : Handlers H E W) (r : Router H) (state : DispatchState) (error : Option E)
      (run : Run H E W)
      → has_error_handlers r ≡ false
      → NoErrors run.calls
      → NoErrors (dispatch hs r state (λ e later. later) error run).calls
  dispatch-NoErrors hs r state error run h n =
      let (added, later, calls, follows, ends) =
        dispatch_lem hs (λ e later. later) r state error run in
      let kept : NoErrors later.calls =
        rw calls (NoErrors-append run.calls added n (Follows-NoErrors follows h)) in
      elim ends [ inl e ↦ rw e kept | inr (passed, e) ↦ rw e kept ]
