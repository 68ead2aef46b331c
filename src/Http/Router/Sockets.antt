-- ===== src/Http/Router/Sockets.antt =====
-- The WebSocket routes of src/internal/http/router.ts.
use kenojs.Prelude.{◌≡◌, refl, false, none, if_rule, Option_rule, arith}
use kenojs.Prelude.Text.{Text}
use kenojs.Http.Paths.{consume_path, join_paths}
use kenojs.Http.Matching.{match_path}
use kenojs.Http.Router.{
  Params, merge, Layer, middleware, route, nested, scope, static, ws, Layers, no_layer, layer,
  Router, router, has_web_socket_routes, some_web_socket, is_web_socket, resolve_web_socket_route,
  resolve_in_layers, resolve_in_layer,
}

module _ {H : Type 0} (decode_component : Text → Text) (hostname : Text) where
  mutual
    unfolding resolve_web_socket_route resolve_in_layers resolve_in_layer has_web_socket_routes
        some_web_socket is_web_socket

    router_without :
        (r : Router H) (pathname base_url : Text) (params : Params)
        → has_web_socket_routes r ≡ false
        → resolve_web_socket_route decode_component hostname r pathname base_url params ≡ none
    router_without (router ls tree enabled) pathname base_url params h =
        layers_without ls pathname base_url params h

    layers_without :
        (ls : Layers H) (pathname base_url : Text) (params : Params)
        → some_web_socket ls ≡ false
        → resolve_in_layers decode_component hostname ls pathname base_url params ≡ none
    layers_without no_layer pathname base_url params h = refl
    layers_without (layer l ls) pathname base_url params h =
        rw (layer_without l pathname base_url params (ground arith))
          (layers_without ls pathname base_url params (ground arith))

    layer_without :
        (l : Layer H) (pathname base_url : Text) (params : Params)
        → is_web_socket l ≡ false
        → resolve_in_layer decode_component hostname l pathname base_url params ≡ none
    layer_without (ws h matcher path) pathname base_url params e = cc
    layer_without (nested matcher path r) pathname base_url params e =
        Option_rule (λ o. o ≡ none) (match_path decode_component matcher pathname) (λ f. refl)
          (λ found f.
            router_without r (consume_path pathname found.matched_path)
              (join_paths base_url found.matched_path) (merge params found.params) e)
    layer_without (scope test r) pathname base_url params e =
        if_rule (λ o. o ≡ none) (test hostname) (λ f. router_without r pathname base_url params e)
          (λ f. refl)
    layer_without (middleware h is_error_handler matcher path) pathname base_url params e = refl
    layer_without (route h matcher method path) pathname base_url params e = refl
    layer_without (static mount_path path service) pathname base_url params e = refl

  -- A router for which `hasWebSocketRoutes` is false resolves no WebSocket route, at any path and host.
  pub resolve_web_socket_route_without :
      (r : Router H) (pathname base_url : Text) (params : Params)
      → has_web_socket_routes r ≡ false
      → resolve_web_socket_route decode_component hostname r pathname base_url params ≡ none
  resolve_web_socket_route_without = router_without
