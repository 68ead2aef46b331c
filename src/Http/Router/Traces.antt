-- ===== src/Http/Router/Traces.antt =====
-- The calls that a router of src/internal/http/router.ts may make, in their order and with their errors.
use kenojs.Prelude.{◌≡◌, Bool, true, not, ◌&&◌, none, some, String, List, [], ◌∷◌, ◌++◌, is_some}
use kenojs.Prelude.Text.{Text}
use kenojs.Http.Matching.{PathMatcher}
use kenojs.Http.RouteTree.{RouteTree, ResolvedRouteTreeMatch}
use kenojs.Http.Router.{
  Layer, middleware, route, nested, scope, static, ws, Layers, no_layer, layer, Router, router,
  Called, resolve_tree_route,
}

-- Whether no router in it has its tree.
unfoldable mutual
  pub without_tree : {H : Type 0} → Router H → Bool
  without_tree (router ls tree enabled) = not enabled && all_without_tree ls

  pub all_without_tree : {H : Type 0} → Layers H → Bool
  all_without_tree no_layer = true
  all_without_tree (layer l ls) = layer_without_tree l && all_without_tree ls

  pub layer_without_tree : {H : Type 0} → Layer H → Bool
  layer_without_tree (nested matcher path r) = without_tree r
  layer_without_tree (scope test r) = without_tree r
  layer_without_tree (middleware h is_error_handler matcher path) = true
  layer_without_tree (route h matcher method path) = true
  layer_without_tree (static mount_path path service) = true
  layer_without_tree (ws h matcher path) = true

-- The first handlers of a list, one after the other, each without an error.
pub data FollowsHandlers {H E : Type 0} : List H → List (Called H E) → Type 0 where
  stopped : {hs : List H} → FollowsHandlers hs []
  called :
      {h : H} {hs : List H} {c : Called H E} {cs : List (Called H E)}
      → c.handler ≡ h
      → c.error ≡ none
      → FollowsHandlers hs cs
      → FollowsHandlers (h ∷ hs) (c ∷ cs)

-- The calls that a router, its layers and a layer may make.
mutual
  pub data Follows {H E : Type 0} : Router H → List (Called H E) → Type 0 where
    directly :
        {ls : Layers H} {tree : RouteTree H} {cs : List (Called H E)}
        (decode_component : Text → Text) (method : String) (pathname : Text)
        (matched : ResolvedRouteTreeMatch H)
        → resolve_tree_route decode_component tree true method pathname ≡ some matched
        → FollowsHandlers matched.handlers cs
        → Follows (router ls tree true) cs
    in_layers :
        {ls : Layers H} {tree : RouteTree H} {enabled : Bool} {cs : List (Called H E)}
        → FollowsLayers ls cs
        → Follows (router ls tree enabled) cs

  pub data FollowsLayers {H E : Type 0} : Layers H → List (Called H E) → Type 0 where
    ended : {ls : Layers H} → FollowsLayers ls []
    in_turn :
        {l : Layer H} {ls : Layers H} {cs ds : List (Called H E)}
        → FollowsLayer l cs
        → FollowsLayers ls ds
        → FollowsLayers (layer l ls) (cs ++ ds)

  pub data FollowsLayer {H E : Type 0} : Layer H → List (Called H E) → Type 0 where
    skipped : {l : Layer H} → FollowsLayer l []
    by_middleware :
        {h : H} {is_error_handler : Bool} {matcher : PathMatcher} {path : Text} (c : Called H E)
        → c.handler ≡ h
        → is_some c.error ≡ is_error_handler
        → FollowsLayer (middleware h is_error_handler matcher path) (c ∷ [])
    by_route :
        {h : H} {matcher : PathMatcher} {method : String} {path : Text} (c : Called H E)
        → c.handler ≡ h
        → c.error ≡ none
        → FollowsLayer (route h matcher method path) (c ∷ [])
    by_static :
        {h : H} {mount_path path : Text} (c : Called H E)
        → c.handler ≡ h
        → c.error ≡ none
        → FollowsLayer (static mount_path path h) (c ∷ [])
    in_nested :
        {matcher : PathMatcher} {path : Text} {r : Router H} {cs : List (Called H E)}
        → Follows r cs
        → FollowsLayer (nested matcher path r) cs
    in_scope :
        {test : Text → Bool} {r : Router H} {cs : List (Called H E)}
        → Follows r cs
        → FollowsLayer (scope test r) cs
