-- ===== src/Http/Router/Registering.antt =====
-- The calls that register layers in a router of src/internal/http/router.ts, and what they keep true.
use kenojs.Prelude.{
  ◌≡◌, refl, Bool, true, false, Option, none, some, String, List, [], ◌∷◌, Option_rule,
}
use kenojs.Prelude.Text.{Text}
use kenojs.Http.Matching.{PathMatcher, compile_path}
use kenojs.Http.RouteTree
use kenojs.Http.RouteTree.{RouteTree}
use kenojs.Http.Router.{
  Layer, route, Layers, no_layer, layer, Router, router, UseEntry, use_router, use_static,
  use_handler, add_layer, append_layers, empty_tree, make_router, disable_route_tree, route_layers,
  add_route, use_entry, use_entries, use_all, add_web_socket, host,
}

-- One call that registers: a method with its handlers, `use`, `ws`, or `host`.
pub data Registration (H : Type 0) : Type 0 where
  handle : (method : String) (path : Text) → List H → Registration H
  use_with : Option Text → List (UseEntry H) → Registration H
  web_socket : (path : Text) → H → Registration H
  for_host : (Text → Bool) → Option Text → List (UseEntry H) → Registration H

unfoldable pub register : {H : Type 0} → Registration H → Router H → Option (Router H)
register (handle method path handlers) r = add_route method path handlers r
register (use_with path entries) r = use_all path entries r
register (web_socket path h) r = add_web_socket path h r
register (for_host test path entries) r = host test path entries r

unfoldable pub register_all : {H : Type 0} → List (Registration H) → Router H → Option (Router H)
register_all [] r = some r
register_all (c ∷ cs) r = elim (register c r) [ none ↦ none | some r' ↦ register_all cs r' ]

abbrev IsRoute : {H : Type 0} → Layer H → Type 0
IsRoute (route h matcher method path) = Unit
IsRoute _ = ⊥

abbrev AllRoutes : {H : Type 0} → Layers H → Type 0
AllRoutes no_layer = Unit
AllRoutes (layer l ls) = IsRoute l × AllRoutes ls

-- A router with its tree has routes only, and one without it has an empty tree.
abbrev pub IsConsistent : {H : Type 0} → Router H → Type 0
IsConsistent (router ls tree true) = AllRoutes ls
IsConsistent (router ls tree false) = tree ≡ empty_tree

abbrev pub ConsistentResult : {H : Type 0} → Option (Router H) → Type 0
ConsistentResult none = Unit
ConsistentResult (some r) = IsConsistent r

module _ {H : Type 0} where
  abbrev IsWithoutTree : Router H → Type 0
  IsWithoutTree (router ls tree enabled) = (enabled ≡ false) × (tree ≡ empty_tree)

  abbrev WithoutTreeResult : Option (Router H) → Type 0
  WithoutTreeResult none = Unit
  WithoutTreeResult (some r) = IsWithoutTree r

  append_layers-AllRoutes :
      (ls others : Layers H) → AllRoutes ls → AllRoutes others → AllRoutes (append_layers ls others)
  append_layers-AllRoutes no_layer others a b = b
  append_layers-AllRoutes (layer l ls) others (i, a) b = (i, append_layers-AllRoutes ls others a b)

  route_layers-AllRoutes :
      (handlers : List H) (matcher : PathMatcher) (method : String) (path : Text)
      → AllRoutes (route_layers handlers matcher method path)
  route_layers-AllRoutes [] matcher method path = tt
  route_layers-AllRoutes (h ∷ hs) matcher method path =
      (tt, route_layers-AllRoutes hs matcher method path)

  disable_route_tree-IsWithoutTree :
      (r : Router H) → IsConsistent r → IsWithoutTree (disable_route_tree r)
  unfolding disable_route_tree RouteTree.clear
  disable_route_tree-IsWithoutTree (router ls tree true) c = (refl, refl)
  disable_route_tree-IsWithoutTree (router ls tree false) c = (refl, c)

  add_layer-IsWithoutTree :
      (l : Layer H) (r : Router H) → IsWithoutTree r → IsWithoutTree (add_layer l r)
  add_layer-IsWithoutTree l (router ls tree enabled) w = w

  use_entry-IsWithoutTree :
      (path : Text) (e : UseEntry H) (r : Router H)
      → IsWithoutTree r
      → WithoutTreeResult (use_entry path e r)
  unfolding use_entry
  use_entry-IsWithoutTree path (use_static service) r w = add_layer-IsWithoutTree _ r w
  use_entry-IsWithoutTree path (use_router other) r w =
      Option_rule WithoutTreeResult (compile_path path false) (λ e. tt)
        (λ m e. add_layer-IsWithoutTree _ r w)
  use_entry-IsWithoutTree path (use_handler h is_error_handler) r w =
      Option_rule WithoutTreeResult (compile_path path false) (λ e. tt)
        (λ m e. add_layer-IsWithoutTree _ r w)

  WithoutTree-Consistent : (r : Router H) → IsWithoutTree r → IsConsistent r
  WithoutTree-Consistent (router ls tree true) (e, f) = cc
  WithoutTree-Consistent (router ls tree false) (e, f) = f

  use_entries-IsWithoutTree :
      (path : Text) (es : List (UseEntry H)) (r : Router H)
      → IsWithoutTree r
      → ConsistentResult (use_entries path es r)
  unfolding use_entries
  use_entries-IsWithoutTree path [] r w = WithoutTree-Consistent r w
  use_entries-IsWithoutTree path (e ∷ es) r w =
      go (use_entry path e r) (use_entry-IsWithoutTree path e r w)
        (λ r' w'. use_entries-IsWithoutTree path es r' w')
    where
      go :
          (o : Option (Router H))
          → WithoutTreeResult o
          → ((r' : Router H) → IsWithoutTree r' → ConsistentResult (use_entries path es r'))
          → ConsistentResult (elim o [ none ↦ none | some r' ↦ use_entries path es r' ])
      go none w f = tt
      go (some r') w f = f r' w

  use_all-IsConsistent :
      (path : Option Text) (es : List (UseEntry H)) (r : Router H)
      → IsConsistent r
      → ConsistentResult (use_all path es r)
  unfolding use_all
  use_all-IsConsistent path es r c =
      use_entries-IsWithoutTree _ es (disable_route_tree r) (disable_route_tree-IsWithoutTree r c)

  add_route-IsConsistent :
      (method : String) (path : Text) (handlers : List H) (r : Router H)
      → IsConsistent r
      → ConsistentResult (add_route method path handlers r)
  unfolding add_route
  add_route-IsConsistent method path handlers (router ls tree true) c =
      Option_rule ConsistentResult (compile_path path true) (λ e. tt)
        (λ m e. append_layers-AllRoutes ls _ c (route_layers-AllRoutes handlers m method path))
  add_route-IsConsistent method path handlers (router ls tree false) c =
      Option_rule ConsistentResult (compile_path path true) (λ e. tt) (λ m e. c)

  add_disabled-IsConsistent :
      (l : Layer H) (r : Router H)
      → IsConsistent r
      → IsConsistent (add_layer l (disable_route_tree r))
  add_disabled-IsConsistent l r c =
      WithoutTree-Consistent _ (add_layer-IsWithoutTree l _ (disable_route_tree-IsWithoutTree r c))

  add_web_socket-IsConsistent :
      (path : Text) (h : H) (r : Router H)
      → IsConsistent r
      → ConsistentResult (add_web_socket path h r)
  unfolding add_web_socket
  add_web_socket-IsConsistent path h r c =
      Option_rule ConsistentResult (compile_path path true) (λ e. tt)
        (λ m e. add_disabled-IsConsistent _ r c)

  host-IsConsistent :
      (test : Text → Bool) (path : Option Text) (es : List (UseEntry H)) (r : Router H)
      → IsConsistent r
      → ConsistentResult (host test path es r)
  unfolding host
  host-IsConsistent test path es r c =
      Option_rule ConsistentResult (use_all path es make_router) (λ e. tt)
        (λ m e. add_disabled-IsConsistent _ r c)

  pub register-IsConsistent :
      (c : Registration H) (r : Router H) → IsConsistent r → ConsistentResult (register c r)
  unfolding register
  register-IsConsistent (handle method path handlers) r i =
      add_route-IsConsistent method path handlers r i
  register-IsConsistent (use_with path entries) r i = use_all-IsConsistent path entries r i
  register-IsConsistent (web_socket path h) r i = add_web_socket-IsConsistent path h r i
  register-IsConsistent (for_host test path entries) r i = host-IsConsistent test path entries r i

  -- After any calls that register, made on a consistent router, a router that still has its tree has routes
  -- only, and one without it has an empty tree, or a call threw.
  pub register_all-IsConsistent :
      (cs : List (Registration H)) (r : Router H)
      → IsConsistent r
      → ConsistentResult (register_all cs r)
  unfolding register_all
  register_all-IsConsistent [] r i = i
  register_all-IsConsistent (c ∷ cs) r i =
      go (register c r) (register-IsConsistent c r i) (λ r' j. register_all-IsConsistent cs r' j)
    where
      go :
          (o : Option (Router H))
          → ConsistentResult o
          → ((r' : Router H) → IsConsistent r' → ConsistentResult (register_all cs r'))
          → ConsistentResult (elim o [ none ↦ none | some r' ↦ register_all cs r' ])
      go none i f = tt
      go (some r') i f = f r' i
