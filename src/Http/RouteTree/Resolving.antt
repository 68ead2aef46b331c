-- ===== src/Http/RouteTree/Resolving.antt =====
-- Which requests the tree of route-tree.ts resolves.
use kenojs.Prelude.{
  ◌≡◌, refl, ◌∙◌, ap, String, Bool, true, false, ◌&&◌, ◌||◌, Option, none, some, List, [], ◌∷◌,
  is_some, Bool_rule, Bool-cases, inl, inr, arith, String_key,
}
use kenojs.Prelude.Maps.{set}
use kenojs.Prelude.Text.{Text, same_text, text_key}
use kenojs.Http.RouteTree.{
  TreeRouteEntry, TreeNode, node, Children, Child, no_child, keyed, ResolvedRouteTreeMatch,
  is_parameter, is_wildcard, first_of, create_tree_node, find_child, set_child, node_of, add_entry,
  add_method, add_segments, resolve_node_route, matched, resolve_wildcard, resolve_node,
}
use kenojs.Http.RouteTree.Adding.{
  matches, serves, find_child-set_child, route-served, resolve-empty, down, add-unmatched,
}
use kenojs.Http.Paths.{join_slash}

-- A route of the tree: its method, its path, its handlers and the segments of its normalized path.
pub record Route (H : Type 0) : Type 0 where
  pub method : String
  pub path : Text
  pub handlers : List H
  pub pattern : List Text

is_some-right {ℓ} : {A : Type ℓ} (a b : Option A) → is_some b ≡ true → is_some (first_of a b) ≡ true
is_some-right none b e = e
is_some-right (some a) b e = refl

is_some-left {ℓ} : {A : Type ℓ} (a b : Option A) → is_some a ≡ true → is_some (first_of a b) ≡ true
is_some-left none b e = cc
is_some-left (some a) b e = refl

module _ {H : Type 0} (decode_component : Text → Text) where
  abbrev Found : TreeNode H → List Text → String → Type 0
  Found n segments j =
      (params : List (Text × Text))
      → is_some (resolve_node decode_component n segments j params) ≡ true

  is_some-matched :
      (params : List (Text × Text)) (r : Option (TreeRouteEntry H))
      → is_some (matched params r) ≡ is_some r
  is_some-matched params none = refl
  is_some-matched params (some route) = refl

  method-Found :
      (m j : String) (path : Text) (hs : List H) (n : TreeNode H)
      → serves m j ≡ true
      → Found (add_method m path hs n) [] j
  unfolding resolve_node
  method-Found m j path hs (node cs ms p w) e params =
      is_some-matched params _ ∙ route-served m j path hs ms e

  parameter-Found :
      (key s : Text) (segments : List Text) (j : String) (n : TreeNode H) (cs : Children H)
      (ms : List (String × TreeRouteEntry H)) (w : Child H)
      → Found n segments j
      → Found (node cs ms (keyed key n) w) (s ∷ segments) j
  unfolding resolve_node
  parameter-Found key s segments j n cs ms w h params =
      let value = set key (decode_component s) params in
      is_some-right (down decode_component (find_child s cs) segments j params)
        (first_of (resolve_node decode_component n segments j value)
          (resolve_wildcard decode_component w (s ∷ segments) j params))
        (is_some-left (resolve_node decode_component n segments j value)
          (resolve_wildcard decode_component w (s ∷ segments) j params) (h value))

  wildcard-Found :
      (m j : String) (path key s : Text) (hs : List H) (segments : List Text) (n : TreeNode H)
      (cs : Children H) (ms : List (String × TreeRouteEntry H)) (p : Child H)
      → serves m j ≡ true
      → Found (node cs ms p (keyed key (add_method m path hs n))) (s ∷ segments) j
  unfolding resolve_node
  wildcard-Found m j path key s hs segments (node cs' ms' p' w') cs ms p e params =
      let value = set key (decode_component (join_slash (s ∷ segments))) params in
      let found = matched value (resolve_node_route (add_entry m path hs ms') j) in
      let tried : Option (ResolvedRouteTreeMatch H) = elim p [
        | no_child ↦ none
        | keyed name k ↦
            resolve_node decode_component k segments j (set name (decode_component s) params)
      ] in
      is_some-right (down decode_component (find_child s cs) segments j params)
        (first_of tried found)
        (is_some-right tried found (is_some-matched value _ ∙ route-served m j path hs ms' e))

  static-Found :
      (name s : Text) (segments : List Text) (j : String) (n : TreeNode H) (cs : Children H)
      (ms : List (String × TreeRouteEntry H)) (p w : Child H)
      → same_text name s ≡ true
      → Found n segments j
      → Found (node (set_child name n cs) ms p w) (s ∷ segments) j
  unfolding resolve_node
  static-Found name s segments j n cs ms p w e h params =
      ground (arith, find_child-set_child name s n cs, h params)

  add-matched :
      (m j : String) (path : Text) (hs : List H) (pattern : List Text) (n : TreeNode H)
      (segments : List Text)
      → (matches pattern segments && serves m j) ≡ true
      → Found (add_segments m path hs pattern n) segments j
  unfolding add_segments matches
  add-matched m j path hs [] n [] e params = method-Found m j path hs n e params
  add-matched m j path hs [] n (s ∷ segments) e params = cc
  add-matched m j path hs ([] ∷ pattern) n segments e params =
      add-matched m j path hs pattern n segments e params
  add-matched m j path hs ((c ∷ name) ∷ pattern) (node cs ms p w) [] e params = cc
  add-matched m j path hs ((c ∷ name) ∷ pattern) (node cs ms p w) (s ∷ segments) e params =
      let Good = λ (n : TreeNode H).
        is_some (resolve_node decode_component n (s ∷ segments) j params) ≡ true in
      Bool_rule Good (is_parameter (c ∷ name))
        (λ f.
          parameter-Found _ s segments j _ cs ms w
            (add-matched m j path hs pattern (node_of p) segments (ground arith)) params)
        (λ f.
          Bool_rule Good (is_wildcard (c ∷ name))
            (λ g. wildcard-Found m j path _ s hs segments (node_of w) cs ms p (ground arith) params)
            (λ g.
              static-Found (c ∷ name) s segments j _ cs ms p w (ground arith)
                (add-matched m j path hs pattern _ segments (ground arith)) params))

  -- With one more route the tree resolves the requests that the route matches and serves, and those
  -- that it resolved before.
  add-resolves :
      (m j : String) (path : Text) (hs : List H) (pattern : List Text) (n : TreeNode H)
      (segments : List Text) (params : List (Text × Text))
      → is_some (resolve_node decode_component (add_segments m path hs pattern n) segments j params)
        ≡ ((matches pattern segments && serves m j)
            || is_some (resolve_node decode_component n segments j params))
  add-resolves m j path hs pattern n segments params =
      elim (Bool-cases (matches pattern segments && serves m j)) [
        | inl e ↦ rw (e, add-matched m j path hs pattern n segments e params)
        | inr e ↦
            rw (
              e,
              ap is_some (add-unmatched decode_component m j path hs pattern n segments e params),
            )
      ]

  unfoldable pub add_routes : List (Route H) → TreeNode H → TreeNode H
  add_routes [] n = n
  add_routes (r ∷ rs) n = add_routes rs (add_segments r.method r.path r.handlers r.pattern n)

  unfoldable pub some_route : List (Route H) → List Text → String → Bool
  some_route [] segments j = false
  some_route (r ∷ rs) segments j =
      (matches r.pattern segments && serves r.method j) || some_route rs segments j

  added-resolves :
      (rs : List (Route H)) (n : TreeNode H) (segments : List Text) (j : String)
      (params : List (Text × Text))
      → is_some (resolve_node decode_component (add_routes rs n) segments j params)
        ≡ (some_route rs segments j || is_some (resolve_node decode_component n segments j params))
  unfolding add_routes some_route
  added-resolves [] n segments j params = refl
  added-resolves (r ∷ rs) n segments j params = ground (
    arith,
    added-resolves rs (add_segments r.method r.path r.handlers r.pattern n) segments j params,
    add-resolves r.method j r.path r.handlers r.pattern n segments params,
  )

  -- The tree that was made of any routes resolves just the requests that one of the routes matches
  -- and serves.
  pub tree_resolves :
      (rs : List (Route H)) (segments : List Text) (j : String)
      → is_some (resolve_node decode_component (add_routes rs create_tree_node) segments j [])
        ≡ some_route rs segments j
  tree_resolves rs segments j = ground (
    arith,
    added-resolves rs create_tree_node segments j [],
    ap is_some (resolve-empty {H = H} decode_component segments j []),
  )
