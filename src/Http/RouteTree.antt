-- ===== src/Http/RouteTree.antt =====
-- src/internal/http/route-tree.ts: routes by method and path, in a table of exact paths and a tree of
-- segments. `decodeComponent`, on the platform's decoder, is a parameter.
pub mod Adding
pub mod Resolving
pub mod Exact
use kenojs.Prelude.{
  ℕ, String, Key, Bool, true, false, not, ◌&&◌, ◌||◌, Option, none, some, List, [], ◌∷◌, ◌++◌, drop,
  ◌==◌, if◌then◌else◌, str_eq, String_key,
}
use kenojs.Prelude.Maps.{get, set}
use kenojs.Prelude.Text.{Text, same_text, text_key, includes}
use kenojs.Http.Paths.{
  starts_with, normalize_path, normalize_incoming_path, get_segments, join_slash,
}

pub record TreeRouteEntry (H : Type 0) : Type 0 where
  pub handlers : List H
  pub path : Text

mutual
  pub data TreeNode (H : Type 0) : Type 0 where
    node :
        (children : Children H) (methods : List (String × TreeRouteEntry H))
        (parameter_child wildcard_child : Child H)
        → TreeNode H

  pub data Children (H : Type 0) : Type 0 where
    no_children : Children H
    child : Text → TreeNode H → Children H → Children H

  -- A `parameterChild` or a `wildcardChild`.
  pub data Child (H : Type 0) : Type 0 where
    no_child : Child H
    keyed : (key : Text) → TreeNode H → Child H

pub record ResolvedRouteTreeMatch (H : Type 0) : Type 0 where
  pub handlers : List H
  pub params : List (Text × Text)
  pub path : Text

pub record RouteTree (H : Type 0) : Type 0 where
  pub exact_routes : List (String × List (Text × TreeRouteEntry H))
  pub root : TreeNode H

abbrev pub colon : ℕ
colon = 58

abbrev pub star : ℕ
star = 42

unfoldable pub is_parameter : Text → Bool
is_parameter segment = starts_with colon segment

unfoldable pub is_wildcard : Text → Bool
is_wildcard segment = starts_with star segment

-- "wildcard".
abbrev pub wildcard_name : Text
wildcard_name = 119 ∷ 105 ∷ 108 ∷ 100 ∷ 99 ∷ 97 ∷ 114 ∷ 100 ∷ []

abbrev pub first_of {ℓ} : {A : Type ℓ} → Option A → Option A → Option A
first_of none b = b
first_of (some a) b = some a

module _ {H K : Type 0} ⦃e : Key K⦄ where
  -- A new entry, or more handlers for the one that is there.
  unfoldable pub add_entry :
      K → Text → List H → List (K × TreeRouteEntry H) → List (K × TreeRouteEntry H)
  add_entry k path handlers entries = elim (get k entries) [
    | none ↦ set k (record { handlers = handlers; path = path }) entries
    | some existing ↦
        set k (record { handlers = existing.handlers ++ handlers; path = existing.path }) entries
  ]

module _ {H : Type 0} where
  abbrev pub create_tree_node : TreeNode H
  create_tree_node = node no_children [] no_child no_child

  unfoldable pub find_child : Text → Children H → Option (TreeNode H)
  find_child segment no_children = none
  find_child segment (child name n rest) =
      if same_text name segment then some n else find_child segment rest

  unfoldable pub set_child : Text → TreeNode H → Children H → Children H
  set_child segment n no_children = child segment n no_children
  set_child segment n (child name old rest) =
      if same_text name segment
      then child name n rest
      else child name old (set_child segment n rest)

  abbrev pub or_created : Option (TreeNode H) → TreeNode H
  or_created none = create_tree_node
  or_created (some n) = n

  -- A child that is missing gets the new key, one that is there keeps its own.
  abbrev pub key_of : Text → Child H → Text
  key_of key no_child = key
  key_of key (keyed old n) = old

  abbrev pub node_of : Child H → TreeNode H
  node_of no_child = create_tree_node
  node_of (keyed key n) = n

  abbrev pub add_method : String → Text → List H → TreeNode H → TreeNode H
  add_method method path handlers (node cs ms p w) = node cs (add_entry method path handlers ms) p w

  -- The loop of `add` over the segments, and what follows it.
  unfoldable pub add_segments : String → Text → List H → List Text → TreeNode H → TreeNode H
  add_segments method path handlers [] n = add_method method path handlers n
  add_segments method path handlers ([] ∷ segments) n = add_segments method path handlers segments n
  add_segments method path handlers ((c ∷ name) ∷ segments) (node cs ms p w) =
      elim (is_parameter (c ∷ name)) [
        | true ↦
            node cs ms
              (keyed (key_of name p) (add_segments method path handlers segments (node_of p))) w
        | false ↦ elim (is_wildcard (c ∷ name)) [
          | true ↦ node cs ms p (
              keyed (key_of (if same_text name [] then wildcard_name else name) w)
                (add_method method path handlers (node_of w)))
          | false ↦
              node
                (set_child (c ∷ name)
                  (add_segments method path handlers segments
                    (or_created (find_child (c ∷ name) cs)))
                  cs)
                ms p w
        ]
      ]

  abbrev pub or_bucket : Option (List (Text × TreeRouteEntry H)) → List (Text × TreeRouteEntry H)
  or_bucket none = []
  or_bucket (some bucket) = bucket

  unfoldable pub add : String → Text → List H → RouteTree H → RouteTree H
  add method path handlers t =
      let normalized = normalize_path path in
      let exact = not (includes colon normalized) && not (includes star normalized) in
      record {
        exact_routes =
            if exact
            then set method
                (add_entry normalized path handlers (or_bucket (get method t.exact_routes)))
                t.exact_routes
            else t.exact_routes;
        root = add_segments method path handlers (get_segments normalized) t.root;
      }

  unfoldable pub clear : RouteTree H → RouteTree H
  clear t = record { exact_routes = []; root = create_tree_node }

  unfoldable pub resolve_node_route :
      List (String × TreeRouteEntry H) → String → Option (TreeRouteEntry H)
  resolve_node_route methods method =
      first_of (first_of (get method methods) (get "ALL" methods))
        (if str_eq method "HEAD" then first_of (get "GET" methods) (get "ALL" methods) else none)

  abbrev pub lookup : Text → Option (List (Text × TreeRouteEntry H)) → Option (TreeRouteEntry H)
  lookup pathname none = none
  lookup pathname (some bucket) = get pathname bucket

  unfoldable pub resolve_exact_route :
      (direct_methods get_methods all_methods : Option (List (Text × TreeRouteEntry H)))
      → String
      → Text
      → Option (TreeRouteEntry H)
  resolve_exact_route direct_methods get_methods all_methods method pathname =
      first_of (first_of (lookup pathname direct_methods) (lookup pathname all_methods)) (
        if str_eq method "HEAD"
        then first_of (lookup pathname get_methods) (lookup pathname all_methods)
        else none)

  abbrev pub matched :
      List (Text × Text) → Option (TreeRouteEntry H) → Option (ResolvedRouteTreeMatch H)
  matched params none = none
  matched params (some route) =
      some (record { handlers = route.handlers; params = params; path = route.path })

module _ {H : Type 0} (decode_component : Text → Text) where
  abbrev pub resolve_wildcard :
      Child H → List Text → String → List (Text × Text) → Option (ResolvedRouteTreeMatch H)
  resolve_wildcard no_child segments method params = none
  resolve_wildcard (keyed key (node cs ms p w)) segments method params =
      matched (set key (decode_component (join_slash segments)) params)
        (resolve_node_route ms method)

  -- The segments from `index` on.
  unfoldable pub resolve_node :
      TreeNode H → List Text → String → List (Text × Text) → Option (ResolvedRouteTreeMatch H)
  resolve_node (node cs ms p w) [] method params = matched params (resolve_node_route ms method)
  resolve_node (node cs ms p w) (segment ∷ segments) method params =
      first_of
        (elim (find_child segment cs) [
          | none ↦ none
          | some n ↦ resolve_node n segments method params
        ])
        (first_of
          (elim p [
            | no_child ↦ none
            | keyed key n ↦
                resolve_node n segments method (set key (decode_component segment) params)
          ])
          (resolve_wildcard w (segment ∷ segments) method params))

  unfoldable pub resolve : RouteTree H → String → Text → Option (ResolvedRouteTreeMatch H)
  resolve t method pathname =
      let normalized = normalize_incoming_path pathname in
      first_of
        (matched [] (
          resolve_exact_route (get method t.exact_routes) (get "GET" t.exact_routes)
            (get "ALL" t.exact_routes) method normalized))
        (resolve_node t.root (get_segments normalized) method [])
