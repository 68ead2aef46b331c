-- ===== src/Http/Tests.antt =====
-- Runs of the route tree, and the theorems about it at concrete inputs.
use kenojs.Prelude.{ℕ, ◌≡◌, refl, true, some, List, [], ◌∷◌, is_some, String_key}
use kenojs.Prelude.Maps.{get, set}
use kenojs.Prelude.Text.{Text, text_key}
use kenojs.Http.Paths.{collapse, normalize_path, normalize_incoming_path, split_slash, get_segments}
use kenojs.Http.RouteTree.{
  RouteTree, create_tree_node, clear, find_child, set_child, add_entry, add_segments, add,
  resolve_node_route, resolve_exact_route, resolve_node, resolve, is_parameter, is_wildcard,
}
use kenojs.Http.RouteTree.Exact.{resolve-add_exact}
use kenojs.Http.RouteTree.Adding.{matches, serves}
use kenojs.Http.RouteTree.Resolving.{Route, add_routes, some_route, tree_resolves}

tree : Unit {0}
unfolding collapse normalize_path normalize_incoming_path split_slash get_segments clear find_child
    set_child add_entry add_segments add resolve_node_route resolve_exact_route resolve_node resolve
    is_parameter is_wildcard matches serves add_routes some_route get set
tree = tt

-- "/a/:i", "/a/:n/b" and "/a/7/b".
abbrev by_id : Text
by_id = 47 ∷ 97 ∷ 47 ∷ 58 ∷ 105 ∷ []

abbrev by_name : Text
by_name = 47 ∷ 97 ∷ 47 ∷ 58 ∷ 110 ∷ 47 ∷ 98 ∷ []

abbrev request : Text
request = 47 ∷ 97 ∷ 47 ∷ 55 ∷ 47 ∷ 98 ∷ []

abbrev empty_tree : RouteTree ℕ
empty_tree = record { exact_routes = []; root = create_tree_node }

-- The parameter of the second route gets the name that the first one gave it.
shared_key :
    resolve
      (λ s. s)
      (add "GET" by_name (2 ∷ []) (add "GET" by_id (1 ∷ []) empty_tree))
      "HEAD"
      request
    ≡ some (record { handlers = 2 ∷ []; params = (105 ∷ [], 55 ∷ []) ∷ []; path = by_name })
unfolding tree
shared_key = refl

abbrev routes : List (Route ℕ)
routes =
    record {
      method = "GET";
      path = by_id;
      handlers = 1 ∷ [];
      pattern = (97 ∷ []) ∷ (58 ∷ 105 ∷ []) ∷ [];
    }
    ∷ record {
      method = "ALL";
      path = by_name;
      handlers = 2 ∷ [];
      pattern = (97 ∷ []) ∷ (58 ∷ 110 ∷ []) ∷ (98 ∷ []) ∷ [];
    }
    ∷ []

tree_resolves_example :
    is_some (
      resolve_node
        (λ s. s)
        (add_routes (λ s. s) routes create_tree_node)
        ((97 ∷ []) ∷ (55 ∷ []) ∷ (98 ∷ []) ∷ [])
        "PUT"
        [])
    ≡ true
unfolding tree
tree_resolves_example = tree_resolves (λ s. s) routes ((97 ∷ []) ∷ (55 ∷ []) ∷ (98 ∷ []) ∷ []) "PUT"

-- The route "/a/7/" and the request "/a/7", beside a route with a parameter.
resolve-add_exact_example :
    resolve
      (λ s. s)
      (add "GET" (47 ∷ 97 ∷ 47 ∷ 55 ∷ 47 ∷ []) (4 ∷ []) (add "GET" by_id (1 ∷ []) empty_tree))
      "GET"
      (47 ∷ 97 ∷ 47 ∷ 55 ∷ [])
    ≡ some (record { handlers = 4 ∷ []; params = []; path = 47 ∷ 97 ∷ 47 ∷ 55 ∷ 47 ∷ [] })
unfolding tree
resolve-add_exact_example =
    resolve-add_exact (λ s. s) "GET" (47 ∷ 97 ∷ 47 ∷ 55 ∷ 47 ∷ []) (47 ∷ 97 ∷ 47 ∷ 55 ∷ []) (4 ∷ [])
      (add "GET" by_id (1 ∷ []) empty_tree) refl refl
