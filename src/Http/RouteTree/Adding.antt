-- ===== src/Http/RouteTree/Adding.antt =====
-- What adding a route to the tree of route-tree.ts does to the requests.
use kenojs.Prelude.{
  ◌≡◌, refl, ◌∙◌, ap, String, Bool, true, false, ◌&&◌, ◌||◌, Option, none, some, List, [], ◌∷◌,
  ◌++◌, is_some, if◌then◌else◌, if_rule, Option_rule, Bool_rule, Bool-cases, inl, inr, arith,
  str_eq, eq_iff, String_key,
}
use kenojs.Prelude.Maps.{get, set, get-set}
use kenojs.Prelude.Text.{Text, same_text, same_text_iff, text_key}
use kenojs.Http.RouteTree.{
  TreeRouteEntry, TreeNode, node, Children, no_children, child, Child, no_child, keyed,
  ResolvedRouteTreeMatch, is_parameter, is_wildcard, first_of, create_tree_node, find_child,
  set_child, or_created, key_of, node_of, add_entry, add_method, add_segments, resolve_node_route,
  matched, resolve_wildcard, resolve_node,
}

-- Whether the segments of a route match those of a request: a name itself, a parameter any one
-- segment, a wildcard all that are left, but at least one.
unfoldable pub matches : List Text → List Text → Bool
matches [] [] = true
matches [] (s ∷ segments) = false
matches ([] ∷ pattern) segments = matches pattern segments
matches ((c ∷ name) ∷ pattern) [] = false
matches ((c ∷ name) ∷ pattern) (s ∷ segments) = elim (is_parameter (c ∷ name)) [
  | true ↦ matches pattern segments
  | false ↦ elim (is_wildcard (c ∷ name)) [
    | true ↦ true
    | false ↦ same_text (c ∷ name) s && matches pattern segments
  ]
]

-- Whether a route of a method serves the requests of another.
unfoldable pub serves : String → String → Bool
serves route method =
    str_eq route method || str_eq route "ALL" || (str_eq method "HEAD" && str_eq route "GET")

module _ {H : Type 0} where
  pub find_child-set_child :
      (a b : Text) (n : TreeNode H) (cs : Children H)
      → find_child b (set_child a n cs) ≡ (if same_text a b then some n else find_child b cs)
  unfolding find_child set_child
  find_child-set_child a b n no_children = refl
  find_child-set_child a b n (child name old rest) = ground (
    arith,
    same_text_iff a b,
    same_text_iff name a,
    same_text_iff name b,
    find_child-set_child a b n rest,
  )

  get-add_entry :
      (k j : String) (path : Text) (hs : List H) (m : List (String × TreeRouteEntry H))
      → str_eq k j ≡ false
      → get j (add_entry k path hs m) ≡ get j m
  unfolding add_entry
  get-add_entry k j path hs m e =
      Option_rule (λ q. get j q ≡ get j m) (get k m)
        (λ f. ground (arith, get-set k j (record { handlers = hs; path = path }) m))
        (λ entry f.
          ground
            (arith, get-set k j (record { handlers = entry.handlers ++ hs; path = entry.path }) m))

  route-unserved :
      (k j : String) (path : Text) (hs : List H) (m : List (String × TreeRouteEntry H))
      → serves k j ≡ false
      → resolve_node_route (add_entry k path hs m) j ≡ resolve_node_route m j
  unfolding serves resolve_node_route
  route-unserved k j path hs m e = ground (
    arith,
    get-add_entry k j path hs m,
    get-add_entry k "ALL" path hs m,
    get-add_entry k "GET" path hs m,
  )

  get-added :
      (k : String) (path : Text) (hs : List H) (m : List (String × TreeRouteEntry H))
      → is_some (get k (add_entry k path hs m)) ≡ true
  unfolding add_entry
  get-added k path hs m =
      Option_rule (λ (q : List (String × TreeRouteEntry H)). is_some (get k q) ≡ true) (get k m)
        (λ f.
          ground
            (arith, String_key.same_iff k k, get-set k k (record { handlers = hs; path = path }) m))
        (λ entry f. ground (
          arith,
          String_key.same_iff k k,
          get-set k k (record { handlers = entry.handlers ++ hs; path = entry.path }) m,
        ))

  pub route-served :
      (k j : String) (path : Text) (hs : List H) (m : List (String × TreeRouteEntry H))
      → serves k j ≡ true
      → is_some (resolve_node_route (add_entry k path hs m) j) ≡ true
  unfolding serves resolve_node_route
  route-served k j path hs m e =
      ground (arith, get-added k path hs m, eq_iff k j, eq_iff k "ALL", eq_iff k "GET")

module _ {H : Type 0} (decode_component : Text → Text) where
  route-none : (method : String) → resolve_node_route {H = H} [] method ≡ none
  unfolding resolve_node_route get
  route-none method =
      if_rule (λ (r : Option (TreeRouteEntry H)). r ≡ none) (str_eq method "HEAD") (λ e. refl)
        (λ e. refl)

  pub resolve-empty :
      (segments : List Text) (method : String) (params : List (Text × Text))
      → resolve_node {H = H} decode_component create_tree_node segments method params ≡ none
  unfolding resolve_node find_child
  resolve-empty [] method params = ap (matched params) (route-none method)
  resolve-empty (s ∷ segments) method params = refl

  abbrev At : TreeNode H → TreeNode H → List Text → String → Type 0
  At n k segments method =
      (params : List (Text × Text))
      → resolve_node decode_component n segments method params
        ≡ resolve_node decode_component k segments method params

  add_method-unserved :
      (m j : String) (path : Text) (hs : List H) (n : TreeNode H) (segments : List Text)
      → (matches [] segments && serves m j) ≡ false
      → At (add_method m path hs n) n segments j
  unfolding resolve_node matches
  add_method-unserved m j path hs (node cs ms p w) [] e params =
      ap (matched params) (route-unserved m j path hs ms e)
  add_method-unserved m j path hs (node cs ms p w) (s ∷ segments) e params = refl

  parameter-unmatched :
      (name s : Text) (segments : List Text) (j : String) (p : Child H) (n : TreeNode H)
      (cs : Children H) (ms : List (String × TreeRouteEntry H)) (w : Child H)
      → At n (node_of p) segments j
      → At (node cs ms (keyed (key_of name p) n) w) (node cs ms p w) (s ∷ segments) j
  unfolding resolve_node
  parameter-unmatched name s segments j no_child n cs ms w h params = ground (
    arith,
    h (set name (decode_component s) params),
    resolve-empty segments j (set name (decode_component s) params),
  )
  parameter-unmatched name s segments j (keyed key k) n cs ms w h params =
      ground (arith, h (set key (decode_component s) params))

  wildcard-unserved :
      (m j : String) (path key s : Text) (hs : List H) (segments : List Text) (w : Child H)
      (cs : Children H) (ms : List (String × TreeRouteEntry H)) (p : Child H)
      → serves m j ≡ false
      → At
          (node cs ms p (keyed (key_of key w) (add_method m path hs (node_of w))))
          (node cs ms p w)
          (s ∷ segments)
          j
  unfolding resolve_node
  wildcard-unserved m j path key s hs segments no_child cs ms p e params =
      ground (arith, route-unserved m j path hs [] e, route-none j)
  wildcard-unserved m j path key s hs segments (keyed old (node cs' ms' p' w')) cs ms p e params =
      ground (arith, route-unserved m j path hs ms' e)

  -- The request goes on in a child that may be missing.
  abbrev pub down :
      Option (TreeNode H)
      → List Text
      → String
      → List (Text × Text)
      → Option (ResolvedRouteTreeMatch H)
  down o segments method params = elim o [
    | none ↦ none
    | some n ↦ resolve_node decode_component n segments method params
  ]

  down-or_created :
      (o : Option (TreeNode H)) (segments : List Text) (j : String) (params : List (Text × Text))
      → resolve_node decode_component (or_created o) segments j params ≡ down o segments j params
  down-or_created none segments j params = resolve-empty segments j params
  down-or_created (some n) segments j params = refl

  down-set_child :
      (name s : Text) (segments : List Text) (j : String) (n : TreeNode H) (cs : Children H)
      (params : List (Text × Text))
      → (same_text name s ≡ true → At n (or_created (find_child name cs)) segments j)
      → down (find_child s (set_child name n cs)) segments j params
        ≡ down (find_child s cs) segments j params
  down-set_child name s segments j n cs params h = elim (Bool-cases (same_text name s)) [
    | inl f ↦ rw (
      find_child-set_child name s n cs,
      f,
      h f params
          ∙ down-or_created (find_child name cs) segments j params
          ∙ ap (λ t. down (find_child t cs) segments j params) ((same_text_iff name s).0 f),
    )
    | inr f ↦ ground (arith, find_child-set_child name s n cs)
  ]

  static-unmatched :
      (name s : Text) (segments : List Text) (j : String) (n : TreeNode H) (cs : Children H)
      (ms : List (String × TreeRouteEntry H)) (p w : Child H)
      → (same_text name s ≡ true → At n (or_created (find_child name cs)) segments j)
      → At (node (set_child name n cs) ms p w) (node cs ms p w) (s ∷ segments) j
  unfolding resolve_node
  static-unmatched name s segments j n cs ms p w h params =
      ap
        (λ r. first_of r (
          first_of
            (elim p [
              | no_child ↦ none
              | keyed key k ↦
                  resolve_node decode_component k segments j (set key (decode_component s) params)
            ])
            (resolve_wildcard decode_component w (s ∷ segments) j params)))
        (down-set_child name s segments j n cs params h)

  -- Adding a route changes nothing for a request that its segments do not match or that its method
  -- does not serve.
  pub add-unmatched :
      (m j : String) (path : Text) (hs : List H) (pattern : List Text) (n : TreeNode H)
      (segments : List Text)
      → (matches pattern segments && serves m j) ≡ false
      → At (add_segments m path hs pattern n) n segments j
  unfolding add_segments matches resolve_node
  add-unmatched m j path hs [] n segments e params =
      add_method-unserved m j path hs n segments e params
  add-unmatched m j path hs ([] ∷ pattern) n segments e params =
      add-unmatched m j path hs pattern n segments e params
  add-unmatched m j path hs ((c ∷ name) ∷ pattern) (node cs ms p w) [] e params =
      let Same = λ (n : TreeNode H).
        resolve_node decode_component n [] j params
        ≡ resolve_node decode_component (node cs ms p w) [] j params in
      Bool_rule Same (is_parameter (c ∷ name)) (λ f. refl)
        (λ f. Bool_rule Same (is_wildcard (c ∷ name)) (λ g. refl) (λ g. refl))
  add-unmatched m j path hs ((c ∷ name) ∷ pattern) (node cs ms p w) (s ∷ segments) e params =
      let Same = λ (n : TreeNode H).
        resolve_node decode_component n (s ∷ segments) j params
        ≡ resolve_node decode_component (node cs ms p w) (s ∷ segments) j params in
      Bool_rule Same (is_parameter (c ∷ name))
        (λ f.
          parameter-unmatched name s segments j p _ cs ms w
            (add-unmatched m j path hs pattern (node_of p) segments (ground arith)) params)
        (λ f.
          Bool_rule Same (is_wildcard (c ∷ name))
            (λ g. wildcard-unserved m j path _ s hs segments w cs ms p (ground arith) params)
            (λ g.
              static-unmatched (c ∷ name) s segments j _ cs ms p w
                (λ h. add-unmatched m j path hs pattern _ segments (ground arith)) params))
