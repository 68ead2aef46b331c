-- ===== src/Http/RouteTree/Exact.antt =====
-- The routes without parameters and wildcards of route-tree.ts.
use kenojs.Prelude.{
  ◌≡◌, refl, ap, ◌∙◌, String, true, not, ◌&&◌, Option, none, some, List, [], ◌++◌, Option_rule,
  arith, String_key,
}
use kenojs.Prelude.Maps.{get, set, get-set}
use kenojs.Prelude.Text.{Text, text_key, includes}
use kenojs.Http.Paths.{normalize_path, normalize_incoming_path}
use kenojs.Http.RouteTree.{
  TreeRouteEntry, RouteTree, colon, star, add_entry, or_bucket, add, resolve_exact_route, lookup,
  matched, resolve,
}

module _ {H : Type 0} where
  -- An entry with more handlers, or a new one.
  abbrev pub extended : Text → List H → Option (TreeRouteEntry H) → TreeRouteEntry H
  extended path hs none = record { handlers = hs; path = path }
  extended path hs (some entry) = record { handlers = entry.handlers ++ hs; path = entry.path }

  get-add_entry_self :
      (k path : Text) (hs : List H) (m : List (Text × TreeRouteEntry H))
      → get k (add_entry k path hs m) ≡ some (extended path hs (get k m))
  unfolding add_entry
  get-add_entry_self k path hs m =
      Option_rule
        (λ (q : List (Text × TreeRouteEntry H)). get k q ≡ some (extended path hs (get k m)))
        (get k m)
        (λ e.
          ground (
            arith,
            e,
            text_key.same_iff k k,
            get-set k k (record { handlers = hs; path = path }) m,
          ))
        (λ entry e. ground (
          arith,
          e,
          text_key.same_iff k k,
          get-set k k (record { handlers = entry.handlers ++ hs; path = entry.path }) m,
        ))

  lookup-bucket :
      (k : Text) (o : Option (List (Text × TreeRouteEntry H))) → get k (or_bucket o) ≡ lookup k o
  unfolding get
  lookup-bucket k none = refl
  lookup-bucket k (some bucket) = refl

  exact_routes-add :
      (m : String) (path : Text) (hs : List H) (t : RouteTree H)
      → (not (includes colon (normalize_path path)) && not (includes star (normalize_path path)))
        ≡ true
      → get m (add m path hs t).exact_routes
        ≡ some (add_entry (normalize_path path) path hs (or_bucket (get m t.exact_routes)))
  unfolding add
  exact_routes-add m path hs t e =
      let bucket = add_entry (normalize_path path) path hs (or_bucket (get m t.exact_routes)) in
      let found : get m (set m bucket t.exact_routes) ≡ some bucket =
        ground (arith, get-set m m bucket t.exact_routes, String_key.same_iff m m) in
      rw (e, found)

  lookup-add :
      (m : String) (path : Text) (hs : List H) (t : RouteTree H)
      → (not (includes colon (normalize_path path)) && not (includes star (normalize_path path)))
        ≡ true
      → lookup (normalize_path path) (get m (add m path hs t).exact_routes)
        ≡ some (extended path hs (lookup (normalize_path path) (get m t.exact_routes)))
  lookup-add m path hs t e =
      ap (lookup (normalize_path path)) (exact_routes-add m path hs t e)
      ∙ get-add_entry_self (normalize_path path) path hs (or_bucket (get m t.exact_routes))
      ∙ ap (λ o. some (extended path hs o))
          (lookup-bucket (normalize_path path) (get m t.exact_routes))

  -- A route without parameters and wildcards resolves the requests of its method for its normalized
  -- path, whatever other routes there are: the handlers are those that the path had for that method
  -- before, and then its own, and there are no parameters.
  pub resolve-add_exact :
      (decode_component : Text → Text) (m : String) (path pathname : Text) (hs : List H)
      (t : RouteTree H)
      → (not (includes colon (normalize_path path)) && not (includes star (normalize_path path)))
        ≡ true
      → normalize_incoming_path pathname ≡ normalize_path path
      → resolve decode_component (add m path hs t) m pathname
        ≡ matched [] (some (extended path hs (lookup (normalize_path path) (get m t.exact_routes))))
  unfolding resolve resolve_exact_route
  resolve-add_exact decode_component m path pathname hs t e f = rw (f, lookup-add m path hs t e)
