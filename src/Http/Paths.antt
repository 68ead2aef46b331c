-- ===== src/Http/Paths.antt =====
-- src/internal/http/path.ts, and the splitting of paths in src/internal/http/route-tree.ts.
use kenojs.Prelude.{
  ℕ, Bool, false, ◌&&◌, ◌||◌, List, [], ◌∷◌, ◌++◌, length, drop, ltb, ◌==◌, if◌then◌else◌,
}
use kenojs.Prelude.Text.{Text, same_text}

abbrev pub slash : ℕ
slash = 47

abbrev pub root_path : Text
root_path = slash ∷ []

abbrev pub starts_with : ℕ → Text → Bool
starts_with c [] = false
starts_with c (d ∷ ds) = d == c

abbrev pub ends_with : ℕ → Text → Bool
ends_with c [] = false
ends_with c (d ∷ []) = d == c
ends_with c (d ∷ e ∷ es) = ends_with c (e ∷ es)

-- `slice(0, -1)`.
abbrev pub drop_last : Text → Text
drop_last [] = []
drop_last (d ∷ []) = []
drop_last (d ∷ e ∷ es) = d ∷ drop_last (e ∷ es)

-- `replace(/\/+/g, "/")`: of a run of slashes the last one stays.
unfoldable pub collapse : Text → Text
collapse [] = []
collapse (c ∷ cs) =
    let rest = collapse cs in if (c == slash) && starts_with slash cs then rest else c ∷ rest

unfoldable pub strip_trailing_slash : Text → Text
strip_trailing_slash value =
    if same_text value root_path
    then value
    else if ends_with slash value
    then drop_last value
    else value

unfoldable pub normalize_path : Text → Text
normalize_path path =
    if same_text path [] || same_text path root_path
    then root_path
    else let normalized = collapse (slash ∷ path) in
      if ltb 1 (length normalized) && ends_with slash normalized
      then drop_last normalized
      else normalized

unfoldable pub consume_path : (pathname matched_path : Text) → Text
consume_path pathname matched_path =
    if same_text matched_path root_path
    then pathname
    else let remainder = drop (length (strip_trailing_slash matched_path)) pathname in
      if same_text remainder [] then root_path else remainder

unfoldable pub join_paths : (base_url path : Text) → Text
join_paths base_url path =
    if same_text path root_path || same_text path []
    then base_url
    else if same_text base_url [] || same_text base_url root_path
    then normalize_path path
    else normalize_path (base_url ++ slash ∷ path)

-- `split("/")`: the first segment and the others.
unfoldable pub split_slash : Text → Text × List Text
split_slash [] = ([], [])
split_slash (c ∷ cs) =
    let rest = split_slash cs in if c == slash then ([], rest.0 ∷ rest.1) else (c ∷ rest.0, rest.1)

unfoldable pub get_segments : Text → List Text
get_segments pathname =
    if same_text pathname root_path || same_text pathname []
    then []
    else let parts = split_slash (drop 1 pathname) in parts.0 ∷ parts.1

abbrev pub join_slash : List Text → Text
join_slash [] = []
join_slash (s ∷ []) = s
join_slash (s ∷ t ∷ ts) = s ++ slash ∷ join_slash (t ∷ ts)

unfoldable pub normalize_incoming_path : Text → Text
normalize_incoming_path pathname =
    if same_text pathname [] || same_text pathname root_path
    then root_path
    else if ends_with slash pathname
    then drop_last pathname
    else pathname
