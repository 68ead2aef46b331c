-- ===== src/Http/Static/Serving.antt =====
-- Which files static-service.ts serves.
use kenojs.Prelude.{
  ℕ, ◌≡◌, ◌≢◌, ◌⊎◌, true, false, Option, some, List, [], ◌∷◌, ◌++◌, if◌then◌else◌, arith, not, ◌||◌,
}
use kenojs.Prelude.Text.{Text, same_text, has_prefix, is_empty, text_key}
use kenojs.Http.Paths.{slash, root_path, strip_trailing_slash}
use kenojs.Http.Static.{
  Platform, Details, file, StaticOptions, CachedFileEntry, Reply, send_file, dot, is_safe_subpath,
  should_block_dotfile,
}

-- The root itself, or something below it.
abbrev pub Inside : Text → Text → Type 0
Inside root path = (path ≡ root) ⊎ ((rest : Text) × (path ≡ (root ++ slash ∷ []) ++ rest))

-- With the root "/" no path below it counts as safe, since the test asks for two slashes.
pub root_refused :
    (c : ℕ) (path : Text) → c ≢ slash → is_safe_subpath (slash ∷ []) (slash ∷ c ∷ path) ≡ false
unfolding is_safe_subpath
root_refused c path h = ground arith

module _ {B : Type 0} (io : Platform B) (o : StaticOptions) (root : Text) where
  -- The file that is sent is a regular one, and is the asset's path, which lies in the root and has
  -- no hidden segment unless they are allowed, or the index of that directory.
  abbrev pub Sent : Text → (decoded path : Text) → Type 0
  Sent asset decoded path =
      (asset ≡ io.resolve root (dot ∷ decoded))
      × Inside root asset
      × (should_block_dotfile decoded o.dotfiles ≡ false)
      × ((path ≡ asset)
          ⊎ ((index : Text) × (o.index ≡ some index) × (path ≡ io.resolve asset index)))
      × ((details : Details) × (io.stat path ≡ some details) × (details.kind ≡ file))

  -- A file is sent only for what was decoded.
  abbrev pub Sends : Option Text → Reply B × List (Text × CachedFileEntry B) → Type 0
  Sends decoding (send_file path buffer caching, cache) =
      (asset decoded : Text) × (decoding ≡ some decoded) × Sent asset decoded path
  Sends decoding (_, cache) = Unit

  -- What `final_details` finds.
  abbrev Final : Text → Text × Option Details → Type 0
  Final asset (path, found) =
      ((path ≡ asset) ⊎ ((index : Text) × (o.index ≡ some index) × (path ≡ io.resolve asset index)))
      × ((details : Details) → found ≡ some details → io.stat path ≡ some details)

  -- What is left of a request's path under a mount.
  abbrev pub Requested : (mount pathname relative : Text) → Type 0
  Requested mount pathname relative =
      ((relative ≡ pathname)
        × ((same_text mount root_path || not (has_prefix mount pathname)) ≡ true))
      ⊎ ((pathname ≡ mount ++ relative) ⊎ ((pathname ≡ mount) × (relative ≡ root_path)))

  -- The mount without its last slash, or the root.
  abbrev pub mount_of : Text → Text
  mount_of mount_path =
      if is_empty (strip_trailing_slash mount_path)
      then root_path
      else strip_trailing_slash mount_path
