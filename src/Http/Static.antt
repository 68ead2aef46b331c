-- ===== src/Http/Static.antt =====
-- src/internal/http/static-service.ts: files under a root. Paths are texts; `resolve` of node:path, the
-- platform's decoder and the file system are parameters, the latter two as they answer one request.
pub mod Dotfiles
pub mod Serving
pub mod Cache
mod Tests
use kenojs.Prelude.{
  ℕ, suc, ◌/◌, ◌*◌, Bool, true, false, not, ◌&&◌, ◌||◌, String, Option, none, some, List, [], ◌∷◌,
  ◌++◌, length, drop, ltb, leb, ◌==◌, if◌then◌else◌,
}
use kenojs.Prelude.Maps.{get, set, delete}
use kenojs.Prelude.Text.{Text, same_text, text_key, codes, is_empty, has_prefix, includes}
use kenojs.Http.Paths.{slash, root_path, starts_with, strip_trailing_slash}

pub data DotfileMode : Type 0 where
  allow deny ignore : DotfileMode

abbrev pub dot : ℕ
dot = 46

-- The test on a segment in `shouldBlockDotfile`.
unfoldable pub is_hidden : Text → Bool
is_hidden segment =
    starts_with dot segment
    && not (same_text segment (codes "."))
    && not (same_text segment (codes ".."))

-- Its loop, by the segment so far and what is left.
unfoldable pub has_hidden : Text → Text → Bool
has_hidden segment [] = is_hidden segment
has_hidden segment (c ∷ cs) = elim (c == slash) [
  | true ↦ is_hidden segment || has_hidden [] cs
  | false ↦ has_hidden (segment ++ c ∷ []) cs
]

abbrev pub is_allow : DotfileMode → Bool
is_allow allow = true
is_allow _ = false

unfoldable pub should_block_dotfile : Text → DotfileMode → Bool
should_block_dotfile pathname mode =
    if is_allow mode || not (includes dot pathname) then false else has_hidden [] pathname

unfoldable pub matches_static_mount : (pathname mount_path : Text) → Bool
matches_static_mount pathname mount_path =
    if same_text mount_path root_path
    then has_prefix root_path pathname
    else if same_text pathname mount_path
    then true
    else has_prefix mount_path pathname && starts_with slash (drop (length mount_path) pathname)

unfoldable pub relative_path_for_request : (pathname mount_path : Text) → Text
relative_path_for_request pathname mount_path =
    let stripped = strip_trailing_slash mount_path in
    let normalized_mount = if is_empty stripped then root_path else stripped in
    if same_text normalized_mount root_path || not (has_prefix normalized_mount pathname)
    then pathname
    else let relative = drop (length normalized_mount) pathname in
      if is_empty relative then root_path else relative

-- `sep` is a slash.
unfoldable pub is_safe_subpath : (root candidate : Text) → Bool
is_safe_subpath root candidate =
    same_text candidate root || has_prefix (root ++ slash ∷ []) candidate

pub data FileKind : Type 0 where
  file directory other : FileKind

pub record Details : Type 0 where
  pub kind : FileKind
  pub mtime_ms : ℕ
  pub size : ℕ

-- What the platform answers: none where `decodeURIComponent`, `stat` or `readFile` fails.
pub record Platform (B : Type 0) : Type 0 where
  pub decode_uri_component : Text → Option Text
  pub resolve : Text → Text → Text
  pub stat : Text → Option Details
  pub read_file : Text → Option B
  pub byte_length : B → ℕ

pub record CacheControl : Type 0 where
  pub max_age : ℕ
  pub immutable : Bool

pub record StaticOptions : Type 0 where
  pub cache_control : Bool
  pub dotfiles : DotfileMode
  pub fallthrough : Bool
  pub immutable : Bool
  pub index : Option Text
  pub max_age : ℕ

pub record CachedFileEntry (B : Type 0) : Type 0 where
  pub buffer : B
  pub mtime_ms : ℕ
  pub size : ℕ

-- What `handle` does with a request; `failed` is a rejection by the file system.
pub data Reply (B : Type 0) : Type 0 where
  calls_next failed : Reply B
  http_error : (status : ℕ) (message : String) → Reply B
  send_file : (path : Text) (buffer : Option B) (caching : Option CacheControl) → Reply B

abbrev pub max_cached_small_files : ℕ
max_cached_small_files = 128

abbrev pub small_file_cache_limit : ℕ
small_file_cache_limit = 64 * 1024

-- `cacheControlValue`, not yet as a text.
unfoldable pub cache_control_value : StaticOptions → Option CacheControl
cache_control_value o =
    if o.cache_control
    then some (record { max_age = o.max_age / 1000; immutable = o.immutable && ltb 0 o.max_age })
    else none

module _ {B : Type 0} where
  abbrev pub pass_or : Bool → ℕ → String → Reply B
  pass_or fallthrough status message = if fallthrough then calls_next else http_error status message

  -- The first key goes when there are too many; an empty one is falsy.
  unfoldable pub evict : List (Text × CachedFileEntry B) → List (Text × CachedFileEntry B)
  evict [] = []
  evict ((k, entry) ∷ cache) =
      if ltb max_cached_small_files (length ((k, entry) ∷ cache)) && not (is_empty k)
      then delete k ((k, entry) ∷ cache)
      else (k, entry) ∷ cache

  -- A buffer if the file is small, the cache after it; none where `readFile` fails.
  unfoldable pub read_small_file :
      Platform B
      → List (Text × CachedFileEntry B)
      → Text
      → ℕ
      → ℕ
      → Option (Option B × List (Text × CachedFileEntry B))
  read_small_file io cache pathname mtime_ms size = elim (io.read_file pathname) [
    | none ↦ none
    | some buffer ↦
        if not (io.byte_length buffer == size)
        then some (some buffer, cache)
        else some (
          some buffer,
          evict (set pathname (record { buffer = buffer; mtime_ms = mtime_ms; size = size }) cache),
        )
  ]

  unfoldable pub get_small_file_buffer :
      Platform B
      → List (Text × CachedFileEntry B)
      → Text
      → ℕ
      → ℕ
      → Option (Option B × List (Text × CachedFileEntry B))
  get_small_file_buffer io cache pathname mtime_ms size =
      if ltb small_file_cache_limit size then some (none, cache) else elim (get pathname cache) [
        | none ↦ read_small_file io cache pathname mtime_ms size
        | some cached ↦
            if (cached.mtime_ms == mtime_ms) && (cached.size == size)
            then some (some cached.buffer, set pathname cached (delete pathname cache))
            else read_small_file io cache pathname mtime_ms size
      ]

  -- The path and the details that are served: of a directory, those of its index.
  unfoldable pub final_details : Platform B → StaticOptions → Text → Text × Option Details
  final_details io o asset_path = elim (io.stat asset_path) [
    | none ↦ (asset_path, none)
    | some details ↦ elim details.kind [
      | file ↦ (asset_path, some details)
      | other ↦ (asset_path, some details)
      | directory ↦ elim o.index [
        | none ↦ (asset_path, some details)
        | some index ↦
            let path = io.resolve asset_path index in
            if same_text path asset_path then (path, some details) else (path, io.stat path)
      ]
    ]
  ]

  unfoldable pub serve_file :
      Platform B
      → StaticOptions
      → List (Text × CachedFileEntry B)
      → Text
      → Details
      → Reply B × List (Text × CachedFileEntry B)
  serve_file io o cache path details =
      elim (get_small_file_buffer io cache path details.mtime_ms details.size) [
        | none ↦ (failed, cache)
        | some (buffer, cache') ↦ (send_file path buffer (cache_control_value o), cache')
      ]

  unfoldable pub serve_asset :
      Platform B
      → StaticOptions
      → List (Text × CachedFileEntry B)
      → Text
      → Reply B × List (Text × CachedFileEntry B)
  serve_asset io o cache asset_path =
      let (path, found) = final_details io o asset_path in
      elim found [
        | none ↦ (pass_or o.fallthrough 404 "Static asset not found", cache)
        | some details ↦ elim details.kind [
          | file ↦ serve_file io o cache path details
          | directory ↦ (pass_or o.fallthrough 404 "Static asset not found", cache)
          | other ↦ (pass_or o.fallthrough 404 "Static asset not found", cache)
        ]
      ]

  unfoldable pub safe_decode : Platform B → Text → Option Text
  safe_decode io value =
      if not (includes 37 value) then some value else io.decode_uri_component value

  -- `deny` fails also where the service falls through.
  abbrev pub refuse_dotfile : StaticOptions → Reply B
  refuse_dotfile o = elim o.dotfiles [
    | deny ↦ http_error 403 "Forbidden static asset path"
    | allow ↦ pass_or o.fallthrough 404 "Static asset not found"
    | ignore ↦ pass_or o.fallthrough 404 "Static asset not found"
  ]

  unfoldable pub handle :
      Platform B
      → StaticOptions
      → (absolute_root : Text) → List (Text × CachedFileEntry B)
      → (pathname mount_path : Text) → Reply B × List (Text × CachedFileEntry B)
  handle io o absolute_root cache pathname mount_path =
      elim (safe_decode io (relative_path_for_request pathname mount_path)) [
        | none ↦ (pass_or o.fallthrough 400 "Malformed static asset path", cache)
        | some decoded_path ↦
            if should_block_dotfile decoded_path o.dotfiles
            then (refuse_dotfile o, cache)
            else let asset_path = io.resolve absolute_root (dot ∷ decoded_path) in
              if is_safe_subpath absolute_root asset_path
              then serve_asset io o cache asset_path
              else (pass_or o.fallthrough 403 "Forbidden static asset path", cache)
      ]
