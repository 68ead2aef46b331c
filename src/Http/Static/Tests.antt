-- ===== src/Http/Static/Tests.antt =====
-- Runs of the static service, and the theorems about it at concrete inputs.
use kenojs.Prelude.{
  ℕ, ◌≡◌, refl, true, false, none, some, [], ◌∷◌, ◌++◌, ◌==◌, if◌then◌else◌, arith,
}
use kenojs.Prelude.Maps.{get, set, delete}
use kenojs.Prelude.Text.{Text, codes, same_text, text_key}
use kenojs.Http.Paths.{split_slash, strip_trailing_slash}
use kenojs.Http.Static.{
  deny, Platform, file, directory, StaticOptions, http_error, send_file, is_hidden, has_hidden,
  should_block_dotfile, relative_path_for_request, is_safe_subpath, cache_control_value, evict,
  read_small_file, get_small_file_buffer, final_details, serve_file, serve_asset, safe_decode,
  handle,
}
use kenojs.Http.Static.Cache.{Good, Serves, get_small_file_buffer-Serves}

static : Unit {0}
unfolding get set delete split_slash strip_trailing_slash is_hidden has_hidden should_block_dotfile
    relative_path_for_request is_safe_subpath cache_control_value evict read_small_file
    get_small_file_buffer final_details serve_file serve_asset safe_decode handle
static = tt

abbrev resolved : Text → Text → Text
resolved base [] = base
resolved base (c ∷ path) = if c == 46 then base ++ path else base ++ 47 ∷ c ∷ path

-- A root with a directory "/www/a", whose index is read as 7.
abbrev io : Platform ℕ
io = record {
  decode_uri_component = some;
  resolve = resolved;
  stat = λ path.
      if same_text path (codes "/www/a")
      then some (record { kind = directory; mtime_ms = 1; size = 0 })
      else if same_text path (codes "/www/a/index.html")
      then some (record { kind = file; mtime_ms = 5; size = 3 })
      else none;
  read_file = λ _. some 7;
  byte_length = λ _. 3;
}

abbrev options : StaticOptions
options = record {
  cache_control = false;
  dotfiles = deny;
  fallthrough = true;
  immutable = false;
  index = some (codes "index.html");
  max_age = 0;
}

served :
    (handle io options (codes "/www") [] (codes "/files/a") (codes "/files")).0
    ≡ send_file (codes "/www/a/index.html") (some 7) none
unfolding static
served = refl

denied :
    (handle io options (codes "/www") [] (codes "/files/.a") (codes "/files")).0
    ≡ http_error 403 "Forbidden static asset path"
unfolding static
denied = refl

no_entries : Good io (λ _ _ _. 7) []
unfolding get
no_entries = record { bounded = omega arith; named = λ k e h. cc; fresh = λ k e h. cc }

get_small_file_buffer-Serves_example :
    Serves io
      (λ _ _ _. 7)
      (codes "/www/a/index.html")
      5
      3
      (get_small_file_buffer io [] (codes "/www/a/index.html") 5 3)
get_small_file_buffer-Serves_example =
    get_small_file_buffer-Serves io (λ _ _ _. 7) (codes "/www/a/index.html") 5 3 refl
      (λ b h. ground arith) [] no_entries
