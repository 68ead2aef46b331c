-- ===== src/Shared/SafeJson.antt =====
-- src/internal/shared/safe-json.ts: JSON without keys that reach a prototype. `JSON.parse` is a parameter,
-- with a value as its result; a key stands once in an object.
pub mod Walking
mod Tests
use kenojs.Prelude.{
  ℕ, zero, suc, ◌+◌, Bool, true, false, ◌&&◌, ◌||◌, String, Option, none, some, List, [], ◌∷◌,
  if◌then◌else◌, is_some, str_eq,
}

mutual
  pub data Json : Type 0 where
    null : Json
    boolean : Bool → Json
    number : ℕ → Json
    text : String → Json
    array : Entries → Json
    object : Fields → Json

  pub data Entries : Type 0 where
    no_entry : Entries
    entry : Json → Entries → Entries

  pub data Fields : Type 0 where
    no_field : Fields
    field : String → Json → Fields → Fields

-- `hasOwn` and the value in one.
unfoldable pub own : String → Fields → Option Json
own key no_field = none
own key (field k v fs) = if str_eq k key then some v else own key fs

abbrev pub has_prototype : Option Json → Bool
has_prototype (some (object fs)) = is_some (own "prototype" fs)
has_prototype _ = false

-- The two tests on an object.
unfoldable pub is_forbidden : Fields → Bool
is_forbidden fs = is_some (own "__proto__" fs) || has_prototype (own "constructor" fs)

abbrev pub push_entries : Entries → List Json → List Json
push_entries no_entry queue = queue
push_entries (entry v vs) queue = push_entries vs (v ∷ queue)

abbrev pub push_values : Fields → List Json → List Json
push_values no_field queue = queue
push_values (field k v fs) queue = push_values fs (v ∷ queue)

-- The `while` loop, on fuel; `pop` takes the value that was pushed last, the first here.
unfoldable pub walk : ℕ → List Json → Option Bool
walk fuel [] = some false
walk zero (current ∷ queue) = none
walk (suc fuel) (array vs ∷ queue) = walk fuel (push_entries vs queue)
walk (suc fuel) (object fs ∷ queue) = elim (is_forbidden fs) [
  | true ↦ some true
  | false ↦ walk fuel (push_values fs queue)
]
walk (suc fuel) (current ∷ queue) = walk fuel queue

-- The values in a value, itself included: the fuel of the walk.
unfoldable mutual
  pub size : Json → ℕ
  size (array vs) = suc (size_entries vs)
  size (object fs) = suc (size_fields fs)
  size null = 1
  size (boolean b) = 1
  size (number n) = 1
  size (text s) = 1

  pub size_entries : Entries → ℕ
  size_entries no_entry = 0
  size_entries (entry v vs) = size v + size_entries vs

  pub size_fields : Fields → ℕ
  size_fields no_field = 0
  size_fields (field k v fs) = size v + size_fields fs

abbrev pub is_object_record : Json → Bool
is_object_record (array vs) = true
is_object_record (object fs) = true
is_object_record _ = false

unfoldable pub contains_forbidden_prototype_keys : Json → Option Bool
contains_forbidden_prototype_keys value =
    if is_object_record value then walk (size value) (value ∷ []) else some false

pub data Parsed : Type 0 where
  parsed : Json → Parsed
  syntax_error : (message : String) → Parsed
  -- Not a result of the code: the walk did not end.
  no_end : Parsed

abbrev pub checked : Json → Option Bool → Parsed
checked value none = no_end
checked value (some true) = syntax_error "JSON payload contains forbidden prototype keys"
checked value (some false) = parsed value

-- `parse` is `JSON.parse`, none where it throws.
unfoldable pub safe_json_parse : (String → Option Json) → String → Parsed
safe_json_parse parse source = elim (parse source) [
  | none ↦ syntax_error "JSON.parse"
  | some value ↦ checked value (contains_forbidden_prototype_keys value)
]
