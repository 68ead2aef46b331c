-- ===== src/Shared/SafeJson/Tests.antt =====
-- Runs of the JSON check, and the theorems about it at concrete inputs.
use kenojs.Prelude.{◌≡◌, refl, true, some}
use kenojs.Shared.SafeJson.{
  Json, null, number, array, object, entry, no_entry, field, no_field, own, is_forbidden, walk,
  size, contains_forbidden_prototype_keys, safe_json_parse,
}
use kenojs.Shared.SafeJson.Walking.{reaches, contains_forbidden_prototype_keys_lem}

walking : Unit {0}
unfolding own is_forbidden walk size contains_forbidden_prototype_keys safe_json_parse reaches
walking = tt

-- [1, {"a": {"constructor": {"prototype": null}}}]
abbrev polluting : Json
polluting = array (
    entry (number 1) (
      entry
        (object (
          field "a"
            (object (field "constructor" (object (field "prototype" null no_field)) no_field))
            no_field))
        no_entry))

found : contains_forbidden_prototype_keys polluting ≡ some true
unfolding walking
found = refl

contains_forbidden_prototype_keys_lem_example :
    contains_forbidden_prototype_keys polluting ≡ some (reaches polluting)
contains_forbidden_prototype_keys_lem_example = contains_forbidden_prototype_keys_lem polluting
