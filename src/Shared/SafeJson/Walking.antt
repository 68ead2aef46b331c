-- ===== src/Shared/SafeJson/Walking.antt =====
-- The walk of safe-json.ts ends, and finds what a search of the whole value finds.
use kenojs.Prelude.{
  ◌≢◌, ◌↔◌, ℕ, zero, suc, ◌+◌, ◌≤◌, ◌≡◌, refl, ◌∙◌, ap, String, Bool, true, false, ◌||◌, Option,
  none, some, List, [], ◌∷◌, arith,
}
use kenojs.Shared.SafeJson.{
  Json, null, boolean, number, text, array, object, Entries, no_entry, entry, Fields, no_field,
  field, is_forbidden, push_entries, push_values, walk, size, size_entries, size_fields,
  contains_forbidden_prototype_keys, Parsed, parsed, syntax_error, no_end, checked, safe_json_parse,
}

-- Whether an object in the value, at any depth, is forbidden.
unfoldable mutual
  pub reaches : Json → Bool
  reaches (array vs) = reaches_entries vs
  reaches (object fs) = is_forbidden fs || reaches_fields fs
  reaches null = false
  reaches (boolean b) = false
  reaches (number n) = false
  reaches (text s) = false

  pub reaches_entries : Entries → Bool
  reaches_entries no_entry = false
  reaches_entries (entry v vs) = reaches v || reaches_entries vs

  pub reaches_fields : Fields → Bool
  reaches_fields no_field = false
  reaches_fields (field k v fs) = reaches v || reaches_fields fs

abbrev queue_size : List Json → ℕ
queue_size [] = 0
queue_size (v ∷ vs) = size v + queue_size vs

abbrev reaches_queue : List Json → Bool
reaches_queue [] = false
reaches_queue (v ∷ vs) = reaches v || reaches_queue vs

push_entries_lem :
    (vs : Entries) (queue : List Json)
    → (queue_size (push_entries vs queue) ≡ size_entries vs + queue_size queue)
      × (reaches_queue (push_entries vs queue) ≡ (reaches_entries vs || reaches_queue queue))
unfolding size reaches
push_entries_lem no_entry queue = (omega arith, refl)
push_entries_lem (entry v vs) queue = ground (arith, push_entries_lem vs (v ∷ queue))

push_values_lem :
    (fs : Fields) (queue : List Json)
    → (queue_size (push_values fs queue) ≡ size_fields fs + queue_size queue)
      × (reaches_queue (push_values fs queue) ≡ (reaches_fields fs || reaches_queue queue))
unfolding size reaches
push_values_lem no_field queue = (omega arith, refl)
push_values_lem (field k v fs) queue = ground (arith, push_values_lem fs (v ∷ queue))

walk_lem :
    (fuel : ℕ) (queue : List Json)
    → queue_size queue ≤ fuel
    → walk fuel queue ≡ some (reaches_queue queue)
unfolding walk size reaches
walk_lem fuel [] h = refl
walk_lem zero (null ∷ queue) h = absurd (omega arith)
walk_lem zero (boolean b ∷ queue) h = absurd (omega arith)
walk_lem zero (number n ∷ queue) h = absurd (omega arith)
walk_lem zero (text s ∷ queue) h = absurd (omega arith)
walk_lem zero (array vs ∷ queue) h = absurd (omega arith)
walk_lem zero (object fs ∷ queue) h = absurd (omega arith)
walk_lem (suc fuel) (null ∷ queue) h = walk_lem fuel queue (omega arith)
walk_lem (suc fuel) (boolean b ∷ queue) h = walk_lem fuel queue (omega arith)
walk_lem (suc fuel) (number n ∷ queue) h = walk_lem fuel queue (omega arith)
walk_lem (suc fuel) (text s ∷ queue) h = walk_lem fuel queue (omega arith)
walk_lem (suc fuel) (array vs ∷ queue) h =
    walk_lem fuel (push_entries vs queue) (omega (arith, (push_entries_lem vs queue).0))
    ∙ ap some (push_entries_lem vs queue).1
walk_lem (suc fuel) (object fs ∷ queue) h =
    ground (arith, push_values_lem fs queue, walk_lem fuel (push_values fs queue))

-- The walk over the queue of values ends, and it finds a forbidden key in a parsed value exactly when
-- one of the objects in it, at any depth, has the key "__proto__", or an object with the key
-- "prototype" under the key "constructor".
pub contains_forbidden_prototype_keys_lem :
    (value : Json) → contains_forbidden_prototype_keys value ≡ some (reaches value)
unfolding contains_forbidden_prototype_keys reaches
contains_forbidden_prototype_keys_lem (array vs) =
    walk_lem (size (array vs)) (array vs ∷ []) (omega arith) ∙ ground arith
contains_forbidden_prototype_keys_lem (object fs) =
    walk_lem (size (object fs)) (object fs ∷ []) (omega arith) ∙ ground arith
contains_forbidden_prototype_keys_lem null = refl
contains_forbidden_prototype_keys_lem (boolean b) = refl
contains_forbidden_prototype_keys_lem (number n) = refl
contains_forbidden_prototype_keys_lem (text s) = refl

checked_lem :
    (w : Json) (b : Bool)
    → reaches w ≡ b
    → (checked w (some b) ≢ no_end)
      × ((v : Json) → (checked w (some b) ≡ parsed v) ↔ (some w ≡ some v) × (reaches v ≡ false))
checked_lem w true h = (λ k. cc, λ v. (λ k. cc, λ k. ground arith))
checked_lem w false h = (λ k. cc, λ v. (λ k. ground arith, λ k. ground arith))

-- Parsing always ends; it gives a value exactly when `JSON.parse` gives that value and no object in it
-- is forbidden.
pub safe_json_parse_lem :
    (parse : String → Option Json) (source : String)
    → (safe_json_parse parse source ≢ no_end)
      × ((value : Json)
          → (safe_json_parse parse source ≡ parsed value)
            ↔ (parse source ≡ some value) × (reaches value ≡ false))
unfolding safe_json_parse
safe_json_parse_lem parse source = go (parse source) refl
  where
    outcome : Option Json → Parsed
    outcome o = elim o [
      | none ↦ syntax_error "JSON.parse"
      | some value ↦ checked value (contains_forbidden_prototype_keys value)
    ]

    go :
        (o : Option Json)
        → parse source ≡ o
        → (outcome (parse source) ≢ no_end)
          × ((value : Json)
              → (outcome (parse source) ≡ parsed value)
                ↔ (parse source ≡ some value) × (reaches value ≡ false))
    go none e = rw e (λ h. cc, λ v. (λ h. cc, λ h. cc))
    go (some w) e = rw (e, contains_forbidden_prototype_keys_lem w) (checked_lem w (reaches w) refl)
