-- ===== src/Http/Body/Tests.antt =====
-- Runs of the reading of a body, and its theorems at them.
use kenojs.Prelude.{
  ℕ, ◌≡◌, refl, String, Option, none, some, List, [], ◌∷◌, length, leb, if◌then◌else◌,
}
use kenojs.Websocket.Frame.{Bytes}
use kenojs.Websocket.Connection.Incoming.{concat}
use kenojs.Shared.SafeJson.{
  Json, null, number, object, field, no_field, own, is_forbidden, walk, size,
  contains_forbidden_prototype_keys, safe_json_parse,
}
use kenojs.Http.Body.{
  gives, http_error, BodyCache, no_body, too_large, cached, begin_reading, call_buffer,
  call_with_size, on_data, with_reading, raw_event, raw_events, call_text, call_json,
}
use kenojs.Prelude.Text.{codes, trim, trim_start, trim_end}
use kenojs.Shared.Sizes.{written, split_digits, unit_size, parse_size}
use kenojs.Http.Body.Limits.{whole_body, answer_of, whole_body_read}
use kenojs.Http.Body.Values.{SafeAnswer, call_json-SafeAnswer}

abbrev chunks : List Bytes
chunks = (1 ∷ 2 ∷ []) ∷ (3 ∷ []) ∷ []

abbrev nothing : BodyCache ℕ
nothing = no_body

-- A call, the whole body, and a call that finds it.
read_twice :
    (call_buffer 0 none (raw_events (whole_body chunks) (call_buffer 3 (some 3) nothing).1)).0
    ≡ cached (1 ∷ 2 ∷ 3 ∷ [])
unfolding call_buffer raw_event on_data
read_twice = refl

-- A size that is not one.
bad_size : call_with_size (written (codes "1 kb")) none nothing ≡ none
unfolding call_with_size parse_size split_digits unit_size trim trim_start trim_end
bad_size = refl

whole_body_read_example :
    answer_of (raw_events (whole_body chunks) (with_reading (begin_reading 2) nothing))
    ≡ some (if leb (length (concat chunks)) 2 then gives (concat chunks) else too_large)
whole_body_read_example = whole_body_read 2 chunks nothing

abbrev parse : String → Option Json
parse source = some (object (field "__proto__" null no_field))

refused_json :
    (call_json parse (λ bytes. "{}") (gives []) nothing).0 ≡ http_error 400 "Invalid JSON payload"
unfolding call_json call_text own is_forbidden walk size contains_forbidden_prototype_keys
    safe_json_parse
refused_json = refl

abbrev parse_number : String → Option Json
parse_number source = some (object (field "a" (number 1) no_field))

call_json-SafeAnswer_example :
    SafeAnswer (call_json parse_number (λ bytes. "{}") (gives (7 ∷ [])) nothing)
call_json-SafeAnswer_example =
    call_json-SafeAnswer parse_number (λ bytes. "{}") (gives (7 ∷ [])) nothing tt
