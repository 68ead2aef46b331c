-- ===== src/Http/Body/Values.antt =====
-- Which values the body of a request in src/internal/http/request.ts can have as JSON.
use kenojs.Prelude.{◌≡◌, refl, false, String, Option, none, some, subst, Option_rule}
use kenojs.Websocket.Frame.{Bytes}
use kenojs.Shared.SafeJson.{Json, Parsed, parsed, syntax_error, no_end, safe_json_parse}
use kenojs.Shared.SafeJson.Walking.{reaches, safe_json_parse_lem}
use kenojs.Http.Body.{
  Answer, gives, http_error, raw_error, BodyCache, call_text, after_text, call_json,
}

-- A value from which no forbidden key is reached.
abbrev pub IsSafe : Option Json → Type 0
IsSafe none = Unit
IsSafe (some value) = reaches value ≡ false

abbrev pub SafeAnswer : {E : Type 0} → Answer E Json × BodyCache E → Type 0
SafeAnswer (gives value, c) = (reaches value ≡ false) × IsSafe c.json
SafeAnswer (_, c) = IsSafe c.json

module _ {E : Type 0} (parse : String → Option Json) (to_text : Bytes → String) where
  call_text-json :
      (buffered : Answer E Bytes) (c : BodyCache E) → (call_text to_text buffered c).1.json ≡ c.json
  unfolding call_text
  call_text-json buffered c =
      Option_rule (λ (o : Answer E String × BodyCache E). o.1.json ≡ c.json) c.text
        (λ e. go buffered) (λ value e. refl)
    where
      go :
          (answer : Answer E Bytes)
          → (elim answer as (λ a. Answer E String × BodyCache E) [
            | gives bytes ↦ (gives (to_text bytes), record c { text = some (to_text bytes) })
            | http_error status message ↦ (http_error status message, c)
            | raw_error e ↦ (raw_error e, c)
          ]).1.json
            ≡ c.json
      go (gives bytes) = refl
      go (http_error status message) = refl
      go (raw_error e) = refl

  after_text-SafeAnswer :
      (answer : Answer E String) (c : BodyCache E)
      → IsSafe c.json
      → SafeAnswer (after_text parse answer c)
  after_text-SafeAnswer (gives text) c s = go (safe_json_parse parse text) refl
    where
      go :
          (p : Parsed)
          → safe_json_parse parse text ≡ p
          → SafeAnswer {E = E} (elim p [
            | parsed value ↦ (gives value, record c { json = some value })
            | syntax_error message ↦ (http_error 400 "Invalid JSON payload", c)
            | no_end ↦ (http_error 400 "Invalid JSON payload", c)
          ])
      go (parsed value) e =
          let safe = (((safe_json_parse_lem parse text).1 value).0 e).1 in (safe, safe)
      go (syntax_error message) e = s
      go no_end e = s
  after_text-SafeAnswer (http_error status message) c s = s
  after_text-SafeAnswer (raw_error e) c s = s

  -- If the value in the cache is safe, or there is none, what `json` gives is safe, for any body, and so is what
  -- it leaves in the cache.
  pub call_json-SafeAnswer :
      (buffered : Answer E Bytes) (c : BodyCache E)
      → IsSafe c.json
      → SafeAnswer (call_json parse to_text buffered c)
  unfolding call_json
  call_json-SafeAnswer buffered c s = go c.json refl
    where
      go :
          (o : Option Json)
          → c.json ≡ o
          → SafeAnswer {E = E} (elim o [
            | some value ↦ (gives value, c)
            | none ↦
                after_text parse (call_text to_text buffered c).0 (call_text to_text buffered c).1
          ])
      go none e =
          after_text-SafeAnswer (call_text to_text buffered c).0 (call_text to_text buffered c).1
            (rw (call_text-json buffered c) s)
      go (some value) e = let safe : reaches value ≡ false = subst IsSafe e s in (safe, s)
