-- ===== src/Http/Body.antt =====
-- The body of a request in src/internal/http/request.ts: `buffer`, `text` and `json` with their cache. What the
-- raw request emits is an input, a call is cut where it awaits, and `toString` and `JSON.parse` are
-- parameters.
pub mod Limits
pub mod Values
mod Tests
use kenojs.Prelude.{
  ℕ, ◌+◌, ◌*◌, Bool, true, false, String, Option, none, some, List, [], ◌∷◌, ◌++◌, length, ltb, leb,
  if◌then◌else◌,
}
use kenojs.Websocket.Frame.{Bytes}
use kenojs.Websocket.Connection.Incoming.{concat}
use kenojs.Shared.Sizes.{SizeInput, parse_size}
use kenojs.Shared.SafeJson.{Json, Parsed, parsed, syntax_error, no_end, safe_json_parse}

-- With what a promise is settled, or what is thrown.
pub data Answer (E A : Type 0) : Type 0 where
  gives : A → Answer E A
  http_error : (status : ℕ) (message : String) → Answer E A
  raw_error : E → Answer E A

-- The variables of the promise in `buffer`, and how it is settled.
pub record Reading (E : Type 0) : Type 0 where
  pub limit : ℕ
  pub chunks : List Bytes
  pub total : ℕ
  pub settled : Option (Answer E Bytes)
  pub raw_destroyed : Bool

pub record BodyCache (E : Type 0) : Type 0 where
  pub buffer : Option Bytes
  pub buffer_promise : Option (Reading E)
  pub text : Option String
  pub json : Option Json

pub data RawEvent (E : Type 0) : Type 0 where
  data_chunk : Bytes → RawEvent E
  error : E → RawEvent E
  aborted ended : RawEvent E

-- What a call of `buffer` does at once.
pub data BufferCall (E : Type 0) : Type 0 where
  cached : Bytes → BufferCall E
  refused : Answer E Bytes → BufferCall E
  -- The promise that was there, or a new one.
  joins begins : BufferCall E

abbrev pub default_limit : ℕ
default_limit = 1024 * 1024

abbrev pub is_over : ℕ → Option ℕ → Bool
is_over limit none = false
is_over limit (some content_length) = ltb limit content_length

module _ {E : Type 0} where
  abbrev pub no_body : BodyCache E
  no_body = record { buffer = none; buffer_promise = none; text = none; json = none }

  abbrev pub too_large : {A : Type 0} → Answer E A
  too_large = http_error 413 "Request entity too large"

  abbrev pub begin_reading : ℕ → Reading E
  begin_reading limit = record {
    limit = limit;
    chunks = [];
    total = 0;
    settled = none;
    raw_destroyed = false;
  }

  -- The content length is none where there is none, or it is no number.
  unfoldable pub call_buffer :
      (limit : ℕ) (content_length : Option ℕ) → BodyCache E → BufferCall E × BodyCache E
  call_buffer limit content_length c = elim c.buffer [
    | some bytes ↦ (cached bytes, c)
    | none ↦ elim c.buffer_promise [
      | some reading ↦ (joins, c)
      | none ↦
          if is_over limit content_length
          then (refused too_large, c)
          else (begins, record c { buffer_promise = some (begin_reading limit) })
    ]
  ]

  -- The limit as it is written, and none where a TypeError is thrown.
  unfoldable pub call_with_size :
      SizeInput → (content_length : Option ℕ) → BodyCache E → Option (BufferCall E × BodyCache E)
  call_with_size size content_length c = elim c.buffer [
    | some bytes ↦ some (cached bytes, c)
    | none ↦ elim c.buffer_promise [
      | some reading ↦ some (joins, c)
      | none ↦ elim (parse_size size default_limit) [
        | none ↦ none
        | some limit ↦ some (call_buffer limit content_length c)
      ]
    ]
  ]

  -- The first call settles a promise.
  abbrev pub settle : Answer E Bytes → Reading E → Reading E
  settle answer r = record r {
    settled = elim r.settled [ none ↦ some answer | some earlier ↦ some earlier ];
  }

  unfoldable pub on_data : Bytes → Reading E → Reading E
  on_data chunk r =
      let total = r.total + length chunk in
      if ltb r.limit total
      then settle too_large (record r { total = total; raw_destroyed = true })
      else record r { total = total; chunks = r.chunks ++ chunk ∷ [] }

  abbrev pub with_reading : Reading E → BodyCache E → BodyCache E
  with_reading r c = record c { buffer_promise = some r }

  -- The listeners, which are there once a promise is.
  unfoldable pub raw_event : RawEvent E → BodyCache E → BodyCache E
  raw_event event c = elim c.buffer_promise [
    | none ↦ c
    | some r ↦ elim event [
      | data_chunk chunk ↦ with_reading (on_data chunk r) c
      | error e ↦ with_reading (settle (raw_error e) r) c
      | aborted ↦ with_reading (settle (http_error 400 "Request aborted") r) c
      | ended ↦
          let payload = concat r.chunks in
          with_reading (settle (gives payload) r) (record c { buffer = some payload })
    ]
  ]

  abbrev pub raw_events : List (RawEvent E) → BodyCache E → BodyCache E
  raw_events [] c = c
  raw_events (event ∷ events) c = raw_events events (raw_event event c)

  -- `text` with what `buffer` gives.
  unfoldable pub call_text :
      (to_text : Bytes → String) → Answer E Bytes → BodyCache E → Answer E String × BodyCache E
  call_text to_text buffered c = elim c.text [
    | some value ↦ (gives value, c)
    | none ↦ elim buffered [
      | gives bytes ↦ (gives (to_text bytes), record c { text = some (to_text bytes) })
      | http_error status message ↦ (http_error status message, c)
      | raw_error e ↦ (raw_error e, c)
    ]
  ]

  abbrev pub after_text :
      (parse : String → Option Json) → Answer E String → BodyCache E → Answer E Json × BodyCache E
  after_text parse (gives text) c = elim (safe_json_parse parse text) [
    | parsed value ↦ (gives value, record c { json = some value })
    | syntax_error message ↦ (http_error 400 "Invalid JSON payload", c)
    | no_end ↦ (http_error 400 "Invalid JSON payload", c)
  ]
  after_text parse (http_error status message) c = (http_error status message, c)
  after_text parse (raw_error e) c = (raw_error e, c)

  -- `json` with what `buffer` gives.
  unfoldable pub call_json :
      (parse : String → Option Json) (to_text : Bytes → String)
      → Answer E Bytes
      → BodyCache E
      → Answer E Json × BodyCache E
  call_json parse to_text buffered c = elim c.json [
    | some value ↦ (gives value, c)
    | none ↦ let texted = call_text to_text buffered c in after_text parse texted.0 texted.1
  ]
