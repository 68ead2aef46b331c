-- ===== src/Http/Response.antt =====
-- src/internal/http/response.ts (KenoResponse), on a raw response that throws when a header is set after the
-- headers were sent, and that ends once. None stands for such a throw. The texts of statuses and numbers
-- and the lengths of texts are parameters; a JSON payload comes as its text, if it has one.
pub mod Heads
mod Tests
use kenojs.Prelude.{
  ℕ, Bool, true, false, ◌||◌, Option, none, some, List, [], ◌∷◌, ◌++◌, is_some, if◌then◌else◌,
  length,
}
use kenojs.Prelude.Maps.{get, set, delete}
use kenojs.Prelude.Text.{Text, text_key, codes, lower}
use kenojs.Shared.Cookies.{CookieOptions, serialize_cookie}

pub data HeaderValue : Type 0 where
  single : Text → HeaderValue
  several : List Text → HeaderValue
  number : ℕ → HeaderValue

abbrev pub json_content_type : HeaderValue
json_content_type = single (codes "application/json; charset=utf-8")

abbrev pub text_content_type : HeaderValue
text_content_type = single (codes "text/plain; charset=utf-8")

pub data Payload : Type 0 where
  text_payload : Text → Payload
  bytes_payload : List ℕ → Payload

pub record Response : Type 0 where
  pub status_code : ℕ
  -- By their lower-case names.
  pub headers : List (Text × HeaderValue)
  pub headers_sent : Bool
  pub writable_ended : Bool
  pub destroyed : Bool
  -- What `end` was given.
  pub body : Option Payload
  -- Whether a payload came after the end, for which the raw response emits an error.
  pub late_write : Bool

abbrev pub finished : Response → Bool
finished r = r.writable_ended || r.destroyed

pub record Texts : Type 0 where
  pub status_message : ℕ → Text
  pub byte_length : Text → ℕ
  pub show : ℕ → Text
  pub encode : Text → Text

infixl 5 ◌>>=◌
abbrev pub ◌>>=◌ {ℓ κ} : {A : Type ℓ} {B : Type κ} → Option A → (A → Option B) → Option B
none >>= f = none
some a >>= f = f a

abbrev pub status : ℕ → Response → Response
status code r = record r { status_code = code }

unfoldable pub set_header : Text → HeaderValue → Response → Option Response
set_header name value r =
    if r.headers_sent then none else some (record r { headers = set (lower name) value r.headers })

-- `if (getHeader(name) === undefined) setHeader(name, value)`.
unfoldable pub set_default : Text → HeaderValue → Response → Option Response
set_default name value r =
    let changed = set_header name value r in
    if is_some (get (lower name) r.headers) then some r else changed

unfoldable pub remove : Text → Response → Option Response
remove name r =
    if r.headers_sent then none else some (record r { headers = delete (lower name) r.headers })

abbrev pub all_values : (show : ℕ → Text) → HeaderValue → List Text
all_values show (single value) = value ∷ []
all_values show (several values) = values
all_values show (number n) = show n ∷ []

-- The value of an array of values that is set for the first time.
abbrev pub first_value : List Text → HeaderValue
first_value (value ∷ []) = single value
first_value values = several values

unfoldable pub append : (show : ℕ → Text) → Text → List Text → Response → Option Response
append show name values r = elim (get (lower name) r.headers) [
  | none ↦ set_header name (first_value values) r
  | some current ↦ set_header name (several (all_values show current ++ values)) r
]

unfoldable pub end_raw : Option Payload → Response → Response
end_raw payload r =
    if r.writable_ended
    then record r { late_write = r.late_write || is_some payload }
    else record r { headers_sent = true; writable_ended = true; body = payload }

abbrev pub json_text : Option Text → Text
json_text none = codes "null"
json_text (some text) = text

-- The calls of a handler.
pub data Call : Type 0 where
  sets_status : ℕ → Call
  sets : Text → Text → Call
  appends : Text → List Text → Call
  sets_cookie : (name value : Text) → CookieOptions → Call
  removes : Text → Call
  sends_json : Option Text → Call
  sends_text : Text → Call
  sends_bytes : List ℕ → Call
  redirects : Text → ℕ → Call
  sends_status : ℕ → Call
  ends : Call
  ends_with : Text → Call

module _ (texts : Texts) (is_head : Bool) where
  unfoldable pub send_raw : Payload → (length : ℕ) → Response → Option Response
  send_raw payload length r =
      set_default (codes "content-length") (number length) r
      >>= (λ s. some (end_raw (if is_head then none else some payload) s))

  unfoldable pub json : Option Text → Response → Option Response
  json stringified r =
      set_default (codes "content-type") json_content_type r
      >>= send_raw (text_payload (json_text stringified))
          (texts.byte_length (json_text stringified))

  unfoldable pub send_text : Text → Response → Option Response
  send_text text r =
      set_default (codes "content-type") text_content_type r
      >>= send_raw (text_payload text) (texts.byte_length text)

  unfoldable pub send_bytes : List ℕ → Response → Option Response
  send_bytes bytes r =
      set_default (codes "content-type") (single (codes "application/octet-stream")) r
      >>= send_raw (bytes_payload bytes) (length bytes)

  unfoldable pub redirect : (location : Text) → (code : ℕ) → Response → Option Response
  redirect location code r =
      set_header (codes "location") (single location) (status code r)
      >>= send_text (
          texts.show code
          ++ 32 ∷ texts.status_message code
          ++ codes ". Redirecting to "
          ++ location)

  unfoldable pub send_status : ℕ → Response → Option Response
  send_status code r =
      set_header (codes "content-type") text_content_type (status code r)
      >>= send_text (texts.status_message code)

  unfoldable pub call : Call → Response → Option Response
  call (sets_status code) r = some (status code r)
  call (sets name value) r = set_header name (single value) r
  call (appends name values) r = append texts.show name values r
  call (sets_cookie name value options) r =
      append texts.show (codes "set-cookie")
        (serialize_cookie texts.encode texts.show name value options ∷ []) r
  call (removes name) r = remove name r
  call (sends_json stringified) r = json stringified r
  call (sends_text text) r = send_text text r
  call (sends_bytes bytes) r = send_bytes bytes r
  call (redirects location code) r = redirect location code r
  call (sends_status code) r = send_status code r
  call ends r = some (end_raw none r)
  call (ends_with text) r = send_raw (text_payload text) (texts.byte_length text) r

  -- A handler that makes calls up to one that throws.
  unfoldable pub calls : List Call → Response → Response
  calls [] r = r
  calls (c ∷ cs) r = elim (call c r) [ none ↦ r | some s ↦ calls cs s ]
