-- ===== src/Http/Response/Heads.antt =====
-- How src/internal/http/response.ts answers a HEAD request.
use kenojs.Prelude.{
  ℕ, ◌||◌, ◌≡◌, refl, ap, ◌∙◌, Bool, true, false, Option, none, some, List, [], ◌∷◌, ◌++◌, is_some,
  if◌then◌else◌, length,
}
use kenojs.Prelude.Maps.{get}
use kenojs.Prelude.Text.{Text, text_key, codes, lower}
use kenojs.Shared.Cookies.{serialize_cookie}
use kenojs.Http.Response.{
  HeaderValue, single, several, number, Payload, text_payload, bytes_payload, Response, Texts,
  json_content_type, text_content_type, json_text, ◌>>=◌, status, set_header, set_default, remove,
  append, all_values, first_value, end_raw, send_raw, json, send_text, send_bytes, redirect,
  send_status, Call, sets_status, sets, appends, sets_cookie, removes, sends_json, sends_text,
  sends_bytes, redirects, sends_status, ends, ends_with, call, calls,
}

-- The response without a body, and without the error for a late one.
abbrev pub without_body : Response → Response
without_body r = record r { body = none; late_write = false }

abbrev without_bodies : Option Response → Option Response
without_bodies none = none
without_bodies (some r) = some (without_body r)

-- An operation that does to a response without its body what another one does to the response.
abbrev Agrees : (Response → Option Response) → (Response → Option Response) → Type 0
Agrees f g = (r : Response) → f (without_body r) ≡ without_bodies (g r)

then-Agrees :
    (f g h k : Response → Option Response)
    → Agrees f g
    → Agrees h k
    → Agrees (λ r. f r >>= h) (λ r. g r >>= k)
then-Agrees f g h k a b r = ap (λ o. o >>= h) (a r) ∙ go (g r)
  where
    go : (o : Option Response) → (without_bodies o >>= h) ≡ without_bodies (o >>= k)
    go none = refl
    go (some s) = b s

branches :
    (b : Bool) {x y : Option Response} (x' y' : Option Response)
    → x ≡ without_bodies x'
    → y ≡ without_bodies y'
    → (if b then x else y) ≡ without_bodies (if b then x' else y')
branches true x' y' e f = e
branches false x' y' e f = f

set_header-Agrees :
    (name : Text) (value : HeaderValue) → Agrees (set_header name value) (set_header name value)
unfolding set_header
set_header-Agrees name value r = branches r.headers_sent none (some _) refl refl

set_default-Agrees :
    (name : Text) (value : HeaderValue) → Agrees (set_default name value) (set_default name value)
unfolding set_default
set_default-Agrees name value r =
    branches (is_some (get (lower name) r.headers)) (some r) (set_header name value r) refl
      (set_header-Agrees name value r)

remove-Agrees : (name : Text) → Agrees (remove name) (remove name)
unfolding remove
remove-Agrees name r = branches r.headers_sent none (some _) refl refl

append-Agrees :
    (show : ℕ → Text) (name : Text) (values : List Text)
    → Agrees (append show name values) (append show name values)
unfolding append
append-Agrees show name values r = go (get (lower name) r.headers)
  where
    go :
        (o : Option HeaderValue)
        → (elim o [
          | none ↦ set_header name (first_value values) (without_body r)
          | some current ↦
              set_header name (several (all_values show current ++ values)) (without_body r)
        ])
          ≡ without_bodies (elim o [
            | none ↦ set_header name (first_value values) r
            | some current ↦ set_header name (several (all_values show current ++ values)) r
          ])
    go none = set_header-Agrees name (first_value values) r
    go (some current) = set_header-Agrees name (several (all_values show current ++ values)) r

end_raw-Agrees :
    (payload : Option Payload) → Agrees (λ r. some (end_raw none r)) (λ r. some (end_raw payload r))
unfolding end_raw
end_raw-Agrees payload r = go r.writable_ended
  where
    go :
        (b : Bool)
        → some (
            if b then record (without_body r) { late_write = false } else record (without_body r) {
              headers_sent = true;
              writable_ended = true;
              body = none;
            })
          ≡ some (
              without_body (
                if b
                then record r { late_write = r.late_write || is_some payload }
                else record r { headers_sent = true; writable_ended = true; body = payload }))
    go true = refl
    go false = refl

module _ (texts : Texts) where
  send_raw-Agrees :
      (payload : Payload) (length : ℕ)
      → Agrees (send_raw texts true payload length) (send_raw texts false payload length)
  unfolding send_raw
  send_raw-Agrees payload length =
      then-Agrees (set_default (codes "content-length") (number length))
        (set_default (codes "content-length") (number length)) (λ s. some (end_raw none s))
        (λ s. some (end_raw (some payload) s))
        (set_default-Agrees (codes "content-length") (number length))
        (end_raw-Agrees (some payload))

  -- A type unless there is one, and then a body.
  typed-Agrees :
      (value : HeaderValue) (payload : Payload) (length : ℕ)
      → Agrees
          (λ r. set_default (codes "content-type") value r >>= send_raw texts true payload length)
          (λ r. set_default (codes "content-type") value r >>= send_raw texts false payload length)
  typed-Agrees value payload length =
      then-Agrees (set_default (codes "content-type") value)
        (set_default (codes "content-type") value) (send_raw texts true payload length)
        (send_raw texts false payload length) (set_default-Agrees (codes "content-type") value)
        (send_raw-Agrees payload length)

  send_text-Agrees : (text : Text) → Agrees (send_text texts true text) (send_text texts false text)
  unfolding send_text
  send_text-Agrees text =
      typed-Agrees text_content_type (text_payload text) (texts.byte_length text)

  -- A header and then a text.
  told-Agrees :
      (name : Text) (value : HeaderValue) (text : Text)
      → Agrees
          (λ r. set_header name value r >>= send_text texts true text)
          (λ r. set_header name value r >>= send_text texts false text)
  told-Agrees name value text =
      then-Agrees (set_header name value) (set_header name value) (send_text texts true text)
        (send_text texts false text) (set_header-Agrees name value) (send_text-Agrees text)

  call-Agrees : (c : Call) → Agrees (call texts true c) (call texts false c)
  unfolding call json send_bytes redirect send_status
  call-Agrees (sets_status code) r = refl
  call-Agrees (sets name value) r = set_header-Agrees name (single value) r
  call-Agrees (appends name values) r = append-Agrees texts.show name values r
  call-Agrees (sets_cookie name value options) r =
      append-Agrees texts.show (codes "set-cookie")
        (serialize_cookie texts.encode texts.show name value options ∷ []) r
  call-Agrees (removes name) r = remove-Agrees name r
  call-Agrees (sends_json stringified) r =
      typed-Agrees json_content_type (text_payload (json_text stringified))
        (texts.byte_length (json_text stringified)) r
  call-Agrees (sends_text text) r = send_text-Agrees text r
  call-Agrees (sends_bytes bytes) r =
      typed-Agrees (single (codes "application/octet-stream")) (bytes_payload bytes) (length bytes)
        r
  call-Agrees (redirects location code) r =
      told-Agrees (codes "location") (single location)
        (texts.show code ++ 32 ∷ texts.status_message code ++ codes ". Redirecting to " ++ location)
        (status code r)
  call-Agrees (sends_status code) r =
      told-Agrees (codes "content-type") text_content_type (texts.status_message code)
        (status code r)
  call-Agrees ends r = end_raw-Agrees none r
  call-Agrees (ends_with text) r = send_raw-Agrees (text_payload text) (texts.byte_length text) r

  -- A handler that makes the same calls for a HEAD request as for another one leaves the same response, with
  -- its status, its headers (the length of the body too) and its end, but no body (and no error for one that comes after the end), if it
  -- starts with none.
  pub calls_of_head :
      (cs : List Call) (r : Response)
      → calls texts true cs (without_body r) ≡ without_body (calls texts false cs r)
  unfolding calls
  calls_of_head [] r = refl
  calls_of_head (c ∷ cs) r =
      ap (λ o. elim o [ none ↦ without_body r | some s ↦ calls texts true cs s ]) (call-Agrees c r)
      ∙ go (call texts false c r) (calls_of_head cs)
    where
      go :
          (o : Option Response)
          → ((s : Response)
              → calls texts true cs (without_body s) ≡ without_body (calls texts false cs s))
          → (elim (without_bodies o) [ none ↦ without_body r | some s ↦ calls texts true cs s ])
            ≡ without_body (elim o [ none ↦ r | some s ↦ calls texts false cs s ])
      go none again = refl
      go (some s) again = again s
