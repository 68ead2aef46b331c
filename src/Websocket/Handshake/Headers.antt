-- ===== src/Websocket/Handshake/Headers.antt =====
-- What handshake.ts writes as headers.
use kenojs.Prelude.{
  ℕ, ◌≡◌, refl, ap, Bool, true, false, not, ◌||◌, Option, none, some, [], ◌∷◌, ◌++◌, ◌==◌, ==_iff,
  if_rule, Option_rule, ◌*◌, Bool-cases, inl, inr, All, arith,
}
use kenojs.Prelude.Maps.{set}
use kenojs.Prelude.Text.{Text, same_text, text_key, codes, is_empty, includes, lower}
use kenojs.Shared.Sizes.{parse_size}
use kenojs.Websocket.Handshake.{
  Headers, Request, RouteOptions, Fallible, ok, threw, Session, refused, prepared,
  NegotiatedPerMessageDeflate, is_token_char, all_of, is_token, per_message_deflate_response_header,
  prepare_web_socket_session, contains,
}
use kenojs.Websocket.Handshake.Upgrading.{
  is_safe_header, sanitize_http1_headers, sanitize_http2, sanitize_http2_headers, Node, Answer,
  destroy, nothing, close_stream, open_socket, end_response, switch_protocols, respond, Outcome,
  rejected, fails, fails_after, accepted, spread, reject_upgrade, reject_extended_connect,
  or_headers, protocol_header, extension_header, is_lower_text, is_valid_key, is_text, has_upgrade,
  finish_upgrade, upgrade_web_socket, finish_extended_connect, accept_extended_connect_web_socket,
  http2_forbidden_response_headers,
}
use kenojs.Websocket.Handshake.Protocols.{IsToken, Agreed, prepare_web_socket_session-Agreed}

-- No carriage return and no line feed: the text stays within its header line.
unfoldable pub one_line : Text → Bool
one_line s = not (includes 13 s || includes 10 s)

abbrev pub IsClean : Text × Text → Type 0
IsClean (name, value) = (one_line name ≡ true) × (one_line value ≡ true)

token_char_ne : (c d : ℕ) → is_token_char d ≡ false → is_token_char c ≡ true → (c == d) ≡ false
token_char_ne c d f h = elim (Bool-cases (c == d)) [
  | inl e ↦ absurd (cc (f, h, ap is_token_char ((==_iff c d).0 e)))
  | inr e ↦ e
]

not_control : (is_token_char 13 ≡ false) × (is_token_char 10 ≡ false)
unfolding is_token_char
not_control = (refl, refl)

all_of-one_line : (s : Text) → all_of is_token_char s ≡ true → one_line s ≡ true
unfolding one_line
all_of-one_line [] h = refl
all_of-one_line (c ∷ cs) h =
    ground (
      arith,
      token_char_ne c 13 not_control.0,
      token_char_ne c 10 not_control.1,
      all_of-one_line cs,
    )

token-one_line : (s : Text) → is_token s ≡ true → one_line s ≡ true
unfolding is_token
token-one_line s h = all_of-one_line s (ground arith)

lower-one_line : (s : Text) → one_line s ≡ true → one_line (lower s) ≡ true
unfolding one_line
lower-one_line [] h = refl
lower-one_line (c ∷ cs) h = ground (arith, lower-one_line cs)

set-All :
    (name value : Text) (headers : Headers)
    → IsClean (name, value)
    → All IsClean headers
    → All IsClean (set name value headers)
unfolding set
set-All name value [] c v = (c, tt)
set-All name value ((n, w) ∷ headers) c (v, vs) =
    if_rule (All IsClean) (same_text n name) (λ e. ((v.0, c.1), vs))
      (λ e. (v, set-All name value headers c vs))

spread-All :
    (base others : Headers)
    → All IsClean base
    → All IsClean others
    → All IsClean (spread base others)
spread-All base [] v w = v
spread-All base ((name, value) ∷ others) v (w, ws) =
    spread-All (set name value base) others (set-All name value base w v) ws

append-All : (xs ys : Headers) → All IsClean xs → All IsClean ys → All IsClean (xs ++ ys)
append-All [] ys v w = w
append-All (x ∷ xs) ys (v, vs) w = (v, append-All xs ys vs w)

safe-IsClean : (name value : Text) → is_safe_header name value ≡ true → IsClean (name, value)
unfolding is_safe_header one_line
safe-IsClean name value h = (token-one_line name (ground arith), ground arith)

sanitize_http1_headers-All : (headers : Headers) → All IsClean (sanitize_http1_headers headers)
unfolding sanitize_http1_headers
sanitize_http1_headers-All [] = tt
sanitize_http1_headers-All ((name, value) ∷ headers) =
    if_rule (All IsClean) (is_safe_header name value)
      (λ e. (safe-IsClean name value e, sanitize_http1_headers-All headers))
      (λ e. sanitize_http1_headers-All headers)

sanitize_http2-All :
    (headers sanitized : Headers)
    → All IsClean sanitized
    → All IsClean (sanitize_http2 headers sanitized)
unfolding sanitize_http2
sanitize_http2-All [] sanitized v = v
sanitize_http2-All ((name, value) ∷ headers) sanitized v = sanitize_http2-All headers _ (
    if_rule (All IsClean)
      (not (is_safe_header name value) || contains (lower name) http2_forbidden_response_headers)
      (λ e. v)
      (λ e.
        let clean = safe-IsClean name value (ground arith) in
        set-All (lower name) value sanitized (lower-one_line name clean.0, clean.1) v))

-- Whether all header lines of an answer are clean.
abbrev pub CleanAnswer : Answer → Type 0
CleanAnswer destroy = Unit
CleanAnswer nothing = Unit
CleanAnswer close_stream = Unit
CleanAnswer (end_response status headers message) = All IsClean headers
CleanAnswer (switch_protocols headers unshift) = All IsClean headers
CleanAnswer (respond status headers) = All IsClean headers

abbrev pub CleanOutcome : Outcome → Type 0
CleanOutcome (rejected answer) = CleanAnswer answer
CleanOutcome fails = Unit
CleanOutcome (fails_after answer) = CleanAnswer answer
CleanOutcome (accepted answer protocol deflate) = CleanAnswer answer

module _ (node : Node) (o : RouteOptions)
    (lengths : (s : Text) → one_line (node.byte_length s) ≡ true)
    (hashes : (key : Text) → one_line (node.accept_value key) ≡ true) where
  reject_upgrade-CleanAnswer :
      (writable : Bool) (status : ℕ) (message : Text) (headers : Headers)
      → CleanAnswer (reject_upgrade node writable status message headers)
  unfolding reject_upgrade one_line
  reject_upgrade-CleanAnswer false status message headers = tt
  reject_upgrade-CleanAnswer true status message headers =
      spread-All _ (sanitize_http1_headers headers)
        ((refl, refl), ((refl, lengths message), ((refl, refl), tt)))
        (sanitize_http1_headers-All headers)

  reject_extended_connect-CleanAnswer :
      (destroyed : Bool) (status : ℕ) (message : Text) (headers : Headers)
      → CleanAnswer (reject_extended_connect node destroyed status message headers)
  unfolding reject_extended_connect sanitize_http2_headers one_line
  reject_extended_connect-CleanAnswer true status message headers = tt
  reject_extended_connect-CleanAnswer false status message headers =
      spread-All _ (sanitize_http2_headers headers) ((refl, lengths message), ((refl, refl), tt))
        (sanitize_http2-All headers [] tt)

  prepared_lines :
      (name : Text) (protocol : Option Text)
      → one_line name ≡ true
      → ((s : Text) → protocol ≡ some s → IsToken s)
      → All IsClean (protocol_header name protocol)
  prepared_lines name none n h = tt
  prepared_lines name (some s) n h =
      if_rule (All IsClean) (is_empty s) (λ e. tt) (λ e. ((n, token-one_line s (h s refl)), tt))

  extension_line :
      (name : Text) (deflate : Option NegotiatedPerMessageDeflate)
      → one_line name ≡ true
      → All IsClean (extension_header name deflate)
  unfolding one_line per_message_deflate_response_header
  extension_line name none n = tt
  extension_line name (some d) n = ((n, refl), tt)

  open_socket-Clean :
      (answer : Answer) (protocol : Text) (deflate : Option NegotiatedPerMessageDeflate)
      → CleanAnswer answer
      → CleanOutcome (open_socket o answer protocol deflate)
  unfolding open_socket
  open_socket-Clean answer protocol deflate v =
      Option_rule CleanOutcome (parse_size o.max_payload (1024 * 1024)) (λ e. v) (λ n e. v)

  finish_upgrade-Clean :
      (writable has_head can_unshift : Bool) (request : Request) (key : Text)
      (session : Fallible Session)
      → Agreed request session
      → CleanOutcome (finish_upgrade node o writable has_head can_unshift key session)
  unfolding finish_upgrade one_line
  finish_upgrade-Clean writable has_head can_unshift request key threw g = tt
  finish_upgrade-Clean writable has_head can_unshift request key
        (ok (refused headers message status)) g =
      reject_upgrade-CleanAnswer writable _ _ (or_headers headers)
  finish_upgrade-Clean writable has_head can_unshift request key
        (ok (prepared extra deflate protocol)) g =
      open_socket-Clean _ _ _ (
        (refl, refl),
        (
          (refl, refl),
          (
            (refl, hashes key),
            append-All _ _ (prepared_lines _ protocol refl (tokens protocol g))
                (append-All _ _ (extension_line _ deflate refl) (sanitize_http1_headers-All extra)),
          ),
        ),
      )
    where
      tokens :
          (p : Option Text)
          → Agreed request (ok (prepared extra deflate p))
          → (s : Text) → p ≡ some s
          → IsToken s
      tokens none g s e = cc
      tokens (some t) g s e = ground arith

  finish_extended_connect-Clean :
      (destroyed : Bool) (request : Request) (session : Fallible Session)
      → Agreed request session
      → CleanOutcome (finish_extended_connect node o destroyed session)
  unfolding finish_extended_connect sanitize_http2_headers one_line
  finish_extended_connect-Clean destroyed request threw g = tt
  finish_extended_connect-Clean destroyed request (ok (refused headers message status)) g =
      reject_extended_connect-CleanAnswer destroyed _ _ (or_headers headers)
  finish_extended_connect-Clean destroyed request (ok (prepared extra deflate protocol)) g =
      open_socket-Clean _ _ _ (
        spread-All _ (sanitize_http2_headers extra)
          (append-All _ _ (prepared_lines _ protocol refl (tokens protocol g))
            (extension_line _ deflate refl))
          (sanitize_http2-All extra [] tt))
    where
      tokens :
          (p : Option Text)
          → Agreed request (ok (prepared extra deflate p))
          → (s : Text) → p ≡ some s
          → IsToken s
      tokens none g s e = cc
      tokens (some t) g s e = ground arith

  upgrade-Clean :
      (writable has_head can_unshift : Bool) (request : Request)
      → CleanOutcome (upgrade_web_socket node o writable has_head can_unshift request)
  unfolding upgrade_web_socket
  upgrade-Clean writable has_head can_unshift request =
      let refused = λ (status : ℕ) (message : Text) (headers : Headers).
        reject_upgrade-CleanAnswer writable status message headers in
      if_rule CleanOutcome (not (same_text request.method (codes "GET"))) (λ e. refused _ _ [])
        (λ e.
          if_rule CleanOutcome
            (not (is_lower_text (request.header (codes "upgrade")) (codes "websocket")))
            (λ e. refused _ _ [])
            (λ e.
              if_rule CleanOutcome (not (has_upgrade (request.header (codes "connection"))))
                (λ e. refused _ _ [])
                (λ e.
                  if_rule CleanOutcome
                    (not (is_valid_key (request.header (codes "sec-websocket-key"))))
                    (λ e. refused _ _ [])
                    (λ e.
                      if_rule CleanOutcome
                        (not
                          (is_text (request.header (codes "sec-websocket-version")) (codes "13")))
                        (λ e. refused _ _ ((codes "Sec-WebSocket-Version", codes "13") ∷ []))
                        (λ e.
                          finish_upgrade-Clean writable has_head can_unshift request _
                            (prepare_web_socket_session o request)
                            (prepare_web_socket_session-Agreed o request))))))

  connect-Clean :
      (destroyed : Bool) (request : Request)
      → CleanOutcome (accept_extended_connect_web_socket node o destroyed request)
  unfolding accept_extended_connect_web_socket
  connect-Clean destroyed request =
      if_rule CleanOutcome (not (same_text request.method (codes "CONNECT")))
        (λ e. reject_extended_connect-CleanAnswer destroyed _ _ [])
        (λ e.
          if_rule CleanOutcome
            (not (is_lower_text (request.header (codes ":protocol")) (codes "websocket")))
            (λ e. reject_extended_connect-CleanAnswer destroyed _ _ [])
            (λ e.
              if_rule CleanOutcome
                (not (is_text (request.header (codes "sec-websocket-version")) (codes "13")))
                (λ e.
                  reject_extended_connect-CleanAnswer destroyed _ _
                    ((codes "sec-websocket-version", codes "13") ∷ []))
                (λ e.
                  finish_extended_connect-Clean destroyed request
                    (prepare_web_socket_session o request)
                    (prepare_web_socket_session-Agreed o request))))

  -- No upgrade can split the response: in whatever is written for a request, rejected or accepted,
  -- over HTTP/1 or HTTP/2, no header name or value has a line end, whatever the route's headers and
  -- hooks return. The texts of lengths and hashes, which Node.js makes, have none.
  pub upgrade-CleanOutcome :
      (writable has_head can_unshift destroyed : Bool) (request : Request)
      → CleanOutcome (upgrade_web_socket node o writable has_head can_unshift request)
        × CleanOutcome (accept_extended_connect_web_socket node o destroyed request)
  upgrade-CleanOutcome writable has_head can_unshift destroyed request =
      (upgrade-Clean writable has_head can_unshift request, connect-Clean destroyed request)
