-- ===== src/Websocket/Handshake/Protocols.antt =====
-- The protocols that a client asks for and the one that handshake.ts selects.
use kenojs.Prelude.{
  ◌≡◌, refl, subst, true, Option, none, some, List, [], ◌∷◌, ◌++◌, if◌then◌else◌, if_rule,
  Option_rule, Bool-cases, inl, inr, All, arith,
}
use kenojs.Prelude.Text.{Text, same_text, same_text_iff, codes, is_empty, trim, split_on}
use kenojs.Websocket.Handshake.{
  Request, RouteOptions, Fallible, ok, threw, Session, refused, prepared, is_token, contains,
  add_protocol, collect_protocols, parse_protocols, head_of, first_in, chosen, select_protocol,
  prepare_verified, prepare_web_socket_session, normalize_verification_result,
  NegotiatedPerMessageDeflate, negotiate_per_message_deflate,
}

abbrev pub IsToken : Text → Type 0
IsToken s = is_token s ≡ true

add_protocol-All :
    (s : Text) (set : List Text) → IsToken s → All IsToken set → All IsToken (add_protocol s set)
unfolding add_protocol
add_protocol-All s set h v = if_rule (All IsToken) (contains s set) (λ e. v) (λ e. append set v)
  where
    append : (set : List Text) → All IsToken set → All IsToken (set ++ s ∷ [])
    append [] v = (h, tt)
    append (t ∷ ts) (v, vs) = (v, append ts vs)

abbrev Tokens : Option (List Text) → Type 0
Tokens none = Unit
Tokens (some protocols) = All IsToken protocols

collect_protocols-All :
    (entries protocols : List Text)
    → All IsToken protocols
    → Tokens (collect_protocols entries protocols)
unfolding collect_protocols
collect_protocols-All [] protocols v = v
collect_protocols-All (entry ∷ entries) protocols v = elim (Bool-cases (is_empty (trim entry))) [
  | inl e ↦ rw e (collect_protocols-All entries protocols v)
  | inr e ↦ elim (Bool-cases (is_token (trim entry))) [
    | inl f ↦
        rw (e, f)
          (collect_protocols-All entries (add_protocol (trim entry) protocols)
            (add_protocol-All (trim entry) protocols f v))
    | inr f ↦ rw (e, f) tt
  ]
]

parse_protocols-All : (header : Option Text) → Tokens (parse_protocols header)
unfolding parse_protocols
parse_protocols-All none = tt
parse_protocols-All (some value) =
    if_rule Tokens (is_empty value) (λ e. tt) (λ e. collect_protocols-All (split_on 44 value) [] tt)

contains-All : (s : Text) (set : List Text) → contains s set ≡ true → All IsToken set → IsToken s
contains-All s [] h v = cc
contains-All s (t ∷ ts) h (v, vs) = elim (Bool-cases (same_text t s)) [
  | inl e ↦ subst IsToken ((same_text_iff t s).0 e) v
  | inr e ↦ contains-All s ts (ground arith) vs
]

-- A protocol that is selected is one of those that were asked for.
abbrev pub Requested : List Text → Fallible (Option Text) → Type 0
Requested requested threw = Unit
Requested requested (ok none) = Unit
Requested requested (ok (some s)) = contains s requested ≡ true

head_of-Requested : (requested : List Text) → Requested requested (ok (head_of requested))
head_of-Requested [] = tt
head_of-Requested (s ∷ ss) = ground (arith, same_text_iff s s)

first_in-Requested :
    (protocols requested : List Text) → Requested requested (ok (first_in protocols requested))
first_in-Requested [] requested = tt
first_in-Requested (p ∷ ps) requested =
    if_rule (λ o. Requested requested (ok o)) (contains p requested) (λ e. e)
      (λ e. first_in-Requested ps requested)

chosen-Requested :
    (o : Option Text) (requested : List Text) → Requested requested (chosen o requested)
chosen-Requested none requested = tt
chosen-Requested (some s) requested =
    if_rule (Requested requested) (is_empty s) (λ e. tt)
      (λ e. if_rule (Requested requested) (contains s requested) (λ f. f) (λ f. tt))

select_protocol-Requested :
    (o : RouteOptions) (request : Request) (requested : List Text)
    → Requested requested (select_protocol o request requested)
unfolding select_protocol
select_protocol-Requested o request requested = go o.handle_protocols
  where
    go :
        (hook : Option (List Text → Request → Option Text))
        → Requested requested (elim hook [
          | some hook ↦ chosen (hook requested request) requested
          | none ↦
              ok
                (if is_empty o.protocols then head_of requested else first_in o.protocols requested)
        ])
    go (some hook) = chosen-Requested (hook requested request) requested
    go none =
        if_rule (λ p. Requested requested (ok p)) (is_empty o.protocols)
          (λ e. head_of-Requested requested) (λ e. first_in-Requested o.protocols requested)

-- What a prepared session says of its protocol: the client's header asked for it, and it is a token.
abbrev pub Agreed : Request → Fallible Session → Type 0
Agreed request threw = Unit
Agreed request (ok (refused headers message status)) = Unit
Agreed request (ok (prepared extra deflate none)) = Unit
Agreed request (ok (prepared extra deflate (some s))) =
    IsToken s
    × ((requested : List Text) × (parse_protocols (request.header (codes "sec-websocket-protocol"))
          ≡ some requested)
        × (contains s requested ≡ true))

prepare_verified-Agreed :
    (o : RouteOptions) (request : Request) → Agreed request (prepare_verified o request)
unfolding prepare_verified
prepare_verified-Agreed o request = go (parse_protocols (request.header name)) refl
  where
    name : Text
    name = codes "sec-websocket-protocol"

    extensions : Option NegotiatedPerMessageDeflate
    extensions =
        negotiate_per_message_deflate (request.header (codes "sec-websocket-extensions"))
          o.per_message_deflate

    select :
        (requested : List Text)
        → parse_protocols (request.header name) ≡ some requested
        → (r : Fallible (Option Text)) → Requested requested r
        → Agreed request (elim r [
          | threw ↦ threw
          | ok selected ↦ ok (prepared (o.headers request) extensions selected)
        ])
    select requested e threw h = tt
    select requested e (ok none) h = tt
    select requested e (ok (some s)) h = (
      contains-All s requested h (subst Tokens e (parse_protocols-All (request.header name))),
      (requested, e, h),
    )

    go :
        (p : Option (List Text))
        → parse_protocols (request.header name) ≡ p
        → Agreed request (elim p [
          | none ↦ threw
          | some requested ↦ elim (select_protocol o request requested) [
            | threw ↦ threw
            | ok selected ↦ ok (prepared (o.headers request) extensions selected)
          ]
        ])
    go none e = tt
    go (some requested) e =
        select requested e (select_protocol o request requested)
          (select_protocol-Requested o request requested)

-- A WebSocket session is given a protocol only if the client asked for it in its header, and it is a
-- token: whether a hook, the route's list or the client's order selects it.
pub prepare_web_socket_session-Agreed :
    (o : RouteOptions) (request : Request) → Agreed request (prepare_web_socket_session o request)
unfolding prepare_web_socket_session
prepare_web_socket_session-Agreed o request =
    Option_rule (Agreed request) o.verify_client (λ e. prepare_verified-Agreed o request)
      (λ verify e.
        if_rule (Agreed request) (normalize_verification_result (verify request)).ok
          (λ f. prepare_verified-Agreed o request) (λ f. tt))
