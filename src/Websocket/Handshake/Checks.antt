-- ===== src/Websocket/Handshake/Checks.antt =====
-- What a request has passed that handshake.ts upgrades.
use kenojs.Prelude.{
  ◌≡◌, refl, ℕ, ◌*◌, Option_rule, none, ◌∷◌, Bool, true, false, not, Option, List, [], if_rule,
}
use kenojs.Prelude.Text.{Text, same_text, codes}
use kenojs.Shared.Sizes.{parse_size}
use kenojs.Websocket.Handshake.{
  Request, RouteOptions, NegotiatedPerMessageDeflate, Fallible, ok, threw, Session, refused,
  prepared, prepare_web_socket_session,
}
use kenojs.Websocket.Handshake.Upgrading.{
  Node, Answer, destroy, end_response, switch_protocols, Outcome, fails_after, reject_upgrade,
  open_socket, rejected, fails, accepted, has_upgrade, is_lower_text, is_text, is_valid_key,
  or_text, finish_upgrade, upgrade_web_socket,
}

-- The checks of the opening handshake, and a session for the WebSocket.
abbrev pub Checked : RouteOptions → Request → Text → Option NegotiatedPerMessageDeflate → Type 0
Checked o request protocol deflate =
    (same_text request.method (codes "GET") ≡ true)
    × (is_lower_text (request.header (codes "upgrade")) (codes "websocket") ≡ true)
    × (has_upgrade (request.header (codes "connection")) ≡ true)
    × (is_valid_key (request.header (codes "sec-websocket-key")) ≡ true)
    × (is_text (request.header (codes "sec-websocket-version")) (codes "13") ≡ true)
    × ((headers : List (Text × Text)) × ((selected : Option Text) × (prepare_web_socket_session o
              request
            ≡ ok (prepared headers deflate selected))
          × (protocol ≡ or_text selected [])))

-- A refusal is written, or the socket is destroyed because nothing can be written.
abbrev pub IsRefusal : (writable : Bool) → Answer → Type 0
IsRefusal writable (end_response status headers message) = Unit
IsRefusal writable destroy = writable ≡ false
IsRefusal writable _ = ⊥

pub reject_upgrade-IsRefusal :
    (node : Node) (writable : Bool) (status : ℕ) (message : Text) (headers : List (Text × Text))
    → IsRefusal writable (reject_upgrade node writable status message headers)
unfolding reject_upgrade
reject_upgrade-IsRefusal node true status message headers = tt
reject_upgrade-IsRefusal node false status message headers = refl

abbrev pub Accepts : (writable : Bool) → RouteOptions → Request → Outcome → Type 0
Accepts writable o request (rejected answer) = IsRefusal writable answer
Accepts writable o request fails = Unit
Accepts writable o request (fails_after answer) = parse_size o.max_payload (1024 * 1024) ≡ none
Accepts writable o request (accepted answer protocol deflate) =
    ((headers : List (Text × Text)) × ((unshift : Bool) × (answer
          ≡ switch_protocols headers unshift)))
    × Checked o request protocol deflate

true_of_not : (b : Bool) → not b ≡ false → b ≡ true
true_of_not true h = refl
true_of_not false h = cc

-- The header checks alone.
abbrev Passed : Request → Type 0
Passed request =
    (same_text request.method (codes "GET") ≡ true)
    × (is_lower_text (request.header (codes "upgrade")) (codes "websocket") ≡ true)
    × (has_upgrade (request.header (codes "connection")) ≡ true)
    × (is_valid_key (request.header (codes "sec-websocket-key")) ≡ true)
    × (is_text (request.header (codes "sec-websocket-version")) (codes "13") ≡ true)

finished :
    (node : Node) (o : RouteOptions) (writable has_head can_unshift : Bool) (request : Request)
    (key : Text) (session : Fallible Session)
    → prepare_web_socket_session o request ≡ session
    → Passed request
    → Accepts writable o request (finish_upgrade node o writable has_head can_unshift key session)
unfolding finish_upgrade open_socket
finished node o writable has_head can_unshift request key threw s p = tt
finished node o writable has_head can_unshift request key (ok (refused h m st)) s p =
    reject_upgrade-IsRefusal node writable _ _ _
finished node o writable has_head can_unshift request key (ok (prepared headers deflate selected)) s
      (a, b, c, d, e) =
    Option_rule (Accepts writable o request) (parse_size o.max_payload (1024 * 1024)) (λ k. k)
      (λ n k. ((_, (_, refl)), (a, b, c, d, e, (headers, (selected, s, refl)))))

module _ (node : Node) (o : RouteOptions) (writable has_head can_unshift : Bool)
    (request : Request) where
  -- What an outcome says of the request, the options and the socket.
  pub upgrade-Accepts :
      Accepts writable o request (upgrade_web_socket node o writable has_head can_unshift request)
  unfolding upgrade_web_socket
  upgrade-Accepts =
      let P = Accepts writable o request in
      let refused = λ (status : ℕ) (message : Text) (headers : List (Text × Text)).
        reject_upgrade-IsRefusal node writable status message headers in
      if_rule P (not (same_text request.method (codes "GET"))) (λ a. refused _ _ [])
        (λ a.
          if_rule P (not (is_lower_text (request.header (codes "upgrade")) (codes "websocket")))
            (λ b. refused _ _ [])
            (λ b.
              if_rule P (not (has_upgrade (request.header (codes "connection"))))
                (λ c. refused _ _ [])
                (λ c.
                  if_rule P (not (is_valid_key (request.header (codes "sec-websocket-key"))))
                    (λ d. refused _ _ [])
                    (λ d.
                      if_rule P
                        (not
                          (is_text (request.header (codes "sec-websocket-version")) (codes "13")))
                        (λ e. refused _ _ ((codes "Sec-WebSocket-Version", codes "13") ∷ []))
                        (λ e.
                          finished node o writable has_head can_unshift request
                            (or_text (request.header (codes "sec-websocket-key")) [])
                            (prepare_web_socket_session o request) refl
                            (
                              true_of_not _ a,
                              true_of_not _ b,
                              true_of_not _ c,
                              true_of_not _ d,
                              true_of_not _ e,
                            ))))))
