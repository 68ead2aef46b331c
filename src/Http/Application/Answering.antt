-- ===== src/Http/Application/Answering.antt =====
-- That `handleNodeRequest` of src/internal/http/application.ts answers what no handler has answered.
use kenojs.Prelude.{
  ◌≡◌, refl, sym, ap, subst, ◌∙◌, ◌⊎◌, inl, inr, Bool, true, false, not, ◌||◌, Option, none, some,
  String, List, [], ◌∷◌, is_some, if◌then◌else◌, if_rule, arith,
}
use kenojs.Prelude.Maps.{get}
use kenojs.Prelude.Text.{Text, text_key, codes, lower}
use kenojs.Http.Router.{
  Layers, Router, router, RequestScope, DispatchState, returns, Run, Handlers, resolve_tree_route,
}
use kenojs.Http.Router.Dispatching.{dispatch, dispatch_layers, dispatch_direct_route}
use kenojs.Http.RouteTree.{RouteTree, ResolvedRouteTreeMatch}
use kenojs.Http.Router.Worlds.{dispatch-IsGood}
use kenojs.Http.Response.{
  HeaderValue, single, number, text_payload, Payload, json_content_type, json_text, Response, Texts,
  ◌>>=◌, finished, status, set_header, set_default, end_raw, send_raw, json,
}
use kenojs.Http.Application.{
  Thrown, plain_error, resolve_error, set_headers, told, Exchange, send_error, finish, complete,
  try_dispatch_direct_route, handle_node_request,
}

-- An operation succeeds, with a response of a kind.
abbrev Gives : (Response → Type 0) → Option Response → Type 0
Gives D none = ⊥
Gives D (some s) = D s

Gives-then :
    (C D : Response → Type 0) (m : Option Response) (f : Response → Option Response)
    → Gives C m
    → ((s : Response) → C s → Gives D (f s))
    → Gives D (m >>= f)
Gives-then C D none f g h = absurd g
Gives-then C D (some s) f g h = h s g

abbrev IsUnsent : Response → Type 0
IsUnsent r = r.headers_sent ≡ false

abbrev IsFinished : Response → Type 0
IsFinished r = finished r ≡ true

set_header-IsUnsent :
    (name : Text) (value : HeaderValue) (r : Response)
    → IsUnsent r
    → Gives IsUnsent (set_header name value r)
unfolding set_header
set_header-IsUnsent name value r u = if_rule (Gives IsUnsent) r.headers_sent (λ e. cc) (λ e. u)

set_default-IsUnsent :
    (name : Text) (value : HeaderValue) (r : Response)
    → IsUnsent r
    → Gives IsUnsent (set_default name value r)
unfolding set_default
set_default-IsUnsent name value r u =
    if_rule (Gives IsUnsent) (is_some (get (lower name) r.headers)) (λ e. u)
      (λ e. set_header-IsUnsent name value r u)

set_headers-IsUnsent :
    (headers : List (Text × Text)) (r : Response)
    → IsUnsent r
    → Gives IsUnsent (set_headers headers r)
set_headers-IsUnsent [] r u = u
set_headers-IsUnsent ((name, value) ∷ headers) r u =
    Gives-then IsUnsent IsUnsent (set_header name (single value) r) (set_headers headers)
      (set_header-IsUnsent name (single value) r u) (λ s v. set_headers-IsUnsent headers s v)

end_raw-IsFinished : (payload : Option Payload) (r : Response) → IsFinished (end_raw payload r)
unfolding end_raw
end_raw-IsFinished payload r = if_rule IsFinished r.writable_ended (λ e. ground arith) (λ e. refl)

module _ (texts : Texts) (error_json : Text → Text) (is_head : Bool) where
  json-IsFinished :
      (stringified : Option Text) (r : Response)
      → IsUnsent r
      → Gives IsFinished (json texts is_head stringified r)
  unfolding json send_raw
  json-IsFinished stringified r u =
      let text = json_text stringified in
      Gives-then IsUnsent IsFinished (set_default (codes "content-type") json_content_type r)
        (send_raw texts is_head (text_payload text) (texts.byte_length text))
        (set_default-IsUnsent (codes "content-type") json_content_type r u)
        (λ s v.
          Gives-then IsUnsent IsFinished
            (set_default (codes "content-length") (number (texts.byte_length text)) s)
            (λ t. some (end_raw (if is_head then none else some (text_payload text)) t))
            (set_default-IsUnsent (codes "content-length") (number (texts.byte_length text)) s v)
            (λ t w. end_raw-IsFinished (if is_head then none else some (text_payload text)) t))

  -- If the headers of a response are sent, it is finished.
  abbrev pub IsSettled : Response → Type 0
  IsSettled r = (not r.headers_sent || finished r) ≡ true

  unsent : (r : Response) → IsSettled r → finished r ≡ false → IsUnsent r
  unsent r h f = ground arith

  send_error-IsFinished :
      (thrown : Thrown) (r : Response)
      → IsSettled r
      → Gives IsFinished (send_error texts error_json is_head thrown r)
  unfolding send_error
  send_error-IsFinished thrown r h =
      let e = resolve_error texts thrown in
      if_rule (Gives IsFinished) (finished r) (λ f. f)
        (λ f.
          Gives-then IsUnsent IsFinished (set_headers e.headers r)
            (λ s. json texts is_head (some (error_json (told texts e))) (status e.status_code s))
            (set_headers-IsUnsent e.headers r (unsent r h f))
            (λ s u. json-IsFinished (some (error_json (told texts e))) (status e.status_code s) u))

  finish-IsFinished :
      (error : Option Thrown) (r : Response)
      → IsSettled r
      → Gives IsFinished (finish texts error_json is_head error r)
  unfolding finish
  finish-IsFinished (some thrown) r h = send_error-IsFinished thrown r h
  finish-IsFinished none r h =
      if_rule (Gives IsFinished) (finished r) (λ f. f)
        (λ f. json-IsFinished (some (error_json (codes "Not Found"))) (status 404 r) (unsent r h f))

  module _ {H V : Type 0} (hs : Handlers H Thrown (Exchange V)) where
    abbrev pub IsOrderly : Exchange V → Type 0
    IsOrderly world = IsSettled world.response × (world.unhandled ≡ false)

    -- A handler that returned, and did not call `next`, left the world like this.
    abbrev pub LeftByHandler : Exchange V → Type 0
    LeftByHandler world =
        (h : H) × (error : Option Thrown) × (within : RequestScope) × (before : Exchange V)
        × ((hs.call h error within before).0 ≡ returns)
        × (world ≡ (hs.call h error within before).1)

    abbrev pub IsAnswered : Run H Thrown (Exchange V) → Type 0
    IsAnswered run =
        (run.world.unhandled ≡ false) × (IsFinished run.world.response ⊎ LeftByHandler run.world)

    complete-IsAnswered :
        (error : Option Thrown) (run : Run H Thrown (Exchange V))
        → IsOrderly run.world
        → IsAnswered (complete texts error_json is_head error run)
    unfolding complete
    complete-IsAnswered error run (h, u) =
        go (finish texts error_json is_head error run.world.response)
          (finish-IsFinished error run.world.response h)
      where
        go :
            (o : Option Response)
            → Gives IsFinished o
            → IsAnswered (elim o [
              | some r ↦ record run { world = record run.world { response = r } }
              | none ↦
                  elim (send_error texts error_json is_head
                    (plain_error (codes "Cannot set headers after they are sent"))
                    run.world.response) [
                      | some r ↦ record run { world = record run.world { response = r } }
                      | none ↦ record run { world = record run.world { unhandled = true } }
                    ]
            ])
        go none g = absurd g
        go (some s) g = (u, inl g)

    dispatch_directly :
        (ls : Layers H) (tree : RouteTree H) (enabled : Bool) (state : DispatchState)
        (run : Run H Thrown (Exchange V))
        (done : Option Thrown → Run H Thrown (Exchange V) → Run H Thrown (Exchange V))
        (matched : ResolvedRouteTreeMatch H)
        → resolve_tree_route hs.decode_component tree enabled state.method state.pathname
          ≡ some matched
        → dispatch_direct_route hs state matched done run
          ≡ dispatch hs (router ls tree enabled) state done none run
    unfolding dispatch
    dispatch_directly ls tree enabled state run done matched e =
        ap
          (λ o. elim o [
            | none ↦ dispatch_layers hs ls state done none run
            | some found ↦ dispatch_direct_route hs state found done run
          ])
          (sym e)

    -- The route of the tree that is tried first is the one that the dispatch would try first.
    handle-dispatch :
        (app : Router H) (method : String) (path hostname : Text) (run : Run H Thrown (Exchange V))
        → handle_node_request texts error_json is_head hs app method path hostname run
          ≡ dispatch hs app
              (record {
                base_url = [];
                method = method;
                params = [];
                pathname = path;
                hostname = hostname;
              })
              (complete texts error_json is_head)
              none
              run
    unfolding handle_node_request try_dispatch_direct_route
    handle-dispatch (router ls tree enabled) method path hostname run =
        go (resolve_tree_route hs.decode_component tree enabled method path) refl
      where
        state : DispatchState
        state = record {
          base_url = [];
          method = method;
          params = [];
          pathname = path;
          hostname = hostname;
        }

        done : Option Thrown → Run H Thrown (Exchange V) → Run H Thrown (Exchange V)
        done = complete texts error_json is_head

        whole : Run H Thrown (Exchange V)
        whole = dispatch hs (router ls tree enabled) state done none run

        go :
            (o : Option (ResolvedRouteTreeMatch H))
            → resolve_tree_route hs.decode_component tree enabled method path ≡ o
            → (elim (elim o as (λ _. Option (Run H Thrown (Exchange V))) [
              | none ↦ none
              | some matched ↦ some (dispatch_direct_route hs state matched done run)
            ])
                as (λ _. Run H Thrown (Exchange V)) [ some direct ↦ direct | none ↦ whole ])
              ≡ whole
        go none e = refl
        go (some matched) e = dispatch_directly ls tree enabled state run done matched e

    -- If each handler leaves a response with sent headers only when it is finished, and no unhandled rejection,
    -- then a request ends without an unhandled rejection, and a handler that returned without
    -- calling next has left it or the response is finished.
    pub handle_node_request-IsAnswered :
        (app : Router H) (method : String) (path hostname : Text) (run : Run H Thrown (Exchange V))
        → ((h : H) (error : Option Thrown) (within : RequestScope) (world : Exchange V)
            → IsOrderly world
            → IsOrderly (hs.call h error within world).1)
        → IsOrderly run.world
        → IsAnswered (handle_node_request texts error_json is_head hs app method path hostname run)
    handle_node_request-IsAnswered app method path hostname run keeps orderly =
        subst IsAnswered (sym (handle-dispatch app method path hostname run)) (
          dispatch-IsGood hs IsOrderly IsAnswered keeps left app
            (record {
              base_url = [];
              method = method;
              params = [];
              pathname = path;
              hostname = hostname;
            })
            (complete texts error_json is_head) none run complete-IsAnswered orderly)
      where
        left :
            (h : H) (error : Option Thrown) (within : RequestScope) (world : Exchange V)
            (later : Run H Thrown (Exchange V))
            → IsOrderly world
            → (hs.call h error within world).0 ≡ returns
            → later.world ≡ (hs.call h error within world).1
            → IsAnswered later
        left h error within world later k e l = (
          ap (λ w. w.unhandled) l ∙ (keeps h error within world k).1,
          inr (h, error, within, world, e, l),
        )
