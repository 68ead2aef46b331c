-- ===== src/Http/Router/Outcomes.antt =====
-- What the calls of handlers in src/internal/http/router.ts leave of a run, and how they compose.
use kenojs.Prelude.{
  ◌≡◌, refl, sym, ap, ◌∙◌, subst, Bool, true, false, Option, none, some, List, [], ◌∷◌, ◌++◌,
  is_some, String,
}
use mathlib.Core.List.{append_assoc, append-nil}
use kenojs.Prelude.Text.{Text}
use kenojs.Http.Matching.{PathMatcher}
use kenojs.Http.RouteTree.{ResolvedRouteTreeMatch}
use kenojs.Http.Router.{
  Params, merge, middleware, route, static, RequestScope, DispatchState, Ending, returns,
  calls_next, throws, Called, Run, Handlers,
}
use kenojs.Http.Router.Dispatching.{
  takes_error, restore, continue_with, invoke_handler, after_direct, direct_handlers,
  dispatch_direct_route,
}
use kenojs.Http.Router.Traces.{
  FollowsHandlers, stopped, called, FollowsLayer, by_middleware, by_route, by_static,
}

-- From one run to another with calls that are allowed, and with the same scope if it is kept.
pub record Goes {H E W : Type 0} (Allowed : List (Called H E) → Type 0) (kept : Bool)
    (run later : Run H E W) : Type 0 where
  pub added : List (Called H E)
  pub calls_added : later.calls ≡ run.calls ++ added
  pub allowed : Allowed added
  pub scope_kept : kept ≡ true → later.request_scope ≡ run.request_scope

-- A handler ends the request, or what follows goes on from a later run, once.
pub data Outcome {H E W S : Type 0} (Allowed : List (Called H E) → Type 0) (kept : Bool)
    (run : Run H E W) (next : S → Option E → Run H E W → Run H E W) : Run H E W → Type 0 where
  final : {later : Run H E W} → Goes Allowed kept run later → Outcome Allowed kept run next later
  passed :
      (s : S) (error : Option E) (later : Run H E W)
      → Goes Allowed kept run later
      → Outcome Allowed kept run next (next s error later)

module _ {H E W S : Type 0} {Allowed : List (Called H E) → Type 0} {kept : Bool}
    {next : S → Option E → Run H E W → Run H E W} where
  -- Nothing is called.
  pub pass_on :
      (s : S) (error : Option E) (run : Run H E W)
      → Allowed []
      → Outcome Allowed kept run next (next s error run)
  pass_on s error run a = passed s error run (record {
    added = [];
    calls_added = sym (append-nil run.calls);
    allowed = a;
    scope_kept = λ k. refl;
  })

  pub widen :
      {Wider : List (Called H E) → Type 0} {run later : Run H E W} {whole : Bool}
      → ((cs : List (Called H E)) → Allowed cs → Wider cs)
      → (whole ≡ true → kept ≡ true)
      → Outcome Allowed kept run next later
      → Outcome Wider whole run next later
  widen f k (final g) = final (record {
    added = g.added;
    calls_added = g.calls_added;
    allowed = f g.added g.allowed;
    scope_kept = λ w. g.scope_kept (k w);
  })
  widen f k (passed s error later g) = passed s error later (record {
    added = g.added;
    calls_added = g.calls_added;
    allowed = f g.added g.allowed;
    scope_kept = λ w. g.scope_kept (k w);
  })

module _ {H E W : Type 0} {First Second Both : List (Called H E) → Type 0}
    {kept_first kept_second kept : Bool}
    (both : (cs ds : List (Called H E)) → First cs → Second ds → Both (cs ++ ds))
    (nothing : Second []) (k : kept ≡ true → (kept_first ≡ true) × (kept_second ≡ true)) where
  Goes-both :
      {run middle later : Run H E W}
      → Goes First kept_first run middle
      → Goes Second kept_second middle later
      → Goes Both kept run later
  Goes-both {run} {middle} {later} g h = record {
    added = g.added ++ h.added;
    calls_added =
        h.calls_added
        ∙ ap (λ cs. cs ++ h.added) g.calls_added
        ∙ append_assoc run.calls g.added h.added;
    allowed = both g.added h.added g.allowed h.allowed;
    scope_kept = λ w. h.scope_kept ((k w).1) ∙ g.scope_kept ((k w).0);
  }

  Goes-first : {run later : Run H E W} → Goes First kept_first run later → Goes Both kept run later
  Goes-first {later = later} g = Goes-both g (record {
    added = [];
    calls_added = sym (append-nil later.calls);
    allowed = nothing;
    scope_kept = λ w. refl;
  })

  pub after_outcome :
      {S T : Type 0} {next : S → Option E → Run H E W → Run H E W}
      {done : T → Option E → Run H E W → Run H E W} {run later : Run H E W}
      → Outcome First kept_first run next later
      → ((s : S) (error : Option E) (middle : Run H E W)
          → Outcome Second kept_second middle done (next s error middle))
      → Outcome Both kept run done later
  after_outcome {done = done} {run = run} (final g) f = final (Goes-first g)
  after_outcome {done = done} {run = run} (passed s error middle g) f = go (f s error middle)
    where
      go :
          {later : Run H E W}
          → Outcome Second kept_second middle done later
          → Outcome Both kept run done later
      go (final h) = final (Goes-both g h)
      go (passed t error' later h) = passed t error' later (Goes-both g h)

-- One call of a handler.
abbrev Single : {H E : Type 0} → H → Option E → List (Called H E) → Type 0
Single {H} {E} h error cs = (c : Called H E) × (c.handler ≡ h) × (c.error ≡ error) × (cs ≡ c ∷ [])

module _ {H E W S : Type 0} (hs : Handlers H E W)
    (next : S → Option E → Run H E W → Run H E W) where
  -- After the call the scope is what it was.
  pub invoke_handler-Outcome :
      (h : H) (state : DispatchState) (params : Params) (route_path : Text) (s : S)
      (error : Option E) (run : Run H E W)
      → Outcome
          (Single h error)
          true
          run
          next
          (invoke_handler hs h state params route_path (next s) error run)
  unfolding invoke_handler
  invoke_handler-Outcome h state params route_path s error run =
      go (hs.call h error within run.world).0 (hs.call h error within run.world).1
    where
      within : RequestScope
      within = record { base_url = state.base_url; params = params; route_path = route_path }

      call : Called H E
      call = record { handler = h; error = error; within = within }

      after : W → Run H E W
      after w = record {
        request_scope = run.request_scope;
        world = w;
        calls = run.calls ++ call ∷ [];
      }

      one : (w : W) → Goes (Single h error) true run (after w)
      one w = record {
        added = call ∷ [];
        calls_added = refl;
        allowed = (call, refl, refl, refl);
        scope_kept = λ w. refl;
      }

      go :
          (ending : Ending E) (w : W)
          → Outcome (Single h error) true run next (continue_with hs (next s) ending (after w))
      go returns w = final (one w)
      go (calls_next e) w = passed s e (after w) (one w)
      go (throws e) w = passed s (some e) (after w) (one w)

  direct_handlers-Outcome :
      (handlers : List H) (within : RequestScope) (s : S) (run : Run H E W)
      → Outcome
          (FollowsHandlers handlers)
          false
          run
          next
          (direct_handlers hs handlers within (next s) run)
  unfolding direct_handlers
  direct_handlers-Outcome [] within s run = pass_on s none run stopped
  direct_handlers-Outcome (h ∷ others) within s run =
      go (λ middle. direct_handlers-Outcome others within s middle)
        (hs.call h none within run.world).0 (hs.call h none within run.world).1
    where
      call : Called H E
      call = record { handler = h; error = none; within = within }

      after : W → Run H E W
      after w = record { request_scope = within; world = w; calls = run.calls ++ call ∷ [] }

      one : (w : W) → Goes (Single h none) false run (after w)
      one w = record {
        added = call ∷ [];
        calls_added = refl;
        allowed = (call, refl, refl, refl);
        scope_kept = λ k. cc;
      }

      both :
          (cs ds : List (Called H E))
          → Single h none cs
          → FollowsHandlers others ds
          → FollowsHandlers (h ∷ others) (cs ++ ds)
      both cs ds (c, e, f, g) follows =
          subst (λ cs. FollowsHandlers (h ∷ others) (cs ++ ds)) (sym g) (called e f follows)

      first : (w : W) → Goes (FollowsHandlers (h ∷ others)) false run (after w)
      first w = Goes-first both stopped (λ k. (k, k)) (one w)

      go :
          ((middle : Run H E W)
            → Outcome
                (FollowsHandlers others)
                false
                middle
                next
                (direct_handlers hs others within (next s) middle))
          → (ending : Ending E) (w : W)
          → Outcome (FollowsHandlers (h ∷ others)) false run next (
              after_direct hs (direct_handlers hs others within (next s)) (next s) ending (after w))
      go more returns w = final (first w)
      go more (throws e) w = passed s (some e) (after w) (first w)
      go more (calls_next (some e)) w = passed s (some e) (after w) (first w)
      go more (calls_next none) w =
          after_outcome both stopped (λ k. (k, k))
            {next = λ (u : Unit) e r. direct_handlers hs others within (next s) r}
            (passed tt none (after w) (one w)) (λ u e middle. more middle)

  pub dispatch_direct_route-Outcome :
      (state : DispatchState) (matched : ResolvedRouteTreeMatch H) (s : S) (run : Run H E W)
      → Outcome
          (FollowsHandlers matched.handlers)
          false
          run
          next
          (dispatch_direct_route hs state matched (next s) run)
  unfolding dispatch_direct_route
  dispatch_direct_route-Outcome state matched s run =
      go (direct_handlers-Outcome matched.handlers within s (restore hs within run))
    where
      within : RequestScope
      within = record {
        base_url = state.base_url;
        params = merge state.params matched.params;
        route_path = matched.path;
      }

      again :
          {later : Run H E W}
          → Goes (FollowsHandlers matched.handlers) false (restore hs within run) later
          → Goes (FollowsHandlers matched.handlers) false run later
      again g = record {
        added = g.added;
        calls_added = g.calls_added;
        allowed = g.allowed;
        scope_kept = λ k. cc;
      }

      go :
          {later : Run H E W}
          → Outcome (FollowsHandlers matched.handlers) false (restore hs within run) next later
          → Outcome (FollowsHandlers matched.handlers) false run next later
      go (final g) = final (again g)
      go (passed u e later g) = passed u e later (again g)

pub Single-route :
    {H E : Type 0} {h : H} {matcher : PathMatcher} {method : String} {path : Text}
    {cs : List (Called H E)}
    → Single h none cs
    → FollowsLayer (route h matcher method path) cs
Single-route {h = h} {matcher} {method} {path} (c, e, f, g) =
    subst (FollowsLayer (route h matcher method path)) (sym g) (by_route c e f)

pub Single-static :
    {H E : Type 0} {h : H} {mount_path path : Text} {cs : List (Called H E)}
    → Single h none cs
    → FollowsLayer (static mount_path path h) cs
Single-static {h = h} {mount_path} {path} (c, e, f, g) =
    subst (FollowsLayer (static mount_path path h)) (sym g) (by_static c e f)

is_some-takes_error :
    {E : Type 0} (b : Bool) (error : Option E) → takes_error b error ≡ true → is_some error ≡ b
is_some-takes_error true error h = h
is_some-takes_error false none h = refl
is_some-takes_error false (some e) h = cc

pub Single-middleware :
    {H E : Type 0} {h : H} {is_error_handler : Bool} {matcher : PathMatcher} {path : Text}
    {error : Option E} {cs : List (Called H E)}
    → takes_error is_error_handler error ≡ true
    → Single h error cs
    → FollowsLayer (middleware h is_error_handler matcher path) cs
Single-middleware {h = h} {is_error_handler} {matcher} {path} {error} t (c, e, f, g) =
    subst (FollowsLayer (middleware h is_error_handler matcher path)) (sym g)
      (by_middleware c e (ap is_some f ∙ is_some-takes_error is_error_handler error t))
