-- ===== src/Client/Execution/Middleware.antt =====
-- `runMiddlewares` of src/internal/client/http.ts. A middleware is a function of `next` and of the world, which
-- the request and all that `fetch` reaches are part of; it may call `next` any number of times.
use kenojs.Prelude.{◌≡◌, refl, ap, List, [], ◌∷◌, ◌++◌}

-- What makes a response in a world.
abbrev pub Sender : (R W : Type 0) → Type 0
Sender R W = W → R × W

abbrev pub HttpClientMiddleware : (R W : Type 0) → Type 0
HttpClientMiddleware R W = Sender R W → Sender R W

unfoldable pub run_middlewares :
    {R W : Type 0} → List (HttpClientMiddleware R W) → (fetch : Sender R W) → Sender R W
run_middlewares [] fetch = fetch
run_middlewares (middleware ∷ others) fetch = middleware (run_middlewares others fetch)

-- The middleware of a client that extends another one, which comes after that of the other.
pub run_middlewares-append :
    {R W : Type 0} (ms ns : List (HttpClientMiddleware R W)) (fetch : Sender R W)
    → run_middlewares (ms ++ ns) fetch ≡ run_middlewares ms (run_middlewares ns fetch)
unfolding run_middlewares
run_middlewares-append [] ns fetch = refl
run_middlewares-append (m ∷ ms) ns fetch = ap m (run_middlewares-append ms ns fetch)
