-- ===== src/Client/Sockets.antt =====
-- src/internal/client/websocket.ts: a client as a machine whose inputs are the calls of its methods and what
-- happens to its sockets and timers. A socket and a timer have numbers; numbers of milliseconds are
-- natural. The listeners of the client's events do not call it, and a promise settles with its cause.
pub mod Attempts
pub mod Exhausting
pub mod Invariant
pub mod Messages
pub mod Announcing
pub mod Closing
mod Tests
use kenojs.Prelude.{
  ℕ, zero, suc, ◌+◌, ◌-◌, ◌*◌, ◌^◌, Bool, true, false, Option, none, some, List, [], ◌∷◌, ◌++◌,
  ◌==◌, leb, if◌then◌else◌,
}
use kenojs.Client.Retry.{Fraction}
use kenojs.Client.Retry.Reconnects.{ResolvedWebSocketRetryOptions, calculate_web_socket_retry_delay}

-- A run of `openWithRetries` with its latest socket, and whether `connect` waits for it.
pub record Opening : Type 0 where
  pub socket : ℕ
  pub attempt : ℕ
  pub by_connect : Bool

-- A socket that was attached and is not closed.
pub record Attached : Type 0 where
  pub socket : ℕ
  pub is_open : Bool

-- A timer that reconnects.
pub record Timer : Type 0 where
  pub handle : ℕ
  pub next_attempt : ℕ

pub data Effect : Type 0 where
  creates : (socket attempt : ℕ) → Effect
  emits_open : Effect
  emits_close : Effect
  emits_retry : (attempt delay_ms : ℕ) → Effect
  emits_error : Effect
  connect_resolves connect_rejects : Effect
  sends closes : (socket : ℕ) → Effect
  send_throws : Effect

pub record Client : Type 0 where
  -- There is a `connectPromise`.
  pub connecting : Bool
  pub current_attempt : ℕ
  pub explicit_close : Bool
  pub reconnect_timer : Option ℕ
  pub socket : Option ℕ
  -- The runs that wait for their sockets, and those that wait for a delay.
  pub opening : List Opening
  pub delaying : List Opening
  pub attached : List Attached
  pub timers : List Timer
  -- The number of the next socket, and of the next timer.
  pub next_socket : ℕ
  pub next_timer : ℕ
  -- The oldest first.
  pub log : List Effect

pub data Input : Type 0 where
  connect_called close_called send_called : Input
  -- A socket that is connecting opens, or fails or closes instead.
  opens : (socket : ℕ) → Input
  fails : (socket : ℕ) → Fraction → Input
  -- The other side begins to close an attached socket, and one is closed.
  begins_closing : (socket : ℕ) → Input
  is_closed : (socket : ℕ) → Fraction → Input
  -- The delay after a socket is over, and a timer fires.
  delay_over : (socket : ℕ) → Input
  timer_fires : (handle : ℕ) → Input

abbrev pub put {ℓ} : {A : Type ℓ} → A → Option (A × List A) → Option (A × List A)
put a none = none
put a (some (b, rest)) = some (b, a ∷ rest)

-- The first element with a number, and the others.
unfoldable pub take_by {ℓ} : {A : Type ℓ} → (A → ℕ) → ℕ → List A → Option (A × List A)
take_by number n [] = none
take_by number n (a ∷ l) =
    let later = put a (take_by number n l) in if number a == n then some (a, l) else later

unfoldable pub begin_closing : ℕ → List Attached → List Attached
begin_closing n [] = []
begin_closing n (a ∷ l) =
    let rest = begin_closing n l in
    if a.socket == n then record a { is_open = false } ∷ l else a ∷ rest

-- `clearTimeout`, without effect if the timer has fired.
abbrev pub clear_timeout : ℕ → List Timer → List Timer
clear_timeout n timers = elim (take_by (λ (t : Timer). t.handle) n timers) [
  | none ↦ timers
  | some (t, rest) ↦ rest
]

unfoldable pub clear_reconnect_timer : Client → Client
clear_reconnect_timer c = elim c.reconnect_timer [
  | none ↦ c
  | some n ↦ record c { reconnect_timer = none; timers = clear_timeout n c.timers }
]

-- Whether the `readyState` of the socket is OPEN.
abbrev pub is_open_in : List Attached → ℕ → Bool
is_open_in attached n = elim (take_by (λ (a : Attached). a.socket) n attached) [
  | none ↦ false
  | some (a, rest) ↦ a.is_open
]

unfoldable pub is_open : Client → Bool
is_open c = elim c.socket [ none ↦ false | some n ↦ is_open_in c.attached n ]

-- A run of `openWithRetries` is over; what it throws is passed on by `connect` or emitted.
unfoldable pub settle : (by_connect succeeded : Bool) → Client → Client
settle true true c = record c { connecting = false; log = c.log ++ connect_resolves ∷ [] }
settle true false c = record c { connecting = false; log = c.log ++ connect_rejects ∷ [] }
settle false true c = c
settle false false c = record c { log = c.log ++ emits_error ∷ [] }

unfoldable pub close : Client → Client
close c =
    let cleared = clear_reconnect_timer (record c { explicit_close = true }) in
    elim c.socket [
      | none ↦ cleared
      | some n ↦ record cleared {
        attached = begin_closing n c.attached;
        log = cleared.log ++ closes n ∷ [];
      }
    ]

unfoldable pub send : Client → Client
send c = elim c.socket [
  | none ↦ record c { log = c.log ++ send_throws ∷ [] }
  | some n ↦
      if is_open_in c.attached n
      then record c { log = c.log ++ sends n ∷ [] }
      else record c { log = c.log ++ send_throws ∷ [] }
]

-- `attachSocket`.
unfoldable pub attach_socket : ℕ → Client → Client
attach_socket n c = record c {
  socket = some n;
  attached = record { socket = n; is_open = true } ∷ c.attached;
  log = c.log ++ emits_open ∷ [];
}

module _ (retry : ResolvedWebSocketRetryOptions) where
  -- The `for` loop from an attempt on, to where it waits for its socket.
  unfoldable pub open_with_retries : (by_connect : Bool) → (attempt : ℕ) → Client → Client
  open_with_retries by_connect attempt c =
      if leb attempt retry.attempts
      then record c {
        current_attempt = attempt;
        next_socket = suc c.next_socket;
        opening =
            record { socket = c.next_socket; attempt = attempt; by_connect = by_connect }
            ∷ c.opening;
        log = c.log ++ creates c.next_socket attempt ∷ [];
      }
      else settle by_connect true c

  unfoldable pub connect : Client → Client
  connect c =
      if is_open c
      then c
      else if c.connecting
      then c
      else open_with_retries true 1
          (record (clear_reconnect_timer (record c { explicit_close = false })) {
            connecting = true;
          })

  -- The `catch` of the loop.
  unfoldable pub on_failure : Fraction → Opening → Client → Client
  on_failure random o c =
      if c.explicit_close
      then settle o.by_connect false c
      else if leb retry.attempts o.attempt
      then settle o.by_connect false c
      else record c {
        delaying = o ∷ c.delaying;
        log =
            c.log
            ++ emits_retry (suc o.attempt)
                (calculate_web_socket_retry_delay random retry (suc o.attempt))
              ∷ [];
      }

  -- The listener for `close` of an attached socket.
  unfoldable pub on_close : Fraction → Client → Client
  on_close random c =
      let closed = record c { socket = none; log = c.log ++ emits_close ∷ [] } in
      if c.explicit_close
      then closed
      else if leb (suc c.current_attempt) retry.attempts
      then record closed {
        reconnect_timer = some c.next_timer;
        timers = record { handle = c.next_timer; next_attempt = suc c.current_attempt } ∷ c.timers;
        next_timer = suc c.next_timer;
        log =
            closed.log
            ++ emits_retry (suc c.current_attempt)
                (calculate_web_socket_retry_delay random retry (suc c.current_attempt))
              ∷ [];
      }
      else closed

  unfoldable pub step : Input → Client → Client
  step connect_called c = connect c
  step close_called c = close c
  step send_called c = send c
  step (opens n) c = elim (take_by (λ (o : Opening). o.socket) n c.opening) [
    | none ↦ c
    | some (o, rest) ↦ settle o.by_connect true (attach_socket n (record c { opening = rest }))
  ]
  step (fails n random) c = elim (take_by (λ (o : Opening). o.socket) n c.opening) [
    | none ↦ c
    | some (o, rest) ↦ on_failure random o (record c { opening = rest })
  ]
  step (begins_closing n) c = record c { attached = begin_closing n c.attached }
  step (is_closed n random) c = elim (take_by (λ (a : Attached). a.socket) n c.attached) [
    | none ↦ c
    | some (a, rest) ↦ on_close random (record c { attached = rest })
  ]
  step (delay_over n) c = elim (take_by (λ (o : Opening). o.socket) n c.delaying) [
    | none ↦ c
    | some (o, rest) ↦ open_with_retries o.by_connect (suc o.attempt) (record c { delaying = rest })
  ]
  step (timer_fires n) c = elim (take_by (λ (t : Timer). t.handle) n c.timers) [
    | none ↦ c
    | some (t, rest) ↦
        open_with_retries false t.next_attempt (record c { timers = rest; reconnect_timer = none })
  ]

  abbrev pub steps : List Input → Client → Client
  steps [] c = c
  steps (input ∷ inputs) c = steps inputs (step input c)

abbrev pub fresh : Client
fresh = record {
  connecting = false;
  current_attempt = 0;
  explicit_close = false;
  reconnect_timer = none;
  socket = none;
  opening = [];
  delaying = [];
  attached = [];
  timers = [];
  next_socket = 0;
  next_timer = 0;
  log = [];
}

-- The constructor, with `autoConnect` and the retries as they are resolved.
unfoldable pub new_client : ResolvedWebSocketRetryOptions → (auto_connect : Bool) → Client
new_client retry auto_connect = if auto_connect then connect retry fresh else fresh
