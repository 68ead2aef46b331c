-- ===== src/Client/Sockets/Announcing.antt =====
-- The retries that src/internal/client/websocket.ts announces before it makes them.
use kenojs.Prelude.{
  ℕ, suc, ◌+◌, ◌≤◌, ◌≡◌, Bool, true, false, Option, none, some, List, [], ◌∷◌, ◌++◌, ◌==◌, leb, All,
  if_rule, Option_rule, arith,
}
use kenojs.Client.Retry.{Fraction}
use kenojs.Client.Retry.Reconnects.{ResolvedWebSocketRetryOptions, calculate_web_socket_retry_delay}
use kenojs.Client.Sockets.{
  Opening, Attached, Timer, Effect, creates, emits_open, emits_close, emits_retry, emits_error,
  connect_resolves, connect_rejects, sends, closes, send_throws, Client, Input, connect_called,
  close_called, send_called, opens, fails, begins_closing, is_closed, delay_over, timer_fires,
  take_by, begin_closing, clear_timeout, clear_reconnect_timer, is_open_in, is_open, settle,
  open_with_retries, connect, close, send, attach_socket, on_failure, on_close, step, steps, fresh,
  new_client,
}
use kenojs.Client.Sockets.Attempts.{WithinAttempts, clear_reconnect_timer_rule, client_within}
use kenojs.Client.Sockets.Invariant.{total, total-append, bit, count_rule}

-- Whether an effect makes an attempt, and whether it announces it.
abbrev makes : (attempt : ℕ) → Effect → ℕ
makes a (creates n attempt) = bit (attempt == a)
makes a _ = 0

abbrev announces : (attempt : ℕ) → Effect → ℕ
announces a (emits_retry attempt delay_ms) = bit (attempt == a)
announces a _ = 0

abbrev pub made : (attempt : ℕ) → List Effect → ℕ
made a log = total (makes a) log

abbrev pub announced : (attempt : ℕ) → List Effect → ℕ
announced a log = total (announces a) log

module _ (a : ℕ) where
  -- The runs and the timers that go on with the attempt.
  abbrev waits : Opening → ℕ
  waits o = bit (suc o.attempt == a)

  abbrev will_start : Timer → ℕ
  will_start t = bit (t.next_attempt == a)

  -- Each announcement stands for at most one attempt, made or still to be made.
  abbrev Owes : (extra : ℕ) → Client → Type 0
  Owes extra c =
      extra + made a c.log + total waits c.delaying + total will_start c.timers ≤ announced a c.log

  logs :
      (log : List Effect) (effect : Effect)
      → (made a (log ++ effect ∷ []) ≡ made a log + makes a effect)
        × (announced a (log ++ effect ∷ []) ≡ announced a log + announces a effect)
  logs log effect = (
    omega (arith, total-append (makes a) log (effect ∷ [])),
    omega (arith, total-append (announces a) log (effect ∷ [])),
  )

  settle-Owes :
      (by_connect succeeded : Bool) (c : Client) → Owes 0 c → Owes 0 (settle by_connect succeeded c)
  unfolding settle
  settle-Owes true true c h =
      omega (arith, (logs c.log connect_resolves).0, (logs c.log connect_resolves).1)
  settle-Owes true false c h =
      omega (arith, (logs c.log connect_rejects).0, (logs c.log connect_rejects).1)
  settle-Owes false true c h = h
  settle-Owes false false c h =
      omega (arith, (logs c.log emits_error).0, (logs c.log emits_error).1)

  clear_timeout_less :
      (n : ℕ) (l : List Timer) → total will_start (clear_timeout n l) ≤ total will_start l
  clear_timeout_less n l =
      count_rule (λ r. total will_start r ≤ total will_start l) will_start (λ (t : Timer). t.handle)
        n l (λ taken. taken.1) (omega arith) (λ t rest e. omega arith)

  module _ (retry : ResolvedWebSocketRetryOptions) where
    open_with_retries-Owes :
        (by_connect : Bool) (attempt : ℕ) (c : Client)
        → Owes (bit (attempt == a)) c
        → Owes 0 (open_with_retries retry by_connect attempt c)
    unfolding open_with_retries
    open_with_retries-Owes by_connect attempt c h =
        let (m, n) = logs c.log (creates c.next_socket attempt) in
        if_rule (Owes 0) (leb attempt retry.attempts) (λ e. omega arith)
          (λ e. settle-Owes by_connect true c (omega arith))

    connect-Owes : 2 ≤ a → (c : Client) → Owes 0 c → Owes 0 (connect retry c)
    unfolding connect
    connect-Owes two c h =
        if_rule (Owes 0) (is_open c) (λ e. h)
          (λ e.
            if_rule (Owes 0) c.connecting (λ f. h)
              (λ f. open_with_retries-Owes true 1 _ (
                clear_reconnect_timer_rule
                  (λ b. Owes (bit (1 == a)) (record b { connecting = true }))
                  (record c { explicit_close = false }) (omega (arith, later))
                  (λ n. omega (arith, later, clear_timeout_less n c.timers)))))
      where
        later : bit (1 == a) ≡ 0
        later = ground arith

    on_failure-Owes :
        (random : Fraction) (o : Opening) (c : Client)
        → Owes 0 c
        → Owes 0 (on_failure retry random o c)
    unfolding on_failure
    on_failure-Owes random o c h =
        if_rule (Owes 0) c.explicit_close (λ f. settle-Owes o.by_connect false c h)
          (λ f.
            if_rule (Owes 0) (leb retry.attempts o.attempt)
              (λ g. settle-Owes o.by_connect false c h)
              (λ g.
                let effect =
                  emits_retry (suc o.attempt)
                    (calculate_web_socket_retry_delay random retry (suc o.attempt)) in
                let (m, n) = logs c.log effect in omega arith))

    on_close-Owes : (random : Fraction) (c : Client) → Owes 0 c → Owes 0 (on_close retry random c)
    unfolding on_close
    on_close-Owes random c h =
        let (m, n) = logs c.log emits_close in
        if_rule (Owes 0) c.explicit_close (λ f. omega arith)
          (λ f.
            if_rule (Owes 0) (leb (suc c.current_attempt) retry.attempts)
              (λ g.
                let effect =
                  emits_retry (suc c.current_attempt)
                    (calculate_web_socket_retry_delay random retry (suc c.current_attempt)) in
                let (m', n') = logs (c.log ++ emits_close ∷ []) effect in omega arith)
              (λ g. omega arith))

  send-Owes : (c : Client) → Owes 0 c → Owes 0 (send c)
  unfolding send
  send-Owes c h =
      let (m, n) = logs c.log send_throws in
      Option_rule (Owes 0) c.socket (λ e. omega arith)
        (λ s e.
          let (m', n') = logs c.log (sends s) in
          if_rule (Owes 0) (is_open_in c.attached s) (λ f. omega arith) (λ f. omega arith))

  close-Owes : (c : Client) → Owes 0 c → Owes 0 (close c)
  unfolding close
  close-Owes c h = go c.socket
    where
      cleared : Client
      cleared = clear_reconnect_timer (record c { explicit_close = true })

      kept : Owes 0 cleared
      kept =
          clear_reconnect_timer_rule (Owes 0) (record c { explicit_close = true }) h
            (λ n. omega (arith, clear_timeout_less n c.timers))

      go :
          (socket : Option ℕ)
          → Owes 0 (elim socket [
            | none ↦ cleared
            | some n ↦ record cleared {
              attached = begin_closing n c.attached;
              log = cleared.log ++ closes n ∷ [];
            }
          ])
      go none = kept
      go (some n) =
          omega (arith, kept, (logs cleared.log (closes n)).0, (logs cleared.log (closes n)).1)

  module _ (retry : ResolvedWebSocketRetryOptions) (two : 2 ≤ a) where
    step-Owes : (input : Input) (c : Client) → Owes 0 c → Owes 0 (step retry input c)
    unfolding step attach_socket
    step-Owes connect_called c h = connect-Owes retry two c h
    step-Owes close_called c h = close-Owes c h
    step-Owes send_called c h = send-Owes c h
    step-Owes (opens n) c h =
        let (m, k) = logs c.log emits_open in
        Option_rule (Owes 0) (take_by (λ (o : Opening). o.socket) n c.opening) (λ e. h)
          (λ taken e.
            settle-Owes taken.0.by_connect true (attach_socket n (record c { opening = taken.1 }))
              (omega arith))
    step-Owes (fails n random) c h =
        Option_rule (Owes 0) (take_by (λ (o : Opening). o.socket) n c.opening) (λ e. h)
          (λ taken e. on_failure-Owes retry random taken.0 (record c { opening = taken.1 }) h)
    step-Owes (begins_closing n) c h = h
    step-Owes (is_closed n random) c h =
        Option_rule (Owes 0) (take_by (λ (p : Attached). p.socket) n c.attached) (λ e. h)
          (λ taken e. on_close-Owes retry random (record c { attached = taken.1 }) h)
    step-Owes (delay_over n) c h =
        count_rule (Owes 0) waits (λ (o : Opening). o.socket) n c.delaying _ h
          (λ o rest t.
            open_with_retries-Owes retry o.by_connect (suc o.attempt) (record c { delaying = rest })
              (omega arith))
    step-Owes (timer_fires n) c h =
        count_rule (Owes 0) will_start (λ (t : Timer). t.handle) n c.timers _ h
          (λ t rest e.
            open_with_retries-Owes retry false t.next_attempt
              (record c { timers = rest; reconnect_timer = none }) (omega arith))

    steps-Owes : (inputs : List Input) (c : Client) → Owes 0 c → Owes 0 (steps retry inputs c)
    steps-Owes [] c h = h
    steps-Owes (input ∷ inputs) c h = steps-Owes inputs (step retry input c) (step-Owes input c h)

-- Whatever happens to a client, each attempt that it makes or announces is one of those that its options
-- allow, and an attempt after the first is made at most as often as it was announced.
pub retries_announced :
    (retry : ResolvedWebSocketRetryOptions) (auto_connect : Bool) (inputs : List Input) (a : ℕ)
    → 2 ≤ a
    → let log = (steps retry inputs (new_client retry auto_connect)).log in
      All (WithinAttempts retry) log × (made a log ≤ announced a log)
unfolding new_client
retries_announced retry auto_connect inputs a two =
    let start : Owes a 0 (new_client retry auto_connect) =
      if_rule (Owes a 0) auto_connect (λ e. connect-Owes a retry two fresh (omega arith))
        (λ e. omega arith) in
    let owed : Owes a 0 (steps retry inputs (new_client retry auto_connect)) =
      steps-Owes a retry two inputs (new_client retry auto_connect) start in
    (client_within retry auto_connect inputs, omega (arith, owed))
