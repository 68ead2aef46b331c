-- ===== src/Client/Sockets/Attempts.antt =====
-- The numbers of attempts that src/internal/client/websocket.ts makes and announces.
use kenojs.Prelude.{
  ℕ, suc, ◌≤◌, ◌≡◌, refl, sym, subst, Bool, true, false, Option, none, some, List, [], ◌∷◌, ◌++◌,
  ◌==◌, leb, All, All-append, if_rule, Option_rule, arith,
}
use kenojs.Client.Retry.{Fraction}
use kenojs.Client.Retry.Reconnects.{ResolvedWebSocketRetryOptions, calculate_web_socket_retry_delay}
use kenojs.Client.Sockets.{
  Opening, Attached, Timer, Effect, creates, emits_open, emits_close, emits_retry, emits_error,
  connect_resolves, connect_rejects, sends, closes, send_throws, Client, Input, connect_called,
  close_called, send_called, opens, fails, begins_closing, is_closed, delay_over, timer_fires,
  take_by, put, begin_closing, clear_timeout, clear_reconnect_timer, is_open_in, is_open, settle,
  open_with_retries, connect, close, send, attach_socket, on_failure, on_close, step, steps, fresh,
  new_client,
}

-- What holds of each element holds of the one that is taken and of those that are left.
abbrev pub TakenAll : {A : Type 0} → (A → Type 0) → Option (A × List A) → Type 0
TakenAll S none = Unit
TakenAll S (some (a, rest)) = S a × All S rest

take_by-TakenAll :
    {A : Type 0} (S : A → Type 0) (number : A → ℕ) (n : ℕ) (l : List A)
    → All S l
    → TakenAll S (take_by number n l)
unfolding take_by
take_by-TakenAll S number n [] h = tt
take_by-TakenAll {A = A} S number n (a ∷ l) (s, h) =
    if_rule (TakenAll S) (number a == n) (λ e. (s, h))
      (λ e. go (take_by number n l) (take_by-TakenAll S number n l h))
  where
    go : (o : Option (A × List A)) → TakenAll S o → TakenAll S (put a o)
    go none t = tt
    go (some (b, rest)) (t, r) = (t, (s, r))

pub take_rule :
    {A B : Type 0} (P : B → Type 0) (S : A → Type 0) (number : A → ℕ) (n : ℕ) (l : List A) {x : B}
    (f : A × List A → B)
    → All S l
    → P x
    → ((a : A) (rest : List A) → S a → All S rest → P (f (a, rest)))
    → P (elim (take_by number n l) [ none ↦ x | some taken ↦ f taken ])
take_rule {A = A} {B = B} P S number n l {x} f h p q =
    go (take_by number n l) (take_by-TakenAll S number n l h)
  where
    go : (o : Option (A × List A)) → TakenAll S o → P (elim o [ none ↦ x | some taken ↦ f taken ])
    go none t = p
    go (some (a, rest)) (s, r) = q a rest s r

clear_timeout-All :
    (S : Timer → Type 0) (n : ℕ) (l : List Timer) → All S l → All S (clear_timeout n l)
clear_timeout-All S n l h =
    take_rule (All S) S (λ (t : Timer). t.handle) n l (λ taken. taken.1) h h (λ t rest s r. r)

-- After the call there is no timer to reconnect with, and it is cleared if there was one.
pub clear_reconnect_timer_rule :
    (P : Client → Type 0) (c : Client)
    → P (record c { reconnect_timer = none })
    → ((n : ℕ) → P (record c { reconnect_timer = none; timers = clear_timeout n c.timers }))
    → P (clear_reconnect_timer c)
unfolding clear_reconnect_timer
clear_reconnect_timer_rule P c f g = go c.reconnect_timer refl
  where
    go :
        (t : Option ℕ)
        → c.reconnect_timer ≡ t
        → P (elim t [
          | none ↦ c
          | some n ↦ record c { reconnect_timer = none; timers = clear_timeout n c.timers }
        ])
    go none e = subst (λ r. P (record c { reconnect_timer = r })) (sym e) f
    go (some n) e = g n

module _ (retry : ResolvedWebSocketRetryOptions) where
  abbrev pub IsAttempt : ℕ → Type 0
  IsAttempt n = (1 ≤ n) × (n ≤ retry.attempts)

  -- An attempt with another one after it.
  abbrev pub HasNext : ℕ → Type 0
  HasNext n = (1 ≤ n) × (suc n ≤ retry.attempts)

  -- The attempt of an effect, if it has one.
  abbrev pub WithinAttempts : Effect → Type 0
  WithinAttempts (creates n attempt) = IsAttempt attempt
  WithinAttempts (emits_retry attempt delay_ms) = IsAttempt attempt
  WithinAttempts _ = Unit

  abbrev IsBounded : Client → Type 0
  IsBounded c =
      All (λ (o : Opening). IsAttempt o.attempt) c.opening
      × All (λ (o : Opening). HasNext o.attempt) c.delaying
      × All (λ (t : Timer). IsAttempt t.next_attempt) c.timers
      × All WithinAttempts c.log

  logs :
      (log : List Effect) (effect : Effect)
      → All WithinAttempts log
      → WithinAttempts effect
      → All WithinAttempts (log ++ effect ∷ [])
  logs log effect h e = All-append WithinAttempts log (effect ∷ []) h (e, tt)

  settle-IsBounded :
      (by_connect succeeded : Bool) (c : Client)
      → IsBounded c
      → IsBounded (settle by_connect succeeded c)
  unfolding settle
  settle-IsBounded true true c (o, d, t, l) = (o, d, t, logs c.log connect_resolves l tt)
  settle-IsBounded true false c (o, d, t, l) = (o, d, t, logs c.log connect_rejects l tt)
  settle-IsBounded false true c h = h
  settle-IsBounded false false c (o, d, t, l) = (o, d, t, logs c.log emits_error l tt)

  open_with_retries-IsBounded :
      (by_connect : Bool) (attempt : ℕ) (c : Client)
      → 1 ≤ attempt
      → IsBounded c
      → IsBounded (open_with_retries retry by_connect attempt c)
  unfolding open_with_retries
  open_with_retries-IsBounded by_connect attempt c p (o, d, t, l) =
      if_rule IsBounded (leb attempt retry.attempts)
        (λ e.
          let within : IsAttempt attempt = (p, ground arith) in
          ((within, o), d, t, logs c.log (creates c.next_socket attempt) l within))
        (λ e. settle-IsBounded by_connect true c (o, d, t, l))

  connect-IsBounded : (c : Client) → IsBounded c → IsBounded (connect retry c)
  unfolding connect
  connect-IsBounded c (o, d, t, l) =
      if_rule IsBounded (is_open c) (λ e. (o, d, t, l))
        (λ e.
          if_rule IsBounded c.connecting (λ f. (o, d, t, l))
            (λ f. open_with_retries-IsBounded true 1 _ (omega arith) (
              clear_reconnect_timer_rule (λ b. IsBounded (record b { connecting = true }))
                (record c { explicit_close = false }) (o, d, t, l)
                (λ n. (
                  o,
                  d,
                  clear_timeout-All (λ (t : Timer). IsAttempt t.next_attempt) n c.timers t,
                  l,
                )))))

  close-IsBounded : (c : Client) → IsBounded c → IsBounded (close c)
  unfolding close
  close-IsBounded c (o, d, t, l) = go c.socket
    where
      cleared : Client
      cleared = clear_reconnect_timer (record c { explicit_close = true })

      kept : IsBounded cleared
      kept =
          clear_reconnect_timer_rule IsBounded (record c { explicit_close = true }) (o, d, t, l)
            (λ n.
              (o, d, clear_timeout-All (λ (t : Timer). IsAttempt t.next_attempt) n c.timers t, l))

      go :
          (socket : Option ℕ)
          → IsBounded (elim socket [
            | none ↦ cleared
            | some n ↦ record cleared {
              attached = begin_closing n c.attached;
              log = cleared.log ++ closes n ∷ [];
            }
          ])
      go none = kept
      go (some n) = (kept.0, kept.1, kept.2, logs cleared.log (closes n) (kept.3) tt)

  on_close-IsBounded :
      (random : Fraction) (c : Client) → IsBounded c → IsBounded (on_close retry random c)
  unfolding on_close
  on_close-IsBounded random c (o, d, t, l) =
      let m = logs c.log emits_close l tt in
      if_rule IsBounded c.explicit_close (λ e. (o, d, t, m))
        (λ e.
          if_rule IsBounded (leb (suc c.current_attempt) retry.attempts)
            (λ f.
              let within : IsAttempt (suc c.current_attempt) = (omega arith, ground arith) in
              (
                o,
                d,
                (within, t),
                logs (c.log ++ emits_close ∷ [])
                    (emits_retry (suc c.current_attempt)
                      (calculate_web_socket_retry_delay random retry (suc c.current_attempt)))
                    m within,
              ))
            (λ f. (o, d, t, m)))

  on_failure-IsBounded :
      (random : Fraction) (p : Opening) (c : Client)
      → IsAttempt p.attempt
      → IsBounded c
      → IsBounded (on_failure retry random p c)
  unfolding on_failure
  on_failure-IsBounded random p c w (o, d, t, l) =
      if_rule IsBounded c.explicit_close (λ e. settle-IsBounded p.by_connect false c (o, d, t, l))
        (λ e.
          if_rule IsBounded (leb retry.attempts p.attempt)
            (λ f. settle-IsBounded p.by_connect false c (o, d, t, l))
            (λ f.
              let next : HasNext p.attempt = (omega arith, ground arith) in
              (
                o,
                (next, d),
                t,
                logs c.log
                    (emits_retry (suc p.attempt)
                      (calculate_web_socket_retry_delay random retry (suc p.attempt)))
                    l (omega arith, next.1),
              )))

  send-IsBounded : (c : Client) → IsBounded c → IsBounded (send c)
  unfolding send
  send-IsBounded c (o, d, t, l) =
      Option_rule IsBounded c.socket (λ e. (o, d, t, logs c.log send_throws l tt))
        (λ n e.
          if_rule IsBounded (is_open_in c.attached n) (λ f. (o, d, t, logs c.log (sends n) l tt))
            (λ f. (o, d, t, logs c.log send_throws l tt)))

  step-IsBounded : (input : Input) (c : Client) → IsBounded c → IsBounded (step retry input c)
  unfolding step attach_socket
  step-IsBounded connect_called c h = connect-IsBounded c h
  step-IsBounded close_called c h = close-IsBounded c h
  step-IsBounded send_called c h = send-IsBounded c h
  step-IsBounded (opens n) c (o, d, t, l) =
      take_rule IsBounded (λ (p : Opening). IsAttempt p.attempt) (λ (p : Opening). p.socket) n
        c.opening _ o (o, d, t, l)
        (λ p rest w r. settle-IsBounded p.by_connect true _ (r, d, t, logs c.log emits_open l tt))
  step-IsBounded (fails n random) c (o, d, t, l) =
      take_rule IsBounded (λ (p : Opening). IsAttempt p.attempt) (λ (p : Opening). p.socket) n
        c.opening _ o (o, d, t, l)
        (λ p rest w r. on_failure-IsBounded random p (record c { opening = rest }) w (r, d, t, l))
  step-IsBounded (begins_closing n) c h = h
  step-IsBounded (is_closed n random) c (o, d, t, l) =
      Option_rule IsBounded (take_by (λ (a : Attached). a.socket) n c.attached) (λ e. (o, d, t, l))
        (λ taken e. on_close-IsBounded random (record c { attached = taken.1 }) (o, d, t, l))
  step-IsBounded (delay_over n) c (o, d, t, l) =
      take_rule IsBounded (λ (p : Opening). HasNext p.attempt) (λ (p : Opening). p.socket) n
        c.delaying _ d (o, d, t, l)
        (λ p rest w r.
          open_with_retries-IsBounded p.by_connect (suc p.attempt) (record c { delaying = rest })
            (omega arith) (o, r, t, l))
  step-IsBounded (timer_fires n) c (o, d, t, l) =
      take_rule IsBounded (λ (p : Timer). IsAttempt p.next_attempt) (λ (p : Timer). p.handle) n
        c.timers _ t (o, d, t, l)
        (λ p rest w r.
          open_with_retries-IsBounded false p.next_attempt
            (record c { timers = rest; reconnect_timer = none }) (w.0) (o, d, r, l))

  steps-IsBounded :
      (inputs : List Input) (c : Client) → IsBounded c → IsBounded (steps retry inputs c)
  steps-IsBounded [] c h = h
  steps-IsBounded (input ∷ inputs) c h =
      steps-IsBounded inputs (step retry input c) (step-IsBounded input c h)

-- A client with its options makes and announces no attempt beyond them.
pub client_within :
    (retry : ResolvedWebSocketRetryOptions) (auto_connect : Bool) (inputs : List Input)
    → All (WithinAttempts retry) (steps retry inputs (new_client retry auto_connect)).log
unfolding new_client
client_within retry auto_connect inputs =
    let start =
      if_rule (IsBounded retry) auto_connect (λ e. connect-IsBounded retry fresh (tt, tt, tt, tt))
        (λ e. (tt, tt, tt, tt)) in
    (steps-IsBounded retry inputs (new_client retry auto_connect) start).3
