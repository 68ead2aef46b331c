-- ===== src/Client/Sockets/Exhausting.antt =====
-- How a run of `openWithRetries` of src/internal/client/websocket.ts ends when no socket opens.
use kenojs.Prelude.{
  ℕ, zero, suc, ◌+◌, ◌≤◌, ◌≡◌, refl, ap, ◌∙◌, true, false, Option, some, List, [], ◌∷◌, ◌++◌, ◌==◌,
  leb, if_rule, arith,
}
use mathlib.Core.List.{append_assoc}
use kenojs.Client.Retry.{Fraction}
use kenojs.Client.Retry.Reconnects.{ResolvedWebSocketRetryOptions, calculate_web_socket_retry_delay}
use kenojs.Client.Sockets.{
  Opening, Effect, creates, emits_retry, connect_rejects, Client, Input, fails, delay_over, take_by,
  clear_reconnect_timer, is_open, settle, open_with_retries, connect, on_failure, step, steps,
  fresh, new_client,
}

module _ (random : Fraction) (retry : ResolvedWebSocketRetryOptions) where
  -- A socket fails, and after its delay so do as many others.
  abbrev pub failures : (others socket : ℕ) → List Input
  failures zero socket = fails socket random ∷ []
  failures (suc others) socket =
      fails socket random ∷ delay_over socket ∷ failures others (suc socket)

  -- What that comes to after the attempt for the first of these sockets.
  abbrev pub retries_and_rejects : (others socket attempt : ℕ) → List Effect
  retries_and_rejects zero socket attempt = connect_rejects ∷ []
  retries_and_rejects (suc others) socket attempt =
      emits_retry (suc attempt) (calculate_web_socket_retry_delay random retry (suc attempt))
      ∷ creates (suc socket) (suc attempt)
      ∷ retries_and_rejects others (suc socket) (suc attempt)

  abbrev pub trying : (socket attempt : ℕ) → List Effect → Client
  trying socket attempt log = record fresh {
    connecting = true;
    current_attempt = attempt;
    opening = record { socket = socket; attempt = attempt; by_connect = true } ∷ [];
    next_socket = suc socket;
    log = log;
  }

  abbrev pub waiting : (socket attempt : ℕ) → List Effect → Client
  waiting socket attempt log = record fresh {
    connecting = true;
    current_attempt = attempt;
    delaying = record { socket = socket; attempt = attempt; by_connect = true } ∷ [];
    next_socket = suc socket;
    log = log;
  }

  -- As after so many attempts that failed.
  abbrev pub given_up : (sockets attempts : ℕ) → List Effect → Client
  given_up sockets attempts log = record fresh {
    current_attempt = attempts;
    next_socket = sockets;
    log = log;
  }

  abbrev run : (socket attempt : ℕ) → Opening
  run socket attempt = record { socket = socket; attempt = attempt; by_connect = true }

  take_only :
      (socket attempt : ℕ)
      → take_by (λ (o : Opening). o.socket) socket (run socket attempt ∷ [])
        ≡ some (run socket attempt, [])
  unfolding take_by
  take_only socket attempt =
      if_rule (λ (o : Option (Opening × List Opening)). o ≡ some (run socket attempt, []))
        (socket == socket) (λ e. refl) (λ e. ground arith)

  last_fails :
      (socket attempt : ℕ) (log : List Effect)
      → retry.attempts ≤ attempt
      → step retry (fails socket random) (trying socket attempt log)
        ≡ given_up (suc socket) attempt (log ++ connect_rejects ∷ [])
  unfolding step on_failure settle
  last_fails socket attempt log h =
      let last : leb retry.attempts attempt ≡ true = ground arith in
      rw (take_only socket attempt, step) (rw last refl)

  next_waits :
      (socket attempt : ℕ) (log : List Effect)
      → suc attempt ≤ retry.attempts
      → step retry (fails socket random) (trying socket attempt log)
        ≡ waiting socket attempt (
            log
            ++ emits_retry
                (suc attempt)
                (calculate_web_socket_retry_delay random retry (suc attempt))
              ∷ [])
  unfolding step on_failure
  next_waits socket attempt log h =
      let next : leb retry.attempts attempt ≡ false = ground arith in
      rw (take_only socket attempt, step) (rw next refl)

  next_tries :
      (socket attempt : ℕ) (log : List Effect)
      → suc attempt ≤ retry.attempts
      → step retry (delay_over socket) (waiting socket attempt log)
        ≡ trying (suc socket) (suc attempt) (log ++ creates (suc socket) (suc attempt) ∷ [])
  unfolding step open_with_retries
  next_tries socket attempt log h =
      let next : leb (suc attempt) retry.attempts ≡ true = ground arith in
      rw (take_only socket attempt, step) (rw next refl)

  all_fail :
      (others socket attempt : ℕ) (log : List Effect)
      → attempt + others ≡ retry.attempts
      → steps retry (failures others socket) (trying socket attempt log)
        ≡ given_up
            (suc socket + others)
            (attempt + others)
            (log ++ retries_and_rejects others socket attempt)
  all_fail zero socket attempt log h =
      last_fails socket attempt log (omega arith)
      ∙ ap (λ n. given_up n attempt (log ++ connect_rejects ∷ [])) (omega arith)
      ∙ ap (λ n. given_up (suc socket + 0) n (log ++ connect_rejects ∷ [])) (omega arith)
  all_fail (suc others) socket attempt log h =
      let announced =
        emits_retry (suc attempt) (calculate_web_socket_retry_delay random retry (suc attempt)) in
      let made = creates (suc socket) (suc attempt) in
      let rest = failures others (suc socket) in
      let later = retries_and_rejects others (suc socket) (suc attempt) in
      ap (λ c. steps retry rest (step retry (delay_over socket) c))
        (next_waits socket attempt log (omega arith))
      ∙ ap (λ c. steps retry rest c)
          (next_tries socket attempt (log ++ announced ∷ []) (omega arith))
      ∙ all_fail others (suc socket) (suc attempt) (log ++ announced ∷ [] ++ made ∷ [])
          (omega arith)
      ∙ ap (λ n. given_up n (suc attempt + others) (log ++ announced ∷ [] ++ made ∷ [] ++ later))
          (omega arith)
      ∙ ap (λ n. given_up (suc socket + suc others) n (log ++ announced ∷ [] ++ made ∷ [] ++ later))
          (omega arith)
      ∙ ap (given_up (suc socket + suc others) (attempt + suc others)) (
          append_assoc (log ++ announced ∷ []) (made ∷ []) later
          ∙ append_assoc log (announced ∷ []) (made ∷ later))

-- If every socket fails, the run of the first connect makes exactly as many attempts as the options allow,
-- announces each one but the first, and rejects; nothing of it is left.
pub connect_exhausts :
    (random : Fraction) (retry : ResolvedWebSocketRetryOptions) (others : ℕ)
    → retry.attempts ≡ suc others
    → steps retry (failures random retry others 0) (new_client retry true)
      ≡ given_up random retry
          (suc others)
          (suc others)
          (creates 0 1 ∷ retries_and_rejects random retry others 0 1)
unfolding new_client connect is_open clear_reconnect_timer open_with_retries
connect_exhausts random retry others h =
    let first : leb 1 retry.attempts ≡ true = ground arith in
    ap (steps retry (failures random retry others 0)) (starts first)
    ∙ all_fail random retry others 0 1 (creates 0 1 ∷ []) (omega arith)
    ∙ ap
        (λ n.
          given_up random retry n (1 + others)
            (creates 0 1 ∷ retries_and_rejects random retry others 0 1))
        (omega arith)
    ∙ ap
        (λ n.
          given_up random retry (suc others) n
            (creates 0 1 ∷ retries_and_rejects random retry others 0 1))
        (omega arith)
  where
    starts :
        leb 1 retry.attempts ≡ true
        → new_client retry true ≡ trying random retry 0 1 (creates 0 1 ∷ [])
    starts e = rw e refl
