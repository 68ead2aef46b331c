-- ===== src/Client/Sockets/Tests.antt =====
-- Runs of a client, and the theorems about them at these.
use kenojs.Prelude.{ℕ, ◌≡◌, refl, true, false, none, List, [], ◌∷◌, ◌≤◌, inr, All, arith}
use kenojs.Client.Retry.{Fraction}
use kenojs.Client.Sockets.Messages.{bytes_data, emits_text, to_web_socket_text, handle_message}
use kenojs.Client.Sockets.Exhausting.{failures, retries_and_rejects, given_up, connect_exhausts}
use kenojs.Client.Sockets.Attempts.{WithinAttempts}
use kenojs.Client.Sockets.Invariant.{IsTracked, client-IsTracked}
use kenojs.Client.Sockets.Announcing.{made, announced, retries_announced}
use kenojs.Client.Sockets.Closing.{created, HasNoRun, close_is_final}
use kenojs.Client.Retry.Reconnects.{ResolvedWebSocketRetryOptions, calculate_web_socket_retry_delay}
use kenojs.Client.Sockets.{
  Client, Input, connect_called, close_called, send_called, opens, fails, is_closed, delay_over,
  timer_fires, creates, emits_open, emits_close, emits_retry, connect_resolves, connect_rejects,
  take_by, clear_reconnect_timer, is_open, settle, open_with_retries, connect, close, attach_socket,
  on_failure, on_close, step, steps, new_client,
}

abbrev retry : ResolvedWebSocketRetryOptions
retry = record { attempts = 3; base_delay_ms = 100; jitter = false; max_delay_ms = 1000 }

abbrev random : Fraction
random = record { numerator = 1; denominator = 2 }

-- While an attempt fails a close stops the run; between two attempts it does not, and the client opens after it.
opens_after_close :
    (steps retry
      (fails 0 random ∷ close_called ∷ delay_over 0 ∷ opens 1 ∷ [])
      (new_client retry true)).log
    ≡ creates 0 1 ∷ emits_retry 2 100 ∷ creates 1 2 ∷ emits_open ∷ connect_resolves ∷ []
unfolding new_client step connect close is_open open_with_retries clear_reconnect_timer on_failure
    settle attach_socket take_by calculate_web_socket_retry_delay
opens_after_close = refl

stopped_by_close :
    (steps retry (close_called ∷ fails 0 random ∷ []) (new_client retry true)).log
    ≡ creates 0 1 ∷ connect_rejects ∷ []
unfolding new_client step connect close is_open open_with_retries clear_reconnect_timer on_failure
    settle attach_socket take_by calculate_web_socket_retry_delay
stopped_by_close = refl

-- While a timer's run waits for its socket, `connect` starts another one.
two_runs :
    (steps retry
      (opens 0 ∷ is_closed 0 random ∷ timer_fires 0 ∷ connect_called ∷ [])
      (new_client retry true)).log
    ≡ creates 0 1
      ∷ emits_open
      ∷ connect_resolves
      ∷ emits_close
      ∷ emits_retry 2 100
      ∷ creates 1 2
      ∷ creates 2 1
      ∷ []
unfolding new_client step connect close is_open open_with_retries clear_reconnect_timer on_failure
    settle attach_socket on_close take_by calculate_web_socket_retry_delay
two_runs = refl

-- An attempt that succeeds does not set the number of attempts back: a third connection that is lost is the last.
attempts_used_up :
    (steps retry
      (opens 0
        ∷ is_closed 0 random
        ∷ timer_fires 0
        ∷ opens 1
        ∷ is_closed 1 random
        ∷ timer_fires 1
        ∷ opens 2
        ∷ is_closed 2 random
        ∷ [])
      (new_client retry true)).timers
    ≡ []
unfolding new_client step connect close is_open open_with_retries clear_reconnect_timer on_failure
    settle attach_socket on_close take_by calculate_web_socket_retry_delay
attempts_used_up = refl

abbrev inputs : List Input
inputs = opens 0 ∷ is_closed 0 random ∷ timer_fires 0 ∷ connect_called ∷ []

client-IsTracked_example : IsTracked (steps retry inputs (new_client retry true))
client-IsTracked_example = client-IsTracked retry true inputs

retries_announced_example :
    let log = (steps retry inputs (new_client retry true)).log in
    All (WithinAttempts retry) log × (made 2 log ≤ announced 2 log)
retries_announced_example = retries_announced retry true inputs 2 (omega arith)

-- A client that has lost its socket and waits to reconnect.
abbrev lost : Client
lost = steps retry (opens 0 ∷ is_closed 0 random ∷ []) (new_client retry true)

lost_without_run : HasNoRun lost
unfolding new_client step connect is_open open_with_retries clear_reconnect_timer settle
    attach_socket on_close take_by
lost_without_run = (refl, refl, inr (record { handle = 0; next_attempt = 2 }, refl, refl))

close_is_final_example :
    let later = steps retry (timer_fires 0 ∷ send_called ∷ []) (close lost) in
    (created later.log ≡ created lost.log) × (later.timers ≡ [])
close_is_final_example =
    close_is_final retry lost (timer_fires 0 ∷ send_called ∷ []) lost_without_run (tt, (tt, tt))

connect_exhausts_example :
    steps retry (failures random retry 2 0) (new_client retry true)
    ≡ given_up random retry 3 3 (creates 0 1 ∷ retries_and_rejects random retry 2 0 1)
connect_exhausts_example = connect_exhausts random retry 2 refl

bad_json :
    handle_message {J = ℕ} (λ text. none) (λ bytes. bytes) (bytes_data (123 ∷ []))
    ≡ emits_text (123 ∷ []) ∷ []
unfolding handle_message to_web_socket_text
bad_json = refl
