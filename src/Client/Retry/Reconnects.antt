-- ===== src/Client/Retry/Reconnects.antt =====
-- The options and delays of src/internal/client/websocket.ts, for the attempts to connect.
use kenojs.Prelude.{ℕ, ◌-◌, ◌*◌, ◌^◌, Bool, true, Option, none, some, if◌then◌else◌}
use Prim.Native.Nat.{min, max}
use kenojs.Client.Retry.{or_else, Fraction, jittered}

pub record WebSocketClientRetryOptions : Type 0 where
  pub attempts : Option ℕ
  pub base_delay_ms : Option ℕ
  pub jitter : Option Bool
  pub max_delay_ms : Option ℕ

pub record ResolvedWebSocketRetryOptions : Type 0 where
  pub attempts : ℕ
  pub base_delay_ms : ℕ
  pub jitter : Bool
  pub max_delay_ms : ℕ

unfoldable pub resolve_web_socket_retry_options :
    Option WebSocketClientRetryOptions → ResolvedWebSocketRetryOptions
resolve_web_socket_retry_options none = record {
  attempts = 1;
  base_delay_ms = 100;
  jitter = true;
  max_delay_ms = 1000;
}
resolve_web_socket_retry_options (some retry) = record {
  attempts = max 1 (or_else retry.attempts 1);
  base_delay_ms = or_else retry.base_delay_ms 100;
  jitter = or_else retry.jitter true;
  max_delay_ms = or_else retry.max_delay_ms 1000;
}

unfoldable pub calculate_web_socket_retry_delay :
    Fraction → ResolvedWebSocketRetryOptions → (attempt : ℕ) → ℕ
calculate_web_socket_retry_delay random retry attempt =
    let delay_ms = min retry.max_delay_ms (retry.base_delay_ms * max 1 (2 ^ (attempt - 2))) in
    if retry.jitter then jittered random delay_ms else delay_ms
