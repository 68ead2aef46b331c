-- ===== src/Client/Retry/Delays.antt =====
-- How long src/internal/client/http.ts waits before it tries again.
use kenojs.Prelude.{ℕ, suc, ◌-◌, ◌^◌, ◌≤◌, ◌≡◌, false, arith}
use native.Mathlib.Nat.{pow-le-pow_right, mul-le-mul_left}
use kenojs.Client.Retry.{
  Fraction, ResolvedRetryOptions, exponential, raw_delay, calculate_retry_delay,
}

raw_delay_grows :
    (r : ResolvedRetryOptions) (attempt : ℕ)
    → r.delay ≡ exponential
    → raw_delay r attempt ≤ raw_delay r (suc attempt)
raw_delay_grows r attempt e =
    let grows : 2 ^ (attempt - 2) ≤ 2 ^ (suc attempt - 2) =
      pow-le-pow_right (omega arith) (omega arith) in
    rw e (mul-le-mul_left r.base_delay_ms (omega (arith, grows)))

-- Without jitter and with exponential delays no wait is longer than the option allows, and each is at
-- least as long as the one before.
pub calculate_retry_delay_lem :
    (random : Fraction) (r : ResolvedRetryOptions) (attempt : ℕ)
    → r.jitter ≡ false
    → r.delay ≡ exponential
    → (calculate_retry_delay random r attempt ≤ r.max_delay_ms)
      × (calculate_retry_delay random r attempt ≤ calculate_retry_delay random r (suc attempt))
unfolding calculate_retry_delay
calculate_retry_delay_lem random r attempt j e =
    rw j (omega arith, omega (arith, raw_delay_grows r attempt e))
