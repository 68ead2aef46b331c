-- ===== src/Client/Retry.antt =====
-- When and after how long src/internal/client/http.ts tries a request again. Numbers are natural ones, so
-- that `Math.max(0, x)` is x; the random number is a fraction, and its product with a delay is exact.
pub mod Options
pub mod Delays
pub mod Reconnects
mod Tests
use kenojs.Prelude.{
  ℕ, ◌+◌, ◌-◌, ◌*◌, ◌/◌, ◌^◌, Bool, true, false, String, Option, none, some, List, [], ◌∷◌, ◌==◌,
  str_eq, if◌then◌else◌,
}
use Prim.Native.Nat.{min, max}

pub data Delay : Type 0 where
  constant exponential : Delay
  computed : (ℕ → ℕ) → Delay

pub record HttpClientRetryOptions : Type 0 where
  pub attempts : Option ℕ
  pub base_delay_ms : Option ℕ
  pub delay : Option Delay
  pub jitter : Option Bool
  pub max_delay_ms : Option ℕ
  pub methods : Option (List String)
  pub statuses : Option (List ℕ)

pub record ResolvedRetryOptions : Type 0 where
  pub attempts : ℕ
  pub base_delay_ms : ℕ
  pub delay : Delay
  pub jitter : Bool
  pub max_delay_ms : ℕ
  pub methods : List String
  pub statuses : List ℕ

-- `??`.
abbrev pub or_else {ℓ} : {A : Type ℓ} → Option A → A → A
or_else none fallback = fallback
or_else (some a) fallback = a

abbrev pub default_retryable_methods : List String
default_retryable_methods = "GET" ∷ "HEAD" ∷ "OPTIONS" ∷ []

abbrev pub default_retryable_statuses : List ℕ
default_retryable_statuses = 408 ∷ 425 ∷ 429 ∷ 500 ∷ 502 ∷ 503 ∷ 504 ∷ []

abbrev pub no_retry_options : HttpClientRetryOptions
no_retry_options = record {
  attempts = none;
  base_delay_ms = none;
  delay = none;
  jitter = none;
  max_delay_ms = none;
  methods = none;
  statuses = none;
}

-- What is left out is as in `no_retry_options`.
unfoldable pub resolve_retry_options : HttpClientRetryOptions → ResolvedRetryOptions
resolve_retry_options retry = record {
  attempts = max 1 (or_else retry.attempts 1);
  base_delay_ms = or_else retry.base_delay_ms 200;
  delay = or_else retry.delay exponential;
  jitter = or_else retry.jitter true;
  max_delay_ms = or_else retry.max_delay_ms 5000;
  methods = or_else retry.methods default_retryable_methods;
  statuses = or_else retry.statuses default_retryable_statuses;
}

-- The `retry` option of a request: false, options, or left out.
pub data RetryOverride : Type 0 where
  no_retry left_out : RetryOverride
  overrides : HttpClientRetryOptions → RetryOverride

unfoldable pub merge_retry_options : ResolvedRetryOptions → RetryOverride → ResolvedRetryOptions
merge_retry_options base no_retry =
    resolve_retry_options (record no_retry_options { attempts = some 1 })
merge_retry_options base left_out = base
merge_retry_options base (overrides o) = resolve_retry_options (record {
  attempts = some (or_else o.attempts base.attempts);
  base_delay_ms = some (or_else o.base_delay_ms base.base_delay_ms);
  delay = some (or_else o.delay base.delay);
  jitter = some (or_else o.jitter base.jitter);
  max_delay_ms = some (or_else o.max_delay_ms base.max_delay_ms);
  methods = some (or_else o.methods base.methods);
  statuses = some (or_else o.statuses base.statuses);
})

unfoldable pub materialize_retry_options : ResolvedRetryOptions → HttpClientRetryOptions
materialize_retry_options retry = record {
  attempts = some retry.attempts;
  base_delay_ms = some retry.base_delay_ms;
  delay = some retry.delay;
  jitter = some retry.jitter;
  max_delay_ms = some retry.max_delay_ms;
  methods = some retry.methods;
  statuses = some retry.statuses;
}

-- The retries of `extend`, from those of the client it extends.
unfoldable pub extend_retry : ResolvedRetryOptions → RetryOverride → ResolvedRetryOptions
extend_retry retry override =
    resolve_retry_options (materialize_retry_options (merge_retry_options retry override))

-- `Math.random()`.
pub record Fraction : Type 0 where
  pub numerator : ℕ
  pub denominator : ℕ

-- `Math.round(delay * (0.5 + random))`, a half rounded up.
abbrev pub jittered : Fraction → ℕ → ℕ
jittered random delay =
    (delay * (random.denominator + 2 * random.numerator) + random.denominator)
    / (2 * random.denominator)

abbrev pub raw_delay : ResolvedRetryOptions → (attempt : ℕ) → ℕ
raw_delay retry attempt = elim retry.delay [
  | computed f ↦ f attempt
  | constant ↦ retry.base_delay_ms
  | exponential ↦ retry.base_delay_ms * max 1 (2 ^ (attempt - 2))
]

unfoldable pub calculate_retry_delay : Fraction → ResolvedRetryOptions → (attempt : ℕ) → ℕ
calculate_retry_delay random retry attempt =
    let capped = min retry.max_delay_ms (raw_delay retry attempt) in
    if retry.jitter then jittered random capped else capped

abbrev pub has_method : List String → String → Bool
has_method [] method = false
has_method (m ∷ ms) method = if str_eq m method then true else has_method ms method

abbrev pub has_status : List ℕ → ℕ → Bool
has_status [] status = false
has_status (s ∷ ss) status = if s == status then true else has_status ss status

-- `resolveTimeout`.
abbrev pub resolve_timeout : (timeout timeout_ms : Option ℕ) → Option ℕ
resolve_timeout none timeout_ms = timeout_ms
resolve_timeout (some timeout) timeout_ms = some timeout
