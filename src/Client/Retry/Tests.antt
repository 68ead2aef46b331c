-- ===== src/Client/Retry/Tests.antt =====
-- Retries and waits.
use kenojs.Prelude.{◌≡◌, refl, true, false, some}
use kenojs.Client.Retry.{
  ResolvedRetryOptions, Fraction, no_retry_options, resolve_retry_options, calculate_retry_delay,
}

abbrev base : ResolvedRetryOptions
base = resolve_retry_options (record no_retry_options { attempts = some 4; jitter = some false })

abbrev half : Fraction
half = record { numerator = 1; denominator = 2 }

-- 400 ms before the third attempt, with jitter 1.0 times that.
third_delay : calculate_retry_delay half (record base { jitter = true }) 3 ≡ 400
unfolding calculate_retry_delay resolve_retry_options
third_delay = refl
