-- ===== src/Client/Retry/Options.antt =====
-- That the retries of src/internal/client/http.ts survive being merged, written out and resolved again.
use kenojs.Prelude.{ℕ, ◌≤◌, ◌≡◌, ap, arith}
use Prim.Native.Nat.{max}
use kenojs.Client.Retry.{
  HttpClientRetryOptions, ResolvedRetryOptions, RetryOverride, no_retry, left_out, overrides,
  resolve_retry_options, merge_retry_options, materialize_retry_options, extend_retry,
}

max_one : (n : ℕ) → 1 ≤ n → max 1 n ≡ n
max_one n h = omega arith

-- One try at least.
abbrev pub IsResolved : ResolvedRetryOptions → Type 0
IsResolved r = 1 ≤ r.attempts

resolve_retry_options-IsResolved :
    (o : HttpClientRetryOptions) → IsResolved (resolve_retry_options o)
unfolding resolve_retry_options
resolve_retry_options-IsResolved o = omega arith

pub merge_retry_options-IsResolved :
    (r : ResolvedRetryOptions) (o : RetryOverride)
    → IsResolved r
    → IsResolved (merge_retry_options r o)
unfolding merge_retry_options
merge_retry_options-IsResolved r no_retry h = resolve_retry_options-IsResolved _
merge_retry_options-IsResolved r left_out h = h
merge_retry_options-IsResolved r (overrides o) h = resolve_retry_options-IsResolved _

resolve-materialize :
    (r : ResolvedRetryOptions)
    → IsResolved r
    → resolve_retry_options (materialize_retry_options r) ≡ r
unfolding resolve_retry_options materialize_retry_options
resolve-materialize r h = ap (λ n. record r { attempts = n }) (max_one r.attempts h)

-- If a client tries at least once, a client that extends it has exactly the retries that a request of it with
-- the same `retry` option would have, and tries at least once too.
pub extend_retry-merge :
    (r : ResolvedRetryOptions) (o : RetryOverride)
    → IsResolved r
    → (extend_retry r o ≡ merge_retry_options r o) × IsResolved (extend_retry r o)
unfolding extend_retry
extend_retry-merge r o h =
    let e = resolve-materialize (merge_retry_options r o) (merge_retry_options-IsResolved r o h) in
    (e, rw e (merge_retry_options-IsResolved r o h))
