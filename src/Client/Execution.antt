-- ===== src/Client/Execution.antt =====
-- `execute` of src/internal/client/http.ts: the attempts of one request. What the middleware and `fetch` make
-- of an attempt, whether its timer has gone off, and whether a wait is aborted are functions of the
-- attempt; what happens to the signal of each attempt is in the log, the oldest event first.
pub mod Attempts
pub mod Middleware
mod Tests
use kenojs.Prelude.{
  ℕ, zero, suc, ◌+◌, Bool, true, false, not, ◌&&◌, String, Option, none, some, List, [], ◌∷◌, ◌++◌,
  ◌==◌, if◌then◌else◌,
}
use kenojs.Client.Retry.{
  ResolvedRetryOptions, RetryOverride, merge_retry_options, has_method, has_status,
}

pub data HttpClientExpectation : Type 0 where
  anything successful : HttpClientExpectation
  status_in : List ℕ → HttpClientExpectation

-- A response, of which the code reads `status` and `ok`.
pub record Response : Type 0 where
  pub status : ℕ
  pub ok : Bool

-- An error: a TypeError, the TimeoutError of `createTimeoutError`, an HttpClientError, or another one.
pub data Failure (E : Type 0) : Type 0 where
  type_error other_error : E → Failure E
  timeout_error : (timeout_ms : ℕ) → Failure E
  http_client_error : Response → Failure E
  -- "HTTP client request failed".
  request_failed : Failure E

pub data Reply (E : Type 0) : Type 0 where
  responds : Response → Reply E
  fails : Failure E → Reply E

pub record Network (E : Type 0) : Type 0 where
  -- What `resolveRequestUrl` or `serializeRequestBody` throws before the first attempt, if anything.
  pub preparation_error : Option (Failure E)
  -- What `createRequest` throws, outside the `try`: of a stream that was read, or a body of a GET.
  pub creation_error : (attempt : ℕ) → Option (Failure E)
  pub reply : (attempt : ℕ) → Reply E
  pub did_timeout : (attempt : ℕ) → Bool
  -- The reason of an abort during a wait: of the wait after a response, and of that after an error.
  pub abort_after_response : (attempt : ℕ) → Option (Failure E)
  pub abort_after_error : (attempt : ℕ) → Option (Failure E)

pub data Event : Type 0 where
  signal_created sent body_cancelled waited signal_cleaned : (attempt : ℕ) → Event

pub data Answer (E : Type 0) : Type 0 where
  gives : Response → Answer E
  throws : Failure E → Answer E

-- How an attempt ends.
pub data Step (E : Type 0) : Type 0 where
  settles : Answer E → Step E
  retries : Step E

abbrev pub is_retryable_network_error : {E : Type 0} → Failure E → Bool
is_retryable_network_error (type_error e) = true
is_retryable_network_error _ = false

unfoldable pub enforce_expectation : {E : Type 0} → Response → HttpClientExpectation → Answer E
enforce_expectation response anything = gives response
enforce_expectation response successful =
    if response.ok then gives response else throws (http_client_error response)
enforce_expectation response (status_in statuses) =
    if has_status statuses response.status
    then gives response
    else throws (http_client_error response)

module _ {E : Type 0} (net : Network E) (retry : ResolvedRetryOptions) (timeout : ℕ)
    (expectation : HttpClientExpectation) (can_retry : Bool) where
  -- The `catch` of an attempt.
  unfoldable pub handle_error :
      (is_last : Bool) (attempt : ℕ) → Failure E → List Event → Step E × List Event
  handle_error is_last attempt error log =
      let cleaned = log ++ signal_cleaned attempt ∷ [] in
      let resolved = if net.did_timeout attempt then timeout_error timeout else error in
      if can_retry && not is_last && is_retryable_network_error resolved
      then elim (net.abort_after_error attempt) [
        | none ↦ (retries, cleaned ++ waited attempt ∷ [])
        | some reason ↦ (settles (throws reason), cleaned)
      ]
      else (settles (throws resolved), cleaned)

  -- What the `try` does with an answer that is not tried again.
  abbrev pub handle_answer :
      (is_last : Bool) (attempt : ℕ) → Answer E → List Event → Step E × List Event
  handle_answer is_last attempt (gives response) log = (settles (gives response), log)
  handle_answer is_last attempt (throws error) log = handle_error is_last attempt error log

  unfoldable pub handle_reply :
      (is_last : Bool) (attempt : ℕ) → Reply E → List Event → Step E × List Event
  handle_reply is_last attempt (fails error) log = handle_error is_last attempt error log
  handle_reply is_last attempt (responds response) log =
      if can_retry && not is_last && has_status retry.statuses response.status
      then elim (net.abort_after_response attempt) [
        | none ↦ (retries, log ++ body_cancelled attempt ∷ waited attempt ∷ [])
        | some reason ↦ handle_error is_last attempt reason (log ++ body_cancelled attempt ∷ [])
      ]
      else handle_answer is_last attempt (enforce_expectation response expectation)
          (log ++ signal_cleaned attempt ∷ [])

  -- The `for` loop, with as many attempts left.
  unfoldable pub attempt_from : (left attempt : ℕ) → List Event → Answer E × List Event
  attempt_from zero attempt log = (throws request_failed, log)
  attempt_from (suc left) attempt log =
      let created = log ++ signal_created attempt ∷ [] in
      let outcome =
        handle_reply (left == 0) attempt (net.reply attempt)
          (log ++ signal_created attempt ∷ sent attempt ∷ []) in
      elim (net.creation_error attempt) [
        | some error ↦ (throws error, created)
        | none ↦ elim outcome.0 [
          | settles answer ↦ (answer, outcome.1)
          | retries ↦ attempt_from left (suc attempt) outcome.1
        ]
      ]

-- The method is one of those that are retried, or it is not.
unfoldable pub execute :
    {E : Type 0}
    → Network E
    → (default_retry : ResolvedRetryOptions) → RetryOverride
    → (timeout : ℕ) → HttpClientExpectation
    → (method : String) → Answer E × List Event
execute net default_retry override timeout expectation method =
    let retry = merge_retry_options default_retry override in
    elim net.preparation_error [
      | some error ↦ (throws error, [])
      | none ↦
          attempt_from net retry timeout expectation (has_method retry.methods method)
            retry.attempts 1 []
    ]
