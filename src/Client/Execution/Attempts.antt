-- ===== src/Client/Execution/Attempts.antt =====
-- How many attempts src/internal/client/http.ts makes, and with what it settles a request.
use kenojs.Prelude.{
  ℕ, suc, ◌+◌, ◌≤◌, ◌≡◌, ◌⊎◌, Bool, false, not, ◌&&◌, some, List, [], ◌∷◌, ◌++◌, ◌==◌,
}
use kenojs.Client.Retry.{ResolvedRetryOptions, has_status}
use kenojs.Client.Execution.{
  HttpClientExpectation, Failure, Network, Event, signal_created, sent, Answer, gives, throws, Step,
  settles, retries, is_retryable_network_error, enforce_expectation,
}

-- How many requests were sent.
abbrev pub sends : List Event → ℕ
sends [] = 0
sends (sent n ∷ events) = suc (sends events)
sends (_ ∷ events) = sends events

module _ {E : Type 0} (net : Network E) (retry : ResolvedRetryOptions) (timeout : ℕ)
    (expectation : HttpClientExpectation) (can_retry : Bool) where
  -- What settles an attempt: a response that is expected and would not be tried again, or an error that would
  -- not be, unless a wait was aborted with it.
  abbrev pub Final : (is_last : Bool) (attempt : ℕ) → Answer E → Type 0
  Final is_last attempt (gives r) =
      (enforce_expectation {E = E} r expectation ≡ gives r)
      × ((can_retry && not is_last && has_status retry.statuses r.status) ≡ false)
  Final is_last attempt (throws f) =
      ((can_retry && not is_last && is_retryable_network_error f) ≡ false)
      ⊎ (net.abort_after_error attempt ≡ some f)

  -- After one attempt.
  abbrev After : (is_last : Bool) (attempt count : ℕ) → Step E × List Event → Type 0
  After is_last attempt count (settles answer, log) =
      Final is_last attempt answer × (sends log ≡ count)
  After is_last attempt count (retries, log) = (is_last ≡ false) × (sends log ≡ count)

  -- How a request ends with an attempt, before which so many were sent: it is sent and its outcome is final, or
  -- it could not be created.
  abbrev pub Ends : (is_last : Bool) (attempt before : ℕ) → Answer E × List Event → Type 0
  Ends is_last attempt before (answer, log) =
      ((sends log ≡ suc before) × Final is_last attempt answer)
      ⊎ ((sends log ≡ before)
          × ((error : Failure E) × (net.creation_error attempt ≡ some error)
              × (answer ≡ throws error)))

  -- From an attempt on.
  abbrev Settled : (left attempt before : ℕ) → Answer E × List Event → Type 0
  Settled left attempt before outcome =
      (n : ℕ) × (n ≤ left) × Ends (left == n) (attempt + n) (before + n) outcome

  opened : ℕ → List Event → List Event
  opened attempt log = log ++ signal_created attempt ∷ sent attempt ∷ []
