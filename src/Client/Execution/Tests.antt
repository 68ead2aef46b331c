-- ===== src/Client/Execution/Tests.antt =====
-- Runs of requests, and the theorems about them at these.
use kenojs.Prelude.{ℕ, ◌≡◌, refl, ◌==◌, true, false, none, some, [], ◌∷◌, if◌then◌else◌}
use kenojs.Client.Retry.{
  ResolvedRetryOptions, overrides, no_retry_options, merge_retry_options, resolve_retry_options,
}
use kenojs.Client.Execution.{
  throws, Network, type_error, responds, fails, gives, successful, http_client_error, execute,
  signal_created, sent, body_cancelled, waited, signal_cleaned, attempt_from, handle_reply,
  handle_error, enforce_expectation,
}

-- The first answer has status 503, the second is no answer, and the others have status 200.
abbrev network : Network ℕ
network = record {
  preparation_error = none;
  creation_error = λ attempt. none;
  reply = λ attempt.
      if attempt == 1
      then responds (record { status = 503; ok = false })
      else if attempt == 2
      then fails (type_error 7)
      else responds (record { status = 200; ok = true });
  did_timeout = λ attempt. false;
  abort_after_response = λ attempt. none;
  abort_after_error = λ attempt. none;
}

abbrev base : ResolvedRetryOptions
base = resolve_retry_options no_retry_options

-- The signal of the first attempt is never cleaned up.
three_attempts :
    execute network base
      (overrides (record no_retry_options { attempts = some 5 }))
      1000
      successful
      "GET"
    ≡ (
      gives (record { status = 200; ok = true }),
      signal_created 1
          ∷ sent 1
          ∷ body_cancelled 1
          ∷ waited 1
          ∷ signal_created 2
          ∷ sent 2
          ∷ signal_cleaned 2
          ∷ waited 2
          ∷ signal_created 3
          ∷ sent 3
          ∷ signal_cleaned 3
          ∷ [],
    )
unfolding execute attempt_from handle_reply handle_error enforce_expectation merge_retry_options
    resolve_retry_options
three_attempts = refl

post_once :
    (execute network base
      (overrides (record no_retry_options { attempts = some 5 }))
      1000
      successful
      "POST").0
    ≡ throws (http_client_error (record { status = 503; ok = false }))
unfolding execute attempt_from handle_reply handle_error enforce_expectation merge_retry_options
    resolve_retry_options
post_once = refl

-- A stream that the first attempt has read cannot be sent again: the error is thrown at an attempt that is
-- not the last, and its signal is not cleaned up.
stream_read :
    execute
      (record network {
        creation_error = λ attempt. if attempt == 2 then some (type_error 9) else none;
      })
      base
      (overrides (record no_retry_options { attempts = some 5 }))
      1000
      successful
      "GET"
    ≡ (
      throws (type_error 9),
      signal_created 1 ∷ sent 1 ∷ body_cancelled 1 ∷ waited 1 ∷ signal_created 2 ∷ [],
    )
unfolding execute attempt_from handle_reply handle_error enforce_expectation merge_retry_options
    resolve_retry_options
stream_read = refl
