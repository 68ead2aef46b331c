-- ===== src/Client/Signals.antt =====
-- `createRequestSignal` and `waitForRetry` of src/internal/client/http.ts: a request's own signal, with the
-- listener on the caller's signal and the timer that it holds, and the wait between two attempts.
use kenojs.Prelude.{
  ℕ, zero, suc, ◌≡◌, refl, Bool, true, false, Option, none, some, List, [], ◌∷◌, if◌then◌else◌,
}

-- Why a request is aborted: for the reason of the caller's signal, or since its time is over.
pub data AbortReason (E : Type 0) : Type 0 where
  from_source : E → AbortReason E
  timed_out : (timeout_ms : ℕ) → AbortReason E

pub record RequestSignal (E : Type 0) : Type 0 where
  pub aborted : Option (AbortReason E)
  pub did_timeout : Bool
  -- The timeout of the timer while it runs.
  pub timeout_handle : Option ℕ
  pub listens : Bool

pub data SignalEvent (E : Type 0) : Type 0 where
  source_aborts : E → SignalEvent E
  timer_fires : SignalEvent E

-- The caller's signal: none, one that is not aborted, or the reason of one that is.
pub data SourceSignal (E : Type 0) : Type 0 where
  no_signal not_aborted : SourceSignal E
  is_aborted : E → SourceSignal E

-- The wait: over, or rejected with a reason, or neither yet.
pub data Wait (E : Type 0) : Type 0 where
  waiting over : Wait E
  rejected : E → Wait E

module _ {E : Type 0} where
  unfoldable pub create_request_signal : SourceSignal E → (timeout_ms : Option ℕ) → RequestSignal E
  create_request_signal no_signal timeout_ms = record {
    aborted = none;
    did_timeout = false;
    timeout_handle = timeout_ms;
    listens = false;
  }
  create_request_signal not_aborted timeout_ms = record {
    aborted = none;
    did_timeout = false;
    timeout_handle = timeout_ms;
    listens = true;
  }
  create_request_signal (is_aborted reason) timeout_ms = record {
    aborted = some (from_source reason);
    did_timeout = false;
    timeout_handle = timeout_ms;
    listens = false;
  }

  -- A controller keeps its first reason.
  abbrev pub abort : AbortReason E → RequestSignal E → RequestSignal E
  abort reason s = record s {
    aborted = elim s.aborted [ none ↦ some reason | some first ↦ some first ];
  }

  unfoldable pub signal_event : SignalEvent E → RequestSignal E → RequestSignal E
  signal_event (source_aborts reason) s =
      if s.listens then abort (from_source reason) (record s { listens = false }) else s
  signal_event timer_fires s = elim s.timeout_handle [
    | none ↦ s
    | some timeout_ms ↦
        abort (timed_out timeout_ms) (record s { did_timeout = true; timeout_handle = none })
  ]

  unfoldable pub cleanup : RequestSignal E → RequestSignal E
  cleanup s = record s { timeout_handle = none; listens = false }

  abbrev pub signal_events : List (SignalEvent E) → RequestSignal E → RequestSignal E
  signal_events [] s = s
  signal_events (event ∷ events) s = signal_events events (signal_event event s)

  -- Nothing reaches a signal that is cleaned up.
  pub cleanup-signal_events :
      (events : List (SignalEvent E)) (s : RequestSignal E)
      → signal_events events (cleanup s) ≡ cleanup s
  unfolding cleanup signal_event
  cleanup-signal_events [] s = refl
  cleanup-signal_events (source_aborts reason ∷ events) s = cleanup-signal_events events s
  cleanup-signal_events (timer_fires ∷ events) s = cleanup-signal_events events s

  unfoldable pub wait_for_retry : (delay_ms : ℕ) → SourceSignal E → Wait E
  wait_for_retry zero source = over
  wait_for_retry (suc n) (is_aborted reason) = rejected reason
  wait_for_retry (suc n) no_signal = waiting
  wait_for_retry (suc n) not_aborted = waiting

  -- Its timer and the abort of the caller's signal, whichever comes first.
  unfoldable pub wait_event : SignalEvent E → Wait E → Wait E
  wait_event event over = over
  wait_event event (rejected reason) = rejected reason
  wait_event timer_fires waiting = over
  wait_event (source_aborts reason) waiting = rejected reason
