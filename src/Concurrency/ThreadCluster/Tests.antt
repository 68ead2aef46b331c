-- ===== src/Concurrency/ThreadCluster/Tests.antt =====
-- Runs of the thread cluster, and the theorem about it at a concrete input.
use kenojs.Prelude.{ℕ, ◌+◌, ◌≡◌, refl, true, false, length, List, [], ◌∷◌, ℕ_key}
use kenojs.Prelude.Maps.{get, set, delete}
use kenojs.Concurrency.ThreadCluster.{
  resolved, rejected, listens, Event, emit_listening, Cluster, ClusterInput, call_listen,
  call_ready, on_message, on_exit, make_cluster, spawn_worker, spawn_workers, listen, ready,
  report_error, check_ready, handle_worker_message, handle_exit, step, run,
}
use kenojs.Concurrency.ThreadCluster.Readiness.{AllThere, resolves_complete}

cluster : Unit {0}
unfolding make_cluster spawn_worker spawn_workers listen ready report_error check_ready
    handle_worker_message handle_exit step run get set delete
cluster = tt

abbrev started : List (ClusterInput ℕ)
started = call_ready ∷ on_message (listens 1 8081) ∷ []

resolves_complete_example :
    AllThere 2 (step 2 (run 2 (make_cluster true) started) (on_message (listens 0 8080)))
unfolding cluster
resolves_complete_example = resolves_complete 2 started (on_message (listens 0 8080)) refl refl

-- A worker is lost, and the other one's message still tells the listeners of "listening".
abbrev lost : Cluster ℕ
lost = run 2 (make_cluster true) (call_listen ∷ on_exit 0 1 ∷ on_message (listens 1 8081) ∷ [])

rejected_once : lost.ready_promise ≡ rejected
unfolding cluster
rejected_once = refl

abbrev announced : List (Event ℕ) → ℕ
announced [] = 0
announced (emit_listening ∷ log) = 1 + announced log
announced (_ ∷ log) = announced log

listening_without_all : announced lost.log ≡ 1
unfolding cluster
listening_without_all = refl

-- Nobody listens to "error": the lost worker does not reject the promise, and where the process
-- survives the exception, the promise resolves with one worker of two.
abbrev unheard : Cluster ℕ
unheard = run 2 (make_cluster false) (call_listen ∷ on_exit 0 1 ∷ on_message (listens 1 8081) ∷ [])

resolved_short : (unheard.ready_promise ≡ resolved) × (length unheard.worker_snapshots ≡ 1)
unfolding cluster
resolved_short = (refl, refl)
