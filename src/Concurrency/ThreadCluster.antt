-- ===== src/Concurrency/ThreadCluster.antt =====
-- The class of src/internal/concurrency/thread-cluster.ts: servers in worker threads, and the promise
-- that all of them listen. What Node.js reports is an input, what is emitted or sent to a worker is
-- an entry of a log, the newest first; an address is of any type.
pub mod Readiness
mod Tests
use kenojs.Prelude.{
  ℕ, zero, suc, String, Bool, true, false, ◌&&◌, Option, none, some, List, [], ◌∷◌, if◌then◌else◌,
  ℕ_key,
}
use kenojs.Prelude.Maps.{get, set, delete}

pub record WorkerSnapshot (A : Type 0) : Type 0 where
  pub address : Option A
  pub ready : Bool

-- The promise of `ready`; it is made by `listen`, and settled once.
pub data ReadyPromise : Type 0 where
  unmade pending resolved rejected : ReadyPromise

pub data Event (A : Type 0) : Type 0 where
  emit_error : (worker_id : ℕ) → Event A
  emit_worker_listening : (worker_id : ℕ) → A → Event A
  emit_worker_exit : (worker_id code : ℕ) → Event A
  emit_listening emit_close : Event A
  uncaught : (worker_id : ℕ) → Event A
  start_worker post_shutdown : (worker_id : ℕ) → Event A

pub data WorkerMessage (A : Type 0) : Type 0 where
  failed : (worker_id : ℕ) (name message : String) → WorkerMessage A
  listens : (worker_id : ℕ) → A → WorkerMessage A

-- `has_error_listener` says whether somebody listens to "error" (Node.js throws the error of an
-- "error" event that nobody listens to); it stays as it is during a run.
pub record Cluster (A : Type 0) : Type 0 where
  pub has_error_listener : Bool
  pub closing : Bool
  pub listening : Bool
  pub ready_promise : ReadyPromise
  pub worker_snapshots : List (ℕ × WorkerSnapshot A)
  pub log : List (Event A)

pub data ClusterInput (A : Type 0) : Type 0 where
  call_listen call_ready call_close : ClusterInput A
  on_message : WorkerMessage A → ClusterInput A
  on_error : (worker_id : ℕ) → ClusterInput A
  on_exit : (worker_id code : ℕ) → ClusterInput A
  workers_gone : ClusterInput A

-- A promise that is not there, or is settled, is left alone.
abbrev pub settle : ReadyPromise → ReadyPromise → ReadyPromise
settle outcome pending = outcome
settle outcome unmade = unmade
settle outcome resolved = resolved
settle outcome rejected = rejected

module _ {A : Type 0} where
  unfoldable pub make_cluster : Bool → Cluster A
  make_cluster has_error_listener = record {
    has_error_listener = has_error_listener;
    closing = false;
    listening = false;
    ready_promise = unmade;
    worker_snapshots = [];
    log = [];
  }

  unfoldable pub spawn_worker : ℕ → Cluster A → Cluster A
  spawn_worker worker_id c = record c {
    worker_snapshots = set worker_id (record { address = none; ready = false }) c.worker_snapshots;
    log = start_worker worker_id ∷ c.log;
  }

  -- The loop of `listen`.
  unfoldable pub spawn_workers : ℕ → Cluster A → Cluster A
  spawn_workers zero c = c
  spawn_workers (suc n) c = spawn_worker n (spawn_workers n c)

  unfoldable pub listen : ℕ → Cluster A → Cluster A
  listen worker_count c =
      if c.listening
      then c
      else spawn_workers worker_count (record c { listening = true; ready_promise = pending })

  unfoldable pub ready : ℕ → Cluster A → Cluster A
  ready worker_count c = elim c.ready_promise [
    | unmade ↦ listen worker_count c
    | pending ↦ c
    | resolved ↦ c
    | rejected ↦ c
  ]

  abbrev pub every_ready : List (ℕ × WorkerSnapshot A) → Bool
  every_ready [] = true
  every_ready ((worker_id, snapshot) ∷ snapshots) = snapshot.ready && every_ready snapshots

  -- `emit("error")`, and the promise is rejected; without a listener `emit` throws, out of the
  -- worker's event handler, and the promise is left as it is.
  unfoldable pub report_error : ℕ → Cluster A → Cluster A
  report_error worker_id c =
      if c.has_error_listener
      then record c {
        ready_promise = settle rejected c.ready_promise;
        log = emit_error worker_id ∷ c.log;
      }
      else record c { log = uncaught worker_id ∷ c.log }

  -- After a worker's snapshot is ready.
  unfoldable pub check_ready : Cluster A → Cluster A
  check_ready c =
      if every_ready c.worker_snapshots
      then record c {
        ready_promise = settle resolved c.ready_promise;
        log = emit_listening ∷ c.log;
      }
      else c

  unfoldable pub handle_worker_message : WorkerMessage A → Cluster A → Cluster A
  handle_worker_message (failed worker_id name message) c = report_error worker_id c
  handle_worker_message (listens worker_id address) c = elim (get worker_id c.worker_snapshots) [
    | none ↦ c
    | some snapshot ↦ check_ready (record c {
      worker_snapshots =
          set worker_id (record { address = some address; ready = true }) c.worker_snapshots;
      log = emit_worker_listening worker_id address ∷ c.log;
    })
  ]

  unfoldable pub handle_exit : ℕ → ℕ → Cluster A → Cluster A
  handle_exit worker_id code c =
      let gone = record c {
        worker_snapshots = delete worker_id c.worker_snapshots;
        log = emit_worker_exit worker_id code ∷ c.log;
      } in
      if c.closing then gone else report_error worker_id gone

  abbrev pub post_shutdowns : List (ℕ × WorkerSnapshot A) → List (Event A) → List (Event A)
  post_shutdowns [] log = log
  post_shutdowns ((worker_id, snapshot) ∷ snapshots) log =
      post_shutdowns snapshots (post_shutdown worker_id ∷ log)

  -- `close` up to its wait for the workers.
  unfoldable pub close : Cluster A → Cluster A
  close c = record c { closing = true; log = post_shutdowns c.worker_snapshots c.log }

  unfoldable pub close_done : Cluster A → Cluster A
  close_done c = record c { worker_snapshots = []; log = emit_close ∷ c.log }

  -- The wait of a `close` ends only where there was one.
  unfoldable pub step : ℕ → Cluster A → ClusterInput A → Cluster A
  step worker_count c call_listen = listen worker_count c
  step worker_count c call_ready = ready worker_count c
  step worker_count c call_close = close c
  step worker_count c (on_message m) = handle_worker_message m c
  step worker_count c (on_error worker_id) = report_error worker_id c
  step worker_count c (on_exit worker_id code) = handle_exit worker_id code c
  step worker_count c workers_gone = if c.closing then close_done c else c

  unfoldable pub run : ℕ → Cluster A → List (ClusterInput A) → Cluster A
  run worker_count c [] = c
  run worker_count c (i ∷ is) = run worker_count (step worker_count c i) is
