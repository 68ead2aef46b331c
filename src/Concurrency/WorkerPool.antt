-- ===== src/Concurrency/WorkerPool.antt =====
-- src/internal/concurrency/worker-pool.ts: a pool of worker threads with a queue of tasks.
-- A promise is known by its task's id; what the pool does to promises, timers and workers is an entry
-- of a log, the newest first. Node.js reports messages, timeouts and exits as events.
pub mod Counting
pub mod Settling
pub mod Bounds
pub mod Timeouts
use kenojs.Prelude.{
  ℕ, zero, suc, ◌+◌, String, Bool, true, false, not, ◌&&◌, ◌||◌, Option, none, some, List, [], ◌∷◌,
  ◌++◌, map, leb, ◌==◌, if◌then◌else◌, length, is_some, ℕ_key,
}
use kenojs.Prelude.Maps.{get, set, delete}

pub record PoolTask (I : Type 0) : Type 0 where
  pub id : ℕ
  pub timeout : Option ℕ
  pub payload : I
  -- Whether `postMessage` takes its payload and transfer list, or throws.
  pub posts : Bool

pub record WorkerState : Type 0 where
  pub active_task_id : Option ℕ
  pub busy : Bool
  pub worker_id : ℕ

-- The entry of a started task; its promise is known by its key.
pub record TaskState : Type 0 where
  pub timeout : Option ℕ

pub data Reason : Type 0 where
  pool_closed pool_is_closed queue_full post_failed : Reason
  timed_out : (timeout : ℕ) → Reason
  worker_exited : (worker_id : ℕ) → Reason
  task_failed : (name message : String) → Reason

pub data Effect (I O : Type 0) : Type 0 where
  resolve : (id : ℕ) → O → Effect I O
  reject : (id : ℕ) → Reason → Effect I O
  -- A promise that is rejected before its task has an id.
  refuse : Reason → Effect I O
  post : (worker_id id : ℕ) → I → Effect I O
  shutdown terminate spawn : (worker_id : ℕ) → Effect I O
  set_timer clear_timer : (id : ℕ) → Effect I O
  emit_error : (worker_id : ℕ) → Effect I O
  emit_close : Effect I O
  -- An exception that leaves the handler of a worker's event.
  escapes : Effect I O

-- `max_queue` is absent where the source has infinity.
pub record Pool (I O : Type 0) : Type 0 where
  pub closed : Bool
  pub closing : Bool
  pub max_queue : Option ℕ
  pub next_task_id : ℕ
  pub queue : List (PoolTask I)
  pub states : List (ℕ × WorkerState)
  pub tasks : List (ℕ × TaskState)
  -- Whether the last `drainQueue` threw.
  pub threw : Bool
  pub log : List (Effect I O)

pub data WorkerMessage (O : Type 0) : Type 0 where
  result : (task_id : ℕ) → O → WorkerMessage O
  error : (task_id : Option ℕ) (name message : String) → WorkerMessage O

abbrev pub idle_worker : ℕ → WorkerState
idle_worker worker_id = record { active_task_id = none; busy = false; worker_id = worker_id }

unfoldable pub get_idle_worker : List (ℕ × WorkerState) → Option WorkerState
get_idle_worker [] = none
get_idle_worker ((k, state) ∷ states) =
    if not state.busy then some state else get_idle_worker states

abbrev pub is_full : Option ℕ → ℕ → Bool
is_full none n = false
is_full (some most) n = leb most n

pub data Input (I O : Type 0) : Type 0 where
  run_task : I → (timeout : Option ℕ) → (posts : Bool) → Input I O
  on_message : (worker_id : ℕ) → WorkerMessage O → Input I O
  on_timeout : (worker_id task_id limit : ℕ) → Input I O
  on_exit : (worker_id code : ℕ) → Input I O
  close_pool closed_down : Input I O

abbrev pub active_of : Option WorkerState → Option ℕ
active_of none = none
active_of (some worker) = worker.active_task_id

module _ {I O : Type 0} where
  abbrev pub effect : Effect I O → Pool I O → Pool I O
  effect e p = record p { log = e ∷ p.log }

  -- The fields of the worker's state object, which the map shares.
  abbrev pub occupy : WorkerState → Option ℕ → Bool → Pool I O → Pool I O
  occupy worker active busy p = record p {
    states = set worker.worker_id (record worker { active_task_id = active; busy = busy }) p.states;
  }

  unfoldable pub spawn_worker : ℕ → Pool I O → Pool I O
  spawn_worker worker_id p = record p {
    states = set worker_id (idle_worker worker_id) p.states;
    log = spawn worker_id ∷ p.log;
  }

  -- A message that is not posted leaves the entry, and the worker busy; what is thrown is up to the caller.
  unfoldable pub start_task : WorkerState → PoolTask I → Pool I O → Pool I O
  start_task worker task p =
      let occupied = occupy worker (some task.id) true p in
      let timed = if is_some task.timeout then effect (set_timer task.id) occupied else occupied in
      let entered = record timed {
        tasks = set task.id (record { timeout = task.timeout }) p.tasks;
      } in
      if task.posts then effect (post worker.worker_id task.id task.payload) entered else entered

  -- The loop of `drainQueue` over the queue.
  unfoldable pub drain : List (PoolTask I) → Pool I O → Pool I O
  drain [] p = record p { queue = [] }
  drain (task ∷ rest) p = elim (get_idle_worker p.states) [
    | none ↦ record p { queue = task ∷ rest }
    | some worker ↦
        let started = start_task worker task (record p { queue = rest }) in
        let drained = drain rest started in
        if task.posts then drained else record started { threw = true; log = escapes ∷ started.log }
  ]

  unfoldable pub drain_queue : Pool I O → Pool I O
  drain_queue p = drain p.queue (record p { threw = false })

  -- The body of the promise that `run` returns; what it throws rejects the promise.
  unfoldable pub accept : I → Option ℕ → (posts : Bool) → Pool I O → Pool I O
  accept payload timeout posts p =
      let task : PoolTask I = record {
        id = p.next_task_id;
        timeout = timeout;
        payload = payload;
        posts = posts;
      } in
      let counted = record p { next_task_id = p.next_task_id + 1 } in
      elim (get_idle_worker p.states) [
        | none ↦ record counted { queue = p.queue ++ task ∷ [] }
        | some worker ↦
            let started = start_task worker task counted in
            if posts then started else effect (reject task.id post_failed) started
      ]

  unfoldable pub run : I → Option ℕ → (posts : Bool) → Pool I O → Pool I O
  run payload timeout posts p =
      if p.closed
      then effect (refuse pool_is_closed) p
      else if is_full p.max_queue (length p.queue) && not (is_some (get_idle_worker p.states))
      then effect (refuse queue_full) p
      else accept payload timeout posts p

  -- A started task is settled: its entry goes, and its worker is free.
  unfoldable pub finish : WorkerState → ℕ → Effect I O → Pool I O → Pool I O
  finish worker task_id settled p = effect settled (
      occupy worker none false
        (record p { tasks = delete task_id p.tasks; log = clear_timer task_id ∷ p.log }))

  unfoldable pub handle_task_message : ℕ → WorkerMessage O → Pool I O → Pool I O
  handle_task_message worker_id message p = elim (get worker_id p.states) [
    | none ↦ p
    | some worker ↦ elim message [
      | result task_id value ↦ elim (get task_id p.tasks) [
        | none ↦ p
        | some task ↦ drain_queue (finish worker task_id (resolve task_id value) p)
      ]
      | error failed name text ↦ elim failed [
        | none ↦ effect (emit_error worker_id) p
        | some task_id ↦ elim (get task_id p.tasks) [
          | none ↦ effect (emit_error worker_id) p
          | some task ↦
              let drained =
                drain_queue (finish worker task_id (reject task_id (task_failed name text)) p) in
              if drained.threw then drained else effect (emit_error worker_id) drained
        ]
      ]
    ]
  ]

  unfoldable pub handle_task_timeout : ℕ → ℕ → ℕ → Pool I O → Pool I O
  handle_task_timeout worker_id task_id timeout p = elim (get worker_id p.states) [
    | none ↦ p
    | some worker ↦ elim (get task_id p.tasks) [
      | none ↦ p
      | some task ↦ effect (terminate worker_id) (
          effect (reject task_id (timed_out timeout))
            (occupy worker none false (record p { tasks = delete task_id p.tasks })))
    ]
  ]

  -- The part of the exit handler that settles the task of the worker that is gone.
  unfoldable pub abandon : ℕ → Option ℕ → Pool I O → Pool I O
  abandon worker_id none p = p
  abandon worker_id (some task_id) p = elim (get task_id p.tasks) [
    | none ↦ p
    | some task ↦ record p {
      tasks = delete task_id p.tasks;
      log = reject task_id (worker_exited worker_id) ∷ clear_timer task_id ∷ p.log;
    }
  ]

  unfoldable pub handle_exit : ℕ → ℕ → Pool I O → Pool I O
  handle_exit worker_id code p =
      let active = active_of (get worker_id p.states) in
      let settled = abandon worker_id active (record p { states = delete worker_id p.states }) in
      if settled.closing
      then settled
      else let told = if code == 0 then settled else effect (emit_error worker_id) settled in
        drain_queue (spawn_worker worker_id told)

  abbrev pub reject_queue : List (PoolTask I) → List (Effect I O) → List (Effect I O)
  reject_queue [] log = log
  reject_queue (task ∷ queue) log = reject_queue queue (reject task.id pool_closed ∷ log)

  abbrev pub reject_tasks : List (ℕ × TaskState) → List (Effect I O) → List (Effect I O)
  reject_tasks [] log = log
  reject_tasks ((id, task) ∷ tasks) log =
      reject_tasks tasks (reject id pool_closed ∷ clear_timer id ∷ log)

  abbrev pub shut_down : List (ℕ × WorkerState) → List (Effect I O) → List (Effect I O)
  shut_down [] log = log
  shut_down ((id, state) ∷ states) log = shut_down states (shutdown id ∷ log)

  -- `close` up to its wait for the workers.
  unfoldable pub close : Pool I O → Pool I O
  close p = if p.closed then p else record p {
    closed = true;
    closing = true;
    queue = [];
    tasks = [];
    log = shut_down p.states (reject_tasks p.tasks (reject_queue p.queue p.log));
  }

  -- The workers are gone, or were terminated after a second.
  unfoldable pub close_done : Pool I O → Pool I O
  close_done p = record p { states = []; log = emit_close ∷ p.log }

  -- The constructor's loop.
  unfoldable pub spawn_all : ℕ → Pool I O → Pool I O
  spawn_all zero p = p
  spawn_all (suc n) p = spawn_worker n (spawn_all n p)

  -- The fields before the constructor spawns workers.
  unfoldable pub fresh : Option ℕ → Pool I O
  fresh max_queue = record {
    closed = false;
    closing = false;
    max_queue = max_queue;
    next_task_id = 1;
    queue = [];
    states = [];
    tasks = [];
    threw = false;
    log = [];
  }

  unfoldable pub create : ℕ → Option ℕ → Pool I O
  unfolding spawn_all spawn_worker fresh
  create size max_queue = spawn_all (if leb 1 size then size else 1) (fresh max_queue)

  unfoldable pub step : Pool I O → Input I O → Pool I O
  step p (run_task payload limit posts) = run payload limit posts p
  step p (on_message worker_id m) = handle_task_message worker_id m p
  step p (on_timeout worker_id task_id limit) = handle_task_timeout worker_id task_id limit p
  step p (on_exit worker_id code) = handle_exit worker_id code p
  step p close_pool = close p
  step p closed_down = close_done p

  unfoldable pub run_all : Pool I O → List (Input I O) → Pool I O
  run_all p [] = p
  run_all p (i ∷ is) = run_all (step p i) is
