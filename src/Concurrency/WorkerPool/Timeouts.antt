-- ===== src/Concurrency/WorkerPool/Timeouts.antt =====
-- A task of worker-pool.ts that times out.
use kenojs.Prelude.{==_iff, ℕ, ◌≡◌, true, false, Option, some, [], ◌∷◌, arith, ℕ_key}
use kenojs.Prelude.Maps.{get, set}
use kenojs.Concurrency.WorkerPool.{
  WorkerState, TaskState, Pool, get_idle_worker, accept, start_task, run, handle_task_timeout,
}

module _ {I O : Type 0} where
  -- In an open pool of one worker with nothing queued, a task that times out leaves the worker free
  -- though it is being terminated: the next task is not queued but given to that worker.
  pub timeout_reuses_worker :
      (p : Pool I O) (w : WorkerState) (id limit : ℕ) (task : TaskState) (payload : I)
      (next_limit : Option ℕ)
      → p.closed ≡ false
      → p.states ≡ (w.worker_id, w) ∷ []
      → p.queue ≡ []
      → get id p.tasks ≡ some task
      → let late = handle_task_timeout w.worker_id id limit p in
        let next = run payload next_limit true late in
        (next.queue ≡ [])
        × (get w.worker_id next.states
            ≡ some (record w { active_task_id = some p.next_task_id; busy = true }))
  unfolding handle_task_timeout run accept get_idle_worker start_task get set
  timeout_reuses_worker p w id limit task payload next_limit o e q g =
      ground (arith, ==_iff w.worker_id w.worker_id)
