-- ===== src/Concurrency/Tests.antt =====
-- Runs of the worker pool, and the theorems about it at concrete inputs.
use kenojs.Prelude.{
  ◌+◌, ◌≤◌, ◌≡◌, refl, true, false, String, none, some, List, [], ◌∷◌, length, ℕ, ℕ_key,
}
use kenojs.Prelude.Maps.{get, set, delete}
use kenojs.Concurrency.WorkerPool.{
  result, Input, run_task, on_message, close_pool, create, fresh, step, run_all, run, accept,
  handle_task_message, handle_task_timeout, finish, drain, drain_queue, start_task, get_idle_worker,
  spawn_worker, spawn_all, close,
}
use kenojs.Concurrency.WorkerPool.Counting.{one_if, settled}
use kenojs.Concurrency.WorkerPool.Settling.{accounted, issued, settles_once, closed_settles}
use kenojs.Concurrency.WorkerPool.Bounds.{queue_keeps_limit}

-- One task runs, one waits; the first is answered, and the pool is closed.
abbrev day : List (Input String ℕ)
day =
    run_task "a" (some 50) true
    ∷ run_task "b" none true
    ∷ on_message 0 (result 1 7)
    ∷ close_pool
    ∷ []

pool : Unit {0}
unfolding create fresh step run_all run accept handle_task_message handle_task_timeout finish drain
    drain_queue start_task get_idle_worker spawn_worker spawn_all close get set delete
pool = tt

settled_twice :
    settled 1 (run_all (create 1 none) day).log + settled 2 (run_all (create 1 none) day).log ≡ 2
unfolding pool
settled_twice = refl

-- A message that cannot be posted rejects the promise, but the worker stays busy, and a later close rejects
-- the promise again, which has no effect.
not_posted :
    settled {I = String} {O = ℕ} 1
      (run_all (create 1 none) (run_task "f" none false ∷ close_pool ∷ [])).log
    ≡ 2
unfolding pool
not_posted = refl

settles_once_example :
    (accounted 1 (run_all (create 1 none) day)
      ≡ one_if (issued 1 (run_all (create 1 none) day).next_task_id))
    × (settled 1 (run_all (create 1 none) day).log ≤ 1)
settles_once_example = settles_once 1 none day 1 (refl, (refl, (tt, (tt, tt))))

closed_settles_example : settled 2 (run_all (create 1 none) day).log ≡ 1
unfolding pool
closed_settles_example = closed_settles 1 none day 2 (refl, (refl, (tt, (tt, tt)))) refl refl

queue_keeps_limit_example : length (run_all (create 1 (some 1)) day).queue ≤ 1
queue_keeps_limit_example = queue_keeps_limit 1 (some 1) day
