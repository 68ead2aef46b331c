-- ===== src/Concurrency/WorkerPool/Bounds.antt =====
-- The queue of worker-pool.ts keeps to its limit.
use kenojs.Prelude.{
  ◌∙◌, ℕ, Bool, zero, suc, ◌+◌, ◌≤◌, ◌≡◌, refl, sym, subst, not, length, length-append, is_some,
  if_rule, Option_rule, false, ◌&&◌, Option, none, some, List, [], ◌∷◌, ◌==◌, leb, if◌then◌else◌,
  arith, ℕ_key,
}
use kenojs.Prelude.Maps.{get, delete}
use kenojs.Concurrency.WorkerPool.{
  WorkerState, reject, task_failed, emit_error, PoolTask, Pool, WorkerMessage, result, error, Input,
  run_task, on_message, on_timeout, on_exit, close_pool, closed_down, get_idle_worker, active_of,
  effect, is_full, accept, start_task, drain, drain_queue, run, finish, handle_task_message,
  handle_task_timeout, abandon, handle_exit, spawn_worker, close, close_done, spawn_all, fresh,
  create, step, run_all,
}

abbrev pub Within : Option ℕ → ℕ → Type 0
Within none n = Unit
Within (some most) n = n ≤ most

shorter : (m : Option ℕ) (n k : ℕ) → k ≤ n → Within m n → Within m k
shorter none n k h w = tt
shorter (some most) n k h w = omega arith

longer : (m : Option ℕ) (n : ℕ) → is_full m n ≡ false → Within m (n + 1)
longer none n e = tt
longer (some most) n e = ground arith

shorter_empty : (m : Option ℕ) → Within m 0
shorter_empty none = tt
shorter_empty (some most) = omega arith

open_queue : (m : Option ℕ) (n : ℕ) → (is_full m n && not false) ≡ false → Within m (n + 1)
open_queue none n e = tt
open_queue (some most) n e = ground arith

module _ {I O : Type 0} where
  -- The queue of the pool is within a limit, the pool's own.
  abbrev pub Kept : Option ℕ → Pool I O → Type 0
  Kept m p = (p.max_queue ≡ m) × Within m (length p.queue)

  start_task-kept :
      (w : WorkerState) (t : PoolTask I) (p : Pool I O)
      → ((start_task w t p).max_queue ≡ p.max_queue) × ((start_task w t p).queue ≡ p.queue)
  unfolding start_task
  start_task-kept w t p = ground arith

  drain-Kept :
      (m : Option ℕ) (ts : List (PoolTask I)) (p : Pool I O)
      → p.max_queue ≡ m
      → Within m (length ts)
      → Kept m (drain ts p)
  unfolding drain
  drain-Kept m [] p e h = (e, h)
  drain-Kept m (t ∷ ts) p e h =
      Option_rule (Kept m) (get_idle_worker p.states) (λ g. (e, h))
        (λ w g.
          let started = start_task-kept w t (record p { queue = ts }) in
          let within = shorter m (length (t ∷ ts)) (length ts) (omega arith) h in
          if_rule (Kept m) t.posts
            (λ f. drain-Kept m ts (start_task w t (record p { queue = ts })) (started.0 ∙ e) within)
            (λ f. (started.0 ∙ e, subst (λ q. Within m (length q)) (sym started.1) within)))

  drain_queue-Kept : (m : Option ℕ) (p : Pool I O) → Kept m p → Kept m (drain_queue p)
  unfolding drain_queue
  drain_queue-Kept m p v = drain-Kept m p.queue (record p { threw = false }) v.0 v.1

  accept-Kept :
      (m : Option ℕ) (x : I) (limit : Option ℕ) (posts : Bool) (p : Pool I O)
      → (is_full p.max_queue (length p.queue) && not (is_some (get_idle_worker p.states))) ≡ false
      → Kept m p
      → Kept m (accept x limit posts p)
  unfolding accept
  accept-Kept m x limit posts p e v =
      let task : PoolTask I = record {
        id = p.next_task_id;
        timeout = limit;
        payload = x;
        posts = posts;
      } in
      let counted = record p { next_task_id = p.next_task_id + 1 } in
      Option_rule (Kept m) (get_idle_worker p.states)
        (λ f. (
          v.0,
          subst (Within m) (sym (length-append p.queue (task ∷ []))) (
              open_queue m (length p.queue) (
                subst (λ o. (is_full o (length p.queue) && not false) ≡ false) v.0
                  (subst (λ g. (is_full p.max_queue (length p.queue) && not (is_some g)) ≡ false) f
                    e))),
        ))
        (λ w f.
          let started = start_task-kept w task counted in
          let kept : Kept m (start_task w task counted) =
            (started.0 ∙ v.0, subst (λ q. Within m (length q)) (sym started.1) v.1) in
          if_rule (Kept m) posts (λ g. kept) (λ g. kept))

  run-Kept :
      (m : Option ℕ) (x : I) (limit : Option ℕ) (posts : Bool) (p : Pool I O)
      → Kept m p
      → Kept m (run x limit posts p)
  unfolding run
  run-Kept m x limit posts p v =
      if_rule (Kept m) p.closed (λ e. v)
        (λ e.
          if_rule (Kept m)
            (is_full p.max_queue (length p.queue) && not (is_some (get_idle_worker p.states)))
            (λ f. v) (λ f. accept-Kept m x limit posts p f v))

  handle_task_message-Kept :
      (m : Option ℕ) (w : ℕ) (msg : WorkerMessage O) (p : Pool I O)
      → Kept m p
      → Kept m (handle_task_message w msg p)
  unfolding handle_task_message finish
  handle_task_message-Kept m w (result id x) p v =
      Option_rule (Kept m) (get w p.states) (λ e. v)
        (λ worker e. Option_rule (Kept m) (get id p.tasks) (λ f. v) (λ t f. drain_queue-Kept m _ v))
  handle_task_message-Kept m w (error none name text) p v =
      Option_rule (Kept m) (get w p.states) (λ e. v) (λ worker e. v)
  handle_task_message-Kept m w (error (some id) name text) p v =
      Option_rule (Kept m) (get w p.states) (λ e. v)
        (λ worker e.
          Option_rule (Kept m) (get id p.tasks) (λ f. v)
            (λ t f.
              let finished = finish worker id (reject id (task_failed name text)) p in
              let kept = drain_queue-Kept m finished v in
              if_rule (Kept m) (drain_queue finished).threw (λ g. kept) (λ g. kept)))

  handle_task_timeout-Kept :
      (m : Option ℕ) (w id limit : ℕ) (p : Pool I O)
      → Kept m p
      → Kept m (handle_task_timeout w id limit p)
  unfolding handle_task_timeout
  handle_task_timeout-Kept m w id limit p v =
      Option_rule (Kept m) (get w p.states) (λ e. v)
        (λ worker e. Option_rule (Kept m) (get id p.tasks) (λ f. v) (λ t f. v))

  abandon-Kept :
      (m : Option ℕ) (w : ℕ) (active : Option ℕ) (p : Pool I O)
      → Kept m p
      → Kept m (abandon w active p)
  unfolding abandon
  abandon-Kept m w none p v = v
  abandon-Kept m w (some id) p v = Option_rule (Kept m) (get id p.tasks) (λ e. v) (λ t e. v)

  handle_exit-Kept :
      (m : Option ℕ) (w code : ℕ) (p : Pool I O) → Kept m p → Kept m (handle_exit w code p)
  unfolding handle_exit spawn_worker
  handle_exit-Kept m w code p v =
      let gone = record p { states = delete w p.states } in
      let settled = abandon w (active_of (get w p.states)) gone in
      let kept = abandon-Kept m w (active_of (get w p.states)) gone v in
      if_rule (Kept m) settled.closing (λ e. kept)
        (λ e.
          if_rule (λ told. Kept m (drain_queue (spawn_worker w told))) (code == 0)
            (λ f. drain_queue-Kept m (spawn_worker w settled) kept)
            (λ f. drain_queue-Kept m (spawn_worker w (effect (emit_error w) settled)) kept))

  step-Kept : (m : Option ℕ) (p : Pool I O) (i : Input I O) → Kept m p → Kept m (step p i)
  unfolding step close close_done
  step-Kept m p (run_task x limit posts) v = run-Kept m x limit posts p v
  step-Kept m p (on_message w msg) v = handle_task_message-Kept m w msg p v
  step-Kept m p (on_timeout w id limit) v = handle_task_timeout-Kept m w id limit p v
  step-Kept m p (on_exit w code) v = handle_exit-Kept m w code p v
  step-Kept m p close_pool v =
      if_rule (Kept m) p.closed (λ e. v)
        (λ e. (v.0, shorter m (length p.queue) 0 (omega arith) v.1))
  step-Kept m p closed_down v = v

  run_all-Kept :
      (m : Option ℕ) (is : List (Input I O)) (p : Pool I O) → Kept m p → Kept m (run_all p is)
  unfolding run_all
  run_all-Kept m [] p v = v
  run_all-Kept m (i ∷ is) p v = run_all-Kept m is (step p i) (step-Kept m p i v)

  spawn_all-Kept : (m : Option ℕ) (n : ℕ) (p : Pool I O) → Kept m p → Kept m (spawn_all n p)
  unfolding spawn_all spawn_worker
  spawn_all-Kept m zero p v = v
  spawn_all-Kept m (suc n) p v = spawn_all-Kept m n p v

  -- Whatever the workers, the timers and the callers do, a pool made with a limit on its queue never
  -- queues more tasks than that.
  pub queue_keeps_limit :
      (size : ℕ) (max_queue : Option ℕ) (is : List (Input I O))
      → Within max_queue (length (run_all (create size max_queue) is).queue)
  unfolding create fresh
  queue_keeps_limit size m is =
      let made =
        spawn_all-Kept m (if leb 1 size then size else 1) (fresh {I = I} {O = O} m)
          (refl, shorter_empty m) in
      (run_all-Kept m is (create size m) made).1
