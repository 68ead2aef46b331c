-- ===== src/Concurrency/WorkerPool/Settling.antt =====
-- Every task of worker-pool.ts is queued, started or settled, and settled once at most.
use kenojs.Prelude.{
  ℕ, zero, suc, ◌+◌, ◌≤◌, ◌≡◌, refl, ap, sym, ◌∙◌, inl, inr, Option-cases, Bool-cases, if_rule,
  Option_rule, Bool, true, false, ◌&&◌, Option, none, some, List, [], ◌∷◌, ◌==◌, ltb, leb,
  if◌then◌else◌, arith, ℕ_key, All, subst,
}
use kenojs.Prelude.Maps.{get, delete}
use kenojs.Concurrency.WorkerPool.{
  active_of, Reason, task_failed, timed_out, worker_exited, reject_queue, reject_tasks, PoolTask,
  WorkerState, TaskState, Effect, resolve, reject, Pool, WorkerMessage, result, error, Input,
  get_idle_worker, effect, accept, refuse, pool_is_closed, queue_full, start_task, drain,
  drain_queue, run, emit_error, finish, handle_task_message, handle_task_timeout, abandon,
  handle_exit, spawn_worker, fresh, close, close_done, create, spawn_all, step, run_all, run_task,
  on_message, on_timeout, on_exit, close_pool, closed_down,
}
use kenojs.Concurrency.WorkerPool.Counting.{
  one_if, entries, entries-delete, entries-set, get-entries, settles, settled, queued,
  queued-append, settled-reject_queue, settled-reject_tasks, settled-shut_down,
}

-- The task ids that were given out.
abbrev pub issued : ℕ → ℕ → Bool
issued j next = leb 1 j && ltb j next

issued-suc :
    (j next : ℕ)
    → 1 ≤ next
    → one_if (issued j (next + 1)) ≡ one_if (issued j next) + one_if (next == j)
issued-suc j next h = ground arith

module _ {I O : Type 0} where
  -- Settled, queued or started.
  abbrev pub accounted : ℕ → Pool I O → ℕ
  accounted j p = settled j p.log + queued j p.queue + entries j p.tasks

  abbrev pub IsConserved : Pool I O → Type 0
  IsConserved p = (j : ℕ) → accounted j p ≡ one_if (issued j p.next_task_id)

  -- To start a task adds one entry for it; the queue is left alone.
  start_task-moves :
      (j : ℕ) (w : WorkerState) (t : PoolTask I) (p : Pool I O)
      → entries t.id p.tasks ≡ 0
      → (settled j (start_task w t p).log + entries j (start_task w t p).tasks
          ≡ settled j p.log + entries j p.tasks + one_if (t.id == j))
        × ((start_task w t p).queue ≡ p.queue)
  unfolding start_task
  start_task-moves j w t p h =
      ground (arith, entries-set j t.id (record { timeout = t.timeout }) p.tasks h)

  -- Nothing is lost or doubled when the queue is drained.
  drain-accounted :
      (ts : List (PoolTask I)) (p : Pool I O)
      → ((k : ℕ) → accounted k (record p { queue = ts }) ≤ 1)
      → (j : ℕ) → accounted j (drain ts p) ≡ accounted j (record p { queue = ts })
  unfolding drain
  drain-accounted [] p h j = refl
  drain-accounted (t ∷ ts) p h j = elim (Option-cases (get_idle_worker p.states)) [
    | inl e ↦ rw (e, drain)
    | inr (w, e) ↦
        let p' = record p { queue = ts } in
        let free : entries t.id p.tasks ≡ 0 = omega (arith, h t.id, self t.id) in
        let same = λ (k : ℕ). (start_task-moves k w t p' free).0 in
        rw (e, drain)
          (if_rule (λ (q : Pool I O). accounted j q ≡ accounted j (record p { queue = t ∷ ts }))
            t.posts
            (λ f.
              drain-accounted ts (start_task w t p')
                (λ k. omega (arith, h k, same k, ap (queued k) (start_task-moves k w t p' free).1))
                j
              ∙ omega (arith, same j))
            (λ f. omega (arith, same j, ap (queued j) (start_task-moves j w t p' free).1)))
  ]
    where
      self : (k : ℕ) → one_if (k == k) ≡ 1
      self k = ground arith

  finish-accounted :
      (j id : ℕ) (w : WorkerState) (e : Effect I O) (p : Pool I O)
      → settles j e ≡ one_if (id == j)
      → entries id p.tasks ≡ 1
      → accounted j (finish w id e p) ≡ accounted j p
  unfolding finish
  finish-accounted j id w e p h one = ground (arith, entries-delete j id p.tasks)

  at_most_one : (p : Pool I O) → IsConserved p → (k : ℕ) → accounted k p ≤ 1
  at_most_one p v k = ground (arith, v k)

  -- A started task has one entry, and is neither queued nor settled.
  started_once :
      (p : Pool I O) (id : ℕ) (t : TaskState)
      → IsConserved p
      → get id p.tasks ≡ some t
      → entries id p.tasks ≡ 1
  started_once p id t v e = omega (arith, get-entries id p.tasks t e, at_most_one p v id)

  drain_queue-accounted :
      (p : Pool I O)
      → ((k : ℕ) → accounted k p ≤ 1)
      → (j : ℕ) → accounted j (drain_queue p) ≡ accounted j p
  unfolding drain_queue
  drain_queue-accounted p h j = drain-accounted p.queue (record p { threw = false }) h j

  start_task_keeps :
      (w : WorkerState) (t : PoolTask I) (p : Pool I O)
      → ((start_task w t p).next_task_id ≡ p.next_task_id)
        × ((start_task w t p).closed ≡ p.closed)
        × ((start_task w t p).closing ≡ p.closing)
  unfolding start_task
  start_task_keeps w t p = ground arith

  -- What draining leaves alone.
  drain_keeps :
      (ts : List (PoolTask I)) (p : Pool I O)
      → ((drain ts p).next_task_id ≡ p.next_task_id)
        × ((drain ts p).closed ≡ p.closed)
        × ((drain ts p).closing ≡ p.closing)
  unfolding drain
  drain_keeps [] p = (refl, refl, refl)
  drain_keeps (t ∷ ts) p = elim (Option-cases (get_idle_worker p.states)) [
    | inl e ↦ rw (e, drain) (refl, refl, refl)
    | inr (w, e) ↦
        let p' = record p { queue = ts } in
        let (a, b, c) = drain_keeps ts (start_task w t p') in
        let (d, f, g) = start_task_keeps w t p' in
        rw (e, drain)
          (if_rule
            (λ (q : Pool I O).
              (q.next_task_id ≡ p.next_task_id) × (q.closed ≡ p.closed) × (q.closing ≡ p.closing))
            t.posts (λ k. (a ∙ d, b ∙ f, c ∙ g)) (λ k. (d, f, g)))
  ]

  -- The id of every task lies below the next one; a closed pool has nothing left.
  pub record Inv (p : Pool I O) : Type 0 where
    pub conserved : IsConserved p
    pub next_positive : 1 ≤ p.next_task_id
    pub closes : p.closed ≡ p.closing
    pub emptied : p.closed ≡ true → (p.queue ≡ []) × (p.tasks ≡ [])

  drain_queue-Inv : (p : Pool I O) → p.closed ≡ false → Inv p → Inv (drain_queue p)
  unfolding drain_queue
  drain_queue-Inv p open_pool v =
      let (a, b, c) = drain_keeps p.queue (record p { threw = false }) in
      let same = drain-accounted p.queue (record p { threw = false }) (at_most_one p v.conserved) in
      record {
        conserved = λ j. same j ∙ rw a (v.conserved j);
        next_positive = omega (arith, v.next_positive, a);
        closes = b ∙ v.closes ∙ sym c;
        emptied = λ h. cc;
      }

  refuse_free : (k : ℕ) (p : Pool I O) → Inv p → p.next_task_id ≤ k → entries k p.tasks ≡ 0
  refuse_free k p v h = ground (arith, v.conserved k)

  accept-Inv :
      (x : I) (limit : Option ℕ) (p : Pool I O)
      → p.closed ≡ false
      → Inv p
      → Inv (accept x limit true p)
  unfolding accept
  accept-Inv x limit p open_pool v = elim (Option-cases (get_idle_worker p.states)) [
    | inl e ↦
        rw (e, accept)
          (record {
            conserved = λ j. omega (
              arith,
              v.conserved j,
              queued-append j p.queue (task ∷ []),
              issued-suc j p.next_task_id v.next_positive,
            );
            next_positive = omega arith;
            closes = v.closes;
            emptied = λ h. cc;
          })
    | inr (w, e) ↦
        let counted = record p { next_task_id = p.next_task_id + 1 } in
        let free = refuse_free p.next_task_id p v (omega arith) in
        let (a, b, c) = start_task_keeps w task counted in
        rw (e, accept)
          (record {
            conserved = λ j.
                let (moved, left) = start_task-moves j w task counted free in
                rw a (
                  omega (
                    arith,
                    v.conserved j,
                    moved,
                    ap (queued j) left,
                    issued-suc j p.next_task_id v.next_positive,
                  ));
            next_positive = omega (arith, a);
            closes = b ∙ v.closes ∙ sym c;
            emptied = λ h. cc;
          })
  ]
    where
      task : PoolTask I
      task = record { id = p.next_task_id; timeout = limit; payload = x; posts = true }

  logged-Inv :
      (e : Effect I O) (p : Pool I O) → ((j : ℕ) → settles j e ≡ 0) → Inv p → Inv (effect e p)
  logged-Inv e p h v = record {
    conserved = λ j. omega (arith, v.conserved j, h j);
    next_positive = v.next_positive;
    closes = v.closes;
    emptied = v.emptied;
  }

  run-Inv : (x : I) (limit : Option ℕ) (p : Pool I O) → Inv p → Inv (run x limit true p)
  unfolding run
  run-Inv x limit p v =
      if_rule Inv p.closed (λ e. logged-Inv (refuse pool_is_closed) p (λ j. refl) v)
        (λ e.
          if_rule Inv _ (λ f. logged-Inv (refuse queue_full) p (λ j. refl) v)
            (λ f. accept-Inv x limit p e v))

  still_open :
      (id : ℕ) (t : TaskState) (p : Pool I O) → get id p.tasks ≡ some t → Inv p → p.closed ≡ false
  unfolding get
  still_open id t p g v = elim (Bool-cases p.closed) [
    | inl e ↦ ground (arith, v.emptied e)
    | inr e ↦ e
  ]

  finish-open :
      (w : WorkerState) (id : ℕ) (e : Effect I O) (p : Pool I O)
      → p.closed ≡ false
      → (finish w id e p).closed ≡ false
  unfolding finish
  finish-open w id e p h = h

  finish-Inv :
      (id : ℕ) (t : TaskState) (w : WorkerState) (e : Effect I O) (p : Pool I O)
      → get id p.tasks ≡ some t
      → ((j : ℕ) → settles j e ≡ one_if (id == j))
      → Inv p
      → Inv (finish w id e p)
  unfolding finish
  finish-Inv id t w e p g h v = record {
    conserved =
        λ j. finish-accounted j id w e p (h j) (started_once p id t v.conserved g) ∙ v.conserved j;
    next_positive = v.next_positive;
    closes = v.closes;
    emptied = λ h'. absurd (ground (arith, still_open id t p g v));
  }

  emit_error-Inv : (id : ℕ) (p : Pool I O) → Inv p → Inv (effect (emit_error id) p)
  emit_error-Inv id p v = logged-Inv (emit_error id) p (λ j. refl) v

  handle_task_message-Inv :
      (id : ℕ) (m : WorkerMessage O) (p : Pool I O) → Inv p → Inv (handle_task_message id m p)
  unfolding handle_task_message
  handle_task_message-Inv id (result task_id value) p v =
      Option_rule Inv (get id p.states) (λ e. v)
        (λ w e.
          Option_rule Inv (get task_id p.tasks) (λ e. v)
            (λ t g.
              drain_queue-Inv (finish w task_id (resolve task_id value) p)
                (finish-open w task_id (resolve task_id value) p (still_open task_id t p g v))
                (finish-Inv task_id t w (resolve task_id value) p g (λ j. refl) v)))
  handle_task_message-Inv id (error none name text) p v =
      Option_rule Inv (get id p.states) (λ e. v) (λ w e. emit_error-Inv id p v)
  handle_task_message-Inv id (error (some task_id) name text) p v =
      Option_rule Inv (get id p.states) (λ e. v)
        (λ w e.
          Option_rule Inv (get task_id p.tasks) (λ e. emit_error-Inv id p v)
            (λ t g.
              let finished = finish w task_id (reject task_id (task_failed name text)) p in
              let drained =
                drain_queue-Inv finished
                  (finish-open w task_id (reject task_id (task_failed name text)) p
                    (still_open task_id t p g v))
                  (finish-Inv task_id t w (reject task_id (task_failed name text)) p g (λ j. refl)
                    v) in
              if_rule Inv (drain_queue finished).threw (λ f. drained)
                (λ f. emit_error-Inv id (drain_queue finished) drained)))

  -- A rejected promise, its entry gone.
  rejected-Inv :
      (id : ℕ) (t : TaskState) (r : Reason) (p : Pool I O)
      → get id p.tasks ≡ some t
      → Inv p
      → Inv (record p { tasks = delete id p.tasks; log = reject id r ∷ p.log })
  rejected-Inv id t r p g v = record {
    conserved = λ j.
        ground
          (arith, v.conserved j, entries-delete j id p.tasks, started_once p id t v.conserved g);
    next_positive = v.next_positive;
    closes = v.closes;
    emptied = λ h. absurd (ground (arith, still_open id t p g v));
  }

  -- Neither the workers nor what is logged beside promises matter.
  elsewhere-Inv :
      (p : Pool I O) (states : List (ℕ × WorkerState)) (log : List (Effect I O))
      → ((j : ℕ) → settled j log ≡ settled j p.log)
      → Inv p
      → Inv (record p { states = states; log = log })
  elsewhere-Inv p states log h v = record {
    conserved = λ j. omega (arith, v.conserved j, h j);
    next_positive = v.next_positive;
    closes = v.closes;
    emptied = v.emptied;
  }

  handle_task_timeout-Inv :
      (w id limit : ℕ) (p : Pool I O) → Inv p → Inv (handle_task_timeout w id limit p)
  unfolding handle_task_timeout
  handle_task_timeout-Inv w id limit p v =
      Option_rule Inv (get w p.states) (λ e. v)
        (λ worker e.
          Option_rule Inv (get id p.tasks) (λ e. v)
            (λ t g.
              elsewhere-Inv _ _ _ (λ j. omega arith) (rejected-Inv id t (timed_out limit) p g v)))

  abandon-Inv : (w : ℕ) (active : Option ℕ) (p : Pool I O) → Inv p → Inv (abandon w active p)
  unfolding abandon
  abandon-Inv w none p v = v
  abandon-Inv w (some id) p v =
      Option_rule Inv (get id p.tasks) (λ e. v)
        (λ t g.
          elsewhere-Inv _ p.states _ (λ j. omega arith) (rejected-Inv id t (worker_exited w) p g v))

  respawn-Inv :
      (w : ℕ) (p : Pool I O) → p.closing ≡ false → Inv p → Inv (drain_queue (spawn_worker w p))
  unfolding spawn_worker
  respawn-Inv w p e v = drain_queue-Inv _ (v.closes ∙ e) (elsewhere-Inv p _ _ (λ j. omega arith) v)

  handle_exit-Inv : (w code : ℕ) (p : Pool I O) → Inv p → Inv (handle_exit w code p)
  unfolding handle_exit spawn_worker
  handle_exit-Inv w code p v =
      let gone = record p { states = delete w p.states } in
      let active = active_of (get w p.states) in
      let kept = abandon-Inv w active gone (elsewhere-Inv p _ p.log (λ j. refl) v) in
      if_rule Inv (abandon w active gone).closing (λ e. kept)
        (λ e.
          if_rule (λ told. Inv (drain_queue (spawn_worker w told))) (code == 0)
            (λ f. respawn-Inv w (abandon w active gone) e kept)
            (λ f.
              respawn-Inv w (effect (emit_error w) (abandon w active gone)) e
                (emit_error-Inv w _ kept)))

  close-Inv : (p : Pool I O) → Inv p → Inv (close p)
  unfolding close
  close-Inv p v =
      if_rule Inv p.closed (λ e. v)
        (λ e. record {
          conserved = λ j. omega (
            arith,
            v.conserved j,
            settled-shut_down j p.states (reject_tasks p.tasks (reject_queue p.queue p.log)),
            settled-reject_tasks {I = I} j p.tasks (reject_queue p.queue p.log),
            settled-reject_queue j p.queue p.log,
          );
          next_positive = v.next_positive;
          closes = refl;
          emptied = λ h. (refl, refl);
        })

  close_done-Inv : (p : Pool I O) → Inv p → Inv (close_done p)
  unfolding close_done
  close_done-Inv p v = elsewhere-Inv p [] _ (λ j. omega arith) v

  -- A task that is run has a message that can be posted.
  abbrev pub CanPost : Input I O → Type 0
  CanPost (run_task x limit posts) = posts ≡ true
  CanPost _ = Unit

  step-Inv : (p : Pool I O) (i : Input I O) → CanPost i → Inv p → Inv (step p i)
  unfolding step
  step-Inv p (run_task x limit posts) c v =
      subst (λ b. Inv (run x limit b p)) (sym c) (run-Inv x limit p v)
  step-Inv p (on_message w m) c v = handle_task_message-Inv w m p v
  step-Inv p (on_timeout w id limit) c v = handle_task_timeout-Inv w id limit p v
  step-Inv p (on_exit w code) c v = handle_exit-Inv w code p v
  step-Inv p close_pool c v = close-Inv p v
  step-Inv p closed_down c v = close_done-Inv p v

  pub run_all-Inv :
      (p : Pool I O) (is : List (Input I O)) → All CanPost is → Inv p → Inv (run_all p is)
  unfolding run_all
  run_all-Inv p [] a v = v
  run_all-Inv p (i ∷ is) (c, a) v = run_all-Inv (step p i) is a (step-Inv p i c v)

  spawn_all-Inv : (n : ℕ) (p : Pool I O) → Inv p → Inv (spawn_all n p)
  unfolding spawn_all spawn_worker
  spawn_all-Inv zero p v = v
  spawn_all-Inv (suc n) p v =
      elsewhere-Inv (spawn_all n p) _ _ (λ j. omega arith) (spawn_all-Inv n p v)

  fresh-Inv : (max_queue : Option ℕ) → Inv (fresh {I = I} {O = O} max_queue)
  unfolding fresh
  fresh-Inv max_queue = record {
    conserved = λ j. ground arith;
    next_positive = omega arith;
    closes = refl;
    emptied = λ h. (refl, refl);
  }

  pub create-Inv : (size : ℕ) (max_queue : Option ℕ) → Inv (create {I = I} {O = O} size max_queue)
  unfolding create
  create-Inv size max_queue =
      spawn_all-Inv (if leb 1 size then size else 1) (fresh max_queue) (fresh-Inv max_queue)

  -- If the message of each task that is run can be posted, then, whatever the workers, the timers and the
  -- callers do, each task that was given an id is, at any time, in exactly one place: in the queue,
  -- started, or settled; and it is settled once at most.
  pub settles_once :
      (size : ℕ) (max_queue : Option ℕ) (is : List (Input I O)) (j : ℕ)
      → All CanPost is
      → let p = run_all (create size max_queue) is in
        (accounted j p ≡ one_if (issued j p.next_task_id)) × (settled j p.log ≤ 1)
  settles_once size max_queue is j a =
      let p = run_all (create size max_queue) is in
      let v = run_all-Inv (create size max_queue) is a (create-Inv size max_queue) in
      let most = at_most_one p v.conserved j in (v.conserved j, omega (arith, most))

  -- If the message of each task that is run can be posted, then, when the pool is closed, every task that was
  -- given an id has been settled, once.
  pub closed_settles :
      (size : ℕ) (max_queue : Option ℕ) (is : List (Input I O)) (j : ℕ)
      → All CanPost is
      → let p = run_all (create size max_queue) is in
        p.closed ≡ true → issued j p.next_task_id ≡ true → settled j p.log ≡ 1
  closed_settles size max_queue is j a h g =
      let v = run_all-Inv (create size max_queue) is a (create-Inv size max_queue) in
      ground (arith, v.conserved j, v.emptied h)
