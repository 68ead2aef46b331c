-- ===== src/Concurrency/ThreadCluster/Readiness.antt =====
-- When the promise of thread-cluster.ts resolves.
use kenojs.Prelude.{
  ℕ, zero, suc, ◌≤◌, ◌≡◌, refl, ap, ◌∙◌, true, false, none, some, List, [], ◌∷◌, length, if_rule,
  Option_rule, arith, ℕ_key,
}
use kenojs.Prelude.Maps.{get, set, delete, get-set}
use kenojs.Concurrency.ThreadCluster.{
  WorkerSnapshot, ReadyPromise, unmade, pending, resolved, rejected, WorkerMessage, failed, listens,
  Cluster, ClusterInput, call_listen, call_ready, call_close, on_message, on_error, on_exit,
  workers_gone, settle, make_cluster, spawn_worker, spawn_workers, listen, ready, every_ready,
  report_error, check_ready, handle_worker_message, handle_exit, close, close_done, step, run,
}

length-set {ℓ} :
    {V : Type ℓ} (k : ℕ) (v w : V) (m : List (ℕ × V))
    → get k m ≡ some v
    → length (set k w m) ≡ length m
unfolding get set
length-set k v w [] e = cc
length-set k v w ((j, u) ∷ m) e = ground (arith, length-set k v w m)

length-set_new {ℓ} :
    {V : Type ℓ} (k : ℕ) (w : V) (m : List (ℕ × V))
    → get k m ≡ none
    → length (set k w m) ≡ suc (length m)
unfolding get set
length-set_new k w [] e = refl
length-set_new k w ((j, u) ∷ m) e = ground (arith, length-set_new k w m)

settle-rejected_pending : (p : ReadyPromise) → settle rejected p ≡ pending → ⊥
settle-rejected_pending unmade e = cc
settle-rejected_pending pending e = cc
settle-rejected_pending resolved e = cc
settle-rejected_pending rejected e = cc

settle-resolved_pending : (p : ReadyPromise) → settle resolved p ≡ pending → ⊥
settle-resolved_pending unmade e = cc
settle-resolved_pending pending e = cc
settle-resolved_pending resolved e = cc
settle-resolved_pending rejected e = cc

settle-unmade : (o p : ReadyPromise) → p ≡ unmade → settle o p ≡ unmade
settle-unmade o p e = ap (settle o) e

settle-rejected_resolved : (p : ReadyPromise) → p ≡ pending → settle rejected p ≡ resolved → ⊥
settle-rejected_resolved unmade e h = cc
settle-rejected_resolved pending e h = cc
settle-rejected_resolved resolved e h = cc
settle-rejected_resolved rejected e h = cc

module _ {A : Type 0} (worker_count : ℕ) where
  -- Errors are listened to, before `listen` there is no worker, and while the promise is pending in a cluster that is not
  -- closing, every worker is there.
  pub record Inv (c : Cluster A) : Type 0 where
    heard : c.has_error_listener ≡ true
    idle : c.listening ≡ false → (c.worker_snapshots ≡ []) × (c.ready_promise ≡ unmade)
    complete :
        c.ready_promise ≡ pending → c.closing ≡ false → length c.worker_snapshots ≡ worker_count

  spawned :
      (n : ℕ) (c : Cluster A)
      → c.worker_snapshots ≡ []
      → (length (spawn_workers n c).worker_snapshots ≡ n)
        × ((k : ℕ) → n ≤ k → get k (spawn_workers n c).worker_snapshots ≡ none)
  unfolding spawn_workers spawn_worker get
  spawned zero c e = (ap length e, λ k h. ap (get k) e)
  spawned (suc n) c e =
      let before = spawned n c e in
      let fresh : WorkerSnapshot A = record { address = none; ready = false } in
      (
        length-set_new n fresh (spawn_workers n c).worker_snapshots (before.1 n (omega arith))
            ∙ ap suc before.0,
        λ k h. ground (arith, get-set n k fresh (spawn_workers n c).worker_snapshots, before.1 k),
      )

  spawn-kept :
      (n : ℕ) (c : Cluster A)
      → let d = spawn_workers n c in
        (d.listening ≡ c.listening)
        × ((d.ready_promise ≡ c.ready_promise) × (d.has_error_listener ≡ c.has_error_listener))
  unfolding spawn_workers spawn_worker
  spawn-kept zero c = (refl, (refl, refl))
  spawn-kept (suc n) c = spawn-kept n c

  listen-Inv : (c : Cluster A) → Inv c → Inv (listen worker_count c)
  unfolding listen
  listen-Inv c v =
      if_rule Inv c.listening (λ e. v)
        (λ e.
          let started = record c { listening = true; ready_promise = pending } in
          let kept = spawn-kept worker_count started in
          record {
            heard = kept.1.1 ∙ v.heard;
            idle = λ h. absurd (ground (arith, kept.0));
            complete = λ h g. (spawned worker_count started (v.idle e).0).0;
          })

  ready-Inv : (c : Cluster A) → Inv c → Inv (ready worker_count c)
  unfolding ready
  ready-Inv c v =
      elim c.ready_promise
        as (λ (p : ReadyPromise).
          Inv (elim p [
            | unmade ↦ listen worker_count c
            | pending ↦ c
            | resolved ↦ c
            | rejected ↦ c
          ])) [ unmade ↦ listen-Inv c v | pending ↦ v | resolved ↦ v | rejected ↦ v ]

  report_error-Inv :
      (w : ℕ) (c : Cluster A)
      → c.has_error_listener ≡ true
      → (c.listening ≡ false → (c.worker_snapshots ≡ []) × (c.ready_promise ≡ unmade))
      → Inv (report_error w c)
  unfolding report_error
  report_error-Inv w c t h =
      if_rule Inv c.has_error_listener
        (λ k. record {
          heard = t;
          idle = λ e. ((h e).0, settle-unmade rejected c.ready_promise (h e).1);
          complete = λ e g. absurd (settle-rejected_pending c.ready_promise e);
        })
        (λ k. absurd cc)

  check_ready-Inv : (c : Cluster A) → Inv c → Inv (check_ready c)
  unfolding check_ready
  check_ready-Inv c v =
      if_rule Inv (every_ready c.worker_snapshots)
        (λ e. record {
          heard = v.heard;
          idle = λ h. ((v.idle h).0, settle-unmade resolved c.ready_promise (v.idle h).1);
          complete = λ h g. absurd (settle-resolved_pending c.ready_promise h);
        })
        (λ e. v)

  -- A worker that is there becomes ready.
  updated-Inv :
      (w : ℕ) (snapshot changed : WorkerSnapshot A) (c d : Cluster A)
      → get w c.worker_snapshots ≡ some snapshot
      → Inv c
      → d.worker_snapshots ≡ set w changed c.worker_snapshots
      → d.listening ≡ c.listening
      → d.closing ≡ c.closing
      → d.ready_promise ≡ c.ready_promise
      → d.has_error_listener ≡ c.has_error_listener
      → Inv d
  unfolding get
  updated-Inv w snapshot changed c d e v a b k p t = record {
    heard = t ∙ v.heard;
    idle = λ h. ground (arith, v.idle);
    complete = λ h g.
        ground (arith, v.complete, length-set w snapshot changed c.worker_snapshots e, ap length a);
  }

  message-Inv : (m : WorkerMessage A) (c : Cluster A) → Inv c → Inv (handle_worker_message m c)
  unfolding handle_worker_message
  message-Inv (failed w name text) c v = report_error-Inv w c v.heard v.idle
  message-Inv (listens w address) c v =
      Option_rule Inv (get w c.worker_snapshots) (λ e. v)
        (λ snapshot e.
          check_ready-Inv _ (updated-Inv w snapshot _ c _ e v refl refl refl refl refl))

  exit-Inv : (w code : ℕ) (c : Cluster A) → Inv c → Inv (handle_exit w code c)
  unfolding handle_exit delete
  exit-Inv w code c v =
      if_rule Inv c.closing
        (λ e. record {
          heard = v.heard;
          idle = λ h. (ap (delete w) (v.idle h).0, (v.idle h).1);
          complete = λ h g. cc;
        })
        (λ e. report_error-Inv w _ v.heard (λ h. (ap (delete w) (v.idle h).0, (v.idle h).1)))

  step-Inv : (c : Cluster A) (i : ClusterInput A) → Inv c → Inv (step worker_count c i)
  unfolding step close close_done
  step-Inv c call_listen v = listen-Inv c v
  step-Inv c call_ready v = ready-Inv c v
  step-Inv c call_close v = record { heard = v.heard; idle = v.idle; complete = λ h g. cc }
  step-Inv c (on_message m) v = message-Inv m c v
  step-Inv c (on_error w) v = report_error-Inv w c v.heard v.idle
  step-Inv c (on_exit w code) v = exit-Inv w code c v
  step-Inv c workers_gone v =
      if_rule Inv c.closing
        (λ e. record { heard = v.heard; idle = λ h. (refl, (v.idle h).1); complete = λ h g. cc })
        (λ e. v)

  run-Inv : (is : List (ClusterInput A)) (c : Cluster A) → Inv c → Inv (run worker_count c is)
  unfolding run
  run-Inv [] c v = v
  run-Inv (i ∷ is) c v = run-Inv is (step worker_count c i) (step-Inv c i v)

  make_cluster-Inv : Inv (make_cluster true)
  unfolding make_cluster
  make_cluster-Inv = record { heard = refl; idle = λ h. (refl, refl); complete = λ h g. cc }

  -- What holds of a cluster whose promise is resolved.
  abbrev pub AllThere : Cluster A → Type 0
  AllThere c =
      (every_ready c.worker_snapshots ≡ true)
      × (c.closing ≡ false → length c.worker_snapshots ≡ worker_count)

  -- A pending promise that an input resolves.
  abbrev Resolving : Cluster A → Type 0
  Resolving d = d.ready_promise ≡ resolved → AllThere d

  still_pending : (d : Cluster A) → d.ready_promise ≡ pending → Resolving d
  still_pending d p h = cc

  reports : (w : ℕ) (c : Cluster A) → c.ready_promise ≡ pending → Resolving (report_error w c)
  unfolding report_error
  reports w c p =
      if_rule Resolving c.has_error_listener
        (λ e h. absurd (settle-rejected_resolved c.ready_promise p h)) (λ e h. cc)

  checks : (c : Cluster A) → c.ready_promise ≡ pending → Inv c → Resolving (check_ready c)
  unfolding check_ready
  checks c p v =
      if_rule Resolving (every_ready c.worker_snapshots) (λ e h. (e, λ g. v.complete p g))
        (λ e h. cc)

  message-Resolving :
      (m : WorkerMessage A) (c : Cluster A)
      → c.ready_promise ≡ pending
      → Inv c
      → Resolving (handle_worker_message m c)
  unfolding handle_worker_message
  message-Resolving (failed w name text) c p v = reports w c p
  message-Resolving (listens w address) c p v =
      Option_rule Resolving (get w c.worker_snapshots) (λ e. still_pending c p)
        (λ snapshot e. checks _ p (updated-Inv w snapshot _ c _ e v refl refl refl refl refl))

  listen-Resolving : (c : Cluster A) → c.ready_promise ≡ pending → Resolving (listen worker_count c)
  unfolding listen
  listen-Resolving c p =
      if_rule Resolving c.listening (λ e. still_pending c p)
        (λ e.
          let started = record c { listening = true; ready_promise = pending } in
          still_pending (spawn_workers worker_count started) (spawn-kept worker_count started).1.0)

  ready-Resolving : (c : Cluster A) → c.ready_promise ≡ pending → Resolving (ready worker_count c)
  unfolding ready
  ready-Resolving c p =
      elim c.ready_promise
        as (λ (q : ReadyPromise).
          Resolving (elim q [
            | unmade ↦ listen worker_count c
            | pending ↦ c
            | resolved ↦ c
            | rejected ↦ c
          ])) [
            | unmade ↦ listen-Resolving c p
            | pending ↦ still_pending c p
            | resolved ↦ still_pending c p
            | rejected ↦ still_pending c p
          ]

  step-Resolving :
      (c : Cluster A) (i : ClusterInput A)
      → c.ready_promise ≡ pending
      → Inv c
      → Resolving (step worker_count c i)
  unfolding step close close_done handle_exit
  step-Resolving c call_listen p v = listen-Resolving c p
  step-Resolving c call_ready p v = ready-Resolving c p
  step-Resolving c call_close p v = λ h. cc
  step-Resolving c (on_message m) p v = message-Resolving m c p v
  step-Resolving c (on_error w) p v = reports w c p
  step-Resolving c (on_exit w code) p v =
      if_rule Resolving c.closing (λ e h. cc) (λ e. reports w _ p)
  step-Resolving c workers_gone p v =
      if_rule Resolving c.closing (λ e h. cc) (λ e. still_pending c p)

  -- Where an input resolves the promise of `ready`, after any inputs to a new cluster whose "error"
  -- event has a listener, every worker there listens, and unless the cluster is closing they are as many as were asked for.
  pub resolves_complete :
      (is : List (ClusterInput A)) (i : ClusterInput A)
      → let before = run worker_count (make_cluster true) is in
        let after = step worker_count before i in
        before.ready_promise ≡ pending → after.ready_promise ≡ resolved → AllThere after
  resolves_complete is i p =
      step-Resolving (run worker_count (make_cluster true) is) i p
        (run-Inv is (make_cluster true) make_cluster-Inv)
