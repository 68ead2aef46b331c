-- ===== src/Concurrency/WorkerPool/Counting.antt =====
-- How often a task of worker-pool.ts is queued, started and settled.
use kenojs.Prelude.{
  ℕ, ◌+◌, ◌≤◌, ◌≡◌, refl, Bool, true, false, some, List, [], ◌∷◌, ◌++◌, ◌==◌, if◌then◌else◌, arith,
  ℕ_key,
}
use kenojs.Prelude.Maps.{get, set, delete}
use kenojs.Concurrency.WorkerPool.{
  PoolTask, TaskState, WorkerState, Effect, resolve, reject, shutdown, reject_queue, reject_tasks,
  shut_down,
}

abbrev pub one_if : Bool → ℕ
one_if true = 1
one_if false = 0

-- The entries of a map under a key.
abbrev pub entries {ℓ} : {V : Type ℓ} → ℕ → List (ℕ × V) → ℕ
entries j [] = 0
entries j ((k, v) ∷ m) = one_if (k == j) + entries j m

module _ {V : Type 0} where
  pub entries-delete :
      (j k : ℕ) (m : List (ℕ × V)) → entries j (delete k m) ≡ (if k == j then 0 else entries j m)
  unfolding delete
  entries-delete j k [] = ground arith
  entries-delete j k ((i, v) ∷ m) = ground (arith, entries-delete j k m)

  pub entries-set :
      (j k : ℕ) (v : V) (m : List (ℕ × V))
      → entries k m ≡ 0
      → entries j (set k v m) ≡ entries j m + one_if (k == j)
  unfolding set
  entries-set j k v [] h = ground arith
  entries-set j k v ((i, w) ∷ m) h = ground (arith, entries-set j k v m)

  pub get-entries : (k : ℕ) (m : List (ℕ × V)) (v : V) → get k m ≡ some v → 1 ≤ entries k m
  unfolding get
  get-entries k [] v e = cc
  get-entries k ((i, w) ∷ m) v e = ground (arith, get-entries k m v)

module _ {I : Type 0} where
  abbrev pub queued : ℕ → List (PoolTask I) → ℕ
  queued j [] = 0
  queued j (t ∷ ts) = one_if (t.id == j) + queued j ts

  pub queued-append :
      (j : ℕ) (ts us : List (PoolTask I)) → queued j (ts ++ us) ≡ queued j ts + queued j us
  queued-append j [] us = omega arith
  queued-append j (t ∷ ts) us = omega (arith, queued-append j ts us)

module _ {I O : Type 0} where
  abbrev pub settles : ℕ → Effect I O → ℕ
  settles j (resolve id value) = one_if (id == j)
  settles j (reject id reason) = one_if (id == j)
  settles j _ = 0

  -- How often the promise of task `j` was settled.
  abbrev pub settled : ℕ → List (Effect I O) → ℕ
  settled j [] = 0
  settled j (e ∷ log) = settles j e + settled j log

  pub settled-reject_queue :
      (j : ℕ) (ts : List (PoolTask I)) (log : List (Effect I O))
      → settled j (reject_queue ts log) ≡ queued j ts + settled j log
  settled-reject_queue j [] log = omega arith
  settled-reject_queue j (t ∷ ts) log =
      omega (arith, settled-reject_queue j ts (reject t.id _ ∷ log))

  pub settled-reject_tasks :
      (j : ℕ) (m : List (ℕ × TaskState)) (log : List (Effect I O))
      → settled j (reject_tasks m log) ≡ entries j m + settled j log
  settled-reject_tasks j [] log = omega arith
  settled-reject_tasks j ((id, t) ∷ m) log = omega (arith, settled-reject_tasks j m _)

  pub settled-shut_down :
      (j : ℕ) (m : List (ℕ × WorkerState)) (log : List (Effect I O))
      → settled j (shut_down m log) ≡ settled j log
  settled-shut_down j [] log = refl
  settled-shut_down j ((id, w) ∷ m) log = omega (arith, settled-shut_down j m (shutdown id ∷ log))
