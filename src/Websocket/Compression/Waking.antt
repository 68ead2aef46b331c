-- ===== src/Websocket/Compression/Waking.antt =====
-- That a task waits in the gate of src/internal/websocket/permessage-deflate.ts only while enough others run.
use kenojs.Prelude.{
  ℕ, suc, ◌+◌, ◌≤◌, ◌≡◌, refl, ◌⊎◌, inl, inr, true, List, [], ◌∷◌, ◌++◌, length, length-append, leb,
  ◌==◌, if_rule, Bool-cases, arith,
}
use kenojs.Websocket.Compression.{
  Gate, run, resume, wake_next, remove, contains, finish, GateStep, runs, ends, goes_on, gate_step,
  gate_steps,
}

-- `active` counts the tasks that run, and if some wait, as many as the limit run or are woken.
abbrev pub IsFair : (limit : ℕ) → Gate → Type 0
IsFair limit g =
    (g.active ≡ length g.running) × ((length g.pending ≡ 0) ⊎ (limit ≤ g.active + length g.woken))

length-remove :
    (task : ℕ) (tasks : List ℕ)
    → contains task tasks ≡ true
    → suc (length (remove task tasks)) ≡ length tasks
length-remove task [] h = cc
length-remove task (other ∷ others) h = elim (Bool-cases (other == task)) [
  | inl e ↦ ground arith
  | inr e ↦ ground (arith, length-remove task others)
]

start_task-active :
    (task : ℕ) (g : Gate)
    → g.active ≡ length g.running
    → g.active + 1 ≡ length (g.running ++ task ∷ [])
start_task-active task g h = omega (arith, length-append g.running (task ∷ []))

pub run-IsFair : (limit task : ℕ) (g : Gate) → IsFair limit g → IsFair limit (run limit task g)
unfolding run
run-IsFair limit task g (a, w) =
    if_rule (IsFair limit) (leb limit g.active) (λ e. (a, inr (ground arith)))
      (λ e. (start_task-active task g a, elim w [ inl p ↦ inl p | inr l ↦ inr (ground arith) ]))

pub resume-IsFair : (limit : ℕ) (g : Gate) → IsFair limit g → IsFair limit (resume g)
resume-IsFair limit g (a, w) = go g.woken w
  where
    go :
        (woken : List ℕ)
        → (length g.pending ≡ 0) ⊎ (limit ≤ g.active + length woken)
        → IsFair limit (resume (record g { woken = woken }))
    go [] w = (a, w)
    go (task ∷ woken) w =
        (start_task-active task g a, elim w [ inl p ↦ inl p | inr l ↦ inr (ground arith) ])

wake_next-IsFair :
    (limit : ℕ) (g : Gate)
    → g.active ≡ length g.running
    → (length g.pending ≡ 0) ⊎ (limit ≤ suc (g.active + length g.woken))
    → IsFair limit (wake_next g)
wake_next-IsFair limit g a w = go g.pending w
  where
    go :
        (pending : List ℕ)
        → (length pending ≡ 0) ⊎ (limit ≤ suc (g.active + length g.woken))
        → IsFair limit (wake_next (record g { pending = pending }))
    go [] w = (a, inl refl)
    go (task ∷ pending) w = (
      a,
      inr (elim w [
        | inl p ↦ ground arith
        | inr l ↦ omega (arith, length-append g.woken (task ∷ []))
      ]),
    )

pub finish-IsFair : (limit task : ℕ) (g : Gate) → IsFair limit g → IsFair limit (finish task g)
unfolding finish
finish-IsFair limit task g (a, w) =
    if_rule (IsFair limit) (contains task g.running)
      (λ e.
        let shorter = length-remove task g.running e in
        wake_next-IsFair limit _ (omega arith)
          (elim w [ inl p ↦ inl p | inr l ↦ inr (omega arith) ]))
      (λ e. (a, w))

gate_step-IsFair :
    (limit : ℕ) (s : GateStep) (g : Gate) → IsFair limit g → IsFair limit (gate_step limit s g)
gate_step-IsFair limit (runs task) g f = run-IsFair limit task g f
gate_step-IsFair limit (ends task) g f = finish-IsFair limit task g f
gate_step-IsFair limit goes_on g f = resume-IsFair limit g f

-- After any steps of a gate that is fair, such as a new one, its count is that of the tasks that run, and as long as some task waits,
-- as many tasks as the limit run or have been woken: no wake-up is lost.
pub gate_steps-IsFair :
    (limit : ℕ) (steps : List GateStep) (g : Gate)
    → IsFair limit g
    → IsFair limit (gate_steps limit steps g)
gate_steps-IsFair limit [] g f = f
gate_steps-IsFair limit (s ∷ ss) g f =
    gate_steps-IsFair limit ss (gate_step limit s g) (gate_step-IsFair limit s g f)
