-- ===== src/Websocket/Compression/Draining.antt =====
-- That every task that waits in the gate of src/internal/websocket/permessage-deflate.ts gets its turn.
use kenojs.Prelude.{
  ℕ, zero, suc, ◌+◌, ◌-◌, ◌*◌, ◌≤◌, ◌≡◌, refl, ap, inl, inr, List, [], ◌∷◌, length, length-append,
  ==_iff, true, if◌then◌else◌, arith,
}
use kenojs.Websocket.Compression.{Gate, resume, wake_next, finish, remove, contains}
use kenojs.Websocket.Compression.Waking.{IsFair, resume-IsFair, finish-IsFair}

-- What is woken goes on, and otherwise the task that runs for the longest time ends.
unfoldable pub drain : (fuel : ℕ) → Gate → Gate
drain zero g = g
drain (suc fuel) g = elim g.woken [
  | task ∷ woken ↦ drain fuel (resume g)
  | [] ↦ elim g.running [ [] ↦ g | task ∷ running ↦ drain fuel (finish task g) ]
]

-- The steps that are left.
abbrev pub measure : Gate → ℕ
measure g = 3 * length g.pending + 2 * length g.woken + length g.running

abbrev pub IsEmpty : Gate → Type 0
IsEmpty g = (g.pending ≡ []) × (g.woken ≡ []) × (g.running ≡ []) × (g.active ≡ 0)

empty_of_length : (tasks : List ℕ) → length tasks ≡ 0 → tasks ≡ []
empty_of_length [] h = refl
empty_of_length (task ∷ tasks) h = absurd (omega arith)

resume-measure :
    (g : Gate) (task : ℕ) (woken : List ℕ)
    → suc (measure (resume (record g { woken = task ∷ woken })))
      ≡ measure (record g { woken = task ∷ woken })
resume-measure g task woken = omega (arith, length-append g.running (task ∷ []))

wake_next-measure : (g : Gate) → measure (wake_next g) ≤ measure g
wake_next-measure g = go g.pending
  where
    go :
        (pending : List ℕ)
        → measure (wake_next (record g { pending = pending }))
          ≤ measure (record g { pending = pending })
    go [] = omega arith
    go (task ∷ pending) = omega (arith, length-append g.woken (task ∷ []))

finish_first :
    (g : Gate) (task : ℕ) (running : List ℕ)
    → finish task (record g { running = task ∷ running })
      ≡ wake_next (record g { active = g.active - 1; running = running })
unfolding finish
finish_first g task running =
    ap
      (λ first.
        if if first then true else contains task running
        then wake_next (record g {
          active = g.active - 1;
          running = if first then running else task ∷ remove task running;
        })
        else record g { running = task ∷ running })
      ((==_iff task task).1 refl)

-- If the limit is 1 or more and the gate is as its steps leave it, then as the tasks that run end one after
-- the other and those that are woken go on, every task gets its turn and ends, within as many steps as
-- the measure says.
pub drain-IsEmpty :
    (limit : ℕ)
    → 1 ≤ limit
    → (fuel : ℕ) (g : Gate) → IsFair limit g
    → measure g ≤ fuel
    → IsEmpty (drain fuel g)
unfolding drain
drain-IsEmpty limit l zero g (a, w) m = (
  empty_of_length g.pending (omega arith),
  empty_of_length g.woken (omega arith),
  empty_of_length g.running (omega arith),
  omega arith,
)
drain-IsEmpty limit l (suc fuel) g f m =
    go g.woken f m (λ g' f' m'. drain-IsEmpty limit l fuel g' f' m')
  where
    ended :
        (running : List ℕ)
        → IsFair limit (record g { woken = []; running = running })
        → measure (record g { woken = []; running = running }) ≤ suc fuel
        → ((g' : Gate) → IsFair limit g' → measure g' ≤ fuel → IsEmpty (drain fuel g'))
        → IsEmpty (drain (suc fuel) (record g { woken = []; running = running }))
    ended [] (a, w) m again = (
      empty_of_length g.pending (elim w [ inl p ↦ p | inr q ↦ absurd (omega arith) ]),
      refl,
      refl,
      a,
    )
    ended (task ∷ running) f m again =
        again (finish task (record g { woken = []; running = task ∷ running }))
          (finish-IsFair limit task (record g { woken = []; running = task ∷ running }) f)
          (omega (
            arith,
            ap measure (finish_first (record g { woken = [] }) task running),
            wake_next-measure (record g { active = g.active - 1; woken = []; running = running }),
          ))

    go :
        (woken : List ℕ)
        → IsFair limit (record g { woken = woken })
        → measure (record g { woken = woken }) ≤ suc fuel
        → ((g' : Gate) → IsFair limit g' → measure g' ≤ fuel → IsEmpty (drain fuel g'))
        → IsEmpty (drain (suc fuel) (record g { woken = woken }))
    go [] f m again = ended g.running f m again
    go (task ∷ woken) f m again =
        again (resume (record g { woken = task ∷ woken }))
          (resume-IsFair limit (record g { woken = task ∷ woken }) f)
          (omega (arith, resume-measure g task woken))
