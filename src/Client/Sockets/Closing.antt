-- ===== src/Client/Sockets/Closing.antt =====
-- What `close` of src/internal/client/websocket.ts stops.
use kenojs.Prelude.{
  ℕ, ◌+◌, ◌≡◌, ◌⊎◌, inl, inr, refl, sym, subst, ◌∙◌, true, Option, none, some, List, [], ◌∷◌, ◌++◌,
  ◌==◌, All, if_rule, Option_rule, arith,
}
use kenojs.Client.Sockets.Attempts.{clear_reconnect_timer_rule}
use kenojs.Client.Sockets.Invariant.{total, total-append}
use kenojs.Client.Retry.Reconnects.{ResolvedWebSocketRetryOptions}
use kenojs.Client.Sockets.{
  Opening, Attached, Timer, Effect, creates, emits_close, sends, closes, send_throws, Client, Input,
  connect_called, close_called, send_called, opens, fails, begins_closing, is_closed, delay_over,
  timer_fires, take_by, begin_closing, clear_timeout, clear_reconnect_timer, is_open_in, close,
  send, on_close, step, steps,
}

abbrev creating : Effect → ℕ
creating (creates socket attempt) = 1
creating _ = 0

-- How many sockets were created.
abbrev pub created : List Effect → ℕ
created log = total creating log

abbrev pub IsNotConnect : Input → Type 0
IsNotConnect connect_called = ⊥
IsNotConnect _ = Unit

-- No timer runs but the one to reconnect with.
abbrev pub OneTimer : Client → Type 0
OneTimer c =
    (c.timers ≡ []) ⊎ ((t : Timer) × (c.timers ≡ t ∷ []) × (c.reconnect_timer ≡ some t.handle))

-- No run waits for a socket or a delay, and no timer runs but the one to reconnect with.
abbrev pub HasNoRun : Client → Type 0
HasNoRun c = (c.opening ≡ []) × (c.delaying ≡ []) × OneTimer c

-- A client that is closed and has nothing left to go on with, after so many sockets.
abbrev IsQuiet : ℕ → Client → Type 0
IsQuiet n c =
    (c.explicit_close ≡ true)
    × (c.opening ≡ [])
    × (c.delaying ≡ [])
    × (c.timers ≡ [])
    × (created c.log ≡ n)

logs :
    (log : List Effect) (effect : Effect)
    → created (log ++ effect ∷ []) ≡ created log + creating effect
logs log effect = omega (arith, total-append creating log (effect ∷ []))

nothing_taken :
    {A B : Type 0} (P : B → Type 0) (number : A → ℕ) (s : ℕ) (l : List A) {x : B}
    (f : A × List A → B)
    → l ≡ []
    → P x
    → P (elim (take_by number s l) [ none ↦ x | some taken ↦ f taken ])
unfolding take_by
nothing_taken P number s l {x} f e p =
    subst (λ r. P (elim (take_by number s r) [ none ↦ x | some taken ↦ f taken ])) (sym e) p

clear_timeout_nothing : (n : ℕ) (l : List Timer) → l ≡ [] → clear_timeout n l ≡ []
clear_timeout_nothing n l e =
    nothing_taken (λ r. r ≡ []) (λ (t : Timer). t.handle) n l (λ taken. taken.1) e e

clear_timeout_one : (t : Timer) (l : List Timer) → l ≡ t ∷ [] → clear_timeout t.handle l ≡ []
unfolding take_by
clear_timeout_one t l e = rw e (
    if_rule
      (λ (o : Option (Timer × List Timer)). elim o [ none ↦ t ∷ [] | some (a, rest) ↦ rest ] ≡ [])
      (t.handle == t.handle) (λ f. refl) (λ f. ground arith))

clear_reconnect_timer-timers : (c : Client) → OneTimer c → (clear_reconnect_timer c).timers ≡ []
unfolding clear_reconnect_timer
clear_reconnect_timer-timers c (inl e) =
    clear_reconnect_timer_rule (λ b. b.timers ≡ []) c e (λ n. clear_timeout_nothing n c.timers e)
clear_reconnect_timer-timers c (inr (t, e, r)) = rw r (clear_timeout_one t c.timers e)

close-IsQuiet : (c : Client) → HasNoRun c → IsQuiet (created c.log) (close c)
unfolding close
close-IsQuiet c (o, d, t) = go c.socket
  where
    cleared : Client
    cleared = clear_reconnect_timer (record c { explicit_close = true })

    Rest : Client → Type 0
    Rest b =
        (b.explicit_close ≡ true)
        × (b.opening ≡ [])
        × (b.delaying ≡ [])
        × (created b.log ≡ created c.log)

    rest : Rest cleared
    rest =
        clear_reconnect_timer_rule Rest (record c { explicit_close = true }) (refl, o, d, refl)
          (λ n. (refl, o, d, refl))

    timers : cleared.timers ≡ []
    timers = clear_reconnect_timer-timers (record c { explicit_close = true }) t

    go :
        (socket : Option ℕ)
        → IsQuiet (created c.log) (elim socket [
          | none ↦ cleared
          | some n ↦ record cleared {
            attached = begin_closing n c.attached;
            log = cleared.log ++ closes n ∷ [];
          }
        ])
    go none = (rest.0, rest.1, rest.2, timers, rest.3)
    go (some n) =
        (rest.0, rest.1, rest.2, timers, logs cleared.log (closes n) ∙ omega (arith, rest.3))

step-IsQuiet :
    (retry : ResolvedWebSocketRetryOptions) (n : ℕ) (input : Input) (c : Client)
    → IsNotConnect input
    → IsQuiet n c
    → IsQuiet n (step retry input c)
unfolding step send on_close
step-IsQuiet retry n connect_called c g h = absurd g
step-IsQuiet retry n close_called c g (x, o, d, t, l) =
    subst (λ k. IsQuiet k (close c)) l (close-IsQuiet c (o, d, inl t))
step-IsQuiet retry n send_called c g (x, o, d, t, l) =
    Option_rule (IsQuiet n) c.socket (λ e. (x, o, d, t, logs c.log send_throws ∙ omega arith))
      (λ s e.
        if_rule (IsQuiet n) (is_open_in c.attached s)
          (λ f. (x, o, d, t, logs c.log (sends s) ∙ omega arith))
          (λ f. (x, o, d, t, logs c.log send_throws ∙ omega arith)))
step-IsQuiet retry n (opens s) c g h =
    nothing_taken (IsQuiet n) (λ (p : Opening). p.socket) s c.opening _ (h.1) h
step-IsQuiet retry n (fails s random) c g h =
    nothing_taken (IsQuiet n) (λ (p : Opening). p.socket) s c.opening _ (h.1) h
step-IsQuiet retry n (begins_closing s) c g h = h
step-IsQuiet retry n (is_closed s random) c g (x, o, d, t, l) =
    Option_rule (IsQuiet n) (take_by (λ (p : Attached). p.socket) s c.attached)
      (λ e. (x, o, d, t, l))
      (λ taken e.
        if_rule (IsQuiet n) c.explicit_close
          (λ f. (x, o, d, t, logs c.log emits_close ∙ omega arith)) (λ f. cc))
step-IsQuiet retry n (delay_over s) c g h =
    nothing_taken (IsQuiet n) (λ (p : Opening). p.socket) s c.delaying _ (h.2) h
step-IsQuiet retry n (timer_fires s) c g h =
    nothing_taken (IsQuiet n) (λ (p : Timer). p.handle) s c.timers _ (h.3) h

steps-IsQuiet :
    (retry : ResolvedWebSocketRetryOptions) (n : ℕ) (inputs : List Input) (c : Client)
    → All IsNotConnect inputs
    → IsQuiet n c
    → IsQuiet n (steps retry inputs c)
steps-IsQuiet retry n [] c a h = h
steps-IsQuiet retry n (input ∷ inputs) c (g, a) h =
    steps-IsQuiet retry n inputs (step retry input c) a (step-IsQuiet retry n input c g h)

-- A client that is closed while no attempt is under way, and with no timer but the one to reconnect with,
-- creates no socket until `connect` is called again, and has no timer left.
pub close_is_final :
    (retry : ResolvedWebSocketRetryOptions) (c : Client) (inputs : List Input)
    → HasNoRun c
    → All IsNotConnect inputs
    → let later = steps retry inputs (close c) in
      (created later.log ≡ created c.log) × (later.timers ≡ [])
close_is_final retry c inputs h a =
    let quiet = steps-IsQuiet retry (created c.log) inputs (close c) a (close-IsQuiet c h) in
    (quiet.4, quiet.3)
