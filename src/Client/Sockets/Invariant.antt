-- ===== src/Client/Sockets/Invariant.antt =====
-- What src/internal/client/websocket.ts knows of its promise and of its socket.
use kenojs.Prelude.{
  ℕ, suc, ◌+◌, ◌≤◌, ◌≡◌, refl, Bool, true, false, ◌||◌, Option, none, some, List, [], ◌∷◌, ◌++◌,
  ◌==◌, leb, if_rule, Option_rule, arith,
}
use kenojs.Client.Retry.{Fraction}
use kenojs.Client.Retry.Reconnects.{ResolvedWebSocketRetryOptions}
use kenojs.Client.Sockets.{
  Opening, Attached, Timer, Client, Input, closes, connect_called, close_called, send_called, opens,
  fails, begins_closing, is_closed, delay_over, timer_fires, take_by, put, begin_closing,
  clear_reconnect_timer, is_open_in, is_open, settle, open_with_retries, connect, close, send,
  attach_socket, on_failure, on_close, step, steps, fresh, new_client,
}
use kenojs.Client.Sockets.Attempts.{clear_reconnect_timer_rule}

abbrev pub total : {A : Type 0} → (A → ℕ) → List A → ℕ
total m [] = 0
total m (a ∷ l) = m a + total m l

pub total-append :
    {A : Type 0} (m : A → ℕ) (l r : List A) → total m (l ++ r) ≡ total m l + total m r
total-append m [] r = omega arith
total-append m (a ∷ l) r = omega (arith, total-append m l r)

-- Taking an element takes what it counts.
abbrev pub Counts : {A : Type 0} → (A → ℕ) → List A → Option (A × List A) → Type 0
Counts m l none = Unit
Counts m l (some (a, rest)) = total m l ≡ m a + total m rest

take_by-Counts :
    {A : Type 0} (m : A → ℕ) (number : A → ℕ) (n : ℕ) (l : List A) → Counts m l (take_by number n l)
unfolding take_by
take_by-Counts m number n [] = tt
take_by-Counts {A = A} m number n (a ∷ l) =
    if_rule (Counts m (a ∷ l)) (number a == n) (λ e. refl)
      (λ e. go (take_by number n l) (take_by-Counts m number n l))
  where
    go : (o : Option (A × List A)) → Counts m l o → Counts m (a ∷ l) (put a o)
    go none t = tt
    go (some (b, rest)) t = omega arith

pub count_rule :
    {A B : Type 0} (P : B → Type 0) (m : A → ℕ) (number : A → ℕ) (n : ℕ) (l : List A) {x : B}
    (f : A × List A → B)
    → P x
    → ((a : A) (rest : List A) → total m l ≡ m a + total m rest → P (f (a, rest)))
    → P (elim (take_by number n l) [ none ↦ x | some taken ↦ f taken ])
count_rule {A = A} {B = B} P m number n l {x} f p q =
    go (take_by number n l) (take_by-Counts m number n l)
  where
    go : (o : Option (A × List A)) → Counts m l o → P (elim o [ none ↦ x | some taken ↦ f taken ])
    go none t = p
    go (some (a, rest)) t = q a rest t

abbrev pub bit : Bool → ℕ
bit true = 1
bit false = 0

-- How many runs of a list `connect` waits for.
abbrev pub awaited : List Opening → ℕ
awaited runs = total (λ (o : Opening). bit o.by_connect) runs

abbrev pub has_socket : ℕ → List Attached → Bool
has_socket n [] = false
has_socket n (a ∷ l) = (a.socket == n) || has_socket n l

begin_closing_has :
    (n k : ℕ) (l : List Attached) → has_socket n l ≡ true → has_socket n (begin_closing k l) ≡ true
unfolding begin_closing
begin_closing_has n k [] h = h
begin_closing_has n k (a ∷ l) h =
    if_rule (λ r. has_socket n r ≡ true) (a.socket == k) (λ e. h)
      (λ e. ground (arith, begin_closing_has n k l))

-- The socket that the client holds, if any, is one that is attached and not closed.
abbrev pub Holds : Option ℕ → List Attached → Type 0
Holds none attached = Unit
Holds (some n) attached = has_socket n attached ≡ true

begin_closing-Holds :
    (k : ℕ) (socket : Option ℕ) (l : List Attached)
    → Holds socket l
    → Holds socket (begin_closing k l)
begin_closing-Holds k none l h = tt
begin_closing-Holds k (some n) l h = begin_closing_has n k l h

-- There is a promise just if `connect` waits for a run, besides as many runs that are about to go on.
abbrev Owes : (extra : ℕ) → Client → Type 0
Owes extra c =
    (extra + awaited c.opening + awaited c.delaying ≡ bit c.connecting) × Holds c.socket c.attached

-- The same with no other run.
abbrev pub IsTracked : Client → Type 0
IsTracked c =
    (awaited c.opening + awaited c.delaying ≡ bit c.connecting) × Holds c.socket c.attached

bit_le : (b : Bool) → bit b ≤ 1
bit_le true = omega arith
bit_le false = omega arith

settle-IsTracked :
    (by_connect succeeded : Bool) (c : Client)
    → Owes (bit by_connect) c
    → IsTracked (settle by_connect succeeded c)
unfolding settle
settle-IsTracked true true c (e, h) = (omega (arith, bit_le c.connecting), h)
settle-IsTracked true false c (e, h) = (omega (arith, bit_le c.connecting), h)
settle-IsTracked false true c (e, h) = (omega arith, h)
settle-IsTracked false false c (e, h) = (omega arith, h)

send-IsTracked : (c : Client) → IsTracked c → IsTracked (send c)
unfolding send
send-IsTracked c h =
    Option_rule IsTracked c.socket (λ e. h)
      (λ n e. if_rule IsTracked (is_open_in c.attached n) (λ f. h) (λ f. h))

close-IsTracked : (c : Client) → IsTracked c → IsTracked (close c)
unfolding close
close-IsTracked c (w, h) = go c.socket
  where
    cleared : Client
    cleared = clear_reconnect_timer (record c { explicit_close = true })

    kept :
        (attached : List Attached)
        → Holds c.socket attached
        → IsTracked (record cleared { attached = attached })
    kept attached g =
        clear_reconnect_timer_rule (λ b. IsTracked (record b { attached = attached }))
          (record c { explicit_close = true }) (w, g) (λ n. (w, g))

    go :
        (socket : Option ℕ)
        → IsTracked (elim socket [
          | none ↦ cleared
          | some n ↦ record cleared {
            attached = begin_closing n c.attached;
            log = cleared.log ++ closes n ∷ [];
          }
        ])
    go none =
        clear_reconnect_timer_rule IsTracked (record c { explicit_close = true }) (w, h)
          (λ n. (w, h))
    go (some n) = kept (begin_closing n c.attached) (begin_closing-Holds n c.socket c.attached h)

module _ (retry : ResolvedWebSocketRetryOptions) where
  open_with_retries-IsTracked :
      (by_connect : Bool) (attempt : ℕ) (c : Client)
      → Owes (bit by_connect) c
      → IsTracked (open_with_retries retry by_connect attempt c)
  unfolding open_with_retries
  open_with_retries-IsTracked by_connect attempt c (e, h) =
      if_rule IsTracked (leb attempt retry.attempts) (λ f. (omega arith, h))
        (λ f. settle-IsTracked by_connect true c (e, h))

  connect-IsTracked : (c : Client) → IsTracked c → IsTracked (connect retry c)
  unfolding connect
  connect-IsTracked c (w, h) =
      if_rule IsTracked (is_open c) (λ e. (w, h))
        (λ e.
          if_rule IsTracked c.connecting (λ f. (w, h))
            (λ f. open_with_retries-IsTracked true 1 _ (
              clear_reconnect_timer_rule (λ b. Owes 1 (record b { connecting = true }))
                (record c { explicit_close = false }) (free f, h) (λ n. (free f, h)))))
    where
      free : c.connecting ≡ false → 1 + awaited c.opening + awaited c.delaying ≡ 1
      free f = ground arith

  on_failure-IsTracked :
      (random : Fraction) (o : Opening) (c : Client)
      → Owes (bit o.by_connect) c
      → IsTracked (on_failure retry random o c)
  unfolding on_failure
  on_failure-IsTracked random o c (e, h) =
      if_rule IsTracked c.explicit_close (λ f. settle-IsTracked o.by_connect false c (e, h))
        (λ f.
          if_rule IsTracked (leb retry.attempts o.attempt)
            (λ g. settle-IsTracked o.by_connect false c (e, h)) (λ g. (omega arith, h)))

  on_close-IsTracked :
      (random : Fraction) (c : Client)
      → awaited c.opening + awaited c.delaying ≡ bit c.connecting
      → IsTracked (on_close retry random c)
  unfolding on_close
  on_close-IsTracked random c e =
      if_rule IsTracked c.explicit_close (λ f. (e, tt))
        (λ f.
          if_rule IsTracked (leb (suc c.current_attempt) retry.attempts) (λ g. (e, tt))
            (λ g. (e, tt)))

  step-IsTracked : (input : Input) (c : Client) → IsTracked c → IsTracked (step retry input c)
  unfolding step attach_socket
  step-IsTracked connect_called c h = connect-IsTracked c h
  step-IsTracked close_called c h = close-IsTracked c h
  step-IsTracked send_called c h = send-IsTracked c h
  step-IsTracked (opens n) c (w, h) =
      count_rule IsTracked (λ (o : Opening). bit o.by_connect) (λ (o : Opening). o.socket) n
        c.opening _ (w, h)
        (λ o rest t. settle-IsTracked o.by_connect true _ (omega arith, ground arith))
  step-IsTracked (fails n random) c (w, h) =
      count_rule IsTracked (λ (o : Opening). bit o.by_connect) (λ (o : Opening). o.socket) n
        c.opening _ (w, h)
        (λ o rest t. on_failure-IsTracked random o (record c { opening = rest }) (omega arith, h))
  step-IsTracked (begins_closing n) c (w, h) = (w, begin_closing-Holds n c.socket c.attached h)
  step-IsTracked (is_closed n random) c (w, h) =
      Option_rule IsTracked (take_by (λ (a : Attached). a.socket) n c.attached) (λ e. (w, h))
        (λ taken e. on_close-IsTracked random (record c { attached = taken.1 }) w)
  step-IsTracked (delay_over n) c (w, h) =
      count_rule IsTracked (λ (o : Opening). bit o.by_connect) (λ (o : Opening). o.socket) n
        c.delaying _ (w, h)
        (λ o rest t.
          open_with_retries-IsTracked o.by_connect (suc o.attempt) (record c { delaying = rest })
            (omega arith, h))
  step-IsTracked (timer_fires n) c (w, h) =
      Option_rule IsTracked (take_by (λ (t : Timer). t.handle) n c.timers) (λ e. (w, h))
        (λ taken e.
          open_with_retries-IsTracked false taken.0.next_attempt
            (record c { timers = taken.1; reconnect_timer = none }) (omega arith, h))

  steps-IsTracked :
      (inputs : List Input) (c : Client) → IsTracked c → IsTracked (steps retry inputs c)
  steps-IsTracked [] c h = h
  steps-IsTracked (input ∷ inputs) c h =
      steps-IsTracked inputs (step retry input c) (step-IsTracked input c h)

-- After any inputs a client has a promise of `connect` exactly if one of its runs is awaited by `connect`, of
-- which there is never a second one, and the socket that it holds, if any, is attached and not closed.
pub client-IsTracked :
    (retry : ResolvedWebSocketRetryOptions) (auto_connect : Bool) (inputs : List Input)
    → IsTracked (steps retry inputs (new_client retry auto_connect))
unfolding new_client
client-IsTracked retry auto_connect inputs = steps-IsTracked retry inputs _ (
    if_rule IsTracked auto_connect (λ e. connect-IsTracked retry fresh (refl, tt))
      (λ e. (refl, tt)))
