-- ===== src/Websocket/Connection/Chunks.antt =====
-- How the stream is cut into chunks makes no difference to connection.ts.
use kenojs.Prelude.{
  ℕ, zero, suc, ◌≤◌, ◌≡◌, sym, ap, ◌∙◌, ◌++◌, length, drop, arith, length-append, length-drop,
  drop-append_le,
}
use mathlib.Core.List.{append_assoc}
use kenojs.Websocket.Frame.{Bytes, ParsedFrame, complete}
use kenojs.Websocket.Frame.Parsing.{try_parse_frame-append, consumed_bounds}
use kenojs.Websocket.Connection.State.{Env, Options, Failure, State, Outcome, ok, fails, ◌>>=◌}
use kenojs.Websocket.Connection.Rounds.{
  with_buffer, rebuffer, is_incomplete, is_throws, is_complete, Parsed-cases, is_ok, is_fails,
  Outcome-cases, ok-injective, parse, round_incomplete, round_throws, round_complete,
  short_incomplete, shrinks, fuel_irrelevant, handle_frame-with_buffer,
}
use kenojs.Websocket.Connection.Incoming.{handle_frame, parse_frames, recover, handle_chunk}

module _ (env : Env) (options : Options) where
  round_ok :
      (f : ℕ) (s u : State) (n : ℕ) (frame : ParsedFrame)
      → parse env options s.buffer ≡ complete n frame
      → handle_frame env options frame s ≡ ok u
      → parse_frames env options (suc f) s
        ≡ parse_frames env options f (with_buffer (drop n s.buffer) u)
  round_ok f s u n frame e h =
      round_complete env options f s n frame e
      ∙ ap (λ o. rebuffer (drop n s.buffer) o >>= parse_frames env options f) h

  -- The parser's result stands when more bytes follow.
  parse-append :
      (b more : Bytes) (n : ℕ) (frame : ParsedFrame)
      → parse env options b ≡ complete n frame
      → parse env options (b ++ more) ≡ complete n frame
  parse-append b more n frame e =
      try_parse_frame-append env.buffer_util b more options.per_message_deflate (λ z. cc) ∙ e

  -- The same round with more bytes behind the frame.
  round_ok-append :
      (s u : State) (more : Bytes) (n : ℕ) (frame : ParsedFrame)
      → parse env options s.buffer ≡ complete n frame
      → handle_frame env options frame s ≡ ok u
      → parse_frames env options (length (s.buffer ++ more)) (with_buffer (s.buffer ++ more) s)
        ≡ parse_frames env options
            (length (drop n s.buffer ++ more))
            (with_buffer (drop n s.buffer ++ more) u)
  round_ok-append s u more n frame e h =
      let whole = s.buffer ++ more in
      let k = length whole in
      let e' = parse-append s.buffer more n frame e in
      let (least, most) =
        consumed_bounds env.buffer_util s.buffer options.per_message_deflate n frame e in
      fuel_irrelevant env options k (suc k) (with_buffer whole s) (omega arith) (omega arith)
      ∙ round_ok k (with_buffer whole s) (with_buffer whole u) n frame e'
          (handle_frame-with_buffer env options whole frame s ∙ ap (rebuffer whole) h)
      ∙ ap (λ b. parse_frames env options k (with_buffer b u)) (drop-append_le n s.buffer more most)
      ∙ fuel_irrelevant env options k (length (drop n s.buffer ++ more))
          (with_buffer (drop n s.buffer ++ more) u)
          (omega (
            arith,
            length-append s.buffer more,
            length-append (drop n s.buffer) more,
            length-drop n s.buffer,
          ))
          (omega arith)

  -- The loop on a state's bytes and more.
  abbrev resumed : Bytes → State → Outcome
  resumed more s =
      parse_frames env options (length (s.buffer ++ more)) (with_buffer (s.buffer ++ more) s)

  -- A loop that ends well on some bytes goes on, when more bytes follow, where it left off.
  parse_frames-append :
      (f : ℕ) (s t : State) (more : Bytes)
      → length s.buffer ≤ f
      → parse_frames env options f s ≡ ok t
      → resumed more s ≡ resumed more t
  parse_frames-append zero s t more h e =
      let done = round_incomplete env options zero s (short_incomplete env options s.buffer h) in
      ap (resumed more) (ok-injective (sym done ∙ e))
  parse_frames-append (suc f) s t more h e = elim (Parsed-cases (parse env options s.buffer)) [
    | is_incomplete p ↦
        ap (resumed more) (ok-injective (sym (round_incomplete env options (suc f) s p) ∙ e))
    | is_throws x p ↦ cc (round_throws env options f s x p)
    | is_complete n frame p ↦ elim (Outcome-cases (handle_frame env options frame s)) [
      | is_ok u q ↦
          round_ok-append s u more n frame p q
          ∙ parse_frames-append f (with_buffer (drop n s.buffer) u) t more
              (shrinks env options s.buffer n f frame p h) (sym (round_ok f s u n frame p q) ∙ e)
      | is_fails u x q ↦ absurd (stuck f s u x n frame p q e)
    ]
  ]
    where
      stuck :
          (f : ℕ) (s u : State) (x : Failure) (n : ℕ) (frame : ParsedFrame)
          → parse env options s.buffer ≡ complete n frame
          → handle_frame env options frame s ≡ fails u x
          → parse_frames env options (suc f) s ≡ ok t
          → ⊥
      stuck f s u x n frame p q e = cc (
        round_complete env options f s n frame p,
        ap (λ o. rebuffer (drop n s.buffer) o >>= parse_frames env options f) q,
        e,
      )

  -- Cutting the stream elsewhere makes no difference: unless the bytes of the first chunk bring an
  -- error, two chunks leave the connection in the state, and with the log, in which one chunk of all
  -- the bytes leaves it.
  pub handle_chunk-append :
      (s t : State) (first second : Bytes)
      → parse_frames env options (length (s.buffer ++ first)) (with_buffer (s.buffer ++ first) s)
        ≡ ok t
      → handle_chunk env options second (handle_chunk env options first s)
        ≡ handle_chunk env options (first ++ second) s
  unfolding handle_chunk recover
  handle_chunk-append s t first second e =
      let joined = s.buffer ++ first in
      ap (handle_chunk env options second) (ap (recover env) e)
      ∙ ap (recover env) (
          sym (parse_frames-append (length joined) (with_buffer joined s) t second (omega arith) e))
      ∙ ap (λ b. recover env (parse_frames env options (length b) (with_buffer b s)))
          (append_assoc s.buffer first second)
