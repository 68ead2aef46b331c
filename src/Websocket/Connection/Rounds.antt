-- ===== src/Websocket/Connection/Rounds.antt =====
-- The rounds of the parsing loop of connection.ts: no frame looks at the bytes behind it, and the
-- loop's fuel is enough.
use kenojs.Prelude.{
  ℕ, zero, suc, ◌≤◌, ◌≡◌, refl, sym, subst, ◌∙◌, inl, inr, Option-cases, Bool, false, none, [], ◌∷◌,
  ◌++◌, length, drop, arith, length-drop,
}
use kenojs.Websocket.Frame.{
  WebSocketProtocolError, Bytes, ParsedFrame, Parsed, incomplete, complete, throws, try_parse_frame,
}
use kenojs.Websocket.Frame.Parsing.{consumed_bounds}
use kenojs.Websocket.Connection.State.{
  Env, Options, Failure, protocol, State, Outcome, ok, fails, ◌>>=◌, effect, emit, ping,
}
use kenojs.Websocket.Connection.Outgoing.{write_frame}
use kenojs.Websocket.Frame.Opcodes
use kenojs.Websocket.Connection.Incoming.{
  concat, emit_inflated, ensure_payload_limit, read_close, answer_close, continue_message,
  emit_message, handle_continuation, handle_data_frame, handle_close_frame, handle_frame,
  parse_frames,
}

-- The same state with other bytes still to parse.
abbrev pub with_buffer : Bytes → State → State
with_buffer b s = record s { buffer = b }

abbrev pub rebuffer : Bytes → Outcome → Outcome
rebuffer b (ok s) = ok (with_buffer b s)
rebuffer b (fails s e) = fails (with_buffer b s) e

pub data IsParsed (r : Parsed) : Type 0 where
  is_incomplete : r ≡ incomplete → IsParsed r
  is_throws : (x : WebSocketProtocolError) → r ≡ throws x → IsParsed r
  is_complete : (n : ℕ) (frame : ParsedFrame) → r ≡ complete n frame → IsParsed r

pub Parsed-cases : (r : Parsed) → IsParsed r
Parsed-cases incomplete = is_incomplete refl
Parsed-cases (throws x) = is_throws x refl
Parsed-cases (complete n frame) = is_complete n frame refl

pub data IsOutcome (o : Outcome) : Type 0 where
  is_ok : (s : State) → o ≡ ok s → IsOutcome o
  is_fails : (s : State) (e : Failure) → o ≡ fails s e → IsOutcome o

pub Outcome-cases : (o : Outcome) → IsOutcome o
Outcome-cases (ok s) = is_ok s refl
Outcome-cases (fails s e) = is_fails s e refl

pub ok-injective : {s t : State} → ok s ≡ ok t → s ≡ t
ok-injective e = cc

module _ (env : Env) (options : Options) where
  write_pong-with_buffer :
      (b payload : Bytes) (s : State)
      → write_frame env options Opcodes.pong payload (with_buffer b s)
        ≡ with_buffer b (write_frame env options Opcodes.pong payload s)
  unfolding write_frame
  write_pong-with_buffer b payload s = ground arith

  emit_message-with_buffer :
      (b : Bytes) (opcode : ℕ) (payload : Bytes) (compressed : Bool) (s : State)
      → emit_message env options opcode payload compressed (with_buffer b s)
        ≡ rebuffer b (emit_message env options opcode payload compressed s)
  unfolding emit_message emit_inflated ensure_payload_limit
  emit_message-with_buffer b opcode payload compressed s = ground arith

  continue_message-with_buffer :
      (b : Bytes) (opcode : ℕ) (frame : ParsedFrame) (s : State)
      → continue_message env options opcode frame (with_buffer b s)
        ≡ rebuffer b (continue_message env options opcode frame s)
  unfolding continue_message ensure_payload_limit
  continue_message-with_buffer b opcode frame s = ground (
    arith,
    emit_message-with_buffer b opcode (concat (s.fragments ++ frame.payload ∷ []))
        s.fragmented_compressed
        (record s {
          fragments = [];
          fragmented_compressed = false;
          fragmented_length = 0;
          fragmented_opcode = none;
        }),
  )

  handle_continuation-with_buffer :
      (b : Bytes) (frame : ParsedFrame) (s : State)
      → handle_continuation env options frame (with_buffer b s)
        ≡ rebuffer b (handle_continuation env options frame s)
  unfolding handle_continuation
  handle_continuation-with_buffer b frame s = elim (Option-cases s.fragmented_opcode) [
    | inl e ↦ rw (e, handle_continuation)
    | inr (opcode, e) ↦ rw (e, handle_continuation) (continue_message-with_buffer b opcode frame s)
  ]

  handle_data_frame-with_buffer :
      (b : Bytes) (frame : ParsedFrame) (s : State)
      → handle_data_frame env options frame (with_buffer b s)
        ≡ rebuffer b (handle_data_frame env options frame s)
  unfolding handle_data_frame ensure_payload_limit
  handle_data_frame-with_buffer b frame s =
      ground (arith, emit_message-with_buffer b frame.opcode frame.payload frame.rsv1 s)

  handle_close_frame-with_buffer :
      (b : Bytes) (payload : Bytes) (s : State)
      → handle_close_frame env options payload (with_buffer b s)
        ≡ rebuffer b (handle_close_frame env options payload s)
  unfolding handle_close_frame read_close answer_close
  handle_close_frame-with_buffer b payload s = ground arith

  pub handle_frame-with_buffer :
      (b : Bytes) (frame : ParsedFrame) (s : State)
      → handle_frame env options frame (with_buffer b s)
        ≡ rebuffer b (handle_frame env options frame s)
  unfolding handle_frame
  handle_frame-with_buffer b frame s = ground (
    arith,
    handle_continuation-with_buffer b frame s,
    handle_data_frame-with_buffer b frame s,
    handle_close_frame-with_buffer b frame.payload s,
    write_pong-with_buffer b frame.payload (effect (emit (ping frame.payload)) s),
  )

  abbrev pub parse : Bytes → Parsed
  parse b = try_parse_frame env.buffer_util b options.per_message_deflate

  -- One round of the parsing loop, by what the parser says.
  pub round_incomplete :
      (fuel : ℕ) (s : State) → parse s.buffer ≡ incomplete → parse_frames env options fuel s ≡ ok s
  unfolding parse_frames
  round_incomplete zero s e = refl
  round_incomplete (suc fuel) s e = rw (e, parse_frames)

  pub round_throws :
      (fuel : ℕ) (s : State) (x : WebSocketProtocolError)
      → parse s.buffer ≡ throws x
      → parse_frames env options (suc fuel) s ≡ fails s (protocol x)
  unfolding parse_frames
  round_throws fuel s x e = rw (e, parse_frames)

  pub round_complete :
      (fuel : ℕ) (s : State) (n : ℕ) (frame : ParsedFrame)
      → parse s.buffer ≡ complete n frame
      → parse_frames env options (suc fuel) s ≡ (
          rebuffer (drop n s.buffer) (handle_frame env options frame s)
          >>= parse_frames env options fuel)
  unfolding parse_frames
  round_complete fuel s n frame e =
      rw (e, parse_frames) (rw (handle_frame-with_buffer (drop n s.buffer) frame s))

  pub short_incomplete : (b : Bytes) → length b ≤ 0 → parse b ≡ incomplete
  unfolding try_parse_frame
  short_incomplete b h = ground arith

  -- What a round leaves is shorter than what it was given.
  pub shrinks :
      (b : Bytes) (n f : ℕ) (frame : ParsedFrame)
      → parse b ≡ complete n frame
      → length b ≤ suc f
      → length (drop n b) ≤ f
  shrinks b n f frame e h = omega (
    arith,
    consumed_bounds env.buffer_util b options.per_message_deflate n frame e,
    length-drop n b,
  )

  -- The loop does not depend on its fuel once there is a unit for each byte.
  pub fuel_irrelevant :
      (f g : ℕ) (s : State)
      → length s.buffer ≤ f
      → length s.buffer ≤ g
      → parse_frames env options f s ≡ parse_frames env options g s
  fuel_irrelevant zero g s p q =
      let e = short_incomplete s.buffer p in
      round_incomplete zero s e ∙ sym (round_incomplete g s e)
  fuel_irrelevant (suc f) zero s p q =
      let e = short_incomplete s.buffer q in
      round_incomplete (suc f) s e ∙ sym (round_incomplete zero s e)
  fuel_irrelevant (suc f) (suc g) s p q = elim (Parsed-cases (parse s.buffer)) [
    | is_incomplete e ↦ round_incomplete (suc f) s e ∙ sym (round_incomplete (suc g) s e)
    | is_throws x e ↦ round_throws f s x e ∙ sym (round_throws g s x e)
    | is_complete n frame e ↦
        round_complete f s n frame e
        ∙ same_rest (handle_frame env options frame s) (drop n s.buffer) (λ t.
          fuel_irrelevant f g (with_buffer (drop n s.buffer) t) (shrinks s.buffer n f frame e p)
            (shrinks s.buffer n g frame e q))
        ∙ sym (round_complete g s n frame e)
  ]
    where
      same_rest :
          (o : Outcome) (b : Bytes)
          → ((t : State)
              → parse_frames env options f (with_buffer b t)
                ≡ parse_frames env options g (with_buffer b t))
          → (rebuffer b o >>= parse_frames env options f)
            ≡ (rebuffer b o >>= parse_frames env options g)
      same_rest (ok t) b h = h t
      same_rest (fails t x) b h = refl

-- What holds of the state that a method reaches, whether it throws or not.
abbrev pub Reaches {ℓ} : (State → Type ℓ) → Outcome → Type ℓ
Reaches P (ok s) = P s
Reaches P (fails s e) = P s

-- What each frame keeps, and what does not depend on the bytes still to parse, the loop keeps.
module _ {ℓ} (env : Env) (options : Options) (P : State → Type ℓ)
    (kept : (frame : ParsedFrame) (s : State) → P s → Reaches P (handle_frame env options frame s))
    (anywhere : (b : Bytes) (s : State) → P s → P (with_buffer b s)) where
  after_round :
      (o : Outcome) (b : Bytes) (k : State → Outcome)
      → Reaches P o
      → ((t : State) → P t → Reaches P (k t))
      → Reaches P (rebuffer b o >>= k)
  after_round (ok t) b k h next = next (with_buffer b t) (anywhere b t h)
  after_round (fails t e) b k h next = anywhere b t h

  pub parse_frames_rule : (f : ℕ) (s : State) → P s → Reaches P (parse_frames env options f s)
  unfolding parse_frames
  parse_frames_rule zero s h = h
  parse_frames_rule (suc f) s h = elim (Parsed-cases (parse env options s.buffer)) [
    | is_incomplete e ↦ subst (Reaches P) (sym (round_incomplete env options (suc f) s e)) h
    | is_throws x e ↦ subst (Reaches P) (sym (round_throws env options f s x e)) h
    | is_complete n frame e ↦ subst (Reaches P) (sym (round_complete env options f s n frame e)) (
        after_round (handle_frame env options frame s) (drop n s.buffer)
          (parse_frames env options f) (kept frame s h) (λ t k. parse_frames_rule f t k))
  ]
