-- ===== src/Websocket/Connection/Messages.antt =====
-- Fragmented messages of connection.ts.
use kenojs.Prelude.{
  ℕ, ◌≤◌, ◌≡◌, refl, subst, sym, ap, ◌∙◌, ◌⊎◌, Bool, true, false, none, some, List, [], ◌∷◌, ◌++◌,
  length, length-append, arith,
}
use mathlib.Core.List.{append_assoc, append-nil}
use kenojs.Websocket.Frame.{Bytes, ParsedFrame}
use kenojs.Websocket.Frame.Opcodes
use kenojs.Websocket.Connection.State.{Env, Options, State, Outcome, ok, fails, ◌>>=◌}
use kenojs.Websocket.Connection.Incoming.{
  concat, emit_message, continue_message, handle_continuation, handle_data_frame, handle_frame,
  ensure_payload_limit,
}

-- The frames of one message, in order.
pub handle_frames : Env → Options → List ParsedFrame → State → Outcome
handle_frames env options [] s = ok s
handle_frames env options (f ∷ fs) s = handle_frame env options f s >>= handle_frames env options fs

abbrev pub continuation : Bool → Bytes → ParsedFrame
continuation fin payload = record {
  fin = fin;
  opcode = Opcodes.continuation;
  payload = payload;
  rsv1 = false;
}

-- The continuation frames that carry `more`, the last of them `final`.
abbrev pub tail_frames : List Bytes → Bytes → List ParsedFrame
tail_frames [] final = continuation true final ∷ []
tail_frames (p ∷ more) final = continuation false p ∷ tail_frames more final

-- No fragmented message is in progress.
pub record IsAtRest (s : State) : Type 0 where
  pub no_opcode : s.fragmented_opcode ≡ none
  pub no_fragments : s.fragments ≡ []
  pub no_length : s.fragmented_length ≡ 0
  pub no_compression : s.fragmented_compressed ≡ false

abbrev in_progress : ℕ → Bool → List Bytes → State → State
in_progress opcode compressed parts s = record s {
  fragmented_opcode = some opcode;
  fragmented_compressed = compressed;
  fragmented_length = length (concat parts);
  fragments = parts;
}

abbrev at_rest : State → State
at_rest s = record s {
  fragmented_opcode = none;
  fragmented_compressed = false;
  fragmented_length = 0;
  fragments = [];
}

concat-append : (ps qs : List Bytes) → concat (ps ++ qs) ≡ concat ps ++ concat qs
concat-append [] qs = refl
concat-append (p ∷ ps) qs =
    ap (λ t. p ++ t) (concat-append ps qs) ∙ sym (append_assoc p (concat ps) (concat qs))

pub concat-snoc : (ps : List Bytes) (q : Bytes) → concat (ps ++ q ∷ []) ≡ concat ps ++ q
concat-snoc ps q = concat-append ps (q ∷ []) ∙ ap (λ t. concat ps ++ t) (append-nil q)

>>=-ok : (o : Outcome) → (o >>= ok) ≡ o
>>=-ok (ok s) = refl
>>=-ok (fails s e) = refl

settled : (s : State) → IsAtRest s → s ≡ at_rest s
settled s r = ground arith

module _ (env : Env) (options : Options) where
  -- A continuation frame that does not end the message is added to the parts.
  continue_more :
      (opcode : ℕ) (compressed : Bool) (parts : List Bytes) (p : Bytes) (s : State)
      → length (concat parts ++ p) ≤ options.max_payload
      → handle_frame env options (continuation false p) (in_progress opcode compressed parts s)
        ≡ ok (in_progress opcode compressed (parts ++ p ∷ []) s)
  unfolding handle_frame handle_continuation continue_message ensure_payload_limit
  continue_more opcode compressed parts p s h =
      ground (arith, length-append (concat parts) p, concat-snoc parts p)

  -- The one that ends it hands the message on.
  continue_last :
      (opcode : ℕ) (compressed : Bool) (parts : List Bytes) (p : Bytes) (s : State)
      → length (concat parts ++ p) ≤ options.max_payload
      → handle_frame env options (continuation true p) (in_progress opcode compressed parts s)
        ≡ emit_message env options opcode (concat (parts ++ p ∷ [])) compressed (at_rest s)
  unfolding handle_frame handle_continuation continue_message ensure_payload_limit
  continue_last opcode compressed parts p s h =
      ground (arith, length-append (concat parts) p, concat-snoc parts p)

  first_fits : (a b c d : Bytes) (n : ℕ) → length (a ++ ((b ++ c) ++ d)) ≤ n → length (a ++ b) ≤ n
  first_fits a b c d n h = omega (
    arith,
    length-append a ((b ++ c) ++ d),
    length-append (b ++ c) d,
    length-append b c,
    length-append a b,
  )

  -- All the continuation frames of a message.
  continue_all :
      (opcode : ℕ) (compressed : Bool) (parts more : List Bytes) (final : Bytes) (s : State)
      → length (concat parts ++ (concat more ++ final)) ≤ options.max_payload
      → handle_frames env options (tail_frames more final) (in_progress opcode compressed parts s)
        ≡ emit_message env options opcode
            (concat parts ++ (concat more ++ final))
            compressed
            (at_rest s)
  unfolding handle_frames
  continue_all opcode compressed parts [] final s h =
      >>=-ok _
      ∙ continue_last opcode compressed parts final s h
      ∙ ap (λ b. emit_message env options opcode b compressed (at_rest s)) (concat-snoc parts final)
  continue_all opcode compressed parts (p ∷ more) final s h =
      let regroup : concat (parts ++ p ∷ []) ++ (concat more ++ final)
          ≡ concat parts ++ ((p ++ concat more) ++ final) =
        simp (concat-snoc, append_assoc) in
      ap (λ o. o >>= handle_frames env options (tail_frames more final))
        (continue_more opcode compressed parts p s
          (first_fits (concat parts) p (concat more) final _ h))
      ∙ continue_all opcode compressed (parts ++ p ∷ []) more final s
          (subst (λ b. length b ≤ options.max_payload) (sym regroup) h)
      ∙ ap (λ b. emit_message env options opcode b compressed (at_rest s)) regroup

  start :
      (opcode : ℕ) (rsv1 : Bool) (p : Bytes) (s : State)
      → (opcode ≡ Opcodes.text) ⊎ (opcode ≡ Opcodes.binary)
      → IsAtRest s
      → length p ≤ options.max_payload
      → handle_frame env options
          (record { fin = false; opcode = opcode; payload = p; rsv1 = rsv1 })
          s
        ≡ ok (in_progress opcode rsv1 (p ∷ []) s)
  unfolding handle_frame handle_data_frame ensure_payload_limit
  start opcode rsv1 p s o r h = ground (arith, append-nil p)

  whole :
      (opcode : ℕ) (rsv1 : Bool) (p : Bytes) (s : State)
      → (opcode ≡ Opcodes.text) ⊎ (opcode ≡ Opcodes.binary)
      → IsAtRest s
      → length p ≤ options.max_payload
      → handle_frame env options
          (record { fin = true; opcode = opcode; payload = p; rsv1 = rsv1 })
          s
        ≡ emit_message env options opcode p rsv1 (at_rest s)
  unfolding handle_frame handle_data_frame ensure_payload_limit
  whole opcode rsv1 p s o r h =
      ground (arith, ap (λ t. emit_message env options opcode p rsv1 t) (settled s r))

  -- A message that is cut into a first frame, continuation frames and a last one is handled like the
  -- same message in one frame: with the same events and errors, and the same state at the end. The
  -- connection was at rest, and the message's bytes fit the limit.
  pub fragments_join :
      (opcode : ℕ) (rsv1 : Bool) (first : Bytes) (more : List Bytes) (final : Bytes) (s : State)
      → (opcode ≡ Opcodes.text) ⊎ (opcode ≡ Opcodes.binary)
      → IsAtRest s
      → length (first ++ (concat more ++ final)) ≤ options.max_payload
      → handle_frames env options
          ((record { fin = false; opcode = opcode; payload = first; rsv1 = rsv1 })
            ∷ tail_frames more final)
          s
        ≡ handle_frame env options
            (record {
              fin = true;
              opcode = opcode;
              payload = first ++ (concat more ++ final);
              rsv1 = rsv1;
            })
            s
  unfolding handle_frames
  fragments_join opcode rsv1 first more final s o r h =
      let regroup : concat (first ∷ []) ++ (concat more ++ final)
          ≡ first ++ (concat more ++ final) =
        ap (λ b. b ++ (concat more ++ final)) (append-nil first) in
      ap (λ t. t >>= handle_frames env options (tail_frames more final))
        (start opcode rsv1 first s o r
          (omega (arith, h, length-append first (concat more ++ final))))
      ∙ continue_all opcode rsv1 (first ∷ []) more final s
          (subst (λ b. length b ≤ options.max_payload) (sym regroup) h)
      ∙ ap (λ b. emit_message env options opcode b rsv1 (at_rest s)) regroup
      ∙ sym (whole opcode rsv1 (first ++ (concat more ++ final)) s o r h)
