-- ===== src/Websocket/Compression/Streams.antt =====
-- What the compressor of src/internal/websocket/permessage-deflate.ts returns for a message, and that the
-- other side reads it back.
use kenojs.Prelude.{
  ◌-◌, ◌<◌, ◌≡◌, refl, sym, ap, ◌∙◌, subst, true, false, none, some, List, [], ◌∷◌, ◌++◌, length,
  length-append, take-append_self, drop-append_self, ltb, leb, if_rule, arith,
}
use mathlib.Core.List.{append_assoc, append-nil}
use kenojs.Websocket.Frame.{Bytes}
use kenojs.Websocket.Connection.Incoming.{concat, sync_flush_trailer, decompress_message}
use kenojs.Websocket.Connection.State.{Env}
use kenojs.Websocket.Connection.Messages.{concat-snoc}
use kenojs.Websocket.Compression.{
  Compressor, Settled, resolved, trim_sync_flush_trailer, fit, consume_pending_chunks, get_deflate,
  compress_with_stream, on_data, complete,
}

-- Nothing is left over of a message.
abbrev pub IsIdle : {E : Type 0} → Compressor E → Type 0
IsIdle c = (c.pending_chunks ≡ []) × (c.pending_length ≡ 0) × (c.awaited ≡ false)

-- `pending_length` is that of the chunks.
abbrev pub IsMeasured : {E : Type 0} → Compressor E → Type 0
IsMeasured c = c.pending_length ≡ length (concat c.pending_chunks)

abbrev pub all_data : {E : Type 0} → List Bytes → Compressor E → Compressor E
all_data [] c = c
all_data (chunk ∷ chunks) c = all_data chunks (on_data chunk c)

-- One message: the call, the chunks that the stream emits, and its callback.
abbrev pub compressed : {E : Type 0} → Bytes → List Bytes → Compressor E → Settled E × Compressor E
compressed payload chunks c = complete payload (all_data chunks (compress_with_stream payload c))

fit-length : (bytes : Bytes) → fit (length bytes) bytes ≡ bytes
fit-length [] = refl
fit-length (b ∷ bytes) = ap (λ bs. b ∷ bs) (fit-length bytes)

consume_pending_chunks_lem :
    (chunks : List Bytes) → consume_pending_chunks chunks (length (concat chunks)) ≡ concat chunks
consume_pending_chunks_lem [] = refl
consume_pending_chunks_lem (chunk ∷ []) = sym (append-nil chunk)
consume_pending_chunks_lem (chunk ∷ other ∷ chunks) = fit-length (concat (chunk ∷ other ∷ chunks))

trimmed :
    (body : Bytes) → 0 < length body → trim_sync_flush_trailer (body ++ sync_flush_trailer) ≡ body
unfolding trim_sync_flush_trailer
trimmed body h =
    let kept : length (body ++ sync_flush_trailer) - 4 ≡ length body =
      omega (arith, length-append body sync_flush_trailer) in
    let long : ltb 4 (length (body ++ sync_flush_trailer)) ≡ true =
      ground (arith, length-append body sync_flush_trailer) in
    rw (long, kept, drop-append_self body sync_flush_trailer)
      (take-append_self body sync_flush_trailer)

-- The chunks so far, measured, and no error.
abbrev Collected : {E : Type 0} → List Bytes → Compressor E → Type 0
Collected chunks c = (c.pending_chunks ≡ chunks) × IsMeasured c × (c.pending_error ≡ none)

module _ {E : Type 0} where
  get_deflate-Empty :
      (c : Compressor E)
      → c.pending_chunks ≡ []
      → c.pending_length ≡ 0
      → ((get_deflate c).pending_chunks ≡ []) × IsMeasured (get_deflate c)
  get_deflate-Empty c e l =
      let m : IsMeasured c = l ∙ sym (ap (λ cs. length (concat cs)) e) in
      if_rule (λ (o : Compressor E). (o.pending_chunks ≡ []) × IsMeasured o) c.has_stream
        (λ h. (e, m)) (λ h. (e, m))

  compress_with_stream-Collected :
      (payload : Bytes) (c : Compressor E)
      → IsIdle c
      → Collected [] (compress_with_stream payload c)
  unfolding compress_with_stream
  compress_with_stream-Collected payload c (e, l, a) =
      let (f, m) = get_deflate-Empty c e l in (f, m, refl)

  all_data-Collected :
      (chunks before : List Bytes) (c : Compressor E)
      → Collected before c
      → Collected (before ++ chunks) (all_data chunks c)
  all_data-Collected [] before c (e, m, n) = (e ∙ sym (append-nil before), m, n)
  all_data-Collected (chunk ∷ chunks) before c (e, m, n) =
      subst (λ all. Collected all (all_data chunks (on_data chunk c)))
        (append_assoc before (chunk ∷ []) chunks)
        (all_data-Collected chunks (before ++ chunk ∷ []) (on_data chunk c) (
          ap (λ cs. cs ++ chunk ∷ []) e,
          omega (
            arith,
            m,
            ap length (concat-snoc c.pending_chunks chunk),
            length-append (concat c.pending_chunks) chunk,
          ),
          n,
        ))

  -- The message itself, or less than it from which the other side makes it.
  abbrev pub Restores : (env : Env) (payload : Bytes) → Settled E → Type 0
  Restores env payload (resolved false out) = out ≡ payload
  Restores env payload (resolved true out) =
      (decompress_message env out ≡ some payload) × (length out < length payload)
  Restores env payload _ = ⊥

  complete-Restores :
      (env : Env) (payload body : Bytes) (chunks : List Bytes) (c : Compressor E)
      → Collected chunks c
      → concat chunks ≡ body ++ sync_flush_trailer
      → 0 < length body
      → env.inflate_raw_sync (body ++ sync_flush_trailer) ≡ some payload
      → Restores env payload (complete payload c).0 × IsIdle (complete payload c).1
  unfolding complete decompress_message
  complete-Restores env payload body chunks c (e, m, n) d b i =
      let whole : consume_pending_chunks c.pending_chunks c.pending_length
          ≡ body ++ sync_flush_trailer =
        ap (consume_pending_chunks c.pending_chunks) m
        ∙ consume_pending_chunks_lem c.pending_chunks
        ∙ ap concat e
        ∙ d in
      let t : trim_sync_flush_trailer (consume_pending_chunks c.pending_chunks c.pending_length)
          ≡ body =
        ap trim_sync_flush_trailer whole ∙ trimmed body b in
      rw (n, t)
        (
          if_rule (Restores env payload) (leb (length payload) (length body)) (λ f. refl)
              (λ f. (i, ground arith)),
          (refl, refl, refl),
        )

  -- Let nothing be left over in the compressor, and let the chunks that the stream emits for a message be
  -- together a body that is not empty and the trailer of a flush, which the other side's inflation turns
  -- back into the message. Then the message is returned as it is, or a shorter one that decompresses to
  -- it, and again nothing is left over.
  pub compressed-Restores :
      (env : Env) (payload body : Bytes) (chunks : List Bytes) (c : Compressor E)
      → IsIdle c
      → concat chunks ≡ body ++ sync_flush_trailer
      → 0 < length body
      → env.inflate_raw_sync (body ++ sync_flush_trailer) ≡ some payload
      → Restores env payload (compressed payload chunks c).0
        × IsIdle (compressed payload chunks c).1
  compressed-Restores env payload body chunks c idle d b i =
      complete-Restores env payload body chunks _
        (all_data-Collected chunks [] (compress_with_stream payload c)
          (compress_with_stream-Collected payload c idle))
        d b i
