-- ===== src/Http/Body/Limits.antt =====
-- That the limit of a body in src/internal/http/request.ts is kept, and a body within it is read whole.
use kenojs.Prelude.{
  ℕ, ◌+◌, ◌≤◌, ◌<◌, ◌≡◌, inl, inr, Bool-cases, refl, sym, ap, ◌∙◌, subst, true, false, Option, none,
  some, List, [], ◌∷◌, ◌++◌, length, length-append, leb, ltb, if◌then◌else◌, if_rule, arith,
}
use mathlib.Core.List.{append_assoc, append-nil}
use kenojs.Websocket.Frame.{Bytes}
use kenojs.Websocket.Connection.Incoming.{concat}
use kenojs.Websocket.Connection.Messages.{concat-snoc}
use kenojs.Http.Body.{
  Answer, gives, Reading, BodyCache, RawEvent, data_chunk, ended, too_large, begin_reading, settle,
  on_data, with_reading, raw_event, raw_events,
}

module _ {E : Type 0} where
  -- The chunks of a body, and its end.
  abbrev pub whole_body : List Bytes → List (RawEvent E)
  whole_body [] = ended ∷ []
  whole_body (chunk ∷ chunks) = data_chunk chunk ∷ whole_body chunks

  abbrev pub answer_of : BodyCache E → Option (Answer E Bytes)
  answer_of c = elim c.buffer_promise [ none ↦ none | some r ↦ r.settled ]

  abbrev all_read : List Bytes → Reading E → Reading E
  all_read [] r = r
  all_read (chunk ∷ chunks) r = all_read chunks (on_data chunk r)

  raw_events-whole_body :
      (chunks : List Bytes) (r : Reading E) (c : BodyCache E)
      → answer_of (raw_events (whole_body chunks) (with_reading r c))
        ≡ (settle (gives (concat (all_read chunks r).chunks)) (all_read chunks r)).settled
  unfolding raw_event
  raw_events-whole_body [] r c = refl
  raw_events-whole_body (chunk ∷ chunks) r c = raw_events-whole_body chunks (on_data chunk r) c

  on_data-settled :
      (chunk : Bytes) (r : Reading E) (a : Answer E Bytes)
      → r.settled ≡ some a
      → (on_data chunk r).settled ≡ some a
  unfolding on_data
  on_data-settled chunk r a h =
      if_rule (λ (q : Reading E). q.settled ≡ some a) (ltb r.limit (r.total + length chunk))
        (λ e. rw h refl) (λ e. h)

  all_read-settled :
      (chunks : List Bytes) (r : Reading E) (a : Answer E Bytes)
      → r.settled ≡ some a
      → (all_read chunks r).settled ≡ some a
  all_read-settled [] r a h = h
  all_read-settled (chunk ∷ chunks) r a h =
      all_read-settled chunks (on_data chunk r) a (on_data-settled chunk r a h)

  settle-new :
      (a : Answer E Bytes) (r : Reading E) → r.settled ≡ none → (settle a r).settled ≡ some a
  settle-new a r h = rw h refl

  settle-earlier :
      (a : Answer E Bytes) (r : Reading E) (b : Answer E Bytes)
      → r.settled ≡ some b
      → (settle a r).settled ≡ some b
  settle-earlier a r b h = rw h refl

  abbrev kept : Bytes → Reading E → Reading E
  kept chunk r = record r { total = r.total + length chunk; chunks = r.chunks ++ chunk ∷ [] }

  on_data-kept :
      (chunk : Bytes) (r : Reading E)
      → r.total + length chunk ≤ r.limit
      → on_data chunk r ≡ kept chunk r
  unfolding on_data
  on_data-kept chunk r h =
      let within : ltb r.limit (r.total + length chunk) ≡ false = ground arith in rw within refl

  on_data-over :
      (chunk : Bytes) (r : Reading E)
      → r.settled ≡ none
      → r.limit < r.total + length chunk
      → (on_data chunk r).settled ≡ some too_large
  unfolding on_data
  on_data-over chunk r n h =
      let over : ltb r.limit (r.total + length chunk) ≡ true = ground arith in rw (over, n) refl

  -- Within the limit every chunk is kept.
  all_read_within :
      (chunks : List Bytes) (r : Reading E)
      → r.settled ≡ none
      → r.total + length (concat chunks) ≤ r.limit
      → ((all_read chunks r).settled ≡ none)
        × (concat (all_read chunks r).chunks ≡ concat r.chunks ++ concat chunks)
  all_read_within [] r n h = (n, sym (append-nil (concat r.chunks)))
  all_read_within (chunk ∷ chunks) r n h =
      let first : r.total + length chunk ≤ r.limit =
        omega (arith, length-append chunk (concat chunks)) in
      let rest =
        all_read_within chunks (kept chunk r) n
          (omega (arith, length-append chunk (concat chunks))) in
      subst
        (λ q.
          ((all_read chunks q).settled ≡ none)
          × (concat (all_read chunks q).chunks ≡ concat r.chunks ++ (chunk ++ concat chunks)))
        (sym (on_data-kept chunk r first))
        (
          rest.0,
          rest.1
              ∙ ap (λ bs. bs ++ concat chunks) (concat-snoc r.chunks chunk)
              ∙ append_assoc (concat r.chunks) chunk (concat chunks),
        )

  -- Over it the promise is rejected.
  all_read_over :
      (chunks : List Bytes) (r : Reading E)
      → r.settled ≡ none
      → r.total ≤ r.limit
      → r.limit < r.total + length (concat chunks)
      → (all_read chunks r).settled ≡ some too_large
  all_read_over [] r n t h = absurd (omega arith)
  all_read_over (chunk ∷ chunks) r n t h =
      elim (Bool-cases (leb (r.total + length chunk) r.limit)) [
        | inl e ↦
            let first : r.total + length chunk ≤ r.limit = ground arith in
            subst (λ q. (all_read chunks q).settled ≡ some too_large)
              (sym (on_data-kept chunk r first))
              (all_read_over chunks (kept chunk r) n first
                (omega (arith, length-append chunk (concat chunks))))
        | inr e ↦
            all_read-settled chunks (on_data chunk r) too_large
              (on_data-over chunk r n (ground arith))
      ]

  -- A body that is read to its end, after a call of `buffer` with a limit, in any chunks: if it is not longer
  -- than the limit the promise gives the whole body, and otherwise it is rejected with status 413.
  pub whole_body_read :
      (limit : ℕ) (chunks : List Bytes) (c : BodyCache E)
      → answer_of (raw_events (whole_body chunks) (with_reading (begin_reading limit) c))
        ≡ some (if leb (length (concat chunks)) limit then gives (concat chunks) else too_large)
  whole_body_read limit chunks c =
      raw_events-whole_body chunks (begin_reading limit) c
      ∙ if_rule
          (λ a.
            (settle (gives (concat (all_read chunks (begin_reading limit)).chunks))
              (all_read chunks (begin_reading limit))).settled
            ≡ some a)
          (leb (length (concat chunks)) limit)
          (λ e.
            let (n, w) = all_read_within chunks (begin_reading limit) refl (ground arith) in
            settle-new _ (all_read chunks (begin_reading limit)) n ∙ ap (λ bs. some (gives bs)) w)
          (λ e.
            settle-earlier _ (all_read chunks (begin_reading limit)) too_large
              (all_read_over chunks (begin_reading limit) refl (omega arith) (ground arith)))
