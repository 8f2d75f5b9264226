-- ===== src/Beve/Entry/Emitted.antt =====
-- The calls of src/beve/mod.rs over a body that writes known bytes.
use structio.Prelude.{
  ℕ, ◌≡◌, refl, sym, ap, ◌∙◌, ◌≤◌, max, arith, true, false, Option, none, some, List, [], ◌∷◌, ◌++◌,
  length, inl, inr, Option-cases, ◌≢◌, le→ltb,
}
use structio.Beve.Writer.{
  Io, Sink, Writer, Put, appending, to_sink_with_capacity, sink_writer, isize_max, at, offset,
}
use structio.Beve.Writer.Buffer.{IoLaws, contents, clean, clean_sink, send_lem, has_sink}
use structio.Beve.Writer.Emits.{Emits}
use structio.Beve.Entry.{
  append, size_after, buffer_of, extent_of, finish, flushed, finished, to_writer_buffered,
}
use mathlib.Core.List.{append-nil}

module _ {io : Io} (laws : IoLaws io) (bs : List ℕ) (body : Put io) where
  no_sink : (w : Writer io) → has_sink w ≡ false → (clean w ≡ true) × (contents laws w ≡ w.buf)
  no_sink w h = elim (Option-cases w.sink) [
    | inl e ↦ rw e (refl, refl)
    | inr (s, e) ↦ absurd (true_ne_false (rw e at h))
  ]
    where
      true_ne_false : true ≢ false
      true_ne_false = λ p. cc

  -- No sink appears while a value is written to a buffer.
  pub append-Emits :
      Emits laws false bs body
      → (out : List ℕ) (capacity : ℕ) → append io body out capacity ≡ some (out ++ bs)
  unfolding append buffer_of
  append-Emits e out capacity =
      let (w, f, a) =
        e.at (appending io out capacity) (record { within = omega arith; begun = omega arith }) in
      let (c, b) = no_sink w a.sink_same in rw (append, f) (ap some (sym b ∙ (a.written refl c).1))

  at_begin :
      (prefix : ℕ)
      → (at io prefix (appending io [] 0)) ≡ record (appending io [] 0) { origin = prefix }
  unfolding at
  at_begin prefix =
      rw (at, le→ltb prefix 0 (omega arith))
        (ap (λ (t : ℕ). record (appending io [] 0) { origin = t }) (omega arith))

  pub size_after-Emits :
      Emits laws true bs body → (prefix : ℕ) → size_after io body prefix ≡ some (length bs)
  unfolding size_after extent_of offset
  size_after-Emits e prefix =
      let (w, f, a) =
        e.at (record (appending io [] 0) { origin = prefix })
          (record { within = omega arith; begun = omega arith }) in
      rw (size_after, at_begin prefix, f) (ap some (omega (arith, a.reached, a.skip_same)))

  -- A writer that measures from a prefix holds nothing at the end.
  pub measured-Emits :
      Emits laws true bs body
      → (prefix : ℕ)
      → (w : Writer io) × (body (at io prefix (appending io [] 0)) ≡ some w) × (w.buf ≡ [])
  measured-Emits e prefix =
      let (w, f, a) =
        e.at (record (appending io [] 0) { origin = prefix })
          (record { within = omega arith; begun = omega arith }) in
      (w, ap body (at_begin prefix) ∙ f, a.counted refl)

  flushed_lem :
      (s : Sink io) (tail : List ℕ)
      → (flushed io s tail).error ≡ none
      → (clean_sink s ≡ true)
        × (laws.received (flushed io s tail).out ≡ laws.received s.out ++ tail)
  unfolding flushed
  flushed_lem s [] h = (rw h refl, sym (append-nil _))
  flushed_lem s (b ∷ tail) h = send_lem laws s (b ∷ tail) (rw h refl)

  finish-some :
      (w : Writer io) (s : Sink io)
      → w.sink ≡ some s
      → finish io w ≡ ((flushed io s w.buf).error, some (flushed io s w.buf).out)
  unfolding finish
  finish-some w s e = rw (finish, e)

  finish_lem :
      (w : Writer io)
      → has_sink w ≡ true
      → (error : Option io.Error) × (out' : io.State) × (finish io w ≡ (error, some out'))
        × (error ≡ none → (clean w ≡ true) × (laws.received out' ≡ contents laws w))
  finish_lem w h = elim (Option-cases w.sink) [
    | inl e ↦ absurd (false_ne_true (rw e at h))
    | inr (s, e) ↦ (
      (flushed io s w.buf).error,
      (flushed io s w.buf).out,
      finish-some w s e,
      λ q. rw e (flushed_lem s w.buf q),
    )
  ]
    where
      false_ne_true : false ≢ true
      false_ne_true = λ p. cc

  pub to_writer_buffered-Emits :
      Emits laws false bs body
      → (out : io.State) (buffer granted : ℕ) → buffer ≤ isize_max
      → (error : Option io.Error) × (out' : io.State) × (to_writer_buffered io body out buffer
            granted
          ≡ some (error, some out'))
        × (error ≡ none → laws.received out' ≡ laws.received out ++ bs)
  unfolding to_writer_buffered finished to_sink_with_capacity
  to_writer_buffered-Emits e out buffer granted h =
      let (w, f, a) =
        e.at (sink_writer io out buffer granted)
          (record { within = omega arith; begun = omega arith }) in
      let (error, out', g, got) = finish_lem w a.sink_same in
      (
        error,
        out',
        rw
            (
              to_writer_buffered,
              to_sink_with_capacity,
              le→ltb isize_max (max buffer 1) (omega arith),
              f,
            )
            (ap some g),
        λ q.
            let (c, r) = got q in
            r
            ∙ (a.written refl c).1
            ∙ ap (λ (t : List ℕ). t ++ bs) (append-nil (laws.received out)),
      )
