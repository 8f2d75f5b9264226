-- ===== src/Beve/Entry.antt =====
-- src/beve/mod.rs: the calls that write a value. `body` is the value's `write`, and `io` what the
-- writer runs on; a `granted` argument is the capacity that the allocator gave.
pub mod Emitted
use structio.Prelude.{ℕ, ◌-◌, Bool, true, false, Option, none, some, List, [], ◌∷◌, ◌>>=◌}
use structio.Beve.Writer.{
  Io, Sink, Writer, Put, appending, to_sink_with_capacity, set_aligned, at, offset, send,
}

module _ (io : Io) where
  -- `Writer::into_vec` and `Vec::len` of what a body left; `none` is a panic.
  buffer_of : Option (Writer io) → Option (List ℕ)
  buffer_of none = none
  buffer_of (some w) = some w.buf

  unfoldable pub to_vec : Put io → Option (List ℕ)
  unfolding buffer_of
  to_vec body = buffer_of (body (appending io [] 0))

  unfoldable pub to_vec_aligned : Put io → Option (List ℕ)
  unfolding buffer_of
  to_vec_aligned body = buffer_of (body (set_aligned io (appending io [] 0)))

  -- `append_in_place`: `none` is the panic that unwinds out of `body`, after which `out` is as it was.
  unfoldable pub append : Put io → List ℕ → ℕ → Option (List ℕ)
  unfolding buffer_of
  append body out capacity = buffer_of (body (appending io out capacity))

  unfoldable pub append_aligned : Put io → List ℕ → ℕ → Option (List ℕ)
  unfolding buffer_of
  append_aligned body out capacity = buffer_of (body (set_aligned io (appending io out capacity)))

  -- `Writer::measured`, less what stands in front.
  extent_of : ℕ → Option (Writer io) → Option ℕ
  extent_of prefix none = none
  extent_of prefix (some w) = some (offset io w - prefix)

  -- `body` is the value's `write` under `Measured<O>`.
  unfoldable pub size_after : Put io → ℕ → Option ℕ
  unfolding extent_of
  size_after body prefix = extent_of prefix (body (at io prefix (appending io [] 0)))

  unfoldable pub size_aligned_after : Put io → ℕ → Option ℕ
  unfolding extent_of
  size_aligned_after body prefix =
      extent_of prefix (body (at io prefix (set_aligned io (appending io [] 0))))

  -- The tail goes to the sink if there is one.
  flushed : Sink io → List ℕ → Sink io
  flushed s [] = s
  flushed s (b ∷ bs) = send io s (b ∷ bs)

  -- `Writer::finish`: the error if there is one, and the sink.
  unfoldable pub finish : Writer io → Option io.Error × Option io.State
  unfolding flushed
  finish w = elim w.sink [
    | none ↦ (none, none)
    | some s ↦ ((flushed s w.buf).error, some (flushed s w.buf).out)
  ]

  finished : Option (Writer io) → Option (Option io.Error × Option io.State)
  unfolding finish
  finished none = none
  finished (some w) = some (finish w)

  unfoldable pub to_writer_buffered :
      Put io → io.State → ℕ → ℕ → Option (Option io.Error × Option io.State)
  unfolding finished
  to_writer_buffered body out buffer granted =
      finished (to_sink_with_capacity io out buffer granted >>= body)
