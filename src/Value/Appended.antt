-- ===== src/Value/Appended.antt =====
-- A tree of src/value.rs written by the calls of src/beve/mod.rs, and stepped over by
-- src/beve/reader.rs.
use structio.Prelude.{
  ℕ, ◌+◌, ◌^◌, ◌≤◌, ◌<◌, ◌≡◌, refl, sym, ap, ◌∙◌, arith, Bool, true, false, Option, none, some,
  List, [], ◌++◌, length, length-append,
}
use structio.Error.{ok}
use structio.Beve.Walk.{Reader, new}
use structio.Beve.Reader.Reads.{Ahead}
use structio.Beve.Skip.{skip_value, validate_value}
use structio.Beve.Writer.{Io, Writer, at, appending, isize_max}
use structio.Beve.Writer.Buffer.{IoLaws}
use structio.Beve.Entry.{append, size_after, to_writer_buffered}
use structio.Beve.Entry.Emitted.{
  append-Emits, size_after-Emits, measured-Emits, to_writer_buffered-Emits,
}
use structio.Value.{Value, write}
use structio.Value.Written.{encode, nesting, Writable, write-Emits}
use structio.Value.Extent.{Anything, skip_value-encode, validate_value-encode}
use mathlib.Core.List.{append-nil}

module _ {io : Io} (laws : IoLaws io) (P : List ℕ → Type 0) (v : Value) (h : Writable P v)
    (stack : ℕ) (deep : nesting v ≤ stack) where
  pub append-encode :
      (out : List ℕ) (capacity : ℕ)
      → append io (write io false stack v) out capacity ≡ some (out ++ encode v)
  append-encode out capacity =
      append-Emits laws (encode v) _ (write-Emits laws false P v stack deep h) out capacity

  -- For a tree whose lengths are at most `max_size`, with room on the stack for its levels of arrays
  -- and objects, and a prefix of at most `isize::MAX` bytes with which the encoding stays under 2^64
  -- bytes: `append` returns the bytes that were there followed by the encoding of the tree;
  -- `size_after` returns the length of the encoding; and the writer that it measures with holds no
  -- bytes at the end.
  pub append-write :
      (out : List ℕ) (capacity prefix : ℕ)
      → prefix ≤ isize_max
      → prefix + length (encode v) < 2 ^ 64
      → (append io (write io false stack v) out capacity ≡ some (out ++ encode v))
        × (size_after io (write io true stack v) prefix ≡ some (length (encode v)))
        × (w : Writer io) × (write io true stack v (at io prefix (appending io [] 0)) ≡ some w)
        × (w.buf ≡ [])
  append-write out capacity prefix p k =
      let (w, f, b) = measured in
      (
        append-encode out capacity,
        size_after-Emits laws (encode v) _ (write-Emits laws true P v stack deep h) prefix,
        w,
        f,
        b,
      )
    where
      measured :
          (w : Writer io) × (write io true stack v (at io prefix (appending io [] 0)) ≡ some w)
          × (w.buf ≡ [])
      measured = measured-Emits laws (encode v) _ (write-Emits laws true P v stack deep h) prefix

  -- For a tree whose lengths are at most `max_size`, with room on the stack for its levels of arrays
  -- and objects, and a buffer of at most `isize::MAX` bytes: `to_writer_buffered` returns, and if it reports no error the sink has received the encoding of the tree behind
  -- what it had received before.
  pub to_writer_buffered-write :
      (out : io.State) (buffer granted : ℕ)
      → buffer ≤ isize_max
      → (error : Option io.Error) × (out' : io.State) × (to_writer_buffered io
            (write io false stack v)
            out
            buffer
            granted
          ≡ some (error, some out'))
        × (error ≡ none → laws.received out' ≡ laws.received out ++ encode v)
  to_writer_buffered-write out buffer granted b =
      to_writer_buffered-Emits laws (encode v) _ (write-Emits laws false P v stack deep h) out
        buffer granted b

-- A reader at the end of `out`, in what was appended to it.
abbrev pub reader_at : List ℕ → ℕ → Reader
reader_at bytes pos = record (new bytes) { pos = pos }

appended-Ahead :
    (out bs : List ℕ) → length (out ++ bs) < 2 ^ 64 → Ahead bs (reader_at (out ++ bs) (length out))
appended-Ahead out bs h = record {
  front = out;
  back = [];
  split = ap (λ (t : List ℕ). out ++ t) (sym (append-nil bs));
  here = refl;
  unimplied = refl;
  fits = h;
}

module _ {io : Io} (laws : IoLaws io) (is_utf8 : List ℕ → Bool) (v : Value) (out : List ℕ) where
  -- For a tree whose lengths are at most `max_size` and which nests at most 256 levels, with room on
  -- the stack for them: what `append` adds to a buffer is stepped over by `skip_value` from where it begins exactly to the
  -- end of the document, when the document is shorter than 2^64.
  pub skip_value-append :
      (capacity stack : ℕ)
      → nesting v ≤ stack
      → Writable Anything v
      → length (out ++ encode v) < 2 ^ 64
      → nesting v ≤ 256
      → (doc : List ℕ) × (append io (write io false stack v) out capacity ≡ some doc)
        × (skip_value is_utf8 (reader_at doc (length out)) ≡ (ok tt, reader_at doc (length doc)))
  skip_value-append capacity stack d h k n = (
    out ++ encode v,
    append-encode laws Anything v h stack d out capacity,
    skip_value-encode is_utf8 v _ h (appended-Ahead out (encode v) k) (omega (arith, n))
        ∙ ap (λ (t : ℕ). (ok tt, reader_at (out ++ encode v) t))
            (sym (length-append out (encode v))),
  )

  -- For a tree whose strings pass the check of UTF-8, whose lengths are at most `max_size` and
  -- which nests at most 256 levels, with room on the stack for them: what `append` adds to a buffer is accepted by `validate_value`
  -- from where it begins exactly to the end of the document, when the document is shorter than
  -- 2^64.
  pub validate_value-append :
      (capacity stack : ℕ)
      → nesting v ≤ stack
      → Writable (λ s. is_utf8 s ≡ true) v
      → length (out ++ encode v) < 2 ^ 64
      → nesting v ≤ 256
      → (doc : List ℕ) × (append io (write io false stack v) out capacity ≡ some doc)
        × (validate_value is_utf8 (reader_at doc (length out))
            ≡ (ok tt, reader_at doc (length doc)))
  validate_value-append capacity stack d h k n = (
    out ++ encode v,
    append-encode laws (λ s. is_utf8 s ≡ true) v h stack d out capacity,
    validate_value-encode is_utf8 v _ h (appended-Ahead out (encode v) k) (omega (arith, n))
        ∙ ap (λ (t : ℕ). (ok tt, reader_at (out ++ encode v) t))
            (sym (length-append out (encode v))),
  )
