-- ===== src/Tests/Writing.antt =====
-- Writing a tree: the object of "a" with the array of "hi", 7 and true, through a writer whose sink is
-- a list of bytes.
use structio.Prelude.{
  ℕ, ◌+◌, ◌%◌, ◌≤◌, ◌∙◌, ◌≡◌, refl, arith, Bool, true, false, Option, none, some, List, [], ◌∷◌,
  ◌++◌, length,
}
use structio.Error.{ok}
use structio.Beve.Header
use structio.Beve.Header.Size
use structio.Beve.Reader.{fixed, fixed_width}
use structio.Beve.Reader.Reads.{Reads}
use structio.Beve.Skip.{skip_value, validate_value}
use structio.Beve.Writer.{
  Io, Writer, appending, at, set_aligned, offset, begin_typed_array, padded_width, zeros,
}
use structio.Beve.Writer.Buffer.{IoLaws, Sound}
use structio.Beve.Writer.Emits.{Wrote}
use structio.Beve.Writer.Arrays.{
  typed_bytes, aligned_bytes, begin_typed_array-typed_bytes, begin_typed_array-on_width,
}
use structio.Beve.Writer.Typed.{read_typed, read_typed-typed_bytes}
use structio.Beve.Entry.{append, size_after, to_writer_buffered}
use structio.Value.{
  Value, unsigned, bool, number, string, array, object, no_items, item, no_fields, field, write,
}
use structio.Value.Written.{encode, nesting, Writable, write-Wrote}
use structio.Value.Extent.{Anything}
use structio.Value.Appended.{
  reader_at, append-encode, append-write, to_writer_buffered-write, skip_value-append,
  validate_value-append,
}

-- A sink that never fails, and an allocator that gives what is asked for.
abbrev memory : Io
memory = record {
  State = List ℕ;
  Error = Unit {0};
  write_all = λ s bytes. (none, s ++ bytes);
  reserve = λ capacity len n. len + n;
}

abbrev memory_laws : IoLaws memory
memory_laws = record {
  received = λ s. s;
  write_all_none = λ s bytes e. refl;
  reserve_room = λ capacity len n. omega arith;
}

abbrev tree : Value
tree = object (
    field (97 ∷ [])
      (array
        (item (string (104 ∷ 105 ∷ [])) (item (number (unsigned 7)) (item (bool true) no_items))))
      no_fields)

tree_levels : nesting tree ≤ 2
unfolding nesting
tree_levels = omega arith

abbrev any_text : List ℕ → Bool
any_text s = true

tree-Writable : Writable Anything tree
unfolding Writable
tree-Writable =
    (omega arith, (omega arith, tt, (omega arith, ((omega arith, tt), (tt, (tt, tt)))), tt))

tree-Writable_texts : Writable (λ s. any_text s ≡ true) tree
unfolding Writable
tree-Writable_texts =
    (omega arith, (omega arith, refl, (omega arith, ((omega arith, refl), (tt, (tt, tt)))), tt))

abbrev writer : Writer memory
writer = set_aligned memory (appending memory (9 ∷ []) 1)

writer-Sound : Sound writer
unfolding set_aligned
writer-Sound = record { within = omega arith; begun = omega arith }

run_append :
    append memory (write memory false 2 tree) [] 0
    ≡ some (
        3 ∷ 4 ∷ 4 ∷ 97 ∷ 5 ∷ 12 ∷ 2 ∷ 8 ∷ 104 ∷ 105 ∷ 113 ∷ 7 ∷ 0 ∷ 0 ∷ 0 ∷ 0 ∷ 0 ∷ 0 ∷ 0 ∷ 24 ∷ [])
run_append =
    append-encode memory_laws Anything tree tree-Writable 2 tree_levels [] 0
    ∙ (unfold encode Size.size_bytes Size.le_bytes Header.size_len Header.width_code Header.number
          Header.header Header.code_for in
        refl)

write-Wrote_example :
    (w' : Writer memory) × (write memory false 2 tree writer ≡ some w')
    × Wrote memory_laws false (encode tree) writer w'
    × (offset memory w' ≡ offset memory writer + length (encode tree))
write-Wrote_example =
    write-Wrote memory_laws false Anything tree 2 tree_levels tree-Writable writer writer-Sound
      (unfold encode set_aligned Size.size_bytes Header.size_len in omega arith)

append-write_example :
    (append memory (write memory false 2 tree) (9 ∷ []) 1 ≡ some ((9 ∷ []) ++ encode tree))
    × (size_after memory (write memory true 2 tree) 1 ≡ some (length (encode tree)))
    × (w : Writer memory) × (write memory true 2 tree (at memory 1 (appending memory [] 0))
        ≡ some w)
    × (w.buf ≡ [])
append-write_example =
    append-write memory_laws Anything tree tree-Writable 2 tree_levels (9 ∷ []) 1 1 (omega arith)
      (unfold encode Size.size_bytes Header.size_len in omega arith)

to_writer_buffered-write_example :
    (error : Option (Unit {0})) × (out' : List ℕ) × (to_writer_buffered memory
        (write memory false 2 tree)
        (9 ∷ [])
        4
        4
      ≡ some (error, some out'))
    × (error ≡ none → out' ≡ (9 ∷ []) ++ encode tree)
to_writer_buffered-write_example =
    to_writer_buffered-write memory_laws Anything tree tree-Writable 2 tree_levels (9 ∷ []) 4 4
      (omega arith)

skip_value-append_example :
    (doc : List ℕ) × (append memory (write memory false 2 tree) (9 ∷ []) 1 ≡ some doc)
    × (skip_value any_text (reader_at doc 1) ≡ (ok tt, reader_at doc (length doc)))
unfolding Size.size_bytes Header.size_len
skip_value-append_example =
    skip_value-append memory_laws any_text tree (9 ∷ []) 1 2 tree_levels tree-Writable
      (unfold encode in omega arith) (unfold nesting in omega arith)

validate_value-append_example :
    (doc : List ℕ) × (append memory (write memory false 2 tree) (9 ∷ []) 1 ≡ some doc)
    × (validate_value any_text (reader_at doc 1) ≡ (ok tt, reader_at doc (length doc)))
unfolding Size.size_bytes Header.size_len
validate_value-append_example =
    validate_value-append memory_laws any_text tree (9 ∷ []) 1 2 tree_levels tree-Writable_texts
      (unfold encode in omega arith) (unfold nesting in omega arith)

-- Three numbers of eight bytes, at the offset 1: the padding is 3.
abbrev f64s : ℕ
f64s = 100

run_typed : typed_bytes true 1 f64s 3 ≡ 92 ∷ 100 ∷ 12 ∷ 3 ∷ 0 ∷ 0 ∷ 0 ∷ []
unfolding typed_bytes aligned_bytes padded_width Header.ty Header.sub Header.count Header.byte_width
    Size.size_bytes Header.size_len Header.width_code Size.le_bytes zeros
run_typed = refl

begin_typed_array-on_width_example :
    (w' : Writer memory) × (begin_typed_array memory false f64s 3 writer ≡ some w')
    × (offset memory w' % 8 ≡ 0)
unfolding set_aligned padded_width Header.ty Header.byte_width Header.sub Header.count
begin_typed_array-on_width_example =
    begin_typed_array-on_width memory_laws false f64s 3 8 writer (omega arith) writer-Sound refl
      refl

begin_typed_array-typed_bytes_example :
    (w' : Writer memory) × (begin_typed_array memory false f64s 3 writer ≡ some w')
    × Wrote memory_laws false (typed_bytes true 1 f64s 3) writer w'
unfolding set_aligned offset
begin_typed_array-typed_bytes_example =
    begin_typed_array-typed_bytes memory_laws false f64s 3 writer (omega arith) writer-Sound

read_typed-typed_bytes_example : Reads 0 (typed_bytes true 1 f64s 3) read_typed (fixed f64s 3)
unfolding Header.ty Header.sub fixed_width Header.byte_width Header.count
read_typed-typed_bytes_example =
    read_typed-typed_bytes 0 f64s 3 8 refl refl refl (omega arith) true 1
