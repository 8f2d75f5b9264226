-- ===== src/Beve/Writer.antt =====
-- src/beve/writer.rs: the output buffer and the primitives that append to it. `members`, which only
-- debug builds keep, is left out. A length is at most `isize::MAX`, so no sum of two overflows.
pub mod Buffer
pub mod Room
pub mod Emits
pub mod Arrays
pub mod Typed
use structio.Prelude.{
  ℕ, zero, suc, ◌+◌, ◌-◌, ◌*◌, ◌%◌, ◌^◌, min, max, Bool, true, false, not, ◌&&◌, Option, none, some,
  List, [], ◌∷◌, ◌++◌, ltb, ◌==◌, if◌then◌else◌, length,
}
use structio.Beve.Header.{
  ty, sub, count, byte_width, size_prefix, complex_class, complex_components, ty_typed_array, null,
  true_header, false_header, string, generic_array, object, matrix, complex, aligned_array,
  complex_many, complex_aligned,
}

-- The sink and the allocator: `write_all` answers the error if there is one, and `reserve` answers
-- the capacity after `Vec::reserve`, of the capacity and the length before and the bytes asked for.
pub record Io : Type 1 where
  pub State : Type 0
  pub Error : Type 0
  pub write_all : State → List ℕ → Option Error × State
  pub reserve : ℕ → ℕ → ℕ → ℕ

-- `Sink`
pub record Sink (io : Io) : Type 0 where
  pub out : io.State
  pub error : Option io.Error

-- `Writer`, with the capacity of its `buf`
pub record Writer (io : Io) : Type 0 where
  pub buf : List ℕ
  pub capacity : ℕ
  pub limit : ℕ
  pub threshold : ℕ
  pub origin : ℕ
  pub skip : ℕ
  pub aligned : Bool
  pub sink : Option (Sink io)

-- `isize::MAX`
abbrev pub isize_max : ℕ
isize_max = 2 ^ 63 - 1

-- `usize::MAX`
abbrev pub usize_max : ℕ
usize_max = 2 ^ 64 - 1

-- A method with `&mut self`. `none` is a panic, or a store past the allocation.
abbrev pub Put : Io → Type 0
Put io = Writer io → Option (Writer io)

infixl 5 ◌then◌
unfoldable pub ◌then◌ : {io : Io} → Put io → Put io → Put io
(m then k) w = elim (m w) [ none ↦ none | some w' ↦ k w' ]

-- The empty body of a method or of a loop that has ended.
unfoldable pub keep : {io : Io} → Put io
keep w = some w

-- Zeros, in a number.
unfoldable pub zeros : ℕ → List ℕ
zeros zero = []
zeros (suc n) = 0 ∷ zeros n

unfoldable pub padded_width : ℕ → Option ℕ
padded_width h =
    if not (ty h == ty_typed_array) then none else elim (byte_width (sub h) (count h)) [
      | none ↦ none
      | some width ↦ if ltb 1 width then some width else none
    ]

module _ (io : Io) where
  abbrev pub appending : List ℕ → ℕ → Writer io
  appending buf capacity = record {
    buf = buf;
    capacity = capacity;
    limit = capacity;
    threshold = usize_max;
    origin = 0;
    skip = 0;
    aligned = false;
    sink = none;
  }

  -- `granted` is the capacity that `Vec::with_capacity` gave.
  abbrev pub sink_writer : io.State → ℕ → ℕ → Writer io
  sink_writer out capacity granted = record {
    buf = [];
    capacity = granted;
    limit = min granted (max capacity 1);
    threshold = max capacity 1;
    origin = 0;
    skip = 0;
    aligned = false;
    sink = some (record { out = out; error = none });
  }

  -- `Vec::with_capacity` panics past `isize::MAX`.
  unfoldable pub to_sink_with_capacity : io.State → ℕ → ℕ → Option (Writer io)
  to_sink_with_capacity out capacity granted =
      if ltb isize_max (max capacity 1) then none else some (sink_writer out capacity granted)

  unfoldable pub set_aligned : Writer io → Writer io
  set_aligned w = record w { aligned = true }

  unfoldable pub at : ℕ → Writer io → Writer io
  at offset w =
      if ltb offset (length w.buf)
      then record w { origin = 0; skip = length w.buf - offset }
      else record w { origin = offset - length w.buf; skip = 0 }

  unfoldable pub offset : Writer io → ℕ
  offset w = w.origin + length w.buf - w.skip

  -- `write_all` unless an error stands; the error of a failure stays.
  unfoldable pub send : Sink io → List ℕ → Sink io
  send s bytes = elim s.error [
    | some e ↦ s
    | none ↦
        let (failure, out') = io.write_all s.out bytes in record s { out = out'; error = failure }
  ]

  unfoldable pub drain : Writer io → Writer io
  drain w = elim w.buf [
    | [] ↦ w
    | b ∷ bs ↦ elim w.sink [
      | none ↦ w
      | some s ↦ record w { buf = []; origin = w.origin + length w.buf; sink = some (send s w.buf) }
    ]
  ]

  -- `self.buf.reserve(n)` where the buffer has no room for `n` more
  unfoldable pub reserved : ℕ → Writer io → Writer io
  reserved n w =
      if ltb w.capacity (length w.buf + n)
      then record w { capacity = io.reserve w.capacity (length w.buf) n }
      else w

  relimit : Writer io → Writer io
  relimit w = record w { limit = min w.capacity w.threshold }

  unfoldable pub spill : ℕ → Writer io → Writer io
  unfolding relimit
  spill n w = relimit (reserved n (drain w))

  unfoldable pub room : ℕ → Writer io → Writer io
  room n w = if ltb w.limit (length w.buf + n) then spill n w else w

  -- The state after, and whether the bytes were taken.
  unfoldable pub hand_over : List ℕ → Writer io → Bool × Writer io
  hand_over bytes w =
      if ltb (length bytes) w.threshold
      then (false, w)
      else let w' = drain w in
        elim w'.sink [
          | none ↦ (false, w')
          | some s ↦
              (true, record w' { origin = w'.origin + length bytes; sink = some (send s bytes) })
        ]

  -- The stores through `as_mut_ptr` and `set_len`: `touched` bytes are written past the end, and
  -- `bytes` of them are announced. Past the allocation they are `none`.
  unfoldable pub store : ℕ → List ℕ → Put io
  store touched bytes w =
      if ltb w.capacity (length w.buf + touched)
      then none
      else some (record w { buf = w.buf ++ bytes })

  raw_full : List ℕ → Put io
  raw_full bytes w =
      let (taken, w') = hand_over bytes w in
      if taken then some w' else store (length bytes) bytes (spill (length bytes) w')

  -- What `raw` does with bytes that are not only counted.
  pub raw_stored : List ℕ → Put io
  unfolding raw_full
  raw_stored bytes w =
      if ltb w.limit (length w.buf + length bytes)
      then raw_full bytes w
      else store (length bytes) bytes w

  -- The complex prefix that the aligned form replaces, by the width of its components.
  complex_padded : ℕ → ℕ → Option ℕ
  complex_padded marker class =
      if marker == complex && ty class == complex_many
      then padded_width (complex_components class)
      else none

  module _ (measure : Bool) where
    -- `if self.measuring(n) { return; }` and what follows it; `measure` is `O::MEASURE`.
    unfoldable pub unless_measuring : ℕ → Put io → Put io
    unless_measuring n body w =
        if measure then some (record w { origin = w.origin + n }) else body w

    unfoldable pub push : ℕ → Put io
    push b = unless_measuring 1 (λ w. store 1 (b ∷ []) (room 1 w))

    unfoldable pub raw : List ℕ → Put io
    unfolding raw_stored
    raw bytes = unless_measuring (length bytes) (raw_stored bytes)

    unfoldable pub write_number : ℕ → List ℕ → Put io
    write_number tag payload =
        unless_measuring (length payload + 1)
          (λ w. store (length payload + 1) (tag ∷ payload) (room (length payload + 1) w))

    -- `re` and `im` have the same length.
    unfoldable pub write_complex : ℕ → List ℕ → List ℕ → Put io
    write_complex class re im =
        unless_measuring (2 * length re + 2) (λ w.
          store (2 * length re + 2) (complex ∷ class ∷ (re ++ im)) (room (2 * length re + 2) w))

    unfoldable pub begin_matrix : ℕ → Put io
    begin_matrix layout = push matrix then push layout

    -- `encode_size` panics on a size out of range.
    unfoldable pub size : ℕ → Put io
    size n w = elim (size_prefix n) [
      | none ↦ none
      | some used ↦ unless_measuring (length used) (λ v. store 8 used (room 8 v)) w
    ]

    unfoldable pub write_null : Put io
    write_null = push null

    unfoldable pub write_bool : Bool → Put io
    write_bool v = push (if v then true_header else false_header)

    unfoldable pub write_str_body : List ℕ → Put io
    write_str_body s = size (length s) then raw s

    unfoldable pub write_str : List ℕ → Put io
    write_str s = push string then write_str_body s

    unfoldable pub begin_generic_array : ℕ → Put io
    begin_generic_array len = push generic_array then size len

    -- The length byte and the padding.
    pad_to : ℕ → Put io
    pad_to width w =
        let pad = width - 1 - offset w % width in
        unless_measuring (1 + pad) (λ v. store 16 (pad % 256 ∷ zeros pad) (room 16 v)) w

    unfoldable pub begin_aligned_array : ℕ → ℕ → ℕ → Put io
    unfolding pad_to
    begin_aligned_array h len width = push aligned_array then push h then size len then pad_to width

    unfoldable pub begin_typed_array : ℕ → ℕ → Put io
    begin_typed_array h len w =
        let plain = (push h then size len) w in
        if w.aligned
        then elim (padded_width h) [ none ↦ plain | some width ↦ begin_aligned_array h len width w ]
        else plain

    unfoldable pub begin_aligned_complex_array : ℕ → ℕ → ℕ → Put io
    begin_aligned_complex_array class len width =
        push complex
        then push (complex_class (sub class) (count class) complex_aligned)
        then begin_aligned_array (complex_components class) (2 * len) width

    unfoldable pub begin_array : List ℕ → ℕ → Put io
    unfolding complex_padded
    begin_array (h ∷ []) len w = begin_typed_array h len w
    begin_array (marker ∷ class ∷ []) len w =
        let plain = (raw (marker ∷ class ∷ []) then size len) w in
        if w.aligned
        then elim (complex_padded marker class) [
          | none ↦ plain
          | some width ↦ begin_aligned_complex_array class len width w
        ]
        else plain
    begin_array prefix len w = (raw prefix then size len) w
