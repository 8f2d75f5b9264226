-- ===== src/Beve/Split.antt =====
-- src/beve/stream/split.rs: the resumable walk that finds where one value of a stream ends.
-- The stack is a list with its top in front.
pub mod Preamble
pub mod Frames
pub mod Progress
pub mod Resume
pub mod Rounds
pub mod Advance
pub mod End
pub mod Offsets
pub mod Rebase
use structio.Prelude.{
  ℕ, zero, suc, ◌+◌, ◌-◌, ◌^◌, Bool, true, false, ◌&&◌, ◌||◌, Option, none, some, List, [], ◌∷◌,
  ltb, leb, ◌==◌, if◌then◌else◌, length, min, drop, div_ceil8,
}
use structio.Error.{
  ErrorCode, PResult, ok, err, stuck, unexpected_end, exceeded_max_depth, invalid_header,
  unsupported_feature,
}
use structio.Beve.Walk.{Reader, Walk, new, pure, raise, lift, ◌>>=◌, ◌>>◌}
use structio.Beve.Header.{
  ty, sub, ext_id, decode_size, ty_null_bool, ty_number, ty_string, ty_object, ty_generic_array,
  ty_typed_array, ty_extension, cat_float, null, false_header, true_header, ext_delimiter,
  ext_type_tag, ext_matrix, ext_complex,
}
use structio.Beve.Reader
use structio.Beve.Reader.{
  Typed, bools, strings, fixed, max_depth, size, count, key_width, bare_header, fixed_width,
  typed_head, payload_len, complex_head, complex_payload,
}

-- `Frame`: a container that the walk is partway through. `width` is 0 for string keys.
pub data Frame : Type 0 where
  object : (cat width left : ℕ) (key : Bool) → Frame
  values : (left : ℕ) → Frame
  texts : (left : ℕ) → Frame

unfoldable pub done : Frame → Bool
done (object cat width left key) = left == 0
done (values left) = left == 0
done (texts left) = left == 0

pub data Duty : Type 0 where
  value : Duty
  key : (cat width : ℕ) → Duty
  text : Duty

pub record Scanner : Type 0 where
  pub pos : ℕ
  pub pending : ℕ
  pub stack : List Frame
  pub outer : ℕ
  pub started : Bool

-- `Scanner::new`
unfoldable pub new_scanner : ℕ → Scanner
new_scanner outer = record { pos = 0; pending = 0; stack = []; outer = outer; started = false }

unfoldable pub restart : ℕ → Scanner → Scanner
restart at s = record s { pos = at; pending = 0; stack = []; started = false }

unfoldable pub rebase : ℕ → Scanner → Scanner
rebase shift s = record s { pos = s.pos - shift }

unfoldable pub duty_of : List Frame → Duty
duty_of [] = value
duty_of (object cat width left true ∷ fs) = key cat width
duty_of (object cat width left false ∷ fs) = value
duty_of (values left ∷ fs) = value
duty_of (texts left ∷ fs) = text

unfoldable pub duty : Scanner → Duty
unfolding duty_of
duty s = duty_of s.stack

-- The frame on top once its current duty is taken.
unfoldable pub take_frame : Frame → Frame
take_frame (object cat width left true) = object cat width left false
take_frame (object cat width left false) = object cat width (left - 1) true
take_frame (values left) = values (left - 1)
take_frame (texts left) = texts (left - 1)

take_stack : Bool → List Frame → Bool × List Frame
unfolding take_frame
take_stack started [] = (true, [])
take_stack started (f ∷ fs) = (started, take_frame f ∷ fs)

unfoldable pub taken : Scanner → Scanner
unfolding take_stack
taken s =
    let (started, stack) = take_stack s.started s.stack in
    record s { started = started; stack = stack }

unfoldable pub size_at : List ℕ → ℕ → Option (ℕ × ℕ)
size_at buf p = elim (decode_size buf p) [ ok (n, end) ↦ some (n, end) | _ ↦ none ]

-- `enter`
unfoldable pub charge : ℕ → PResult (Unit {0})
charge depth = if leb max_depth depth then err exceeded_max_depth else ok tt

unfoldable pub form_extent : Typed → PResult (ℕ × Option Frame)
form_extent (bools n) = ok (div_ceil8 n, none)
form_extent (strings n) = ok (0, some (texts n))
form_extent (fixed elem n) = elim (payload_len elem n) [
  | ok total ↦ ok (total, none)
  | err e ↦ err e
  | stuck ↦ stuck
]

unfoldable pub extension_preamble : ℕ → ℕ → Walk (ℕ × Option Frame)
extension_preamble h depth =
    if ext_id h == ext_delimiter
    then raise invalid_header
    else if ext_id h == ext_type_tag
    then (do size; lift (charge depth); pure (0, some (values 1)))
    else if ext_id h == ext_matrix
    then (do lift (charge depth); pure (1, some (values 2)))
    else if ext_id h == ext_complex
    then (do
      (class, width, pairs) ← complex_head
      total ← lift (complex_payload width pairs)
      pure (total, none))
    else raise unsupported_feature

-- The body of `head`: the payload to step over and the container that the preamble opens.
unfoldable pub preamble : ℕ → ℕ → Walk (ℕ × Option Frame)
preamble depth h =
    if ty h == ty_null_bool
    then (if h == null || h == false_header || h == true_header
        then pure (0, none)
        else raise invalid_header)
    else if ty h == ty_number
    then (do w ← lift (fixed_width h); pure (w, none))
    else if ty h == ty_string
    then (do lift (bare_header h); n ← count; pure (n, none))
    else if ty h == ty_object
    then (do
      width ← lift (key_width h)
      left ← count
      lift (charge depth)
      pure (0, some (object (sub h) width left true)))
    else if ty h == ty_generic_array
    then (do lift (bare_header h); left ← count; lift (charge depth); pure (0, some (values left)))
    else if ty h == ty_typed_array
    then (do lift (charge depth); form ← typed_head h; lift (form_extent form))
    else if ty h == ty_extension
    then extension_preamble h depth
    else raise invalid_header

unfoldable pub preamble_walk : ℕ → Walk (ℕ × Option Frame)
preamble_walk depth = do h ← Reader.head; preamble depth h

-- `head`: a throwaway reader over `buf[at..]`; its position says how far to advance.
unfoldable pub located : PResult (ℕ × Option Frame) × Reader → PResult (ℕ × ℕ × Option Frame)
located (ok (skip, frame), r) = ok (r.pos, skip, frame)
located (err e, r) = err e
located (stuck, r) = stuck

unfoldable pub head : List ℕ → ℕ → ℕ → PResult (ℕ × ℕ × Option Frame)
head buf at depth = located (preamble_walk depth (new (drop at buf)))

-- One round of the loop of `advance`: it goes on, or it answers.
pub data Tick : Type 0 where
  again : Scanner → Tick
  answer : PResult (Option ℕ) → Scanner → Tick

unfoldable pub drain : List ℕ → Scanner → Scanner
drain buf s =
    let step = min s.pending (length buf - s.pos) in
    if ltb 0 s.pending then record s { pos = s.pos + step; pending = s.pending - step } else s

unfoldable pub pop_done : List Frame → List Frame
unfolding done
pop_done [] = []
pop_done (f ∷ fs) = let rest = pop_done fs in if done f then rest else f ∷ fs

push : Option Frame → List Frame → List Frame
push none fs = fs
push (some f) fs = f ∷ fs

-- A string key and a string element are the same two fields.
unfoldable pub read_text : Option (ℕ × ℕ) → Scanner → Tick
read_text none s = answer (ok none) s
read_text (some (n, p)) s =
    if ltb n (2 ^ 64)
    then again (taken (record s { pos = p; pending = n }))
    else answer (err unexpected_end) (record s { pos = p })

unfoldable pub serve_text : List ℕ → Scanner → Tick
serve_text buf s = read_text (size_at buf s.pos) s

unfoldable pub serve_key : List ℕ → ℕ → Scanner → Tick
serve_key buf width s =
    if ltb (length buf - s.pos) width
    then answer (ok none) s
    else again (taken (record s { pos = s.pos + width }))

unfoldable pub start_value : ℕ → ℕ → Option Frame → Scanner → Scanner
unfolding push
start_value used skip frame s =
    let t = taken (record s { pos = s.pos + used; pending = skip }) in
    record t { stack = push frame t.stack }

-- A short read in a preamble is a wait for more bytes; any other refusal is the answer.
unfoldable pub serve_preamble : PResult (ℕ × ℕ × Option Frame) → Scanner → Tick
serve_preamble (ok (used, skip, frame)) s = again (start_value used skip frame s)
serve_preamble (err unexpected_end) s = answer (ok none) s
serve_preamble (err e) s = answer (err e) s
serve_preamble stuck s = answer stuck s

-- `Scanner::depth` of the value that is due.
unfoldable pub serve_value : List ℕ → Scanner → Tick
serve_value buf s = serve_preamble (head buf s.pos (s.outer + length s.stack)) s

unfoldable pub serve : List ℕ → Duty → Scanner → Tick
serve buf (key cat width) s = if cat == cat_float then serve_text buf s else serve_key buf width s
serve buf text s = serve_text buf s
serve buf value s = serve_value buf s

abbrev pub is_empty : List Frame → Bool
is_empty [] = true
is_empty (f ∷ fs) = false

unfoldable pub after_drain : List ℕ → Scanner → Tick
after_drain buf s =
    let t = record s { stack = pop_done s.stack } in
    if t.started && is_empty t.stack then answer (ok (some t.pos)) t else serve buf (duty t) t

unfoldable pub tick : List ℕ → Scanner → Tick
tick buf s =
    let t = drain buf s in if ltb 0 t.pending then answer (ok none) t else after_drain buf t

unfoldable pub run : ℕ → List ℕ → Scanner → PResult (Option ℕ) × Scanner
run zero buf s = (stuck, s)
run (suc fuel) buf s = elim (tick buf s) [ again t ↦ run fuel buf t | answer x t ↦ (x, t) ]

-- A round that goes on takes a byte at least, so the bytes left bound the rounds.
unfoldable pub advance : List ℕ → Scanner → PResult (Option ℕ) × Scanner
advance buf s = run (suc (length buf - s.pos)) buf s
