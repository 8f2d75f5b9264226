-- ===== src/Beve/Splitter.antt =====
-- src/beve/stream/split.rs: dividing a buffer that grows into items, whole documents or the elements of
-- one top-level array. `continue` in the loop of `next` is a call of the handler of the state it
-- goes to: no state can be met twice in one call.
pub mod Resolves
pub mod Opening
pub mod Placed
pub mod Elements
pub mod Next
pub mod Framer
use structio.Prelude.{
  ℕ, zero, suc, ◌+◌, ◌-◌, ◌*◌, ◌%◌, Bool, true, false, ◌&&◌, Option, none, some, List, [], ◌∷◌, ltb,
  leb, ◌==◌, if◌then◌else◌, length, drop, get_elem?, max, shr, to_usize, checked_add,
}
use structio.Error.{
  PResult, ok, err, stuck, unexpected_end, trailing_content, invalid_header, expected_array,
}
use structio.Beve.Walk.{Reader, Walk, new, pure, raise, lift, ◌>>=◌, ◌>>◌}
pub use structio.Stream.{Split, item, need, end}
use structio.Beve.Header.{
  ty, ty_generic_array, ty_typed_array, ty_extension, complex, delimiter, string, true_header,
  false_header, element_of, element_width, complex_element,
}
use structio.Beve.Reader
use structio.Beve.Reader.{
  Typed, bools as bools_form, strings as strings_form, fixed as fixed_form, count, bare_header,
  typed_preamble, complex_head, bool_padding,
}
use structio.Beve.Split.{Scanner, new_scanner, restart, rebase as rebase_scanner, size_at, advance}

pub data Mode : Type 0 where
  values array : Mode

pub data Elem : Type 0 where
  generic : Elem
  fixed : (implied width : ℕ) → Elem
  strings : Elem
  bools : (bit : ℕ) → Elem

pub data State : Type 0 where
  between in_item before_array before_element done : State

pub record Splitter : Type 0 where
  pub mode : Mode
  pub scan : Scanner
  pub state : State
  pub cursor : ℕ
  pub left : ℕ
  pub elem : Elem
  pub implied : Option ℕ

-- `Splitter::new`
unfoldable pub new_splitter : Mode → Splitter
new_splitter values = record {
  mode = values;
  scan = new_scanner 0;
  state = between;
  cursor = 0;
  left = 0;
  elem = generic;
  implied = none;
}
new_splitter array = record {
  mode = array;
  scan = new_scanner 1;
  state = before_array;
  cursor = 0;
  left = 0;
  elem = generic;
  implied = none;
}

-- The elements' layout that a typed array's form gives.
unfoldable pub elem_of_form : Typed → PResult (ℕ × Elem)
elem_of_form (bools_form n) = ok (n, bools 0)
elem_of_form (strings_form n) = ok (n, strings)
elem_of_form (fixed_form h n) = elim (element_width (element_of h)) [
  | none ↦ err invalid_header
  | some w ↦ ok (n, fixed (element_of h) w)
]

-- `pairs.ok_or(ErrorCode::ExpectedArray)`
unfoldable pub elem_of_pairs : ℕ → ℕ → Option ℕ → PResult (ℕ × Elem)
elem_of_pairs class width none = err expected_array
elem_of_pairs class width (some n) = ok (n, fixed (complex_element class) (2 * width))

-- The closure of `open_array`, behind the header.
unfoldable pub array_layout : ℕ → Walk (ℕ × Elem)
array_layout h =
    if ty h == ty_generic_array
    then (do lift (bare_header h); n ← count; pure (n, generic))
    else if ty h == ty_typed_array
    then (do form ← typed_preamble h; lift (elem_of_form form))
    else if ty h == ty_extension && h == complex
    then (do (class, width, pairs) ← complex_head; lift (elem_of_pairs class width pairs))
    else raise expected_array

unfoldable pub array_head : Walk (ℕ × Elem)
array_head = do h ← Reader.head; array_layout h

-- Waiting, or the end of the input in its place.
unfoldable pub need_or : Bool → PResult Split → PResult Split
need_or true x = x
need_or false x = ok need

-- What `open_array` makes of the outcome: `none` is an array opened.
unfoldable pub opened :
    Bool → PResult (ℕ × Elem) × Reader → Splitter → PResult (Option Split) × Splitter
opened eof (ok (n, e), r) s =
    (ok none, record s { cursor = s.cursor + r.pos; left = n; elem = e; state = before_element })
opened true (err e, r) s = (err e, s)
opened false (err unexpected_end, r) s = (ok (some need), s)
opened false (err e, r) s = (err e, s)
opened eof (stuck, r) s = (stuck, s)

unfoldable pub open_array : List ℕ → Bool → Splitter → PResult (Option Split) × Splitter
open_array buf eof s =
    if leb (length buf) s.cursor
    then (ok (some (if eof then end else need)), s)
    else opened eof (array_head (new (drop s.cursor buf))) s

unfoldable pub close_array : Splitter → Splitter
close_array s = elim s.elem [
  | bools bit ↦
      if ltb 0 bit
      then record s { cursor = s.cursor + 1; elem = bools 0; state = done }
      else record s { state = done }
  | _ ↦ record s { state = done }
]

-- State::Done
unfoldable pub next_done : List ℕ → Bool → Splitter → PResult Split × Splitter
next_done buf eof s =
    if ltb s.cursor (length buf) then (err trailing_content, s) else (need_or eof (ok end), s)

-- An item ends at `stop`.
unfoldable pub end_item : ℕ → Splitter → Splitter
end_item stop s = elim s.mode [
  | values ↦ record s { cursor = stop; state = between }
  | array ↦ record s { cursor = stop; left = s.left - 1; state = before_element }
]

unfoldable pub in_item_answer :
    Bool → PResult (Option ℕ) × Scanner → Splitter → PResult Split × Splitter
in_item_answer eof (ok (some stop), t) s =
    (ok (item s.cursor stop), end_item stop (record s { scan = t }))
in_item_answer eof (ok none, t) s = (need_or eof (err unexpected_end), record s { scan = t })
in_item_answer eof (err e, t) s = (err e, record s { scan = t })
in_item_answer eof (stuck, t) s = (stuck, record s { scan = t })

-- State::InItem
unfoldable pub next_in_item : List ℕ → Bool → Splitter → PResult Split × Splitter
next_in_item buf eof s = in_item_answer eof (advance buf s.scan) s

unfoldable pub begin_item : Splitter → Splitter
begin_item s = record s { scan = restart s.cursor s.scan; state = in_item }

-- The delimiters in front of a document.
unfoldable pub delimiters : List ℕ → ℕ
delimiters [] = 0
delimiters (b ∷ bs) = let rest = delimiters bs in if b == delimiter then suc rest else 0

-- State::Between
unfoldable pub next_between : List ℕ → Bool → Splitter → PResult Split × Splitter
next_between buf eof s =
    let t = record s { cursor = s.cursor + delimiters (drop s.cursor buf) } in
    if leb (length buf) t.cursor
    then (need_or eof (ok end), t)
    else next_in_item buf eof (begin_item t)

-- What the four layouts find at the cursor: where the element ends, or that its bytes have not all
-- arrived. `generic` is not among them, its element being walked.
unfoldable pub take_fixed : List ℕ → ℕ → ℕ → Splitter → PResult (Option ℕ) × Splitter
take_fixed buf implied width s = if ltb (length buf - s.cursor) width then (ok none, s) else (
  ok (some (s.cursor + width)),
  record s { cursor = s.cursor + width; implied = some implied },
)

-- The end of the string whose size is `n`, once it is inside the buffer.
unfoldable pub string_end : List ℕ → Option (ℕ × ℕ) → Option ℕ
string_end buf none = none
string_end buf (some (n, p)) = elim (to_usize n) [
  | none ↦ none
  | some m ↦ elim (checked_add p m) [
    | none ↦ none
    | some stop ↦ if leb stop (length buf) then some stop else none
  ]
]

unfoldable pub take_string : Option ℕ → Splitter → PResult (Option ℕ) × Splitter
take_string none s = (ok none, s)
take_string (some stop) s = (ok (some stop), record s { cursor = stop; implied = some string })

-- A packed boolean leaves as its header, on an empty span.
unfoldable pub advance_bit : ℕ → ℕ → Splitter → Splitter
advance_bit bit byte s =
    let t = record s {
      implied = some (if shr byte bit % 2 == 1 then true_header else false_header);
    } in
    if bit + 1 == 8
    then record t { elem = bools 0; cursor = s.cursor + 1 }
    else record t { elem = bools (bit + 1) }

-- The padding is checked when the array's last element comes due.
unfoldable pub last_bit : ℕ → ℕ → ℕ → PResult (Unit {0})
last_bit left bit byte = if left == 1 then bool_padding (bit + 1) byte else ok tt

unfoldable pub take_bool : ℕ → Option ℕ → Splitter → PResult (Option ℕ) × Splitter
take_bool bit none s = (ok none, s)
take_bool bit (some byte) s = elim (last_bit s.left bit byte) [
  | ok _ ↦ (ok (some s.cursor), advance_bit bit byte s)
  | err e ↦ (err e, s)
  | stuck ↦ (stuck, s)
]

-- `match found`, with the element's start.
unfoldable pub produce : Bool → ℕ → PResult (Option ℕ) × Splitter → PResult Split × Splitter
produce eof start (ok (some stop), t) = (ok (item start stop), record t { left = t.left - 1 })
produce eof start (ok none, t) = (need_or eof (err unexpected_end), t)
produce eof start (err e, t) = (err e, t)
produce eof start (stuck, t) = (stuck, t)

unfoldable pub next_element : List ℕ → Bool → Elem → Splitter → PResult Split × Splitter
next_element buf eof generic s =
    if ltb s.cursor (length buf)
    then next_in_item buf eof (begin_item s)
    else produce eof s.cursor (ok none, s)
next_element buf eof (fixed implied width) s = produce eof s.cursor (take_fixed buf implied width s)
next_element buf eof strings s =
    produce eof s.cursor (take_string (string_end buf (size_at buf s.cursor)) s)
next_element buf eof (bools bit) s = produce eof s.cursor (take_bool bit (get_elem? buf s.cursor) s)

-- State::BeforeElement
unfoldable pub next_before_element : List ℕ → Bool → Splitter → PResult Split × Splitter
next_before_element buf eof s =
    if s.left == 0 then next_done buf eof (close_array s) else next_element buf eof s.elem s

-- State::BeforeArray
unfoldable pub after_open :
    List ℕ → Bool → PResult (Option Split) × Splitter → PResult Split × Splitter
after_open buf eof (ok none, t) = next_before_element buf eof t
after_open buf eof (ok (some split), t) = (ok split, t)
after_open buf eof (err e, t) = (err e, t)
after_open buf eof (stuck, t) = (stuck, t)

unfoldable pub next_in : State → List ℕ → Bool → Splitter → PResult Split × Splitter
next_in between buf eof s = next_between buf eof s
next_in in_item buf eof s = next_in_item buf eof s
next_in before_array buf eof s = after_open buf eof (open_array buf eof s)
next_in before_element buf eof s = next_before_element buf eof s
next_in done buf eof s = next_done buf eof s

-- `Framer::next`
unfoldable pub next : List ℕ → Bool → Splitter → PResult Split × Splitter
next buf eof s = next_in s.state buf eof (record s { implied = none })

unfoldable pub consumed : Splitter → ℕ
consumed s = s.cursor

unfoldable pub rebase : Splitter → Splitter
rebase s = record s { cursor = 0; scan = rebase_scanner s.cursor s.scan }

unfoldable pub position : Splitter → ℕ
position s = max s.cursor s.scan.pos
