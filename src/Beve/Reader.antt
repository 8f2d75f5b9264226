-- ===== src/Beve/Reader.antt =====
-- src/beve/reader.rs: the primitives that every walk of a document shares. A method that moves
-- the cursor is a `Walk`; a test of a header alone is a plain function.
pub mod Moves
pub mod Ends
pub mod Local
pub mod Extent
pub mod Reads
use structio.Prelude.{
  ℕ, zero, suc, ◌+◌, ◌-◌, ◌*◌, ◌/◌, ◌%◌, Bool, not, ◌&&◌, ◌||◌, Option, none, some, List, ltb, leb,
  ◌==◌, if◌then◌else◌, length, get_elem?, get_or, take as take_list, drop, shr, low_bits, to_usize,
  checked_add, checked_mul, div_ceil8,
}
use structio.Error.{
  PResult, ok, err, stuck, unexpected_end, trailing_content, exceeded_max_depth, invalid_header,
  invalid_padding, expected_bytes,
}
use structio.Beve.Walk.{Reader, Walk, pure, raise, lift, ◌>>=◌, ◌>>◌}
use structio.Beve.Header.{
  ty, sub, count as width_count, byte_width, decodable_width, decode_size, ty_typed_array,
  cat_float, cat_signed, cat_unsigned, cat_other, other_bool, other_string, other_aligned,
  aligned_array, complex_components, complex_one, complex_many, complex_aligned,
}

abbrev pub max_depth : ℕ
max_depth = 256

-- `Typed`: the shape of a typed array's payload.
pub data Typed : Type 0 where
  bools : ℕ → Typed
  strings : ℕ → Typed
  fixed : ℕ → ℕ → Typed

-- `Reader::with_implied`
unfoldable pub with_implied : List ℕ → ℕ → Reader
with_implied bytes implied = record {
  bytes = bytes;
  pos = 0;
  depth = 0;
  implied = some implied;
  installed = some (0, implied);
}

unfoldable pub remaining : Reader → ℕ
remaining r = length r.bytes - r.pos

-- `filter` and `map` of `rewind`: what is installed stays only for the value at `to`.
keep_installed : Option (ℕ × ℕ) → ℕ → Option (ℕ × ℕ)
keep_installed none to = none
keep_installed (some (at, h)) to = if at == to then some (at, h) else none

header_of : Option (ℕ × ℕ) → Option ℕ
header_of none = none
header_of (some (at, h)) = some h

unfoldable pub rewind : ℕ → Reader → Reader
unfolding keep_installed header_of
rewind to r = if ltb r.pos to then r else record r {
  pos = to;
  implied = header_of (keep_installed r.installed to);
  installed = keep_installed r.installed to;
}

unfoldable pub finish : Walk (Unit {0})
finish r = if r.pos == length r.bytes then (ok tt, r) else (err trailing_content, r)

unfoldable pub peek : Reader → Option ℕ
peek r = elim r.implied [ some h ↦ some h | none ↦ get_elem? r.bytes r.pos ]

unfoldable pub head : Walk ℕ
head r = elim r.implied [
  | some h ↦ (ok h, record r { implied = none })
  | none ↦ elim (get_elem? r.bytes r.pos) [
    | none ↦ (err unexpected_end, r)
    | some b ↦ (ok b, record r { pos = r.pos + 1 })
  ]
]

unfoldable pub take : ℕ → Walk (List ℕ)
take n r = elim (checked_add r.pos n) [
  | none ↦ (err unexpected_end, r)
  | some end ↦
      if ltb (length r.bytes) end
      then (err unexpected_end, r)
      else (ok (take_list n (drop r.pos r.bytes)), record r { pos = end })
]

unfoldable pub drop_bytes : ℕ → Walk (Unit {0})
drop_bytes n = do take n; pure tt

unfoldable pub size : Walk ℕ
size r = elim (decode_size r.bytes r.pos) [
  | ok (v, end) ↦ (ok v, record r { pos = end })
  | err e ↦ (err e, r)
  | stuck ↦ (stuck, r)
]

-- `usize::try_from(..).map_err(|_| ErrorCode::UnexpectedEnd)`
unfoldable pub as_count : ℕ → PResult ℕ
as_count n = elim (to_usize n) [ none ↦ err unexpected_end | some c ↦ ok c ]

unfoldable pub count : Walk ℕ
count = do n ← size; lift (as_count n)

unfoldable pub enter : Walk (Unit {0})
enter r =
    if leb max_depth r.depth
    then (err exceeded_max_depth, r)
    else (ok tt, record r { depth = r.depth + 1 })

unfoldable pub leave : Reader → Reader
leave r = record r { depth = r.depth - 1 }

-- Run `body`, and leave the level however it exits.
unfoldable pub leaving {ℓ} : {A : Type ℓ} → Walk A → Walk A
leaving body r = let (x, r') = body r in (x, leave r')

unfoldable pub nested {ℓ} : {A : Type ℓ} → Walk A → Walk A
nested body = do enter; leaving body

unfoldable pub can_enter : Reader → Bool
can_enter r = ltb r.depth max_depth

unfoldable pub install : ℕ → Reader → Reader
install h r = record r { implied = some h; installed = some (r.pos, h) }

unfoldable pub implying {ℓ} : {A : Type ℓ} → ℕ → Walk A → Walk A
implying h body r =
    let outer = r.installed in
    let (x, r') = body (install h r) in (x, record r' { implied = none; installed = outer })

-- Tests of a header.
unfoldable pub key_width : ℕ → PResult ℕ
key_width h =
    let cat = sub h in
    if cat == cat_float && width_count h == 0
    then ok 0
    else if cat == cat_signed || cat == cat_unsigned
    then (elim (byte_width cat (width_count h)) [ none ↦ err invalid_header | some w ↦ ok w ])
    else err invalid_header

unfoldable pub bare_header : ℕ → PResult (Unit {0})
bare_header h = if sub h == 0 && width_count h == 0 then ok tt else err invalid_header

unfoldable pub fixed_width : ℕ → PResult ℕ
fixed_width h = elim (byte_width (sub h) (width_count h)) [
  | none ↦ err invalid_header
  | some w ↦ ok w
]

unfoldable pub decodable_elements : ℕ → PResult (Unit {0})
decodable_elements h = elim (decodable_width (sub h) (width_count h)) [
  | ok w ↦ ok tt
  | err e ↦ err e
  | stuck ↦ stuck
]

unfoldable pub bool_padding : ℕ → ℕ → PResult (Unit {0})
bool_padding n last =
    let used = low_bits n 3 in
    if not (used == 0) && not (shr last used == 0) then err invalid_padding else ok tt

unfoldable pub aligned_padding : ℕ → ℕ → PResult (Unit {0})
aligned_padding pad width = if leb width pad then err invalid_padding else ok tt

-- `checked_mul(..).ok_or(ErrorCode::UnexpectedEnd)`
unfoldable pub checked_extent : ℕ → ℕ → PResult ℕ
checked_extent n w = elim (checked_mul n w) [ none ↦ err unexpected_end | some total ↦ ok total ]

unfoldable pub payload_len : ℕ → ℕ → PResult ℕ
payload_len h n = elim (fixed_width h) [ ok w ↦ checked_extent n w | err e ↦ err e | stuck ↦ stuck ]

unfoldable pub complex_payload : ℕ → Option ℕ → PResult ℕ
complex_payload width none = checked_extent 1 (2 * width)
complex_payload width (some pairs) = checked_extent pairs (2 * width)

unfoldable pub byte_elements : ℕ → PResult (Unit {0})
byte_elements h = elim (fixed_width h) [
  | ok w ↦
      if (sub h == cat_signed || sub h == cat_unsigned) && width_count h == 0
      then ok tt
      else err expected_bytes
  | err e ↦ err e
  | stuck ↦ stuck
]

-- Preambles. The byte of `self.take(1)?[0]`.
unfoldable pub first_of_bytes : List ℕ → ℕ
first_of_bytes bs = get_or bs 0 0

unfoldable pub skip_padding : ℕ → Walk (Unit {0})
unfolding first_of_bytes
skip_padding width = do
  bs ← take 1
  let pad = first_of_bytes bs
  lift (aligned_padding pad width)
  drop_bytes pad

unfoldable pub aligned_head : Walk (ℕ × ℕ)
aligned_head = do
  inner ← head
  if not (ty inner == ty_typed_array) || sub inner == cat_other
      then raise invalid_header
      else do width ← lift (fixed_width inner); n ← count; skip_padding width; pure (inner, n)

-- The guard `if self.head()? != h { return Err(InvalidHeader) }`.
unfoldable pub expect : ℕ → Walk (Unit {0})
expect h = do b ← head; if b == h then pure tt else raise invalid_header

unfoldable pub aligned_pairs : ℕ → ℕ → Walk ℕ
aligned_pairs class width = do
  expect aligned_array
  expect (complex_components class)
  components ← count
  if not (components % 2 == 0)
      then raise invalid_header
      else do skip_padding width; pure (components / 2)

unfoldable pub have : ℕ → Walk (Unit {0})
have n r = elim (checked_add r.pos n) [
  | none ↦ (err unexpected_end, r)
  | some end ↦ if ltb (length r.bytes) end then (err unexpected_end, r) else (ok tt, r)
]

unfoldable pub typed_preamble : ℕ → Walk Typed
typed_preamble h =
    if sub h == cat_other
    then (if width_count h == other_bool
        then (do n ← count; pure (bools n))
        else if width_count h == other_string
        then (do n ← count; pure (strings n))
        else if width_count h == other_aligned
        then (do (inner, n) ← aligned_head; pure (fixed inner n))
        else raise invalid_header)
    else (do lift (fixed_width h); n ← count; pure (fixed h n))

-- `if let Err(e) = .. { self.pos += k; return Err(e); }`
pub refuse_past : PResult (Unit {0}) → ℕ → Walk (Unit {0})
refuse_past (ok _) k r = (ok tt, r)
refuse_past (err e) k r = (err e, record r { pos = r.pos + k })
refuse_past stuck k r = (stuck, r)

-- The padding test of `typed_head`, at the last byte of `extent`; a refusal stops past that byte.
pub last_padding : ℕ → ℕ → Walk (Unit {0})
unfolding refuse_past
last_padding n zero r = (ok tt, r)
last_padding n (suc last) r =
    refuse_past (bool_padding n (get_or r.bytes (r.pos + last) 0)) (suc last) r

unfoldable pub bools_present : Typed → Walk (Unit {0})
unfolding last_padding
bools_present (bools n) = do have (div_ceil8 n); last_padding n (div_ceil8 n)
bools_present (strings n) = pure tt
bools_present (fixed h n) = pure tt

unfoldable pub typed_head : ℕ → Walk Typed
typed_head h = do form ← typed_preamble h; bools_present form; pure form

-- The pairs of a complex value by its form, the low three bits of its class header.
unfoldable pub complex_pairs : ℕ → ℕ → Walk (Option ℕ)
complex_pairs class width =
    if low_bits class 3 == complex_one
    then pure none
    else if low_bits class 3 == complex_many
    then (do n ← count; pure (some n))
    else if low_bits class 3 == complex_aligned
    then (do n ← aligned_pairs class width; pure (some n))
    else raise invalid_header

unfoldable pub complex_head : Walk (ℕ × ℕ × Option ℕ)
complex_head = do
  class ← head
  width ← lift (fixed_width class)
  pairs ← complex_pairs class width
  pure (class, width, pairs)
