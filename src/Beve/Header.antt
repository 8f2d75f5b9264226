-- ===== src/Beve/Header.antt =====
-- src/beve/header.rs: header bytes, the widths they state, and compressed sizes.
-- A byte is a number below 256, and a field of a header is taken out by `shr` and `low_bits`.
pub mod Fields
pub mod Size
pub mod Decode
pub mod Extent
pub mod Context
pub mod Truncated
use structio.Prelude.{
  ℕ, zero, suc, ◌+◌, ◌-◌, ◌*◌, ◌/◌, ◌%◌, ◌^◌, bit_and, bit_or, Bool, true, false, ◌&&◌, ◌||◌,
  Option, none, some, List, [], ◌∷◌, ◌++◌, ltb, leb, ◌==◌, if◌then◌else◌, length, get_elem?, get_or,
  set, take, shr, low_bits, shl8, shl64, to_u8,
}
use structio.Error.{PResult, ok, err, unexpected_end, invalid_header, unsupported_feature}

-- Types, bits 0 to 2.
abbrev pub ty_null_bool : ℕ
ty_null_bool = 0

abbrev pub ty_number : ℕ
ty_number = 1

abbrev pub ty_string : ℕ
ty_string = 2

abbrev pub ty_object : ℕ
ty_object = 3

abbrev pub ty_typed_array : ℕ
ty_typed_array = 4

abbrev pub ty_generic_array : ℕ
ty_generic_array = 5

abbrev pub ty_extension : ℕ
ty_extension = 6

abbrev pub ty_undefined : ℕ
ty_undefined = 7

-- Categories, bits 3 and 4.
abbrev pub cat_float : ℕ
cat_float = 0

abbrev pub cat_signed : ℕ
cat_signed = 1

abbrev pub cat_unsigned : ℕ
cat_unsigned = 2

abbrev pub cat_other : ℕ
cat_other = 3

abbrev pub other_bool : ℕ
other_bool = 0

abbrev pub other_string : ℕ
other_string = 1

abbrev pub other_aligned : ℕ
other_aligned = 2

-- Extension ids, bits 3 to 7.
abbrev pub ext_delimiter : ℕ
ext_delimiter = 0

abbrev pub ext_type_tag : ℕ
ext_type_tag = 1

abbrev pub ext_matrix : ℕ
ext_matrix = 2

abbrev pub ext_complex : ℕ
ext_complex = 3

-- (count << 5) | ((sub & 0b11) << 3) | (ty & 0b111)
unfoldable pub header : ℕ → ℕ → ℕ → ℕ
header ty sub count = bit_or (bit_or (shl8 count 5) (shl8 (low_bits sub 2) 3)) (low_bits ty 3)

abbrev pub null : ℕ
null = 0

abbrev pub false_header : ℕ
false_header = 0b0000_1000

abbrev pub true_header : ℕ
true_header = 0b0001_1000

abbrev pub string : ℕ
string = ty_string

abbrev pub generic_array : ℕ
generic_array = ty_generic_array

abbrev pub object : ℕ
object = ty_object

abbrev pub delimiter : ℕ
delimiter = bit_or ty_extension (shl8 ext_delimiter 3)

abbrev pub matrix : ℕ
matrix = bit_or ty_extension (shl8 ext_matrix 3)

abbrev pub complex : ℕ
complex = bit_or ty_extension (shl8 ext_complex 3)

unfoldable pub number : ℕ → ℕ → ℕ
unfolding header
number cat count = header ty_number cat count

unfoldable pub array_of : ℕ → ℕ → ℕ
unfolding header
array_of cat count = header ty_typed_array cat count

abbrev pub aligned_array : ℕ
aligned_array = bit_or (bit_or (shl8 other_aligned 5) (shl8 cat_other 3)) ty_typed_array

abbrev pub complex_one : ℕ
complex_one = 0

abbrev pub complex_many : ℕ
complex_many = 1

abbrev pub complex_aligned : ℕ
complex_aligned = 2

unfoldable pub complex_class : ℕ → ℕ → ℕ → ℕ
unfolding header
complex_class cat count form = header form cat count

-- (class & 0b1111_1000) | TY_TYPED_ARRAY
unfoldable pub complex_components : ℕ → ℕ
complex_components class = bit_or (bit_and class 0b1111_1000) ty_typed_array

unfoldable pub complex_element : ℕ → ℕ
complex_element class = bit_or (bit_and class 0b1111_1000) ty_undefined

unfoldable pub ty : ℕ → ℕ
ty h = low_bits h 3

unfoldable pub sub : ℕ → ℕ
sub h = low_bits (shr h 3) 2

unfoldable pub count : ℕ → ℕ
count h = shr h 5

unfoldable pub ext_id : ℕ → ℕ
ext_id h = shr h 3

unfoldable pub element_of : ℕ → ℕ
element_of array = bit_or (bit_and array 0b1111_1000) ty_number

unfoldable pub byte_width : ℕ → ℕ → Option ℕ
byte_width cat count =
    if cat == cat_float
    then (if count == 0 || count == 1
        then some 2
        else if count == 2
        then some 4
        else if count == 3
        then some 8
        else if count == 4
        then some 16
        else none)
    else if cat == cat_signed || cat == cat_unsigned
    then (if leb count 4 then some (2 ^ count) else none)
    else none

unfoldable pub element_width : ℕ → Option ℕ
unfolding byte_width ty sub count
element_width elem = elim (byte_width (sub elem) (count elem)) [
  | none ↦ none
  | some width ↦
      if ty elem == ty_number
      then some width
      else if ty elem == ty_undefined
      then some (2 * width)
      else none
]

-- `usize::trailing_zeros`, in rounds of one bit; 64 rounds for a `usize`.
trailing_zeros : ℕ → ℕ → ℕ
trailing_zeros zero n = 0
trailing_zeros (suc rounds) n = elim (n % 2 == 1) [
  | true ↦ 0
  | false ↦ suc (trailing_zeros rounds (n / 2))
]

unfoldable pub code_for : ℕ → ℕ
unfolding trailing_zeros
code_for width = to_u8 (trailing_zeros 64 width)

unfoldable pub decodable_width : ℕ → ℕ → PResult ℕ
unfolding byte_width
decodable_width cat count = elim (byte_width cat count) [
  | none ↦ err invalid_header
  | some width ↦ if cat == cat_float && count == 4 then err unsupported_feature else ok width
]

-- Compressed sizes.
abbrev pub max_size : ℕ
max_size = 2 ^ 62 - 1

unfoldable pub size_len : ℕ → ℕ
size_len n =
    if ltb n (2 ^ 6) then 1 else if ltb n (2 ^ 14) then 2 else if ltb n (2 ^ 30) then 4 else 8

unfoldable pub width_code : ℕ → ℕ
width_code width = if width == 1 then 0 else if width == 2 then 1 else if width == 4 then 2 else 3

-- The loop of `encode_size`, in the rounds that are left: out[i] = (rest >> (8 * (i - 1))) as u8.
unfoldable pub encode_loop : ℕ → ℕ → ℕ → List ℕ → List ℕ
encode_loop zero i rest out = out
encode_loop (suc rounds) i rest out =
    encode_loop rounds (i + 1) rest (set out i (to_u8 (shr rest (8 * (i - 1)))))

-- `none` is the assertion that `n` is in range. The result is the width and the buffer.
unfoldable pub encode_size : ℕ → List ℕ → Option (ℕ × List ℕ)
encode_size n out =
    if ltb max_size n
    then none
    else let low = shl8 (low_bits (to_u8 n) 6) 2 in
      let rest = shr n 6 in
      let width = size_len n in
      some
        (width, encode_loop (width - 1) 1 rest (set out 0 (bit_or low (to_u8 (width_code width)))))

unfoldable pub size_extra : ℕ → ℕ
size_extra b0 =
    if low_bits b0 2 == 0
    then 0
    else if low_bits b0 2 == 1
    then 1
    else if low_bits b0 2 == 2
    then 3
    else 7

-- The loop of `decode_size`, in the rounds that are left.
unfoldable pub decode_loop : List ℕ → ℕ → ℕ → ℕ → ℕ → ℕ
decode_loop bytes i zero k v = v
decode_loop bytes i (suc rounds) k v =
    decode_loop bytes i rounds (k + 1) (bit_or v (shl64 (get_or bytes (i + 1 + k) 0) (6 + 8 * k)))

-- The value and the new position; a refusal leaves the position where it was.
unfoldable pub decode_size : List ℕ → ℕ → PResult (ℕ × ℕ)
decode_size bytes pos = elim (get_elem? bytes pos) [
  | none ↦ err unexpected_end
  | some b0 ↦
      let extra = size_extra b0 in
      let end = pos + 1 + extra in
      if ltb (length bytes) end
      then err unexpected_end
      else ok (decode_loop bytes pos extra 0 (shr b0 2), end)
]

-- `let mut out = [0u8; 8]; let used = encode_size(n, &mut out);` and then `&out[..used]`, which is
-- how the writer and `encode_key` call it.
unfoldable pub size_prefix : ℕ → Option (List ℕ)
size_prefix n = elim (encode_size n (0 ∷ 0 ∷ 0 ∷ 0 ∷ 0 ∷ 0 ∷ 0 ∷ 0 ∷ [])) [
  | none ↦ none
  | some (used, out) ↦ some (take used out)
]

-- Object keys.
unfoldable pub key_len : List ℕ → ℕ
key_len key = size_len (length key) + length key

-- The two loops that fill the array: the size bytes, then the text. `none` is a failed assertion.
unfoldable pub encode_key : ℕ → List ℕ → Option (List ℕ)
encode_key n key =
    if n == key_len key
    then (elim (size_prefix (length key)) [ none ↦ none | some head ↦ some (head ++ key) ])
    else none
