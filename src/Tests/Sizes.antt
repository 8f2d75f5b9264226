-- ===== src/Tests/Sizes.antt =====
-- Header bytes and compressed sizes on small inputs: the size 70 takes two bytes.
use structio.Prelude.{ℕ, ◌+◌, ◌≡◌, refl, arith, some, List, [], ◌∷◌, ◌++◌, length, drop}
use structio.Error.{ok, err, unexpected_end}
use structio.Beve.Header.{
  header, number, array_of, complex_class, complex_components, complex_element, ty, sub, count,
  element_of, byte_width, element_width, code_for, decodable_width, max_size, size_len, size_prefix,
  decode_size, decode_loop, size_extra, key_len, encode_key, ty_undefined, cat_float,
}
use structio.Beve.Header.Size.{size_bytes, le_bytes}
use structio.Beve.Header
use structio.Beve.Header.Decode.{decode_size-size_bytes}
use structio.Beve.Header.Truncated.{decode_size-truncated, encode_key-decodes}

decode_size-size_bytes_example :
    decode_size ((3 ∷ []) ++ (size_bytes 70 ++ (9 ∷ []))) 1 ≡ ok (70, 1 + size_len 70)
decode_size-size_bytes_example = decode_size-size_bytes 70 (3 ∷ []) (9 ∷ []) (omega arith)

read_70 : decode_size (3 ∷ 25 ∷ 1 ∷ 9 ∷ []) 1 ≡ ok (70, 3)
unfolding decode_size decode_loop size_extra
read_70 = refl

bytes_70 : size_bytes 70 ≡ (25 ∷ []) ++ (1 ∷ [])
unfolding size_bytes size_len le_bytes Header.width_code
bytes_70 = refl

decode_size-truncated_example : decode_size ((3 ∷ []) ++ (25 ∷ [])) 1 ≡ err unexpected_end
decode_size-truncated_example =
    decode_size-truncated 70 1 (3 ∷ []) (25 ∷ []) [] (omega arith) bytes_70

encode_key-decodes_example :
    (bytes : List ℕ) × (encode_key (key_len (104 ∷ 105 ∷ [])) (104 ∷ 105 ∷ []) ≡ some bytes)
    × (length bytes ≡ key_len (104 ∷ 105 ∷ []))
    × (decode_size bytes 0 ≡ ok (2, size_len 2))
    × (drop (size_len 2) bytes ≡ 104 ∷ 105 ∷ [])
encode_key-decodes_example = encode_key-decodes (104 ∷ 105 ∷ []) (omega arith)
