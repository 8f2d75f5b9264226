-- ===== src/Beve/Header/Truncated.antt =====
-- `decode_size` and `encode_key` of src/beve/header.rs: cut sizes, and the keys of structs.
use structio.Prelude.{
  ℕ, ◌+◌, ◌≤◌, ◌≡◌, ap, ◌∙◌, arith, some, List, [], ◌∷◌, ◌++◌, length, length-append, inl, inr,
  ==-self, drop, drop-append,
}
use structio.Error.{ok, err, unexpected_end}
use structio.Beve.Header.{max_size, size_len, decode_size, key_len, encode_key}
use structio.Beve.Header.Size.{size_bytes, size_prefix-size_bytes, length-size_bytes}
use structio.Beve.Header.Extent.{decode_size-cases}
use structio.Beve.Header.Context.{decode_size-append}
use structio.Beve.Header.Decode.{decode_size-size_bytes}
use mathlib.Core.List.{append_assoc, append-nil}

-- The bytes of a size of at most 2^62 - 1, cut short anywhere, are refused as UnexpectedEnd,
-- whatever stands in front of them.
pub decode_size-truncated :
    (n x : ℕ) (pre front back : List ℕ)
    → n ≤ max_size
    → size_bytes n ≡ front ++ (x ∷ back)
    → decode_size (pre ++ front) (length pre) ≡ err unexpected_end
decode_size-truncated n x pre front back h e =
    elim (decode_size-cases (pre ++ front) (length pre)) [
      | inr r ↦ r
      | inl (v, end, r, _, inside) ↦ absurd (
          omega (
            arith,
            ends v end r,
            inside,
            length-append pre front,
            length-append front (x ∷ back),
            length-size_bytes n,
            ap length e,
          ))
    ]
  where
    whole :
        decode_size ((pre ++ front) ++ (x ∷ back)) (length pre) ≡ ok (n, length pre + size_len n)
    whole =
        ap (λ (t : List ℕ). decode_size t (length pre)) regroup ∙ decode_size-size_bytes n pre [] h
      where
        regroup : (pre ++ front) ++ (x ∷ back) ≡ pre ++ (size_bytes n ++ [])
        regroup = rw (append-nil, e) (append_assoc pre front (x ∷ back))

    ends :
        (v end : ℕ)
        → decode_size (pre ++ front) (length pre) ≡ ok (v, end)
        → end ≡ length pre + size_len n
    ends v end r = cc (whole, decode_size-append (pre ++ front) (x ∷ back) (length pre) v end r)

-- A key of at most 2^62 - 1 bytes, encoded for its `key_len`, takes `key_len` bytes, from whose
-- front its length is read back in `size_len` bytes, and behind those stands its text.
pub encode_key-decodes :
    (key : List ℕ)
    → length key ≤ max_size
    → (bytes : List ℕ) × (encode_key (key_len key) key ≡ some bytes)
      × (length bytes ≡ key_len key)
      × (decode_size bytes 0 ≡ ok (length key, size_len (length key)))
      × (drop (size_len (length key)) bytes ≡ key)
unfolding encode_key key_len
encode_key-decodes key h = (
  size_bytes (length key) ++ key,
  rw (==-self, size_prefix-size_bytes (length key) h),
  omega (arith, length-append (size_bytes (length key)) key, length-size_bytes (length key)),
  decode_size-size_bytes (length key) [] key h ∙ ap (λ (t : ℕ). ok (length key, t)) (omega arith),
  rw (← length-size_bytes (length key)) (drop-append (size_bytes (length key)) key),
)
