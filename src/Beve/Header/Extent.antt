-- ===== src/Beve/Header/Extent.antt =====
-- Where a compressed size that was read ends, and how large it is (src/beve/header.rs).
use structio.Prelude.{
  Option-cases, ℕ, ◌+◌, ◌*◌, ◌≤◌, ◌<◌, ◌≡◌, refl, ◌∙◌, arith, List, length, get_elem?, All, shr,
  ltb, Bool-cases, inl, inr, ltb→le, ◌⊎◌,
}
use structio.Error.{ok, err, unexpected_end}
use structio.Beve.Header.{max_size, size_extra, decode_loop, decode_size}
use native.Mathlib.Nat.{pow-le-pow_right}
use structio.Beve.Header.Size.{IsByte}
use structio.Beve.Header.Decode.{
  decode_size-some, decode_size-none, decode_loop-lt, get_elem?-IsByte, size_extra-le,
}

-- A size that is read out of bytes ends behind where it begins by at most eight bytes, ends inside
-- the bytes, and is at most 2^62 - 1.
pub decode_size-bounds :
    (bytes : List ℕ) (pos v end : ℕ)
    → All IsByte bytes
    → decode_size bytes pos ≡ ok (v, end)
    → (pos < end) × (end ≤ pos + 8) × (end ≤ length bytes) × (v ≤ max_size)
decode_size-bounds bytes pos v end hb h = elim (Option-cases (get_elem? bytes pos)) [
  | inl e ↦ cc (decode_size-none bytes pos e)
  | inr (b, e) ↦ ground (
    arith,
    decode_size-some bytes pos b e,
    size_extra-le b,
    decode_loop-lt bytes pos (size_extra b) 0 (shr b 2) 6 hb refl,
    get_elem?-IsByte bytes pos b hb e,
    pow-le-pow_right {n = 2} (omega arith) {i = 6 + 8 * size_extra b} {j = 62},
  )
]

-- The only refusal is a short read.
pub decode_size-cases :
    (bytes : List ℕ) (pos : ℕ)
    → (((v : ℕ) × (end : ℕ) × (decode_size bytes pos ≡ ok (v, end))
          × (pos < end)
          × (end ≤ length bytes))
        ⊎ (decode_size bytes pos ≡ err unexpected_end))
decode_size-cases bytes pos = elim (Option-cases (get_elem? bytes pos)) [
  | inl e ↦ inr (decode_size-none bytes pos e)
  | inr (b, e) ↦ elim (Bool-cases (ltb (length bytes) (pos + 1 + size_extra b))) [
    | inl t ↦ inr (decode_size-some bytes pos b e ∙ rw t)
    | inr f ↦ inl (
      decode_loop bytes pos (size_extra b) 0 (shr b 2),
      pos + 1 + size_extra b,
      decode_size-some bytes pos b e ∙ rw f,
      omega arith,
      ltb→le _ _ f,
    )
  ]
]
