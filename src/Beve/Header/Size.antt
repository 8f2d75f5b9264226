-- ===== src/Beve/Header/Size.antt =====
-- `encode_size` of src/beve/header.rs, against a description of the bytes of a size.
use structio.Prelude.{
  ℕ, zero, suc, ◌+◌, ◌-◌, ◌*◌, ◌/◌, ◌%◌, ◌^◌, ◌≤◌, ◌<◌, ◌≡◌, refl, ap, arith, bit_or, some, List,
  [], ◌∷◌, length, take, All, shl8, to_u8, low_bits, inl, inr, le→ltb, ◌⊎◌,
}
use structio.Prelude.Bits.{bit_or_high}
use structio.Beve.Header.{max_size, size_len, width_code, encode_loop, encode_size, size_prefix}
use native.Mathlib.Nat.{pow-suc}

-- Little-endian bytes, and the number that they spell.
unfoldable pub le_bytes : ℕ → ℕ → List ℕ
le_bytes zero w = []
le_bytes (suc n) w = (w % 256) ∷ le_bytes n (w / 256)

unfoldable pub le_value : List ℕ → ℕ
le_value [] = 0
le_value (b ∷ bs) = b + 256 * le_value bs

abbrev pub IsByte : ℕ → Type 0
IsByte b = b < 256

pub le_value-le_bytes : (n w : ℕ) → w < 256 ^ n → le_value (le_bytes n w) ≡ w
unfolding le_value le_bytes
le_value-le_bytes zero w h = omega arith
le_value-le_bytes (suc n) w h =
    omega (arith, le_value-le_bytes n (w / 256) (omega (arith, pow-suc 256 n)))

pub le_bytes-IsByte : (n w : ℕ) → All IsByte (le_bytes n w)
unfolding le_bytes
le_bytes-IsByte zero w = tt
le_bytes-IsByte (suc n) w = (omega arith, le_bytes-IsByte n (w / 256))

pub length-le_bytes : (n w : ℕ) → length (le_bytes n w) ≡ n
unfolding le_bytes
length-le_bytes zero w = refl
length-le_bytes (suc n) w = ap suc (length-le_bytes n (w / 256))

pub le_value-lt : (bs : List ℕ) → All IsByte bs → le_value bs < 256 ^ length bs
unfolding le_value
le_value-lt [] h = omega arith
le_value-lt (b ∷ bs) h = omega (arith, le_value-lt bs h.1, pow-suc 256 (length bs))

-- The bytes of a size: the width code below six bits of the value, then the rest of the value.
unfoldable pub size_bytes : ℕ → List ℕ
unfolding le_bytes
size_bytes n = (n % 64 * 4 + width_code (size_len n)) ∷ le_bytes (size_len n - 1) (n / 64)

pub size_cases :
    (n : ℕ)
    → n ≤ max_size
    → (((size_len n ≡ 1) × (n < 2 ^ 6))
        ⊎ ((size_len n ≡ 2) × (n < 2 ^ 14))
        ⊎ ((size_len n ≡ 4) × (n < 2 ^ 30))
        ⊎ ((size_len n ≡ 8) × (n < 2 ^ 62)))
unfolding size_len
size_cases n h = ground arith

first_byte : (n c : ℕ) → c < 4 → bit_or (shl8 (low_bits (to_u8 n) 6) 2) (to_u8 c) ≡ n % 64 * 4 + c
first_byte n c h = ground (arith, bit_or_high 2 (n % 64) c (omega arith))

abbrev buffer : ℕ → List ℕ
buffer b = b ∷ 0 ∷ 0 ∷ 0 ∷ 0 ∷ 0 ∷ 0 ∷ 0 ∷ []

-- The loop writes the rest of the value, little end first, at each width that exists.
encode_loop-le_bytes :
    (b r : ℕ)
    → (take 2 (encode_loop 1 1 r (buffer b)) ≡ b ∷ le_bytes 1 r)
      × (take 4 (encode_loop 3 1 r (buffer b)) ≡ b ∷ le_bytes 3 r)
      × (take 8 (encode_loop 7 1 r (buffer b)) ≡ b ∷ le_bytes 7 r)
unfolding encode_loop le_bytes
encode_loop-le_bytes b r = (ground arith, ground arith, ground arith)

module _ (n r c : ℕ) (h : n ≤ max_size) (e : size_len n ≡ suc r) (f : width_code (suc r) ≡ c) where
  encode_size_width :
      c < 4
      → encode_size n (buffer 0) ≡ some (suc r, encode_loop r 1 (n / 64) (buffer (n % 64 * 4 + c)))
  unfolding encode_size
  encode_size_width g = rw (le→ltb max_size n h, e, f, first_byte n c g, pred_suc)
    where
      pred_suc : suc r - 1 ≡ r
      pred_suc = omega arith

  size_bytes_width : size_bytes n ≡ (n % 64 * 4 + c) ∷ le_bytes r (n / 64)
  unfolding size_bytes
  size_bytes_width = rw (e, f, pred_suc)
    where
      pred_suc : suc r - 1 ≡ r
      pred_suc = omega arith

  size_prefix_width :
      c < 4
      → take (suc r) (encode_loop r 1 (n / 64) (buffer (n % 64 * 4 + c)))
        ≡ (n % 64 * 4 + c) ∷ le_bytes r (n / 64)
      → size_prefix n ≡ some (size_bytes n)
  unfolding size_prefix
  size_prefix_width g t = rw (size_bytes_width, encode_size_width g, size_prefix) (ap some t)

-- For a size of at most 2^62 - 1 the bytes that `encode_size` fills in are `size_bytes`: the width
-- code below the low six bits of the size, then the rest of it little end first, in `size_len`
-- bytes.
pub size_prefix-size_bytes : (n : ℕ) → n ≤ max_size → size_prefix n ≡ some (size_bytes n)
unfolding width_code encode_loop le_bytes
size_prefix-size_bytes n h = elim (size_cases n h) [
  | inl (e, _) ↦ size_prefix_width n 0 0 h e refl (omega arith) refl
  | inr (inl (e, _)) ↦
      size_prefix_width n 1 1 h e refl (omega arith) (encode_loop-le_bytes _ (n / 64)).0
  | inr (inr (inl (e, _))) ↦
      size_prefix_width n 3 2 h e refl (omega arith) (encode_loop-le_bytes _ (n / 64)).1
  | inr (inr (inr (e, _))) ↦
      size_prefix_width n 7 3 h e refl (omega arith) (encode_loop-le_bytes _ (n / 64)).2
]

pub size_len-pos : (n : ℕ) → 1 ≤ size_len n
unfolding size_len
size_len-pos n = ground arith

pub length-size_bytes : (n : ℕ) → length (size_bytes n) ≡ size_len n
unfolding size_bytes
length-size_bytes n = omega (arith, length-le_bytes (size_len n - 1) (n / 64), size_len-pos n)
