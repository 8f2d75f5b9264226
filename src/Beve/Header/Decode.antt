-- ===== src/Beve/Header/Decode.antt =====
-- `decode_size` of src/beve/header.rs, against the description of the bytes of a size in `Size`.
use structio.Prelude.{
  false, ℕ, zero, suc, ◌+◌, ◌-◌, ◌*◌, ◌/◌, ◌%◌, ◌^◌, ◌≤◌, ◌<◌, ◌≡◌, refl, sym, ap, ◌∙◌, arith,
  bit_or, some, none, List, [], ◌∷◌, ◌++◌, length, length-append, get_elem?, get_or, All, shl64,
  shr, ltb, if◌then◌else◌, get_elem?-append_length, get_or-append_length, inl, inr, le→ltb,
}
use structio.Prelude.Bits.{bit_or_low}
use structio.Error.{ok, err, unexpected_end}
use structio.Beve.Header.{max_size, size_len, width_code, size_extra, decode_loop, decode_size}
use mathlib.Core.List.{append_assoc}
use mathlib.Core.Path.{ap₂}
use native.Mathlib.Nat.{one-le-pow, pow-le-pow_right}
use native.Mathlib.Numerals.{towards_suc}
use structio.Beve.Header.Size.{
  le_bytes, le_value, IsByte, size_bytes, le_value-le_bytes, le_bytes-IsByte, length-le_bytes,
  size_cases, size_len-pos,
}

shift_eight : (s : ℕ) → 2 ^ (s + 8) ≡ 256 * 2 ^ s
shift_eight s = simp towards_suc (omega arith)

-- One byte joins the bits below it.
join_byte : (v b s : ℕ) → v < 2 ^ s → b < 256 → s + 8 ≤ 64 → bit_or v (shl64 b s) ≡ v + b * 2 ^ s
join_byte v b s hv hb hs = rw fits (bit_or_low s v b hv)
  where
    room : 256 * 2 ^ s ≤ 2 ^ 64
    room = rw shift_eight at (pow-le-pow_right {n = 2} (omega arith) hs)

    below : b * 2 ^ s ≤ 255 * 2 ^ s
    below = grind arith

    fits : shl64 b s ≡ b * 2 ^ s
    fits = omega (arith, room, below, one-le-pow s 2 (omega arith))

decode_loop-le_value :
    (pre bs rest : List ℕ) (i k v s : ℕ)
    → All IsByte bs
    → length pre ≡ i + 1 + k
    → s ≡ 6 + 8 * k
    → v < 2 ^ s
    → s + 8 * length bs ≤ 64
    → decode_loop (pre ++ (bs ++ rest)) i (length bs) k v ≡ v + le_value bs * 2 ^ s
unfolding decode_loop le_value
decode_loop-le_value pre [] rest i k v s h e f g j = omega arith
decode_loop-le_value pre (b ∷ bs) rest i k v s h e f g j =
    ap (decode_loop (pre ++ (b ∷ (bs ++ rest))) i (length bs) (k + 1)) joined
    ∙ ap (λ (t : List ℕ). decode_loop t i (length bs) (k + 1) (v + b * 2 ^ s)) regroup
    ∙ decode_loop-le_value (pre ++ (b ∷ [])) bs rest i (k + 1) (v + b * 2 ^ s) (s + 8) h.1
        (omega (arith, length-append pre (b ∷ []))) (omega arith)
        (omega (arith, shift_eight s, below)) (omega arith)
    ∙ omega (arith, ap (λ (t : ℕ). le_value bs * t) (shift_eight s))
  where
    byte : get_or (pre ++ (b ∷ (bs ++ rest))) (i + 1 + k) 0 ≡ b
    byte =
        ap (λ (t : ℕ). get_or (pre ++ (b ∷ (bs ++ rest))) t 0) (omega (arith, e))
        ∙ get_or-append_length pre (b ∷ (bs ++ rest)) 0 0

    shift : 6 + 8 * k ≡ s
    shift = sym f

    joined :
        bit_or v (shl64 (get_or (pre ++ (b ∷ (bs ++ rest))) (i + 1 + k) 0) (6 + 8 * k))
        ≡ v + b * 2 ^ s
    joined = rw (byte, shift) (join_byte v b s g h.0 (omega arith))

    regroup : pre ++ (b ∷ (bs ++ rest)) ≡ (pre ++ (b ∷ [])) ++ (bs ++ rest)
    regroup = sym (append_assoc pre (b ∷ []) (bs ++ rest))

    below : b * 2 ^ s ≤ 255 * 2 ^ s
    below = grind arith

pub decode_size-some :
    (bytes : List ℕ) (pos b : ℕ)
    → get_elem? bytes pos ≡ some b
    → decode_size bytes pos ≡ (
        if ltb (length bytes) (pos + 1 + size_extra b)
        then err unexpected_end
        else ok (decode_loop bytes pos (size_extra b) 0 (shr b 2), pos + 1 + size_extra b))
unfolding decode_size
decode_size-some bytes pos b e = rw (e, decode_size)

pub decode_size-none :
    (bytes : List ℕ) (pos : ℕ)
    → get_elem? bytes pos ≡ none
    → decode_size bytes pos ≡ err unexpected_end
unfolding decode_size
decode_size-none bytes pos e = rw (e, decode_size)

pub size_extra-le : (b : ℕ) → size_extra b ≤ 7
unfolding size_extra
size_extra-le b = ground arith

-- Reading at the end of `pre` a first byte and the bytes that it announces.
pub decode_size_at :
    (pre : List ℕ) (b : ℕ) (bs rest : List ℕ)
    → b < 256
    → All IsByte bs
    → length bs ≡ size_extra b
    → decode_size (pre ++ (b ∷ (bs ++ rest))) (length pre)
      ≡ ok (b / 4 + le_value bs * 64, length pre + 1 + length bs)
decode_size_at pre b bs rest hb hs e =
    decode_size-some whole (length pre) b seam
    ∙ rw (← e, room) (ap (λ (t : ℕ). ok (t, length pre + 1 + length bs)) value)
  where
    whole : List ℕ
    whole = pre ++ (b ∷ (bs ++ rest))

    seam : get_elem? whole (length pre) ≡ some b
    seam = ap (get_elem? whole) (omega arith) ∙ get_elem?-append_length pre (b ∷ (bs ++ rest)) 0

    room : ltb (length whole) (length pre + 1 + length bs) ≡ false
    room = le→ltb _ _ (omega (arith, length-append pre (b ∷ (bs ++ rest)), length-append bs rest))

    regroup : whole ≡ (pre ++ (b ∷ [])) ++ (bs ++ rest)
    regroup = sym (append_assoc pre (b ∷ []) (bs ++ rest))

    value : decode_loop whole (length pre) (length bs) 0 (shr b 2) ≡ b / 4 + le_value bs * 64
    value =
        ap (λ (t : List ℕ). decode_loop t (length pre) (length bs) 0 (shr b 2)) regroup
        ∙ decode_loop-le_value (pre ++ (b ∷ [])) bs rest (length pre) 0 (b / 4) 6 hs
            (omega (arith, length-append pre (b ∷ []))) refl (omega arith)
            (omega (arith, e, size_extra-le b))

size_extra-width :
    (n : ℕ) → n ≤ max_size → size_extra (n % 64 * 4 + width_code (size_len n)) ≡ size_len n - 1
unfolding size_extra width_code
size_extra-width n h = elim (size_cases n h) [
  | inl (e, _) ↦ rw e (ground arith)
  | inr (inl (e, _)) ↦ rw e (ground arith)
  | inr (inr (inl (e, _))) ↦ rw e (ground arith)
  | inr (inr (inr (e, _))) ↦ rw e (ground arith)
]

width_code-lt : (w : ℕ) → width_code w < 4
unfolding width_code
width_code-lt w = ground arith

-- What is left of a size in range fits the bytes that follow the first.
rest_fits : (n : ℕ) → n ≤ max_size → n / 64 < 256 ^ (size_len n - 1)
rest_fits n h = elim (size_cases n h) [
  | inl (e, b) ↦ rw e (omega arith)
  | inr (inl (e, b)) ↦ rw e (omega arith)
  | inr (inr (inl (e, b))) ↦ rw e (omega arith)
  | inr (inr (inr (e, b))) ↦ rw e (omega arith)
]

-- The bytes `size_bytes` of a size of at most 2^62 - 1 are read back as the size, whatever stands
-- in front of them and behind them, and the position moves past them, by `size_len`.
pub decode_size-size_bytes :
    (n : ℕ) (pre rest : List ℕ)
    → n ≤ max_size
    → decode_size (pre ++ (size_bytes n ++ rest)) (length pre) ≡ ok (n, length pre + size_len n)
unfolding size_bytes
decode_size-size_bytes n pre rest h =
    decode_size_at pre b bs rest (omega (arith, width_code-lt (size_len n))) (le_bytes-IsByte _ _)
      (length-le_bytes _ _ ∙ sym (size_extra-width n h))
    ∙ ap₂ (λ (v e : ℕ). ok (v, e)) value end
  where
    b : ℕ
    b = n % 64 * 4 + width_code (size_len n)

    bs : List ℕ
    bs = le_bytes (size_len n - 1) (n / 64)

    value : b / 4 + le_value bs * 64 ≡ n
    value = omega (
      arith,
      le_value-le_bytes (size_len n - 1) (n / 64) (rest_fits n h),
      width_code-lt (size_len n),
    )

    end : length pre + 1 + length bs ≡ length pre + size_len n
    end = omega (arith, length-le_bytes (size_len n - 1) (n / 64), size_len-pos n)

pub get_elem?-IsByte : (bs : List ℕ) (i b : ℕ) → All IsByte bs → get_elem? bs i ≡ some b → b < 256
get_elem?-IsByte [] i b h e = cc
get_elem?-IsByte (x ∷ xs) zero b h e = ground arith
get_elem?-IsByte (x ∷ xs) (suc i) b h e = get_elem?-IsByte xs i b h.1 e

pub get_or-IsByte : (bs : List ℕ) (i : ℕ) → All IsByte bs → get_or bs i 0 < 256
get_or-IsByte [] i h = omega arith
get_or-IsByte (x ∷ xs) zero h = h.0
get_or-IsByte (x ∷ xs) (suc i) h = get_or-IsByte xs i h.1

pub decode_loop-lt :
    (bytes : List ℕ) (i r k v s : ℕ)
    → All IsByte bytes
    → s ≡ 6 + 8 * k
    → v < 2 ^ s
    → s + 8 * r ≤ 64
    → decode_loop bytes i r k v < 2 ^ (s + 8 * r)
unfolding decode_loop
decode_loop-lt bytes i zero k v s hb e h j = rw (← same) h
  where
    same : s ≡ s + 8 * 0
    same = omega arith
decode_loop-lt bytes i (suc r) k v s hb e h j =
    rw (joined, total)
      (decode_loop-lt bytes i r (k + 1) (v + b * 2 ^ s) (s + 8) hb (omega arith)
        (omega (arith, shift_eight s, below)) (omega arith))
  where
    b : ℕ
    b = get_or bytes (i + 1 + k) 0

    below : b * 2 ^ s ≤ 255 * 2 ^ s
    below = grind (arith, get_or-IsByte bytes (i + 1 + k) hb)

    joined : bit_or v (shl64 b (6 + 8 * k)) ≡ v + b * 2 ^ s
    joined = rw (← e) (join_byte v b s h (get_or-IsByte bytes (i + 1 + k) hb) (omega arith))

    total : s + 8 * suc r ≡ s + 8 + 8 * r
    total = omega arith
