-- ===== src/Keymap.antt =====
-- src/keymap.rs: the hash of a key. A key is its bytes, with `n` of them.
use structio.Prelude.{
  ℕ, zero, suc, ◌+◌, ◌-◌, ◌*◌, ◌/◌, ◌%◌, ◌^◌, bit_or, bit_xor, List, ltb, leb, if◌then◌else◌,
  get_or, shr, shl64,
}

abbrev pub wrapping_mul : ℕ → ℕ → ℕ
wrapping_mul a b = a * b % 2 ^ 64

-- `h.rotate_right(49)`
abbrev pub rotate_right_49 : ℕ → ℕ
rotate_right_49 h = h / 2 ^ 49 + h % 2 ^ 49 * 2 ^ 15

unfoldable pub bitmix : ℕ → ℕ → ℕ
bitmix h seed = let mixed = wrapping_mul h seed in bit_xor mixed (rotate_right_49 mixed)

unfoldable pub rich_bitmix : ℕ → ℕ → ℕ
rich_bitmix h seed =
    let folded = bit_xor h (shr h 23) in
    let seeded = bit_xor (wrapping_mul folded 0x2127599bf4325c37) seed in
    let mixed = wrapping_mul seeded 0x880355f21e6d1965 in bit_xor mixed (shr mixed 47)

-- The loop of `to_u64_below_8`, in the rounds that are left.
unfoldable pub fold_bytes : ℕ → List ℕ → ℕ → ℕ → ℕ
fold_bytes zero bytes i v = v
fold_bytes (suc rounds) bytes i v =
    fold_bytes rounds bytes (i + 1) (bit_or v (shl64 (get_or bytes i 0) (8 * i)))

unfoldable pub to_u64_below_8 : List ℕ → ℕ → ℕ
to_u64_below_8 bytes n = fold_bytes n bytes 0 0

unfoldable pub to_u64_at : List ℕ → ℕ → ℕ
to_u64_at bytes off =
    let byte = λ (i : ℕ). shl64 (get_or bytes (off + i) 0) (8 * i) in
    bit_or
      (bit_or
        (bit_or (bit_or (bit_or (bit_or (bit_or (byte 0) (byte 1)) (byte 2)) (byte 3)) (byte 4))
          (byte 5))
        (byte 6))
      (byte 7)

abbrev pub digest_basis : ℕ
digest_basis = 0x9E3779B97F4A7C15

-- The loop of `key_digest` over whole words, which ends in the rounds that it has.
unfoldable pub digest_words : ℕ → List ℕ → ℕ → ℕ → ℕ → ℕ
digest_words zero bytes n i h = h
digest_words (suc rounds) bytes n i h =
    let later = digest_words rounds bytes n (i + 8) (bitmix (to_u64_at bytes i) h) in
    if leb (i + 8) n then later else h

unfoldable pub key_digest : List ℕ → ℕ → ℕ
key_digest bytes n =
    if ltb n 8
    then bit_or (to_u64_below_8 bytes n) (shl64 n 56)
    else rich_bitmix (to_u64_at bytes (n - 8))
        (digest_words n bytes n 0 (bit_xor digest_basis (shl64 n 1)))

unfoldable pub full_hash : List ℕ → ℕ → ℕ → ℕ
full_hash bytes n seed = bitmix (key_digest bytes n) seed
