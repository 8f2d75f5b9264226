-- ===== src/Swar.antt =====
-- src/swar.rs: scanning eight bytes at a time.
pub mod Bytes
pub mod Lit
pub mod Masks
pub mod Found
pub mod Eight
pub mod Find
use structio.Prelude.{
  ℕ, zero, suc, ◌+◌, ◌-◌, ◌*◌, ◌/◌, ◌%◌, ◌^◌, bit_and, bit_or, bit_xor, Bool, ◌||◌, Option, none,
  some, List, [], ◌∷◌, ltb, leb, ◌==◌, if◌then◌else◌, length, get_elem?, take, drop,
}

abbrev pub ones : ℕ
ones = 0x0101010101010101

abbrev pub high : ℕ
high = 0x8080808080808080

unfoldable pub splat : ℕ → ℕ
splat b = ones * b % 2 ^ 64

-- `a.wrapping_sub(b) & !c & HIGH`
abbrev pub below_high : ℕ → ℕ → ℕ → ℕ
below_high a b c = bit_and (bit_and ((a + 2 ^ 64 - b) % 2 ^ 64) (2 ^ 64 - 1 - c)) high

unfoldable pub eq_mask : ℕ → ℕ → ℕ
eq_mask chunk b = let x = bit_xor chunk (splat b) in below_high x ones x

unfoldable pub lt_mask : ℕ → ℕ → ℕ
lt_mask chunk b = below_high chunk (splat b) chunk

unfoldable pub escape_mask : ℕ → ℕ
escape_mask chunk = bit_or (bit_or (eq_mask chunk 34) (eq_mask chunk 92)) (lt_mask chunk 32)

-- The bytes of a little-endian word.
abbrev pub word : List ℕ → ℕ
word [] = 0
word (b ∷ bs) = b + 256 * word bs

unfoldable pub load_u64 : List ℕ → ℕ → ℕ
load_u64 bytes i = word (take 8 (drop i bytes))

-- `trailing_zeros` of so many bits
unfoldable pub trailing_zeros : ℕ → ℕ → ℕ
trailing_zeros zero mask = 0
trailing_zeros (suc bits) mask =
    let later = trailing_zeros bits (mask / 2) in if (mask % 2) == 1 then 0 else suc later

unfoldable pub first_match : ℕ → ℕ
first_match mask = trailing_zeros 64 mask / 8

abbrev pub needs_escape : ℕ → Bool
needs_escape c = ltb c 32 || (c == 34) || (c == 92)

-- The loop of `find_byte` over bytes, which ends in the rounds that it has.
unfoldable pub find_bytes : ℕ → List ℕ → ℕ → ℕ → Option ℕ
find_bytes zero bytes i b = none
find_bytes (suc rounds) bytes i b =
    let later = find_bytes rounds bytes (i + 1) b in
    elim (get_elem? bytes i) [ none ↦ none | some c ↦ if c == b then some i else later ]

-- The loop of `find_byte` over words.
unfoldable pub find_words : ℕ → List ℕ → ℕ → ℕ → Option ℕ
find_words zero bytes i b = none
find_words (suc rounds) bytes i b =
    let m = eq_mask (load_u64 bytes i) b in
    let later = find_words rounds bytes (i + 8) b in
    if leb (i + 8) (length bytes)
    then (if m == 0 then later else some (i + first_match m))
    else find_bytes (suc (length bytes)) bytes i b

unfoldable pub find_byte : List ℕ → ℕ → ℕ → Option ℕ
find_byte bytes from b = find_words (suc (length bytes)) bytes from b
