-- ===== src/Num/Itoa.antt =====
-- src/num/itoa.rs: writing the decimal form of a `u64`.
use structio.Prelude.{
  ℕ, zero, suc, ◌+◌, ◌-◌, ◌*◌, ◌/◌, ◌%◌, Option, none, some, List, [], ◌∷◌, ltb, leb, ◌==◌,
  if◌then◌else◌, get_elem?, store, ◌>>=◌,
}

-- `DIGIT_PAIRS`
unfoldable pub digit_pairs : List ℕ
digit_pairs =
    48 ∷ 48 ∷ 48 ∷ 49 ∷ 48 ∷ 50 ∷ 48 ∷ 51 ∷ 48 ∷ 52 ∷ 48 ∷ 53 ∷ 48 ∷ 54 ∷ 48 ∷ 55 ∷ 48 ∷ 56 ∷ 48
    ∷ 57 ∷ 49 ∷ 48 ∷ 49 ∷ 49 ∷ 49 ∷ 50 ∷ 49 ∷ 51 ∷ 49 ∷ 52 ∷ 49 ∷ 53 ∷ 49 ∷ 54 ∷ 49 ∷ 55 ∷ 49 ∷ 56
    ∷ 49 ∷ 57 ∷ 50 ∷ 48 ∷ 50 ∷ 49 ∷ 50 ∷ 50 ∷ 50 ∷ 51 ∷ 50 ∷ 52 ∷ 50 ∷ 53 ∷ 50 ∷ 54 ∷ 50 ∷ 55 ∷ 50
    ∷ 56 ∷ 50 ∷ 57 ∷ 51 ∷ 48 ∷ 51 ∷ 49 ∷ 51 ∷ 50 ∷ 51 ∷ 51 ∷ 51 ∷ 52 ∷ 51 ∷ 53 ∷ 51 ∷ 54 ∷ 51 ∷ 55
    ∷ 51 ∷ 56 ∷ 51 ∷ 57 ∷ 52 ∷ 48 ∷ 52 ∷ 49 ∷ 52 ∷ 50 ∷ 52 ∷ 51 ∷ 52 ∷ 52 ∷ 52 ∷ 53 ∷ 52 ∷ 54 ∷ 52
    ∷ 55 ∷ 52 ∷ 56 ∷ 52 ∷ 57 ∷ 53 ∷ 48 ∷ 53 ∷ 49 ∷ 53 ∷ 50 ∷ 53 ∷ 51 ∷ 53 ∷ 52 ∷ 53 ∷ 53 ∷ 53 ∷ 54
    ∷ 53 ∷ 55 ∷ 53 ∷ 56 ∷ 53 ∷ 57 ∷ 54 ∷ 48 ∷ 54 ∷ 49 ∷ 54 ∷ 50 ∷ 54 ∷ 51 ∷ 54 ∷ 52 ∷ 54 ∷ 53 ∷ 54
    ∷ 54 ∷ 54 ∷ 55 ∷ 54 ∷ 56 ∷ 54 ∷ 57 ∷ 55 ∷ 48 ∷ 55 ∷ 49 ∷ 55 ∷ 50 ∷ 55 ∷ 51 ∷ 55 ∷ 52 ∷ 55 ∷ 53
    ∷ 55 ∷ 54 ∷ 55 ∷ 55 ∷ 55 ∷ 56 ∷ 55 ∷ 57 ∷ 56 ∷ 48 ∷ 56 ∷ 49 ∷ 56 ∷ 50 ∷ 56 ∷ 51 ∷ 56 ∷ 52 ∷ 56
    ∷ 53 ∷ 56 ∷ 54 ∷ 56 ∷ 55 ∷ 56 ∷ 56 ∷ 56 ∷ 57 ∷ 57 ∷ 48 ∷ 57 ∷ 49 ∷ 57 ∷ 50 ∷ 57 ∷ 51 ∷ 57 ∷ 52
    ∷ 57 ∷ 53 ∷ 57 ∷ 54 ∷ 57 ∷ 55 ∷ 57 ∷ 56 ∷ 57 ∷ 57 ∷ []

abbrev pub max_int_digits : ℕ
max_int_digits = 20

-- `u64::ilog10` of a number that is not zero: a `u64` has at most twenty digits.
unfoldable pub ilog10 : ℕ → ℕ → ℕ
ilog10 zero v = 0
ilog10 (suc rounds) v = let later = ilog10 rounds (v / 10) in if ltb v 10 then 0 else suc later

unfoldable pub digit_count : ℕ → ℕ
digit_count v = if v == 0 then 1 else ilog10 max_int_digits v + 1

-- `DIGIT_PAIRS[rem * 2]` and the byte behind it, at `p` and the place behind it.
unfoldable pub write_pair : ℕ → ℕ → List ℕ → Option (List ℕ)
write_pair rem p buf = do
  tens ← get_elem? digit_pairs (rem * 2)
  ones ← get_elem? digit_pairs (rem * 2 + 1)
  begun ← store p tens buf
  store (p + 1) ones begun

-- What is left when `v < 100`, with `p` in front of what is written.
unfoldable pub write_last : ℕ → ℕ → List ℕ → Option (List ℕ)
write_last v p buf =
    if leb 10 v
    then (if ltb p 2 then none else write_pair v (p - 2) buf)
    else (if ltb p 1 then none else store (p - 1) (48 + v) buf)

-- The loop of `write_u64`, which ends in the rounds that it has.
unfoldable pub write_from : ℕ → ℕ → ℕ → List ℕ → Option (List ℕ)
write_from zero v p buf = none
write_from (suc rounds) v p buf =
    let later = λ (next : List ℕ). write_from rounds (v / 100) (p - 2) next in
    if leb 100 v
    then (if ltb p 2 then none else write_pair (v % 100) (p - 2) buf >>= later)
    else write_last v p buf

-- The length of the decimal form, and the buffer with it in front.
unfoldable pub write_u64 : ℕ → List ℕ → Option (ℕ × List ℕ)
write_u64 v buf = do let n = digit_count v; next ← write_from 10 v n buf; some (n, next)
