-- ===== src/Tests/Digits.antt =====
-- Integers as text: 9075, written and read back in front of a comma, and a number that is too large.
use structio.Prelude.{
  ℕ, ◌+◌, ◌≡◌, ◌≤◌, refl, arith, some, List, [], ◌∷◌, ◌++◌, length, take, drop, store, inl,
}
use structio.Error.{ok, err, invalid_number, expected_number, unexpected_end}
use structio.Num.Itoa.{
  max_int_digits, ilog10, digit_count, digit_pairs, write_pair, write_last, write_from, write_u64,
}
use structio.Num.Atoi.{is_digit, digit_at, widened, run, parse_from, parse_u128}
use structio.Num.Decimal.{decimal, Numeral}
use structio.Num.Printed.{write_u64-decimal}
use structio.Num.Parsed.{fitted, parse_u128-Numeral, parse_u128-write_u64}

abbrev blank : List ℕ
blank = 0 ∷ 0 ∷ 0 ∷ 0 ∷ 0 ∷ 0 ∷ 0 ∷ 0 ∷ 0 ∷ 0 ∷ 0 ∷ 0 ∷ 0 ∷ 0 ∷ 0 ∷ 0 ∷ 0 ∷ 0 ∷ 0 ∷ 0 ∷ []

run_write : write_u64 9075 blank ≡ some (4, 57 ∷ 48 ∷ 55 ∷ 53 ∷ drop 4 blank)
unfolding write_u64 write_from write_last write_pair digit_count ilog10 digit_pairs store
run_write = refl

-- 12,  and 01, 1e and nothing
run_parse : parse_u128 (49 ∷ 50 ∷ 44 ∷ []) 0 ≡ (2, ok 12)
unfolding parse_u128 parse_from widened is_digit
run_parse = refl

run_leading_zero : parse_u128 (48 ∷ 49 ∷ []) 0 ≡ (0, err invalid_number)
unfolding parse_u128 is_digit digit_at
run_leading_zero = refl

run_comma : parse_u128 (44 ∷ []) 0 ≡ (0, err expected_number)
unfolding parse_u128 is_digit
run_comma = refl

run_end : parse_u128 (44 ∷ []) 1 ≡ (1, err unexpected_end)
unfolding parse_u128
run_end = refl

abbrev comma : List ℕ
comma = 44 ∷ []

comma-stops : run comma ≡ 0
unfolding run is_digit
comma-stops = refl

write_u64-decimal_example :
    (write_u64 9075 blank
      ≡ some (length (decimal 9075), decimal 9075 ++ drop (length (decimal 9075)) blank))
    × (length (decimal 9075) ≤ max_int_digits)
write_u64-decimal_example = write_u64-decimal 9075 blank (omega arith) refl

-- 12,
twelve-Numeral : Numeral (49 ∷ 50 ∷ [])
twelve-Numeral = record {
  head = 49;
  tail = 50 ∷ [];
  here = refl;
  digits = ((omega arith, omega arith), ((omega arith, omega arith), tt));
  plain = inl (λ e. absurd (omega arith));
}

parse_u128-Numeral_example : parse_u128 (49 ∷ 50 ∷ 44 ∷ []) 0 ≡ fitted (49 ∷ 50 ∷ 44 ∷ []) 2 12
parse_u128-Numeral_example = parse_u128-Numeral [] comma comma-stops (49 ∷ 50 ∷ []) twelve-Numeral

parse_u128-write_u64_example :
    (n : ℕ) × (out : List ℕ) × (write_u64 9075 blank ≡ some (n, out))
    × (parse_u128 (91 ∷ (take n out ++ comma)) 1 ≡ (1 + n, ok 9075))
parse_u128-write_u64_example =
    parse_u128-write_u64 (91 ∷ []) comma comma-stops 9075 blank (omega arith) refl
