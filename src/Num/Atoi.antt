-- ===== src/Num/Atoi.antt =====
-- src/num/atoi.rs: reading an unsigned decimal of 128 bits. A reader answers where the cursor is
-- left, and the number or the refusal.
use structio.Prelude.{
  ℕ, suc, ◌+◌, ◌-◌, ◌*◌, ◌%◌, ◌^◌, Bool, false, ◌||◌, Option, none, some, List, [], ◌∷◌, ltb, ◌==◌,
  if◌then◌else◌, get_elem?, drop,
}
use structio.Error.{
  ErrorCode, PResult, ok, err, unexpected_end, number_out_of_range, invalid_number, expected_number,
}

-- `c.wrapping_sub(b'0') < 10`
unfoldable pub is_digit : ℕ → Bool
is_digit c = ltb ((c + 256 - 48) % 256) 10

-- Whether `buf.get(i)` is there and is a digit.
unfoldable pub digit_at : List ℕ → ℕ → Bool
digit_at buf i = elim (get_elem? buf i) [ none ↦ false | some c ↦ is_digit c ]

-- `b'.' | b'e' | b'E'`
abbrev pub is_float_tail : ℕ → Bool
is_float_tail c = (c == 46) || (c == 101) || (c == 69)

unfoldable pub reject_float_tail : List ℕ → ℕ → PResult (Unit {0})
reject_float_tail buf i = elim (get_elem? buf i) [
  | none ↦ ok tt
  | some c ↦ if is_float_tail c then err invalid_number else ok tt
]

unfoldable pub out_of_range : List ℕ → ℕ → ErrorCode
out_of_range buf end_ = elim (reject_float_tail buf end_) [ err e ↦ e | _ ↦ number_out_of_range ]

-- The number with one more digit, unless a `u128` cannot hold it.
unfoldable pub widened : ℕ → ℕ → Option ℕ
widened v c =
    if ltb (v * 10) (2 ^ 128)
    then (if ltb (v * 10 + (c - 48)) (2 ^ 128) then some (v * 10 + (c - 48)) else none)
    else none

-- `iter().take_while(is_digit).count()`
unfoldable pub run : List ℕ → ℕ
run [] = 0
run (c ∷ cs) = let later = run cs in if is_digit c then suc later else 0

-- The loop of `parse_u128` at `idx`, of what is left of `buf` from there.
unfoldable pub parse_from : List ℕ → List ℕ → ℕ → ℕ → ℕ × PResult ℕ
parse_from buf [] idx v = (idx, ok v)
parse_from buf (c ∷ cs) idx v =
    let later = λ (next : ℕ). parse_from buf cs (idx + 1) next in
    if is_digit c
    then elim (widened v c) [
      | none ↦ (idx + run (c ∷ cs), err (out_of_range buf (idx + run (c ∷ cs))))
      | some next ↦ later next
    ]
    else (idx, ok v)

unfoldable pub parse_u128 : List ℕ → ℕ → ℕ × PResult ℕ
parse_u128 buf start = elim (get_elem? buf start) [
  | none ↦ (start, err unexpected_end)
  | some c ↦
      if is_digit c
      then (if c == 48
          then (if digit_at buf (start + 1) then (start, err invalid_number) else (start + 1, ok 0))
          else parse_from buf (drop start buf) start 0)
      else (start, err expected_number)
]
