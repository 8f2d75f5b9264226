-- ===== src/Tests/Scan.antt =====
-- Runs of the word-parallel scan of src/swar.rs.
use structio.Prelude.{
  ℕ, ◌≡◌, refl, arith, List, [], ◌∷◌, All, none, some, ◌==◌, if◌then◌else◌, drop,
}
use structio.Beve.Header.Size.{IsByte}
use structio.Swar.{
  word, needs_escape, escape_mask, first_match, find_byte, find_words, eq_mask, load_u64, splat,
  trailing_zeros,
}
use structio.Swar.Found.{first_at}
use structio.Swar.Find.{find_byte-first_at, escape_mask-first_at}

abbrev line : List ℕ
line = 123 ∷ 34 ∷ 97 ∷ 34 ∷ 58 ∷ 49 ∷ 44 ∷ 34 ∷ 98 ∷ 34 ∷ 58 ∷ 50 ∷ 125 ∷ 10 ∷ 123 ∷ 125 ∷ 10 ∷ []

line-IsByte : All IsByte line
line-IsByte = (
  omega arith,
  (
    omega arith,
    (
      omega arith,
      (
        omega arith,
        (
          omega arith,
          (
            omega arith,
            (
              omega arith,
              (
                omega arith,
                (
                  omega arith,
                  (
                    omega arith,
                    (
                      omega arith,
                      (
                        omega arith,
                        (
                          omega arith,
                          (omega arith, (omega arith, (omega arith, (omega arith, tt)))),
                        ),
                      ),
                    ),
                  ),
                ),
              ),
            ),
          ),
        ),
      ),
    ),
  ),
)

find_byte_newline : find_byte line 0 10 ≡ some 13
unfolding find_byte find_words eq_mask load_u64 splat first_match trailing_zeros
find_byte_newline = refl

find_byte-first_at_example : find_byte line 0 10 ≡ first_at (λ x. x == 10) (drop 0 line) 0
find_byte-first_at_example = find_byte-first_at line 0 10 line-IsByte (omega arith)

abbrev part : List ℕ
part = 97 ∷ 98 ∷ 9 ∷ 99 ∷ 34 ∷ 200 ∷ 255 ∷ 92 ∷ []

escape_mask-first_at_example :
    (if escape_mask (word part) == 0 then none else some (first_match (escape_mask (word part))))
    ≡ first_at needs_escape part 0
escape_mask-first_at_example =
    escape_mask-first_at part
      (
        omega arith,
        (
          omega arith,
          (
            omega arith,
            (omega arith, (omega arith, (omega arith, (omega arith, (omega arith, tt))))),
          ),
        ),
      )
      refl
