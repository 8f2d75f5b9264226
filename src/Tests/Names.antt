-- ===== src/Tests/Names.antt =====
-- Names by the case rules: `httpURL_id` as "http-url-id".
use structio.Prelude.{ℕ, ◌≤◌, ◌≡◌, refl, arith, some, List, [], ◌∷◌, length, store, drop, ◌++◌}
use structio.Case.{
  kebab, words, cased_len, cased, starts_word, sep, first, rest, spell, spelling, separator,
  write_cased, lower_like,
}
use structio.Case.Written.{emitted}
use structio.Case.Length.{cased-emitted}
use structio.Case.Words.{word_list, join, join_rest, spell_word, write_cased-join}

abbrev name : List ℕ
name = 104 ∷ 116 ∷ 116 ∷ 112 ∷ 85 ∷ 82 ∷ 76 ∷ 95 ∷ 105 ∷ 100 ∷ []

words_lem : words name ≡ 3
unfolding words starts_word lower_like
words_lem = refl

-- http-url-id
run_kebab :
    cased 11 name kebab ≡ some (104 ∷ 116 ∷ 116 ∷ 112 ∷ 45 ∷ 117 ∷ 114 ∷ 108 ∷ 45 ∷ 105 ∷ 100 ∷ [])
unfolding cased write_cased store starts_word lower_like separator sep first rest spell spelling
run_kebab = refl

cased-emitted_example :
    (n : ℕ) × (cased_len name kebab ≡ some n)
    × (length (emitted name kebab) ≡ n)
    × (cased n name kebab ≡ some (emitted name kebab))
cased-emitted_example = cased-emitted name kebab (rw words_lem (omega arith))

abbrev blanks : List ℕ
blanks = 0 ∷ 0 ∷ 0 ∷ 0 ∷ 0 ∷ 0 ∷ 0 ∷ 0 ∷ 0 ∷ 0 ∷ 0 ∷ 0 ∷ 0 ∷ []

joined_fits : length (join kebab (word_list name)) ≤ 13
unfolding join word_list starts_word lower_like sep first rest spell spell_word join_rest
joined_fits = omega arith

write_cased-join_example :
    let joined = join kebab (word_list name) in
    (write_cased name kebab blanks ≡ some (length joined, joined ++ drop (length joined) blanks))
    × (cased (length joined) name kebab ≡ some joined)
    × (length (word_list name) ≡ words name)
write_cased-join_example = write_cased-join name kebab blanks joined_fits
