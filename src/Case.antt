-- ===== src/Case.antt =====
-- src/case.rs: spelling a name by a case rule. A name is its bytes; `none` is a panic, which there
-- stops the build.
pub mod Written
pub mod Length
pub mod Words
use structio.Prelude.{
  ℕ, zero, suc, ◌+◌, ◌-◌, Bool, true, false, not, ◌&&◌, ◌||◌, Option, none, some, List, [], ◌∷◌,
  ltb, leb, ◌==◌, if◌then◌else◌, length, get_or, store, drop,
}

-- `Style`
pub data Style : Type 0 where
  lower upper pascal camel snake screaming_snake kebab screaming_kebab : Style

-- `Word`
pub data Word : Type 0 where
  lower upper title : Word

abbrev pub underscore : ℕ
underscore = 95

unfoldable pub sep : Style → Option ℕ
sep snake = some 95
sep screaming_snake = some 95
sep kebab = some 45
sep screaming_kebab = some 45
sep _ = none

unfoldable pub rest : Style → Word
rest lower = Word.lower
rest snake = Word.lower
rest kebab = Word.lower
rest upper = Word.upper
rest screaming_snake = Word.upper
rest screaming_kebab = Word.upper
rest pascal = title
rest camel = title

unfoldable pub first : Style → Word
unfolding rest
first camel = Word.lower
first other = rest other

-- The loop of `eq` from `i`, in the rounds that are left.
unfoldable pub eq_from : List ℕ → List ℕ → ℕ → ℕ → Bool
eq_from a b i zero = true
eq_from a b i (suc rounds) =
    let later = eq_from a b (i + 1) rounds in
    if not (get_or a i 0 == get_or b i 0) then false else later

unfoldable pub eq : List ℕ → List ℕ → Bool
eq a b = if not (length a == length b) then false else eq_from a b 0 (length a)

-- The names of the rules.
abbrev pub rule_name : Style → List ℕ
rule_name lower = 108 ∷ 111 ∷ 119 ∷ 101 ∷ 114 ∷ 99 ∷ 97 ∷ 115 ∷ 101 ∷ []
rule_name upper = 85 ∷ 80 ∷ 80 ∷ 69 ∷ 82 ∷ 67 ∷ 65 ∷ 83 ∷ 69 ∷ []
rule_name pascal = 80 ∷ 97 ∷ 115 ∷ 99 ∷ 97 ∷ 108 ∷ 67 ∷ 97 ∷ 115 ∷ 101 ∷ []
rule_name camel = 99 ∷ 97 ∷ 109 ∷ 101 ∷ 108 ∷ 67 ∷ 97 ∷ 115 ∷ 101 ∷ []
rule_name snake = 115 ∷ 110 ∷ 97 ∷ 107 ∷ 101 ∷ 95 ∷ 99 ∷ 97 ∷ 115 ∷ 101 ∷ []
rule_name screaming_snake =
    83 ∷ 67 ∷ 82 ∷ 69 ∷ 65 ∷ 77 ∷ 73 ∷ 78 ∷ 71 ∷ 95 ∷ 83 ∷ 78 ∷ 65 ∷ 75 ∷ 69 ∷ 95 ∷ 67 ∷ 65 ∷ 83
    ∷ 69 ∷ []
rule_name kebab = 107 ∷ 101 ∷ 98 ∷ 97 ∷ 98 ∷ 45 ∷ 99 ∷ 97 ∷ 115 ∷ 101 ∷ []
rule_name screaming_kebab =
    83 ∷ 67 ∷ 82 ∷ 69 ∷ 65 ∷ 77 ∷ 73 ∷ 78 ∷ 71 ∷ 45 ∷ 75 ∷ 69 ∷ 66 ∷ 65 ∷ 66 ∷ 45 ∷ 67 ∷ 65 ∷ 83
    ∷ 69 ∷ []

unfoldable pub style : List ℕ → Option Style
style rule =
    if eq rule (rule_name lower)
    then some lower
    else if eq rule (rule_name upper)
    then some upper
    else if eq rule (rule_name pascal)
    then some pascal
    else if eq rule (rule_name camel)
    then some camel
    else if eq rule (rule_name snake)
    then some snake
    else if eq rule (rule_name screaming_snake)
    then some screaming_snake
    else if eq rule (rule_name kebab)
    then some kebab
    else if eq rule (rule_name screaming_kebab)
    then some screaming_kebab
    else none

-- `u8::is_ascii_uppercase` and its kin
abbrev pub is_upper : ℕ → Bool
is_upper b = leb 65 b && leb b 90

abbrev pub is_lower : ℕ → Bool
is_lower b = leb 97 b && leb b 122

abbrev pub is_digit : ℕ → Bool
is_digit b = leb 48 b && leb b 57

abbrev pub to_lower : ℕ → ℕ
to_lower b = if is_upper b then b + 32 else b

abbrev pub to_upper : ℕ → ℕ
to_upper b = if is_lower b then b - 32 else b

unfoldable pub lower_like : ℕ → Bool
lower_like b = is_lower b || leb 128 b

-- `b[j]` in front of `b[i]`, with no separator between them.
breaks : List ℕ → ℕ → ℕ → Bool
breaks b i before =
    if not (is_upper (get_or b i 0))
    then false
    else if lower_like before || is_digit before
    then true
    else if is_upper before
    then ltb (i + 1) (length b) && lower_like (get_or b (i + 1) 0)
    else false

-- The loop of `starts_word`, at `j`.
pub starts_from : List ℕ → ℕ → ℕ → Bool
unfolding breaks
starts_from b i zero = true
starts_from b i (suc j) =
    let back = starts_from b i j in
    if get_or b j 0 == underscore
    then back
    else if not (suc j == i)
    then true
    else breaks b i (get_or b j 0)

unfoldable pub starts_word : List ℕ → ℕ → Bool
unfolding starts_from
starts_word b i = starts_from b i i

-- The loop of `words`, at `i` in the rounds that are left.
pub words_from : List ℕ → ℕ → ℕ → ℕ
words_from b i zero = 0
words_from b i (suc rounds) =
    let later = words_from b (i + 1) rounds in
    if not (get_or b i 0 == underscore) && starts_word b i then suc later else later

unfoldable pub words : List ℕ → ℕ
unfolding words_from
words b = words_from b 0 (length b)

-- The loop of `cased_len`, likewise.
pub kept_from : List ℕ → ℕ → ℕ → ℕ
kept_from b i zero = 0
kept_from b i (suc rounds) =
    let later = kept_from b (i + 1) rounds in
    if not (get_or b i 0 == underscore) then suc later else later

unfoldable pub cased_len : List ℕ → Style → Option ℕ
unfolding kept_from
cased_len name s =
    let kept = kept_from name 0 (length name) in
    if ltb 0 (words name)
    then some (elim (sep s) [ some c ↦ kept + words name - 1 | none ↦ kept ])
    else none

unfoldable pub spell : Word → Bool → ℕ → ℕ
spell Word.lower starts b = to_lower b
spell Word.upper starts b = to_upper b
spell title starts b = if starts then to_upper b else to_lower b

unfoldable pub spelling : Style → ℕ → Word
spelling s written = if written == 1 then first s else rest s

put : ℕ → Option (ℕ × List ℕ) → Option (ℕ × List ℕ)
put v none = none
put v (some (o, out)) = elim (store o v out) [ none ↦ none | some out' ↦ some (o + 1, out') ]

-- The separator that goes in front of a word that is not the first.
unfoldable pub separator : Style → Bool → ℕ → Option ℕ
separator s starts written = if starts && ltb 0 written then sep s else none

separated : Option ℕ → ℕ × List ℕ → Option (ℕ × List ℕ)
unfolding put
separated none out = some out
separated (some c) out = put c (some out)

-- One round of the loop of `write_cased` at a byte that is kept, with the words begun so far.
pub write_byte : List ℕ → Style → ℕ → ℕ → ℕ × List ℕ → Option (ℕ × List ℕ)
unfolding separated put
write_byte b s i written out =
    let starts = starts_word b i in
    let now = if starts then suc written else written in
    put (spell (spelling s now) starts (get_or b i 0)) (separated (separator s starts written) out)

pub write_from : List ℕ → Style → ℕ → ℕ → ℕ → Option (ℕ × List ℕ) → Option (ℕ × List ℕ)
write_from b s i written zero x = x
write_from b s i written (suc rounds) none = none
write_from b s i written (suc rounds) (some out) = elim (get_or b i 0 == underscore) [
  | true ↦ write_from b s (i + 1) written rounds (some out)
  | false ↦
      write_from b s (i + 1) (if starts_word b i then suc written else written) rounds
        (write_byte b s i written out)
]

-- How many bytes were written, and the output.
unfoldable pub write_cased : List ℕ → Style → List ℕ → Option (ℕ × List ℕ)
unfolding write_from write_byte
write_cased name s out = write_from name s 0 0 (length name) (some (0, out))

blank : ℕ → List ℕ
blank zero = []
blank (suc n) = 0 ∷ blank n

filled : ℕ → Option (ℕ × List ℕ) → Option (List ℕ)
filled n none = none
filled n (some (o, out)) = if o == n then some out else none

-- `cased::<N>`
unfoldable pub cased : ℕ → List ℕ → Style → Option (List ℕ)
unfolding blank filled
cased n name s = filled n (write_cased name s (blank n))

unfoldable pub unraw : List ℕ → List ℕ
unraw name =
    if ltb 2 (length name) && get_or name 0 0 == 114 && get_or name 1 0 == 35
    then drop 2 name
    else name
