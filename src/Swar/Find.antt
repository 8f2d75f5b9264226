-- ===== src/Swar/Find.antt =====
-- src/swar.rs: `find_byte` word by word against the first place that holds the byte, and the first byte to escape.
use structio.Prelude.{
  ℕ, zero, suc, ◌+◌, ◌≤◌, ◌<◌, ◌≡◌, refl, sym, ap, ◌∙◌, arith, Bool, true, false, inl, inr,
  Bool-cases, List, [], ◌∷◌, ◌++◌, All, length, length-drop, length-take, take, drop, take-drop,
  get_elem?, get_elem?-ge, Option, none, some, Option-cases, leb, leb→le, ◌==◌, if◌then◌else◌,
}
use structio.Beve.Header.Size.{IsByte}
use structio.Swar.{
  word, load_u64, eq_mask, escape_mask, needs_escape, first_match, find_byte, find_bytes,
  find_words,
}
use structio.Swar.Found.{first_at, or_else, word_answer}
use structio.Swar.Eight.{eq_mask-Lit, escape_mask-Lit}

take-IsByte : (n : ℕ) (xs : List ℕ) → All IsByte xs → All IsByte (take n xs)
take-IsByte zero xs h = tt
take-IsByte (suc n) [] h = tt
take-IsByte (suc n) (x ∷ xs) (h, t) = (h, take-IsByte n xs t)

drop-IsByte : (n : ℕ) (xs : List ℕ) → All IsByte xs → All IsByte (drop n xs)
drop-IsByte zero xs h = h
drop-IsByte (suc n) [] h = h
drop-IsByte (suc n) (x ∷ xs) (h, t) = drop-IsByte n xs t

drop-none : (n : ℕ) → drop {A = ℕ} n [] ≡ []
drop-none zero = refl
drop-none (suc n) = refl

drop-drop : (n m : ℕ) (xs : List ℕ) → drop m (drop n xs) ≡ drop (n + m) xs
drop-drop zero m xs = ap (λ (k : ℕ). drop k xs) (omega arith)
drop-drop (suc n) m [] = drop-none m ∙ sym (drop-none (suc n + m))
drop-drop (suc n) m (x ∷ xs) = drop-drop n m xs ∙ ap (λ (k : ℕ). drop k (x ∷ xs)) shift
  where
    shift : suc (n + m) ≡ suc n + m
    shift = omega arith

some_inj : {a b : ℕ} → some a ≡ some b → a ≡ b
some_inj e = cc

drop-get_elem? :
    (i : ℕ) (xs : List ℕ) (c : ℕ) → get_elem? xs i ≡ some c → drop i xs ≡ c ∷ drop (suc i) xs
drop-get_elem? zero (x ∷ xs) c e = ap (λ (t : ℕ). t ∷ xs) (some_inj e)
drop-get_elem? i [] c e = cc
drop-get_elem? (suc i) (x ∷ xs) c e = drop-get_elem? i xs c e

drop-past : (i : ℕ) (xs : List ℕ) → length xs ≤ i → drop i xs ≡ []
drop-past zero [] h = refl
drop-past zero (x ∷ xs) h = absurd (omega arith)
drop-past (suc i) [] h = refl
drop-past (suc i) (x ∷ xs) h = drop-past i xs (omega arith)

if-or_else :
    (t : Bool) (i : ℕ) (rest later : Option ℕ)
    → (if t then some i else or_else rest later) ≡ or_else (if t then some i else rest) later
if-or_else true i rest later = refl
if-or_else false i rest later = refl

module _ (p : ℕ → Bool) where
  pub first_at-append :
      (xs ys : List ℕ) (i : ℕ)
      → first_at p (xs ++ ys) i ≡ or_else (first_at p xs i) (first_at p ys (i + length xs))
  unfolding first_at
  first_at-append [] ys i = ap (first_at p ys) (omega arith)
  first_at-append (x ∷ xs) ys i =
      ap (λ (o : Option ℕ). if p x then some i else o)
        (first_at-append xs ys (i + 1)
          ∙ ap (λ (k : ℕ). or_else (first_at p xs (i + 1)) (first_at p ys k)) (omega arith))
      ∙ if-or_else (p x) i (first_at p xs (i + 1)) (first_at p ys (i + suc (length xs)))

  first_at-take :
      (n : ℕ) (xs : List ℕ) (i : ℕ)
      → n ≤ length xs
      → first_at p xs i ≡ or_else (first_at p (take n xs) i) (first_at p (drop n xs) (i + n))
  first_at-take n xs i h =
      ap (λ (t : List ℕ). first_at p t i) (sym (take-drop n xs))
      ∙ first_at-append (take n xs) (drop n xs) i
      ∙ ap (λ (k : ℕ). or_else (first_at p (take n xs) i) (first_at p (drop n xs) (i + k)))
          (length-take n xs h)

abbrev look : ℕ → ℕ → Option ℕ → Option ℕ → Option ℕ
look b i later none = none
look b i later (some c) = if c == b then some i else later

module _ (bytes : List ℕ) (b : ℕ) where
  bytes_step :
      (rounds i : ℕ)
      → find_bytes (suc rounds) bytes i b
        ≡ look b i (find_bytes rounds bytes (i + 1) b) (get_elem? bytes i)
  unfolding find_bytes
  bytes_step rounds i = go (get_elem? bytes i)
    where
      go :
          (o : Option ℕ)
          → (elim o as (λ _. Option ℕ) [
            | none ↦ none
            | some c ↦ if c == b then some i else find_bytes rounds bytes (i + 1) b
          ])
            ≡ look b i (find_bytes rounds bytes (i + 1) b) o
      go none = refl
      go (some c) = refl

  -- The loop over bytes, from an index.
  find_bytes-first_at :
      (rounds i : ℕ)
      → length bytes < i + rounds
      → find_bytes rounds bytes i b ≡ first_at (λ x. x == b) (drop i bytes) i
  unfolding find_bytes first_at
  find_bytes-first_at zero i h =
      ap (λ (t : List ℕ). first_at (λ x. x == b) t i) (sym (drop-past i bytes (omega arith)))
  find_bytes-first_at (suc rounds) i h = elim (Option-cases (get_elem? bytes i)) [
    | inl e ↦
        bytes_step rounds i
        ∙ ap (look b i (find_bytes rounds bytes (i + 1) b)) e
        ∙ ap (λ (t : List ℕ). first_at (λ x. x == b) t i)
            (sym (drop-past i bytes (get_elem?-ge bytes i e)))
    | inr (c, e) ↦
        bytes_step rounds i
        ∙ ap (look b i (find_bytes rounds bytes (i + 1) b)) e
        ∙ ap (λ (o : Option ℕ). if c == b then some i else o)
            (find_bytes-first_at rounds (i + 1) (omega arith)
              ∙ ap (λ (k : ℕ). first_at (λ x. x == b) (drop k bytes) (i + 1)) plus_one)
        ∙ ap (λ (t : List ℕ). first_at (λ x. x == b) t i) (sym (drop-get_elem? i bytes c e))
  ]
    where
      plus_one : i + 1 ≡ suc i
      plus_one = omega arith

  word_step :
      (i : ℕ) (later : Option ℕ)
      → All IsByte bytes
      → b < 256
      → i + 8 ≤ length bytes
      → later ≡ first_at (λ x. x == b) (drop (i + 8) bytes) (i + 8)
      → (if eq_mask (load_u64 bytes i) b == 0
          then later
          else some (i + first_match (eq_mask (load_u64 bytes i) b)))
        ≡ first_at (λ x. x == b) (drop i bytes) i
  unfolding load_u64
  word_step i later h l fits rest =
      let xs = take 8 (drop i bytes) in
      let enough : 8 ≤ length (drop i bytes) = omega (arith, length-drop i bytes) in
      let eight = length-take 8 (drop i bytes) enough in
      word_answer (λ x. x == b) xs i (eq_mask (word xs) b) later eight
        (eq_mask-Lit xs (take-IsByte 8 (drop i bytes) (drop-IsByte i bytes h)) eight b l)
      ∙ ap (or_else (first_at (λ x. x == b) xs i))
          (rest ∙ ap (λ (t : List ℕ). first_at (λ x. x == b) t (i + 8)) (sym (drop-drop i 8 bytes)))
      ∙ sym (first_at-take (λ x. x == b) 8 (drop i bytes) i enough)

  find_words-first_at :
      (rounds i : ℕ)
      → All IsByte bytes
      → b < 256
      → length bytes < i + rounds
      → find_words rounds bytes i b ≡ first_at (λ x. x == b) (drop i bytes) i
  unfolding find_words first_at
  find_words-first_at zero i h l r =
      ap (λ (t : List ℕ). first_at (λ x. x == b) t i) (sym (drop-past i bytes (omega arith)))
  find_words-first_at (suc rounds) i h l r = elim (Bool-cases (leb (i + 8) (length bytes))) [
    | inl e ↦
        ap (λ (t : Bool). if t then whole_word else find_bytes (suc (length bytes)) bytes i b) e
        ∙ word_step i (find_words rounds bytes (i + 8) b) h l (leb→le (i + 8) (length bytes) e)
            (find_words-first_at rounds (i + 8) h l (omega arith))
    | inr e ↦
        ap (λ (t : Bool). if t then whole_word else find_bytes (suc (length bytes)) bytes i b) e
        ∙ find_bytes-first_at (suc (length bytes)) i (omega arith)
  ]
    where
      whole_word : Option ℕ
      whole_word =
          if eq_mask (load_u64 bytes i) b == 0
          then find_words rounds bytes (i + 8) b
          else some (i + first_match (eq_mask (load_u64 bytes i) b))

-- On bytes, `find_byte` returns the index of the first byte from the given offset on that equals the one looked
-- for, or none where there is no such byte: the scan by words, its masks and the scan of the last bytes
-- together are the plain search.
pub find_byte-first_at :
    (bytes : List ℕ) (from b : ℕ)
    → All IsByte bytes
    → b < 256
    → find_byte bytes from b ≡ first_at (λ x. x == b) (drop from bytes) from
unfolding find_byte
find_byte-first_at bytes from b h l =
    find_words-first_at bytes b (suc (length bytes)) from h l (omega arith)

-- The mask of eight bytes for the string escapes is zero exactly where none of the eight needs an escape, and
-- its first match is the index of the first that does.
pub escape_mask-first_at :
    (xs : List ℕ)
    → All IsByte xs
    → length xs ≡ 8
    → (if escape_mask (word xs) == 0 then none else some (first_match (escape_mask (word xs))))
      ≡ first_at needs_escape xs 0
escape_mask-first_at xs h n =
    ap (λ (k : ℕ). if escape_mask (word xs) == 0 then none else some k) (omega arith)
    ∙ word_answer needs_escape xs 0 (escape_mask (word xs)) none n (escape_mask-Lit xs h n)
    ∙ or_else-none (first_at needs_escape xs 0)
  where
    or_else-none : (o : Option ℕ) → or_else o none ≡ o
    or_else-none none = refl
    or_else-none (some j) = refl
