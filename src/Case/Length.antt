-- ===== src/Case/Length.antt =====
-- `cased_len` of src/case.rs is the length of what `write_cased` writes.
use structio.Prelude.{
  ℕ, zero, suc, ◌+◌, ◌-◌, ◌≤◌, ◌≡◌, refl, sym, ap, ◌∙◌, arith, Bool, true, false, ◌&&◌, Option,
  none, some, List, [], ◌∷◌, ◌++◌, ltb, ◌==◌, if◌then◌else◌, length, length-append, get_or, drop,
  inl, inr, Bool-cases, lt→ltb, ==-self,
}
use structio.Case.{
  Style, sep, separator, underscore, starts_word, words_from, words, kept_from, cased_len,
  write_cased, blank, filled, cased,
}
use structio.Case.Written.{
  bytes_of, sep_bytes, begun, spelled, emit_from, emitted, emit_skip, emit_byte, write_from-Writes,
}
use mathlib.Core.List.{append-nil}
use mathlib.Core.Path.{subst}

-- How many bytes so many kept bytes and words come to, with the words begun before.
extent : Option ℕ → ℕ → ℕ → ℕ → ℕ
extent none written k n = k
extent (some c) zero k n = k + (n - 1)
extent (some c) (suc written) k n = k + n

extent_byte :
    (c : Option ℕ) (starts : Bool) (written k n l : ℕ)
    → l ≡ extent c (if starts then suc written else written) k n
    → length (bytes_of (if starts && ltb 0 written then c else none)) + suc l
      ≡ extent c written (suc k) (if starts then suc n else n)
unfolding extent
extent_byte none true zero k n l h = omega arith
extent_byte none true (suc written) k n l h = ground arith
extent_byte none false written k n l h = omega arith
extent_byte (some c) true zero k n l h = omega arith
extent_byte (some c) true (suc written) k n l h = ground arith
extent_byte (some c) false zero k n l h = omega arith
extent_byte (some c) false (suc written) k n l h = omega arith

extent_zero : (c : Option ℕ) (written : ℕ) → extent c written 0 0 ≡ 0
unfolding extent
extent_zero none written = refl
extent_zero (some c) zero = omega arith
extent_zero (some c) (suc written) = omega arith

module _ (b : List ℕ) (i rounds : ℕ) where
  kept_skip :
      (get_or b i 0 == underscore) ≡ true → kept_from b i (suc rounds) ≡ kept_from b (i + 1) rounds
  unfolding kept_from
  kept_skip e = rw (e, kept_from)

  kept_byte :
      (get_or b i 0 == underscore) ≡ false
      → kept_from b i (suc rounds) ≡ suc (kept_from b (i + 1) rounds)
  unfolding kept_from
  kept_byte e = rw (e, kept_from)

  words_skip :
      (get_or b i 0 == underscore) ≡ true
      → words_from b i (suc rounds) ≡ words_from b (i + 1) rounds
  unfolding words_from
  words_skip e = rw (e, words_from)

  words_byte :
      (get_or b i 0 == underscore) ≡ false
      → words_from b i (suc rounds) ≡ (
          if starts_word b i
          then suc (words_from b (i + 1) rounds)
          else words_from b (i + 1) rounds)
  unfolding words_from
  words_byte e = rw (e, words_from)

module _ (b : List ℕ) (s : Style) where
  abbrev later_bytes : ℕ → ℕ → ℕ → List ℕ
  later_bytes rounds i written = emit_from b s (i + 1) (begun b i written) rounds

  length-emit_byte :
      (rounds i written : ℕ)
      → (get_or b i 0 == underscore) ≡ false
      → length (emit_from b s i written (suc rounds))
        ≡ length (sep_bytes s (starts_word b i) written)
          + suc (length (later_bytes rounds i written))
  length-emit_byte rounds i written e = omega (
    arith,
    ap length (emit_byte b s i written rounds e),
    length-append (sep_bytes s (starts_word b i) written ++ spelled b s i written ∷ [])
        (emit_from b s (i + 1) (begun b i written) rounds),
    length-append (sep_bytes s (starts_word b i) written) (spelled b s i written ∷ []),
  )

  -- What is kept and the words from `i` on.
  abbrev counted : Option ℕ → ℕ → ℕ → ℕ → ℕ
  counted c rounds i written = extent c written (kept_from b i rounds) (words_from b i rounds)

  counted_byte :
      (rounds i written : ℕ)
      → (get_or b i 0 == underscore) ≡ false
      → counted (sep s) (suc rounds) i written
        ≡ extent (sep s) written (suc (kept_from b (i + 1) rounds)) (
            if starts_word b i
            then suc (words_from b (i + 1) rounds)
            else words_from b (i + 1) rounds)
  counted_byte rounds i written e =
      ap (extent (sep s) written (kept_from b i (suc rounds))) (words_byte b i rounds e)
      ∙ ap
          (λ (k : ℕ). extent (sep s) written k (
            if starts_word b i
            then suc (words_from b (i + 1) rounds)
            else words_from b (i + 1) rounds))
          (kept_byte b i rounds e)

  length-emit_from :
      (rounds i written : ℕ)
      → length (emit_from b s i written rounds) ≡ counted (sep s) rounds i written
  unfolding separator
  length-emit_from zero i written =
      unfold emit_from kept_from words_from in sym (extent_zero (sep s) written)
  length-emit_from (suc rounds) i written = elim (Bool-cases (get_or b i 0 == underscore)) [
    | inl e ↦
        ap length (emit_skip b s i written rounds e)
        ∙ length-emit_from rounds (i + 1) written
        ∙ sym (
            ap (extent (sep s) written (kept_from b i (suc rounds))) (words_skip b i rounds e)
            ∙ ap (λ (k : ℕ). extent (sep s) written k (words_from b (i + 1) rounds))
                (kept_skip b i rounds e))
    | inr e ↦
        length-emit_byte rounds i written e
        ∙ (extent_byte (sep s) (starts_word b i) written (kept_from b (i + 1) rounds)
            (words_from b (i + 1) rounds) _ (length-emit_from rounds (i + 1) (begun b i written)))
        ∙ sym (counted_byte rounds i written e)
  ]

length-blank : (n : ℕ) → length (blank n) ≡ n
unfolding blank
length-blank zero = refl
length-blank (suc n) = ap suc (length-blank n)

drop-blank : (n : ℕ) → drop n (blank n) ≡ []
unfolding blank
drop-blank zero = refl
drop-blank (suc n) = drop-blank n

total_extent :
    (c : Option ℕ) (k m : ℕ) → 1 ≤ m → extent c 0 k m ≡ elim c [ some d ↦ k + m - 1 | none ↦ k ]
unfolding extent
total_extent none k m h = refl
total_extent (some c) k m h = omega arith

filled_exactly :
    (n : ℕ) (bs : List ℕ)
    → length bs ≡ n
    → filled n (some (length bs, bs ++ drop (length bs) (blank n))) ≡ some bs
unfolding filled
filled_exactly n bs e =
    subst
      (λ (m : ℕ).
        (if length bs == m then some (bs ++ drop (length bs) (blank m)) else none) ≡ some bs)
      e (rw (==-self (length bs), drop-blank (length bs)) (ap some (append-nil bs)))

-- At the length of the converted name, `cased` is that name.
pub cased_exactly :
    (name : List ℕ) (s : Style) → cased (length (emitted name s)) name s ≡ some (emitted name s)
unfolding cased write_cased emitted filled
cased_exactly name s =
    ap (filled n)
      (write_from-Writes name s (length name) 0 0 [] (blank n) (omega (arith, length-blank n)))
    ∙ filled_exactly n (emitted name s) refl
  where
    n : ℕ
    n = length (emitted name s)

-- For a name with a word in it: `cased_len` answers the length of the converted name, and `cased`
-- at that length writes exactly the converted name, without running past its output or leaving a
-- byte of it blank.
pub cased-emitted :
    (name : List ℕ) (s : Style)
    → 1 ≤ words name
    → (n : ℕ) × (cased_len name s ≡ some n)
      × (length (emitted name s) ≡ n)
      × (cased n name s ≡ some (emitted name s))
unfolding cased_len emitted words
cased-emitted name s h = (n, rw (cased_len, lt→ltb 0 (words name) h) refl, len, written)
  where
    n : ℕ
    n = elim (sep s) [
      | some c ↦ kept_from name 0 (length name) + words name - 1
      | none ↦ kept_from name 0 (length name)
    ]

    len : length (emitted name s) ≡ n
    len =
        length-emit_from name s (length name) 0 0
        ∙ total_extent (sep s) (kept_from name 0 (length name)) (words name) h

    written : cased n name s ≡ some (emitted name s)
    written = subst (λ (k : ℕ). cased k name s ≡ some (emitted name s)) len (cased_exactly name s)
