-- ===== src/Case/Written.antt =====
-- `write_cased` and `cased_len` of src/case.rs against the bytes of the converted name.
use structio.Prelude.{
  ℕ, zero, suc, ◌+◌, ◌≤◌, ◌≡◌, sym, ap, ◌∙◌, arith, Bool, true, false, Option, none, some, List, [],
  ◌∷◌, ◌++◌, ◌==◌, if◌then◌else◌, length, length-append, length-drop, drop-drop, get_or,
  store-append_length, drop, inl, inr, Bool-cases,
}
use structio.Case.{
  Style, underscore, starts_word, spell, spelling, separator, separated, put, write_byte,
  write_from,
}
use mathlib.Core.List.{append-nil, append_assoc}
use mathlib.Core.Path.{subst}

-- The separator in front of a word that is not the first.
abbrev pub bytes_of : Option ℕ → List ℕ
bytes_of none = []
bytes_of (some c) = c ∷ []

abbrev pub sep_bytes : Style → Bool → ℕ → List ℕ
sep_bytes s starts written = bytes_of (separator s starts written)

-- The words begun, once the byte at `i` is written.
abbrev pub begun : List ℕ → ℕ → ℕ → ℕ
begun b i written = if starts_word b i then suc written else written

abbrev pub spelled : List ℕ → Style → ℕ → ℕ → ℕ
spelled b s i written = spell (spelling s (begun b i written)) (starts_word b i) (get_or b i 0)

-- The bytes that the loop writes from `i` on.
unfoldable pub emit_from : List ℕ → Style → ℕ → ℕ → ℕ → List ℕ
emit_from b s i written zero = []
emit_from b s i written (suc rounds) =
    let skipped = emit_from b s (i + 1) written rounds in
    let later = emit_from b s (i + 1) (begun b i written) rounds in
    if get_or b i 0 == underscore
    then skipped
    else sep_bytes s (starts_word b i) written ++ (spelled b s i written ∷ later)

unfoldable pub emitted : List ℕ → Style → List ℕ
emitted name s = emit_from name s 0 0 (length name)

-- What is written, then what is still blank.
abbrev pub output : List ℕ → List ℕ → ℕ × List ℕ
output pre tail = (length pre, pre ++ tail)

-- From `pre`, the bytes `bs` were written over the first bytes of `tail`.
abbrev pub Writes : List ℕ → List ℕ → List ℕ → Option (ℕ × List ℕ) → Type 0
Writes bs pre tail x = x ≡ some (output (pre ++ bs) (drop (length bs) tail))

put-Writes :
    (pre tail : List ℕ) (v : ℕ)
    → 1 ≤ length tail
    → Writes (v ∷ []) pre tail (put v (some (output pre tail)))
unfolding put
put-Writes pre [] v h = absurd (omega arith)
put-Writes pre (x ∷ tail) v h =
    rw (put, store-append_length pre tail x v, sym (append_assoc pre (v ∷ []) tail))
      (ap (λ (n : ℕ). some (n, (pre ++ v ∷ []) ++ tail))
        (omega (arith, length-append pre (v ∷ []))))

separated-Writes :
    (c : Option ℕ) (pre tail : List ℕ)
    → length (bytes_of c) ≤ length tail
    → Writes (bytes_of c) pre tail (separated c (output pre tail))
unfolding separated
separated-Writes none pre tail h =
    ap (λ (t : List ℕ). some (length t, t ++ tail)) (sym (append-nil pre))
separated-Writes (some c) pre tail h = put-Writes pre tail c h

-- Two writes, one after the other.
both :
    (bs cs pre tail : List ℕ)
    → some (output ((pre ++ bs) ++ cs) (drop (length cs) (drop (length bs) tail)))
      ≡ some (output (pre ++ (bs ++ cs)) (drop (length (bs ++ cs)) tail))
both bs cs pre tail =
    ap (λ (p : List ℕ). some (output p (drop (length cs) (drop (length bs) tail))))
      (append_assoc pre bs cs)
    ∙ ap (λ (t : List ℕ). some (output (pre ++ (bs ++ cs)) t))
        (drop-drop (length cs) (length bs) tail)
    ∙ ap (λ (n : ℕ). some (output (pre ++ (bs ++ cs)) (drop n tail))) (sym (length-append bs cs))

module _ (b : List ℕ) (s : Style) where
  -- What one round writes.
  abbrev pub byte_bytes : ℕ → ℕ → List ℕ
  byte_bytes i written = sep_bytes s (starts_word b i) written ++ spelled b s i written ∷ []

  write_byte-Writes :
      (i written : ℕ) (pre tail : List ℕ)
      → length (byte_bytes i written) ≤ length tail
      → Writes (byte_bytes i written) pre tail (write_byte b s i written (output pre tail))
  unfolding write_byte
  write_byte-Writes i written pre tail h =
      ap (put (spelled b s i written))
        (separated-Writes c pre tail (omega (arith, h, length-append (bytes_of c) one)))
      ∙ put-Writes (pre ++ bytes_of c) (drop (length (bytes_of c)) tail) (spelled b s i written)
          (omega (arith, h, length-append (bytes_of c) one, length-drop (length (bytes_of c)) tail))
      ∙ both (bytes_of c) one pre tail
    where
      c : Option ℕ
      c = separator s (starts_word b i) written

      one : List ℕ
      one = spelled b s i written ∷ []

  module _ (i written rounds : ℕ) where
    pub emit_skip :
        (get_or b i 0 == underscore) ≡ true
        → emit_from b s i written (suc rounds) ≡ emit_from b s (i + 1) written rounds
    unfolding emit_from
    emit_skip e = rw (e, emit_from)

    pub emit_byte :
        (get_or b i 0 == underscore) ≡ false
        → emit_from b s i written (suc rounds)
          ≡ byte_bytes i written ++ emit_from b s (i + 1) (begun b i written) rounds
    unfolding emit_from
    emit_byte e =
        rw (e, emit_from)
          (sym
            (append_assoc (sep_bytes s (starts_word b i) written) (spelled b s i written ∷ []) _))

    write_skip :
        (out : ℕ × List ℕ)
        → (get_or b i 0 == underscore) ≡ true
        → write_from b s i written (suc rounds) (some out)
          ≡ write_from b s (i + 1) written rounds (some out)
    unfolding write_from
    write_skip out e = rw (e, write_from)

    write_one :
        (out : ℕ × List ℕ)
        → (get_or b i 0 == underscore) ≡ false
        → write_from b s i written (suc rounds) (some out)
          ≡ write_from b s (i + 1) (begun b i written) rounds (write_byte b s i written out)
    unfolding write_from
    write_one out e = rw (e, write_from)

  -- The bytes `bs` are written by `x` over `tail`.
  abbrev Ends : List ℕ → List ℕ → Option (ℕ × List ℕ) → List ℕ → Type 0
  Ends pre tail x bs = Writes bs pre tail x

  pub write_from-Writes :
      (rounds i written : ℕ) (pre tail : List ℕ)
      → length (emit_from b s i written rounds) ≤ length tail
      → Writes
          (emit_from b s i written rounds)
          pre
          tail
          (write_from b s i written rounds (some (output pre tail)))
  write_from-Writes zero i written pre tail h =
      unfold write_from emit_from in
      ap (λ (t : List ℕ). some (length t, t ++ tail)) (sym (append-nil pre))
  write_from-Writes (suc rounds) i written pre tail h =
      elim (Bool-cases (get_or b i 0 == underscore)) [
        | inl e ↦ subst (Ends pre tail _) (sym (emit_skip i written rounds e)) (
            write_skip i written rounds (output pre tail) e
            ∙ write_from-Writes rounds (i + 1) written pre tail
                (omega (arith, h, ap length (emit_skip i written rounds e))))
        | inr e ↦ subst (Ends pre tail _) (sym (emit_byte i written rounds e)) (
            write_one i written rounds (output pre tail) e
            ∙ ap (write_from b s (i + 1) (begun b i written) rounds)
                (write_byte-Writes i written pre tail (first_fits e))
            ∙ write_from-Writes rounds (i + 1) (begun b i written) (pre ++ byte_bytes i written)
                (drop (length (byte_bytes i written)) tail) (rest_fits e)
            ∙ both (byte_bytes i written) _ pre tail)
      ]
    where
      sum :
          (get_or b i 0 == underscore) ≡ false
          → length (byte_bytes i written)
              + length (emit_from b s (i + 1) (begun b i written) rounds)
            ≤ length tail
      sum e = omega (
        arith,
        h,
        ap length (emit_byte i written rounds e),
        length-append (byte_bytes i written) (emit_from b s (i + 1) (begun b i written) rounds),
      )

      first_fits :
          (get_or b i 0 == underscore) ≡ false → length (byte_bytes i written) ≤ length tail
      first_fits e = omega (arith, sum e)

      rest_fits :
          (get_or b i 0 == underscore) ≡ false
          → length (emit_from b s (i + 1) (begun b i written) rounds)
            ≤ length (drop (length (byte_bytes i written)) tail)
      rest_fits e = omega (arith, sum e, length-drop (length (byte_bytes i written)) tail)
