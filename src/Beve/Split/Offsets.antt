-- ===== src/Beve/Split/Offsets.antt =====
-- Reading a size and a preamble (src/beve/stream/split.rs) out of what is left of a buffer once bytes
-- in front are discarded.
use structio.Prelude.{
  ℕ, zero, suc, ◌+◌, ◌-◌, ◌≤◌, ◌≡◌, refl, sym, ap, ◌∙◌, arith, Option, none, some, List, [], ◌∷◌,
  ◌++◌, length, drop, take, inl, inr,
}
use structio.Error.{ok, err, unexpected_end}
use structio.Beve.Header.{decode_size}
use structio.Beve.Header.Extent.{decode_size-cases}
use structio.Beve.Header.Context.{decode_size-append_length, decode_size-append_length_end}
use structio.Beve.Split.{size_at, head}

drop-nil : (n : ℕ) → drop {A = ℕ} n [] ≡ []
drop-nil zero = refl
drop-nil (suc n) = refl

drop-drop : (c p : ℕ) (xs : List ℕ) → c ≤ p → drop (p - c) (drop c xs) ≡ drop p xs
drop-drop zero p xs h = ap (λ (n : ℕ). drop n xs) (omega arith)
drop-drop (suc c) zero xs h = absurd (omega arith)
drop-drop (suc c) (suc p) [] h = drop-nil (suc p - suc c)
drop-drop (suc c) (suc p) (x ∷ xs) h =
    ap (λ (n : ℕ). drop n (drop c xs)) (omega arith) ∙ drop-drop c p xs (omega arith)

take-drop : (c : ℕ) (xs : List ℕ) → take c xs ++ drop c xs ≡ xs
take-drop zero xs = refl
take-drop (suc c) [] = refl
take-drop (suc c) (x ∷ xs) = ap (λ t. x ∷ t) (take-drop c xs)

length-take : (c : ℕ) (xs : List ℕ) → c ≤ length xs → length (take c xs) ≡ c
length-take zero xs h = refl
length-take (suc c) [] h = absurd (omega arith)
length-take (suc c) (x ∷ xs) h = ap suc (length-take c xs (omega arith))

size_at-some :
    (buf : List ℕ) (p n end : ℕ) → decode_size buf p ≡ ok (n, end) → size_at buf p ≡ some (n, end)
unfolding size_at
size_at-some buf p n end e = rw (e, size_at) refl

size_at-none :
    (buf : List ℕ) (p : ℕ) → decode_size buf p ≡ err unexpected_end → size_at buf p ≡ none
unfolding size_at
size_at-none buf p e = rw (e, size_at) refl

abbrev pub back_size : ℕ → Option (ℕ × ℕ) → Option (ℕ × ℕ)
back_size c none = none
back_size c (some (n, end)) = some (n, end - c)

module _ (buf : List ℕ) (c : ℕ) (p : ℕ) (le : c ≤ p) (inside : p ≤ length buf) where
  pub head-drop : (d : ℕ) → head (drop c buf) (p - c) d ≡ head buf p d
  unfolding head
  head-drop d = rw (drop-drop c p buf le) refl

  pub size_at-drop : size_at (drop c buf) (p - c) ≡ back_size c (size_at buf p)
  size_at-drop = elim (decode_size-cases (drop c buf) (p - c)) [
    | inl (n, end, e, lo, hi) ↦
        rw
          (
            size_at-some (drop c buf) (p - c) n end e,
            size_at-some buf p n (c + end) (whole n end e),
          )
          (ap (λ (t : ℕ). some (n, t)) (omega arith))
    | inr e ↦ rw (size_at-none (drop c buf) (p - c) e, size_at-none buf p (short e)) refl
  ]
    where
      again_whole : take c buf ++ drop c buf ≡ buf
      again_whole = take-drop c buf

      start : length (take c buf) + (p - c) ≡ p
      start = omega (arith, length-take c buf (omega arith))

      whole :
          (n end : ℕ)
          → decode_size (drop c buf) (p - c) ≡ ok (n, end)
          → decode_size buf p ≡ ok (n, c + end)
      whole n end e =
          ap (λ (b : List ℕ). decode_size b p) (sym again_whole)
          ∙ ap (decode_size (take c buf ++ drop c buf)) (sym start)
          ∙ decode_size-append_length (take c buf) (drop c buf) (p - c) n end e
          ∙ ap (λ (t : ℕ). ok (n, t + end)) (length-take c buf (omega arith))

      short :
          decode_size (drop c buf) (p - c) ≡ err unexpected_end
          → decode_size buf p ≡ err unexpected_end
      short e =
          ap (λ (b : List ℕ). decode_size b p) (sym again_whole)
          ∙ ap (decode_size (take c buf ++ drop c buf)) (sym start)
          ∙ decode_size-append_length_end (take c buf) (drop c buf) (p - c) e
