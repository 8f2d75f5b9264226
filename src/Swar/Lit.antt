-- ===== src/Swar/Lit.antt =====
-- src/swar.rs: what a mask says of the bytes that it was built from. Only the lowest bit is sure.
use structio.Prelude.{
  ℕ, ◌+◌, ◌*◌, ◌≤◌, ◌<◌, ◌≡◌, refl, ap, ◌∙◌, arith, bit_or, Bool, true, false, ◌||◌, inl, inr,
  Bool-cases, List, [], ◌∷◌, map, All, length, ltb, ltb→lt, ltb→le,
}
use structio.Beve.Header.Size.{IsByte}
use structio.Prelude.Bits.{zero-bit_or}
use structio.Swar.{word}
use structio.Swar.Bytes.{Apart-bit_or}
use structio.Swar.Masks.{cap, repeat, repeat-lt, below, below-dark, below-lit}

-- The first byte that passes lights its high bit, and no lower one is lit.
pub data Lit (p : ℕ → Bool) : List ℕ → ℕ → Type 0 where
  none_left : {m : ℕ} → m ≡ 0 → Lit p [] m
  here : {x m : ℕ} {xs : List ℕ} (d : ℕ) → p x ≡ true → m ≡ 128 + 256 * d → Lit p (x ∷ xs) m
  later :
      {x m : ℕ} {xs : List ℕ} (n : ℕ) → p x ≡ false → m ≡ 256 * n → Lit p xs n → Lit p (x ∷ xs) m

pub word-lt : (xs : List ℕ) → All IsByte xs → word xs < cap (length xs)
word-lt [] h = omega arith
word-lt (x ∷ xs) (h, t) = omega (arith, word-lt xs t)

-- The bytes below a limit, in a word that is any function of them.
pub below-Lit :
    (q : ℕ)
    → q ≤ 128
    → (xs : List ℕ) → All IsByte xs
    → Lit (λ x. ltb x q) xs (below (length xs) (word xs) (repeat (length xs) q) (word xs))
below-Lit q low [] h = Lit.none_left refl
below-Lit q low (x ∷ xs) (h, t) = elim (Bool-cases (ltb x q)) [
  | inl e ↦
      let (d, eq) =
        below-lit (length xs) x q (word xs) (repeat (length xs) q) h low (word-lt xs t)
          (repeat-lt (length xs) q (omega arith)) (ltb→lt x q e) in
      Lit.here d e eq
  | inr e ↦
      Lit.later (below (length xs) (word xs) (repeat (length xs) q) (word xs)) e
        (below-dark (length xs) x q (word xs) (repeat (length xs) q) h low (word-lt xs t)
          (repeat-lt (length xs) q (omega arith)) (ltb→le x q e))
        (below-Lit q low xs t)
]

-- A mask of the bytes changed one by one is a mask of the bytes.
pub map-Lit :
    (p : ℕ → Bool) (f : ℕ → ℕ) (xs : List ℕ) (m : ℕ) → Lit p (map f xs) m → Lit (λ x. p (f x)) xs m
map-Lit p f [] m (Lit.none_left e) = Lit.none_left e
map-Lit p f (x ∷ xs) m (Lit.here d e eq) = Lit.here d e eq
map-Lit p f (x ∷ xs) m (Lit.later n e eq l) = Lit.later n e eq (map-Lit p f xs n l)

pub same-Lit :
    (p r : ℕ → Bool)
    → ((x : ℕ) → x < 256 → r x ≡ p x)
    → (xs : List ℕ) (m : ℕ) → All IsByte xs
    → Lit p xs m
    → Lit r xs m
same-Lit p r same [] m h (Lit.none_left e) = Lit.none_left e
same-Lit p r same (x ∷ xs) m (h, t) (Lit.here d e eq) = Lit.here d (same x h ∙ e) eq
same-Lit p r same (x ∷ xs) m (h, t) (Lit.later n e eq l) =
    Lit.later n (same x h ∙ e) eq (same-Lit p r same xs n t l)

two_words : {m m' n n' : ℕ} → m ≡ m' → n ≡ n' → bit_or m n ≡ bit_or m' n'
two_words e f = cc

or-join :
    (a b x y m n : ℕ)
    → a < 256
    → b < 256
    → m ≡ a + 256 * x
    → n ≡ b + 256 * y
    → bit_or m n ≡ bit_or a b + 256 * bit_or x y
or-join a b x y m n h l e f = two_words e f ∙ Apart-bit_or a b x y h l

either : {b c r : Bool} → b ≡ false → c ≡ r → (b || c) ≡ r
either {c} e f = ap (λ (t : Bool). t || c) e ∙ f

-- An or of masks marks the first byte that passes either test.
pub or-Lit :
    (p r : ℕ → Bool) (xs : List ℕ) (m n : ℕ)
    → Lit p xs m
    → Lit r xs n
    → Lit (λ x. p x || r x) xs (bit_or m n)
or-Lit p r [] m n (Lit.none_left e) (Lit.none_left f) =
    Lit.none_left (two_words e f ∙ zero-bit_or 0)
or-Lit p r (x ∷ xs) m n (Lit.here d e eq) (Lit.here d' e' eq') =
    Lit.here (bit_or d d') (ap (λ (t : Bool). t || r x) e) (
      or-join 128 128 d d' m n (omega arith) (omega arith) (omega (arith, eq)) (omega (arith, eq')))
or-Lit p r (x ∷ xs) m n (Lit.here d e eq) (Lit.later n' e' eq' l) =
    Lit.here (bit_or d n') (ap (λ (t : Bool). t || r x) e)
      (or-join 128 0 d n' m n (omega arith) (omega arith) (omega (arith, eq)) (omega (arith, eq')))
or-Lit p r (x ∷ xs) m n (Lit.later m' e eq l) (Lit.here d e' eq') =
    Lit.here (bit_or m' d) (either e e')
      (or-join 0 128 m' d m n (omega arith) (omega arith) (omega (arith, eq)) (omega (arith, eq')))
or-Lit p r (x ∷ xs) m n (Lit.later m' e eq l) (Lit.later n' e' eq' l') =
    Lit.later (bit_or m' n') (either e e')
      (omega (
        arith,
        or-join 0 0 m' n' m n (omega arith) (omega arith) (omega (arith, eq)) (omega (arith, eq')),
      ))
      (or-Lit p r xs m' n' l l')
