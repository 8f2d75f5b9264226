-- ===== src/Swar/Found.antt =====
-- src/swar.rs: the first match of a mask, and the scan that asks for it.
use structio.Prelude.{
  ℕ, zero, suc, ◌+◌, ◌-◌, ◌*◌, ◌/◌, ◌%◌, ◌^◌, ◌≤◌, ◌≡◌, ◌≢◌, refl, sym, ap, ◌∙◌, arith, Bool, true,
  false, List, [], ◌∷◌, length, Option, none, some, ◌==◌, if◌then◌else◌,
}
use structio.Prelude.Bits.{double_shift}
use structio.Swar.{trailing_zeros, first_match}
use structio.Swar.Lit.{Lit}

-- The place of the first element that passes, counted from `i`.
unfoldable pub first_at : (ℕ → Bool) → List ℕ → ℕ → Option ℕ
first_at p [] i = none
first_at p (x ∷ xs) i = let rest = first_at p xs (i + 1) in if p x then some i else rest

module _ (k m n : ℕ) where
  decided :
      (d : ℕ)
      → m % 2 ≡ d
      → m / 2 ≡ n
      → trailing_zeros (suc k) m ≡ (if d == 1 then 0 else suc (trailing_zeros k n))
  unfolding trailing_zeros
  decided d e f =
      ap (λ (t : ℕ). if t == 1 then 0 else suc (trailing_zeros k (m / 2))) e
      ∙ ap (λ (t : ℕ). if d == 1 then 0 else suc (trailing_zeros k t)) f

  trailing_zeros-even : m ≡ 2 * n → trailing_zeros (suc k) m ≡ suc (trailing_zeros k n)
  trailing_zeros-even e = decided 0 (omega (arith, e)) (omega (arith, e))

  trailing_zeros-odd : m ≡ 1 + 2 * n → trailing_zeros (suc k) m ≡ 0
  trailing_zeros-odd e = decided 1 (omega (arith, e)) (omega (arith, e))

two_args : {k k' m m' : ℕ} → k ≡ k' → m ≡ m' → trailing_zeros k m ≡ trailing_zeros k' m'
two_args e f = cc

trailing_zeros-shift :
    (c b k m n : ℕ) → b ≡ c + k → m ≡ n * 2 ^ c → trailing_zeros b m ≡ c + trailing_zeros k n
trailing_zeros-shift zero b k m n e f =
    two_args {k' = k} {m' = n} (omega (arith, e)) (omega (arith, f)) ∙ omega arith
trailing_zeros-shift (suc c) b k m n e f = omega (
  arith,
  ap (λ (t : ℕ). trailing_zeros t m) more,
  trailing_zeros-even (c + k) m (n * 2 ^ c) (omega (arith, f, double_shift n c)),
  trailing_zeros-shift c (c + k) k (n * 2 ^ c) n refl refl,
)
  where
    more : b ≡ suc (c + k)
    more = omega (arith, e)

trailing_zeros-lit : (b d m : ℕ) → 8 ≤ b → m ≡ 128 + 256 * d → trailing_zeros b m ≡ 7
trailing_zeros-lit b d m h e = omega (
  arith,
  trailing_zeros-shift 7 b (suc (b - 8)) m (1 + 2 * d) (omega arith) (omega (arith, e)),
  trailing_zeros-odd (b - 8) (1 + 2 * d) d refl,
)

-- Where the first element that passes is, and what the mask says of it.
data Hit (p : ℕ → Bool) (xs : List ℕ) (i b m : ℕ) : Type 0 where
  nowhere : first_at p xs i ≡ none → m ≡ 0 → Hit p xs i b m
  at :
      (j : ℕ) → first_at p xs i ≡ some (i + j) → m ≢ 0 → trailing_zeros b m / 8 ≡ j → Hit p xs i b m

module _ (p : ℕ → Bool) (x : ℕ) (xs : List ℕ) (i : ℕ) where
  first_at-here : p x ≡ true → first_at p (x ∷ xs) i ≡ some i
  unfolding first_at
  first_at-here e = ap (λ (t : Bool). if t then some i else first_at p xs (i + 1)) e

  first_at-later : p x ≡ false → first_at p (x ∷ xs) i ≡ first_at p xs (i + 1)
  unfolding first_at
  first_at-later e = ap (λ (t : Bool). if t then some i else first_at p xs (i + 1)) e

Lit-Hit : (p : ℕ → Bool) (xs : List ℕ) (i b m : ℕ) → 8 * length xs ≤ b → Lit p xs m → Hit p xs i b m
unfolding first_at
Lit-Hit p [] i b m h (Lit.none_left e) = Hit.nowhere refl e
Lit-Hit p (x ∷ xs) i b m h (Lit.here d e eq) =
    Hit.at 0 (first_at-here p x xs i e ∙ ap (λ (t : ℕ). some t) (omega arith)) (omega (arith, eq))
      (omega (arith, trailing_zeros-lit b d m (omega arith) eq))
Lit-Hit p (x ∷ xs) i b m h (Lit.later n e eq l) =
    elim (Lit-Hit p xs (i + 1) (b - 8) n (omega arith) l) [
      | Hit.nowhere none_there zero_mask ↦
          Hit.nowhere (first_at-later p x xs i e ∙ none_there) (omega (arith, eq, zero_mask))
      | Hit.at j there lit place ↦
          Hit.at (suc j) (first_at-later p x xs i e ∙ there ∙ ap (λ (t : ℕ). some t) (omega arith))
            (omega (arith, eq, lit))
            (omega (
              arith,
              place,
              trailing_zeros-shift 8 b (b - 8) m n (omega arith) (omega (arith, eq)),
            ))
    ]

-- A word's answer, or what comes after the word.
abbrev pub or_else : Option ℕ → Option ℕ → Option ℕ
or_else none later = later
or_else (some j) later = some j

eq→zero_test : (m : ℕ) → m ≡ 0 → (m == 0) ≡ true
eq→zero_test m e = ground arith

ne→zero_test : (m : ℕ) → m ≢ 0 → (m == 0) ≡ false
ne→zero_test m e = ground arith

pub word_answer :
    (p : ℕ → Bool) (xs : List ℕ) (i m : ℕ) (later : Option ℕ)
    → length xs ≡ 8
    → Lit p xs m
    → (if m == 0 then later else some (i + first_match m)) ≡ or_else (first_at p xs i) later
unfolding first_match
word_answer p xs i m later h l = elim (Lit-Hit p xs i 64 m (omega arith) l) [
  | Hit.nowhere none_there zero_mask ↦
      ap (λ (t : Bool). if t then later else some (i + first_match m)) (eq→zero_test m zero_mask)
      ∙ ap (λ (o : Option ℕ). or_else o later) (sym none_there)
  | Hit.at j there lit place ↦
      ap (λ (t : Bool). if t then later else some (i + first_match m)) (ne→zero_test m lit)
      ∙ ap (λ (t : ℕ). some (i + t)) place
      ∙ ap (λ (o : Option ℕ). or_else o later) (sym there)
]
