-- ===== src/Swar/Masks.antt =====
-- `a.wrapping_sub(b) & !c & HIGH` on words of any number of bytes, from the low byte on.
use structio.Prelude.{
  ℕ, zero, suc, ◌+◌, ◌-◌, ◌*◌, ◌%◌, ◌^◌, ◌≤◌, ◌<◌, ◌≡◌, refl, ap, ◌∙◌, arith, bit_and, ◌⊎◌, inl,
  inr, leb, leb→le, leb→lt, Bool-cases,
}
use structio.Prelude.Masks.{bit_and-zero}
use structio.Swar.Bytes.{Apart-bit_and, bit_and-join, bit_and-lt}
use native.Mathlib.Nat.{mod-eq_of_lt, add-mul-mod_self_right}

-- The words of so many bytes.
abbrev pub cap : ℕ → ℕ
cap zero = 1
cap (suc n) = 256 * cap n

-- One byte in every place.
abbrev pub repeat : ℕ → ℕ → ℕ
repeat zero c = 0
repeat (suc n) c = c + 256 * repeat n c

abbrev pub below : ℕ → ℕ → ℕ → ℕ → ℕ
below n a b c = bit_and (bit_and ((a + cap n - b) % cap n) (cap n - 1 - c)) (repeat n 128)

pub repeat-lt : (n c : ℕ) → c < 256 → repeat n c < cap n
repeat-lt zero c h = omega arith
repeat-lt (suc n) c h = omega (arith, repeat-lt n c h)

-- The high bit of a byte.
bit : ℕ → ℕ → ℕ
bit u v = bit_and (bit_and u v) 128

bit-join :
    (u v x y : ℕ)
    → u < 128
    → v < 128
    → bit (u + x * 2 ^ 7) (v + y * 2 ^ 7) ≡ bit_and (bit_and x y) 1 * 128
unfolding bit
bit-join u v x y h l =
    ap (λ (t : ℕ). bit_and t 128) (bit_and-join 7 u v x y h l)
    ∙ bit_and-join 7 (bit_and u v) 0 (bit_and x y) 1 (bit_and-lt 7 u v h l) (omega arith)
    ∙ omega (arith, bit_and-zero (bit_and u v))

two_bits : {u u' v v' : ℕ} → u ≡ u' → v ≡ v' → bit u v ≡ bit u' v'
two_bits p q = cc

-- A subtraction that leaves a byte below 128, or a byte with its high bit set, is not marked.
bit_low_left : (u v : ℕ) → u < 128 → v < 128 → bit u v ≡ 0
bit_low_left u v h l = two_bits (omega arith) (omega arith) ∙ bit-join u v 0 0 h l

bit_low_right : (u v : ℕ) → u < 128 → v < 128 → bit u (128 + v) ≡ 0
bit_low_right u v h l = two_bits (omega arith) (omega arith) ∙ bit-join u v 0 1 h l

bit_low_both : (u v : ℕ) → u < 128 → v < 128 → bit (128 + u) v ≡ 0
bit_low_both u v h l = two_bits (omega arith) (omega arith) ∙ bit-join u v 1 0 h l

bit_high : (u v : ℕ) → u < 128 → v < 128 → bit (128 + u) (128 + v) ≡ 128
bit_high u v h l = two_bits (omega arith) (omega arith) ∙ bit-join u v 1 1 h l

wrap_none : (k a b : ℕ) → b ≤ a → a < k → (a + k - b) % k ≡ a - b
wrap_none k a b h l =
    ap (λ (t : ℕ). t % k) split ∙ add-mul-mod_self_right (a - b) 1 k ∙ mod-eq_of_lt (omega arith)
  where
    split : a + k - b ≡ a - b + 1 * k
    split = omega arith

wrap_once : (k a b : ℕ) → a < b → b ≤ k → (a + k - b) % k ≡ a + k - b
wrap_once k a b h l = mod-eq_of_lt (omega arith)

cap_pos : (n : ℕ) → 0 < cap n
cap_pos zero = omega arith
cap_pos (suc n) = omega (arith, cap_pos n)

le_cases : (a b : ℕ) → (a ≤ b) ⊎ (b < a)
le_cases a b = elim (Bool-cases (leb a b)) [
  | inl e ↦ inl (leb→le a b e)
  | inr e ↦ inr (leb→lt a b e)
]

module _ (n p q a b : ℕ) (p_byte : p < 256) (q_byte : q < 256) (a_word : a < cap n)
    (b_word : b < cap n) where
  -- A byte that does not borrow leaves the rest as they are.
  apart :
      q ≤ p
      → (p + 256 * a + cap (suc n) - (q + 256 * b)) % cap (suc n)
        ≡ p - q + 256 * ((a + cap n - b) % cap n)
  apart h = elim (le_cases b a) [
    | inl l ↦ omega (
      arith,
      wrap_none (cap (suc n)) (p + 256 * a) (q + 256 * b) (omega arith) (omega arith),
      wrap_none (cap n) a b l a_word,
    )
    | inr l ↦ omega (
      arith,
      wrap_once (cap (suc n)) (p + 256 * a) (q + 256 * b) (omega arith) (omega arith),
      wrap_once (cap n) a b l (omega arith),
    )
  ]

  -- One that does may light any of them.
  borrow :
      p < q
      → (d : ℕ) × ((p + 256 * a + cap (suc n) - (q + 256 * b)) % cap (suc n)
          ≡ p + 256 - q + 256 * d)
  borrow h = elim (le_cases (suc b) a) [
    | inl l ↦ (
      a - b - 1,
      omega
          (arith, wrap_none (cap (suc n)) (p + 256 * a) (q + 256 * b) (omega arith) (omega arith)),
    )
    | inr l ↦ (
      a + cap n - b - 1,
      omega
          (arith, wrap_once (cap (suc n)) (p + 256 * a) (q + 256 * b) (omega arith) (omega arith)),
    )
  ]

below-join :
    (n u v a c : ℕ)
    → u < 256
    → v < 256
    → bit_and (bit_and (u + 256 * a) (v + 256 * c)) (repeat (suc n) 128)
      ≡ bit u v + 256 * bit_and (bit_and a c) (repeat n 128)
unfolding bit
below-join n u v a c h l =
    ap (λ (t : ℕ). bit_and t (repeat (suc n) 128)) (Apart-bit_and u v a c h l)
    ∙ Apart-bit_and (bit_and u v) 128 (bit_and a c) (repeat n 128) (bit_and-lt 8 u v h l)
        (omega arith)

both_words :
    (n : ℕ) {u u' v v' : ℕ} → u ≡ u' → v ≡ v' → bit_and (bit_and u v) n ≡ bit_and (bit_and u' v') n
both_words n p q = cc

bit_kept : (p q : ℕ) → p < 256 → q ≤ p → bit (p - q) (255 - p) ≡ 0
bit_kept p q h l = elim (le_cases 128 p) [
  | inl big ↦ elim (le_cases 128 (p - q)) [
    | inl left ↦
        two_bits (omega arith) refl
        ∙ bit_low_both (p - q - 128) (255 - p) (omega arith) (omega arith)
    | inr less ↦ bit_low_left (p - q) (255 - p) less (omega arith)
  ]
  | inr small ↦
      two_bits refl (omega arith) ∙ bit_low_right (p - q) (127 - p) (omega arith) (omega arith)
]

bit_lit : (p q : ℕ) → p < q → q ≤ 128 → bit (p + 256 - q) (255 - p) ≡ 128
bit_lit p q h l =
    two_bits (omega arith) (omega arith)
    ∙ bit_high (128 + p - q) (127 - p) (omega arith) (omega arith)

module _ (n p q a b : ℕ) (p_byte : p < 256) (low : q ≤ 128) (a_word : a < cap n)
    (b_word : b < cap n) where
  complement : cap (suc n) - 1 - (p + 256 * a) ≡ 255 - p + 256 * (cap n - 1 - a)
  complement = omega arith

  -- A byte not below the limit is dark, and the rest decides.
  pub below-dark :
      q ≤ p → below (suc n) (p + 256 * a) (q + 256 * b) (p + 256 * a) ≡ 256 * below n a b a
  below-dark h =
      both_words (repeat (suc n) 128) (apart n p q a b p_byte (omega arith) a_word b_word h)
        complement
      ∙ below-join n (p - q) (255 - p) ((a + cap n - b) % cap n) (cap n - 1 - a) (omega arith)
          (omega arith)
      ∙ omega (arith, bit_kept p q p_byte h)

  -- A byte below the limit is lit.
  pub below-lit :
      p < q → (d : ℕ) × (below (suc n) (p + 256 * a) (q + 256 * b) (p + 256 * a) ≡ 128 + 256 * d)
  below-lit h =
      let (d, e) = borrow n p q a b p_byte (omega arith) a_word b_word h in
      (
        bit_and (bit_and d (cap n - 1 - a)) (repeat n 128),
        both_words (repeat (suc n) 128) e complement
            ∙ below-join n (p + 256 - q) (255 - p) d (cap n - 1 - a) (omega arith) (omega arith)
            ∙ omega (arith, bit_lit p q h low),
      )
