-- ===== src/Swar/Eight.antt =====
-- src/swar.rs: the masks of a word of eight bytes.
use structio.Prelude.{
  ℕ, suc, ◌+◌, ◌*◌, ◌≤◌, ◌<◌, ◌≡◌, ◌≢◌, refl, sym, ap, ◌∙◌, arith, bit_or, bit_xor, Bool, true,
  false, ◌||◌, inl, inr, Bool-cases, List, [], ◌∷◌, map, All, length, ltb, ◌==◌, ==→eq, ==→ne,
}
use structio.Beve.Header.Size.{IsByte}
use structio.Prelude.Masks.{zero-bit_xor}
use structio.Swar.{word, splat, eq_mask, lt_mask, escape_mask, needs_escape}
use structio.Swar.Bytes.{Apart-bit_xor, bit_xor-lt, bit_xor_self, bit_xor-eq}
use structio.Swar.Masks.{below, repeat}
use structio.Swar.Lit.{Lit, below-Lit, map-Lit, same-Lit, or-Lit}
use mathlib.Core.Path.{subst}

splat-repeat : (b : ℕ) → b < 256 → splat b ≡ repeat 8 b
unfolding splat
splat-repeat b h = omega arith

-- A word of bytes exclusive-ored with one byte in every place.
xor_word :
    (b : ℕ)
    → b < 256
    → (xs : List ℕ) → All IsByte xs
    → bit_xor (word xs) (repeat (length xs) b) ≡ word (map (λ x. bit_xor x b) xs)
xor_word b l [] h = zero-bit_xor 0
xor_word b l (x ∷ xs) (h, t) =
    Apart-bit_xor x b (word xs) (repeat (length xs) b) h l
    ∙ ap (λ (n : ℕ). bit_xor x b + 256 * n) (xor_word b l xs t)

xor_bytes :
    (b : ℕ) → b < 256 → (xs : List ℕ) → All IsByte xs → All IsByte (map (λ x. bit_xor x b) xs)
xor_bytes b l [] h = h
xor_bytes b l (x ∷ xs) (h, t) = (bit_xor-lt 8 x b h l, xor_bytes b l xs t)

length-xor : (b : ℕ) (xs : List ℕ) → length (map (λ x. bit_xor x b) xs) ≡ length xs
length-xor b [] = refl
length-xor b (x ∷ xs) = ap suc (length-xor b xs)

-- A byte exclusive-ored with another is zero where they are the same.
xor_test : (b x : ℕ) → b < 256 → x < 256 → (x == b) ≡ ltb (bit_xor x b) 1
xor_test b x l h = elim (Bool-cases (x == b)) [
  | inl e ↦
      e ∙ sym (low (bit_xor x b) (ap (λ (n : ℕ). bit_xor n b) (==→eq x b e) ∙ bit_xor_self 8 b l))
  | inr e ↦ e ∙ sym (high (bit_xor x b) (λ z. ==→ne x b e (bit_xor-eq 8 x b h l z)))
]
  where
    low : (n : ℕ) → n ≡ 0 → ltb n 1 ≡ true
    low n z = ground arith

    high : (n : ℕ) → n ≢ 0 → ltb n 1 ≡ false
    high n z = ground arith

module _ (xs : List ℕ) (h : All IsByte xs) (n : length xs ≡ 8) (b : ℕ) where
  changed : b < 256 → bit_xor (word xs) (splat b) ≡ word (map (λ x. bit_xor x b) xs)
  changed l =
      ap (bit_xor (word xs)) (splat-repeat b l ∙ ap (λ (k : ℕ). repeat k b) (sym n))
      ∙ xor_word b l xs h

  eq_mask-below :
      b < 256
      → let zs = map (λ x. bit_xor x b) xs in
        eq_mask (word xs) b ≡ below (length zs) (word zs) (repeat (length zs) 1) (word zs)
  unfolding eq_mask
  eq_mask-below l =
      ap (λ (w : ℕ). below 8 w (repeat 8 1) w) (changed l)
      ∙ ap
          (λ (k : ℕ).
            below k (word (map (λ x. bit_xor x b) xs)) (repeat k 1)
              (word (map (λ x. bit_xor x b) xs)))
          (sym (length-xor b xs ∙ n))

  pub eq_mask-Lit : b < 256 → Lit (λ x. x == b) xs (eq_mask (word xs) b)
  eq_mask-Lit l =
      let zs = map (λ x. bit_xor x b) xs in
      same-Lit (λ x. ltb (bit_xor x b) 1) (λ x. x == b) (λ x. xor_test b x l) xs
        (eq_mask (word xs) b) h
        (map-Lit (λ x. ltb x 1) (λ x. bit_xor x b) xs (eq_mask (word xs) b)
          (subst (Lit (λ x. ltb x 1) zs) (sym (eq_mask-below l))
            (below-Lit 1 (omega arith) zs (xor_bytes b l xs h))))

  pub lt_mask-Lit : b ≤ 128 → Lit (λ x. ltb x b) xs (lt_mask (word xs) b)
  unfolding lt_mask
  lt_mask-Lit l =
      subst (Lit (λ x. ltb x b) xs)
        (ap (λ (k : ℕ). below k (word xs) (repeat k b) (word xs)) n
          ∙ ap (λ (w : ℕ). below 8 (word xs) w (word xs)) (sym (splat-repeat b (omega arith))))
        (below-Lit b l xs h)

last_first : (a b c : Bool) → (a || b || c) ≡ ((b || c) || a)
last_first true true c = refl
last_first true false true = refl
last_first true false false = refl
last_first false true c = refl
last_first false false true = refl
last_first false false false = refl

pub escape_mask-Lit :
    (xs : List ℕ) → All IsByte xs → length xs ≡ 8 → Lit needs_escape xs (escape_mask (word xs))
unfolding escape_mask
escape_mask-Lit xs h n =
    same-Lit (λ x. ((x == 34) || (x == 92)) || ltb x 32) needs_escape
      (λ x l. last_first (ltb x 32) (x == 34) (x == 92)) xs (escape_mask (word xs)) h
      (or-Lit (λ x. (x == 34) || (x == 92)) (λ x. ltb x 32) xs quotes (lt_mask (word xs) 32)
        (or-Lit (λ x. x == 34) (λ x. x == 92) xs (eq_mask (word xs) 34) (eq_mask (word xs) 92)
          (eq_mask-Lit xs h n 34 (omega arith)) (eq_mask-Lit xs h n 92 (omega arith)))
        (lt_mask-Lit xs h n 32 (omega arith)))
  where
    quotes : ℕ
    quotes = bit_or (eq_mask (word xs) 34) (eq_mask (word xs) 92)
