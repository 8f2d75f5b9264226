-- ===== src/Num/Pairs.antt =====
-- Two digits at a time: the table of src/num/itoa.rs, and the decimal form by its pairs.
use structio.Prelude.{
  ℕ, zero, suc, ◌+◌, ◌*◌, ◌/◌, ◌%◌, ◌≤◌, ◌<◌, ◌≡◌, refl, sym, ap, ◌∙◌, arith, some, List, [], ◌∷◌,
  ◌++◌, length, length-append, get_elem?, store, store-append_length,
}
use structio.Num.Itoa.{digit_pairs, write_pair}
use structio.Num.Decimal.{decimal, decimal_one, decimal_more}
use mathlib.Core.List.{append_assoc}

-- The two digits of a number below a hundred.
abbrev pub pair : ℕ → List ℕ
pair r = (48 + r / 10) ∷ (48 + r % 10) ∷ []

-- The pairs of so many numbers from `k` on.
abbrev pairs_from : ℕ → ℕ → List ℕ
pairs_from zero k = []
pairs_from (suc n) k = pair k ++ pairs_from n (suc k)

digit_pairs_lem : digit_pairs ≡ pairs_from 100 0
unfolding digit_pairs
digit_pairs_lem = refl

tens_at : (n k r : ℕ) → r < n → get_elem? (pairs_from n k) (r * 2) ≡ some (48 + (k + r) / 10)
tens_at zero k r h = absurd (omega arith)
tens_at (suc n) k zero h = ap (λ (t : ℕ). some (48 + t / 10)) (omega arith)
tens_at (suc n) k (suc r) h =
    ap (get_elem? (pairs_from (suc n) k)) double
    ∙ tens_at n (suc k) r (omega arith)
    ∙ ap (λ (t : ℕ). some (48 + t / 10)) (omega arith)
  where
    double : suc r * 2 ≡ suc (suc (r * 2))
    double = omega arith

ones_at : (n k r : ℕ) → r < n → get_elem? (pairs_from n k) (r * 2 + 1) ≡ some (48 + (k + r) % 10)
ones_at zero k r h = absurd (omega arith)
ones_at (suc n) k zero h = ap (λ (t : ℕ). some (48 + t % 10)) (omega arith)
ones_at (suc n) k (suc r) h =
    ap (get_elem? (pairs_from (suc n) k)) double
    ∙ ones_at n (suc k) r (omega arith)
    ∙ ap (λ (t : ℕ). some (48 + t % 10)) (omega arith)
  where
    double : suc r * 2 + 1 ≡ suc (suc (r * 2 + 1))
    double = omega arith

pub decimal-pair : (v : ℕ) → 10 ≤ v → v < 100 → decimal v ≡ pair v
decimal-pair v h k =
    decimal_more v h
    ∙ ap (λ (ds : List ℕ). ds ++ (48 + v % 10) ∷ []) (decimal_one (v / 10) (omega arith))

pub decimal_pairs : (v : ℕ) → 100 ≤ v → decimal v ≡ decimal (v / 100) ++ pair (v % 100)
decimal_pairs v h =
    decimal_more v (omega arith)
    ∙ ap (λ (ds : List ℕ). ds ++ (48 + v % 10) ∷ []) (decimal_more (v / 10) (omega arith))
    ∙ append_assoc (decimal (v / 10 / 10)) ((48 + v / 10 % 10) ∷ []) ((48 + v % 10) ∷ [])
    ∙ ap (λ (n : ℕ). decimal n ++ (48 + v / 10 % 10) ∷ (48 + v % 10) ∷ []) (omega arith)
    ∙ ap (λ (n : ℕ). decimal (v / 100) ++ (48 + n) ∷ (48 + v % 10) ∷ []) (omega arith)
    ∙ ap (λ (n : ℕ). decimal (v / 100) ++ (48 + v % 100 / 10) ∷ (48 + n) ∷ []) (omega arith)

tens : (r : ℕ) → r < 100 → get_elem? digit_pairs (r * 2) ≡ some (48 + r / 10)
tens r h = rw digit_pairs_lem (tens_at 100 0 r h ∙ ap (λ (t : ℕ). some (48 + t / 10)) (omega arith))

ones : (r : ℕ) → r < 100 → get_elem? digit_pairs (r * 2 + 1) ≡ some (48 + r % 10)
ones r h = rw digit_pairs_lem (ones_at 100 0 r h ∙ ap (λ (t : ℕ). some (48 + t % 10)) (omega arith))

pub write_pair_lem :
    (pre tail : List ℕ) (x y r : ℕ)
    → r < 100
    → write_pair r (length pre) (pre ++ x ∷ y ∷ tail) ≡ some (pre ++ (pair r ++ tail))
unfolding write_pair
write_pair_lem pre tail x y r h =
    rw (tens r h, ones r h, store-append_length pre (y ∷ tail) x (48 + r / 10))
      (ap (λ (n : ℕ). store n (48 + r % 10) (pre ++ (48 + r / 10) ∷ y ∷ tail))
          (omega (arith, length-append pre ((48 + r / 10) ∷ [])))
        ∙ ap (store (length (pre ++ (48 + r / 10) ∷ [])) (48 + r % 10))
            (sym (append_assoc pre ((48 + r / 10) ∷ []) (y ∷ tail)))
        ∙ store-append_length (pre ++ (48 + r / 10) ∷ []) tail y (48 + r % 10)
        ∙ ap some (append_assoc pre ((48 + r / 10) ∷ []) ((48 + r % 10) ∷ tail)))
