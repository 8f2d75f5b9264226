-- ===== src/Num/Printed.antt =====
-- That `write_u64` of src/num/itoa.rs writes the decimal form.
use structio.Prelude.{
  ℕ, zero, suc, ◌+◌, ◌-◌, ◌/◌, ◌%◌, ◌^◌, ◌≤◌, ◌<◌, ◌≡◌, refl, sym, ap, ◌∙◌, arith, Option, true,
  ==→eq, some, List, [], ◌∷◌, ◌++◌, ltb, leb, ◌==◌, length, length-append, store-append_length,
  take, drop, take-drop, length-take, inl, inr, Bool-cases, ltb→lt, ltb→le, le→ltb, lt→leb,
}
use structio.Num.Itoa.{ilog10, digit_count, write_last, write_from, write_u64, max_int_digits}
use structio.Num.Decimal.{decimal, decimal_one, decimal_more}
use mathlib.Core.List.{append_assoc}
use structio.Num.Pairs.{pair, decimal-pair, decimal_pairs, write_pair_lem}

-- The last two of a list.
split_pair :
    (n : ℕ) (l : List ℕ)
    → length l ≡ n + 2
    → (pre : List ℕ) × (x : ℕ) × (y : ℕ) × (l ≡ pre ++ x ∷ y ∷ []) × (length pre ≡ n)
split_pair n [] h = absurd (omega arith)
split_pair n (x ∷ []) h = absurd (omega arith)
split_pair zero (x ∷ y ∷ []) h = ([], x, y, refl, refl)
split_pair zero (x ∷ y ∷ z ∷ l) h = absurd (omega arith)
split_pair (suc n) (x ∷ y ∷ l) h =
    let (pre, u, v, e, k) = split_pair n (y ∷ l) (omega arith) in
    (x ∷ pre, u, v, ap (λ (t : List ℕ). x ∷ t) e, ap suc k)

length-decimal_more : (v : ℕ) → 10 ≤ v → length (decimal v) ≡ suc (length (decimal (v / 10)))
length-decimal_more v h =
    ap length (decimal_more v h)
    ∙ length-append (decimal (v / 10)) ((48 + v % 10) ∷ [])
    ∙ omega arith

ilog10_lem : (rounds v : ℕ) → v < 10 ^ rounds → suc (ilog10 rounds v) ≡ length (decimal v)
unfolding ilog10
ilog10_lem zero v h = sym (ap length (decimal_one v (omega arith)))
ilog10_lem (suc rounds) v h = elim (Bool-cases (ltb v 10)) [
  | inl t ↦ rw t (sym (ap length (decimal_one v (ltb→lt _ _ t))))
  | inr t ↦ rw t (
      ap suc (ilog10_lem rounds (v / 10) (omega arith))
      ∙ sym (length-decimal_more v (ltb→le _ _ t)))
]

pub digit_count_lem : (v : ℕ) → v < 2 ^ 64 → digit_count v ≡ length (decimal v)
unfolding digit_count
digit_count_lem v h = elim (Bool-cases (v == 0)) [
  | inl t ↦ rw t (sym (ap length (decimal_one v (let z = ==→eq _ _ t in omega arith))))
  | inr t ↦ rw t (add_one (ilog10 20 v) ∙ ilog10_lem 20 v (omega arith))
]
  where
    add_one : (n : ℕ) → n + 1 ≡ suc n
    add_one n = omega arith

le→leb : (a b : ℕ) → a ≤ b → leb a b ≡ true
le→leb a b h = ground arith

-- `v` over exactly the bytes of its decimal form.
abbrev Filled : ℕ → List ℕ → Option (List ℕ) → Type 0
Filled v tail o = o ≡ some (decimal v ++ tail)

write_last-pair :
    (v : ℕ) (pre tail : List ℕ)
    → 10 ≤ v
    → v < 100
    → length pre ≡ 2
    → Filled v tail (write_last v (length pre) (pre ++ tail))
unfolding write_last
write_last-pair v (x ∷ y ∷ []) tail h k e = rw (le→leb 10 v h) (
    write_pair_lem [] tail x y v k
    ∙ ap (λ (t : List ℕ). some (t ++ tail)) (sym (decimal-pair v h k)))
write_last-pair v [] tail h k e = absurd (omega arith)
write_last-pair v (x ∷ []) tail h k e = absurd (omega arith)
write_last-pair v (x ∷ y ∷ z ∷ pre) tail h k e = absurd (omega arith)

write_last-one :
    (v : ℕ) (pre tail : List ℕ)
    → v < 10
    → length pre ≡ 1
    → Filled v tail (write_last v (length pre) (pre ++ tail))
unfolding write_last
write_last-one v (x ∷ []) tail h e = rw (lt→leb 10 v h) (
    store-append_length [] tail x (48 + v)
    ∙ ap (λ (t : List ℕ). some (t ++ tail)) (sym (decimal_one v h)))
write_last-one v [] tail h e = absurd (omega arith)
write_last-one v (x ∷ y ∷ pre) tail h e = absurd (omega arith)

write_last_lem :
    (v : ℕ) (pre tail : List ℕ)
    → v < 100
    → length pre ≡ length (decimal v)
    → Filled v tail (write_last v (length pre) (pre ++ tail))
write_last_lem v pre tail h e = elim (Bool-cases (ltb v 10)) [
  | inl t ↦
      let small = ltb→lt _ _ t in
      write_last-one v pre tail small (e ∙ ap length (decimal_one v small))
  | inr t ↦
      let big = ltb→le _ _ t in
      write_last-pair v pre tail big h (e ∙ ap length (decimal-pair v big h))
]

write_from-pair :
    (rounds v : ℕ) (pre tail : List ℕ) (x y : ℕ)
    → 100 ≤ v
    → write_from (suc rounds) v (length pre + 2) (pre ++ x ∷ y ∷ tail)
      ≡ write_from rounds (v / 100) (length pre) (pre ++ (pair (v % 100) ++ tail))
unfolding write_from
write_from-pair rounds v pre tail x y h =
    rw
      (
        le→leb 100 v h,
        le→ltb (length pre + 2) 2 (omega arith),
        back,
        write_pair_lem pre tail x y (v % 100) (omega arith),
      )
      refl
  where
    back : length pre + 2 - 2 ≡ length pre
    back = omega arith

write_from-last :
    (rounds v : ℕ) (pre tail : List ℕ)
    → v < 100
    → length pre ≡ length (decimal v)
    → Filled v tail (write_from (suc rounds) v (length pre) (pre ++ tail))
unfolding write_from
write_from-last rounds v pre tail h e = rw (lt→leb 100 v h) (write_last_lem v pre tail h e)

-- So many rounds write a number with no more than two digits for each.
write_from_lem :
    (rounds v : ℕ) (pre tail : List ℕ)
    → v < 100 ^ suc rounds
    → length pre ≡ length (decimal v)
    → Filled v tail (write_from (suc rounds) v (length pre) (pre ++ tail))
write_from_lem zero v pre tail h e = write_from-last zero v pre tail (omega arith) e
write_from_lem (suc rounds) v pre tail h e = elim (Bool-cases (ltb v 100)) [
  | inl t ↦ write_from-last (suc rounds) v pre tail (ltb→lt _ _ t) e
  | inr t ↦
      let big = ltb→le _ _ t in
      go big (λ p k. write_from_lem rounds (v / 100) p (pair (v % 100) ++ tail) (omega arith) k)
        (split_pair (length (decimal (v / 100))) pre (longer big))
]
  where
    longer : 100 ≤ v → length pre ≡ length (decimal (v / 100)) + 2
    longer big =
        e ∙ ap length (decimal_pairs v big) ∙ length-append (decimal (v / 100)) (pair (v % 100))

    go :
        100 ≤ v
        → ((p : List ℕ)
            → length p ≡ length (decimal (v / 100))
            → Filled
                (v / 100)
                (pair (v % 100) ++ tail)
                (write_from (suc rounds) (v / 100) (length p) (p ++ (pair (v % 100) ++ tail))))
        → (p : List ℕ) × (x : ℕ) × (y : ℕ) × (pre ≡ p ++ x ∷ y ∷ [])
          × (length p ≡ length (decimal (v / 100)))
        → Filled v tail (write_from (suc (suc rounds)) v (length pre) (pre ++ tail))
    go big rest (p, x, y, e', k) =
        ap (λ (t : List ℕ). write_from (suc (suc rounds)) v (length t) (t ++ tail)) e'
        ∙ ap (λ (t : ℕ). write_from (suc (suc rounds)) v t ((p ++ x ∷ y ∷ []) ++ tail))
            (length-append p (x ∷ y ∷ []))
        ∙ ap (write_from (suc (suc rounds)) v (length p + 2)) (append_assoc p (x ∷ y ∷ []) tail)
        ∙ write_from-pair (suc rounds) v p tail x y big
        ∙ rest p k
        ∙ ap some (sym (append_assoc (decimal (v / 100)) (pair (v % 100)) tail))
        ∙ ap (λ (t : List ℕ). some (t ++ tail)) (sym (decimal_pairs v big))

length-decimal_le : (rounds v : ℕ) → v < 10 ^ suc rounds → length (decimal v) ≤ suc rounds
length-decimal_le zero v h = omega (arith, ap length (decimal_one v (omega arith)))
length-decimal_le (suc rounds) v h = elim (Bool-cases (ltb v 10)) [
  | inl t ↦ omega (arith, ap length (decimal_one v (ltb→lt _ _ t)))
  | inr t ↦
      omega (
        arith,
        length-decimal_more v (ltb→le _ _ t),
        length-decimal_le rounds (v / 10) (omega arith),
      )
]

run_u64 :
    (v n : ℕ) (buf out : List ℕ)
    → digit_count v ≡ n
    → write_from 10 v n buf ≡ some out
    → write_u64 v buf ≡ some (n, out)
unfolding write_u64
run_u64 v n buf out e f = rw (e, f) refl

-- For a `u64` and a buffer of twenty bytes: `write_u64` puts the decimal form at the front of the
-- buffer, with every store inside it, leaves the rest as it was, and answers the length of the
-- form, which is at most twenty.
pub write_u64-decimal :
    (v : ℕ) (buf : List ℕ)
    → v < 2 ^ 64
    → length buf ≡ max_int_digits
    → (write_u64 v buf ≡ some (length (decimal v), decimal v ++ drop (length (decimal v)) buf))
      × (length (decimal v) ≤ max_int_digits)
write_u64-decimal v buf h e =
    let short = length-decimal_le 19 v (omega arith) in
    (
      run_u64 v _ buf _ (digit_count_lem v h) (
          ap (write_from 10 v (length (decimal v))) (sym (take-drop n buf))
          ∙ ap (λ (t : ℕ). write_from 10 v t (take n buf ++ drop n buf))
              (sym (length-take n buf (omega arith)))
          ∙ write_from_lem 9 v (take n buf) (drop n buf) (omega arith)
              (length-take n buf (omega arith))),
      short,
    )
  where
    n : ℕ
    n = length (decimal v)
