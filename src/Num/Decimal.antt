-- ===== src/Num/Decimal.antt =====
-- The decimal form of a number, which src/num writes and reads, and the value of digits.
use structio.Prelude.{
  ℕ, zero, suc, ◌+◌, ◌-◌, ◌*◌, ◌/◌, ◌%◌, ◌≤◌, ◌<◌, ◌≡◌, ◌≢◌, ◌⊎◌, refl, sym, ap, ◌∙◌, arith, List,
  [], ◌∷◌, ◌++◌, ltb, if◌then◌else◌, All, inl, inr, Bool-cases, ltb→lt, ltb→le, lt→ltb, le→ltb,
}
use mathlib.Core.Path.{subst}

-- The digits of `v` from the front, the number in front of them being `v / 10` again.
unfoldable pub decimal_in : ℕ → ℕ → List ℕ
decimal_in zero v = []
decimal_in (suc rounds) v =
    let front = decimal_in rounds (v / 10) in
    if ltb v 10 then (48 + v) ∷ [] else front ++ (48 + v % 10) ∷ []

-- A number has no more digits than its value.
unfoldable pub decimal : ℕ → List ℕ
unfolding decimal_in
decimal v = decimal_in (suc v) v

decimal_in-enough : (a b v : ℕ) → v < a → v < b → decimal_in a v ≡ decimal_in b v
unfolding decimal_in
decimal_in-enough zero b v h k = absurd (omega arith)
decimal_in-enough (suc a) zero v h k = absurd (omega arith)
decimal_in-enough (suc a) (suc b) v h k = elim (Bool-cases (ltb v 10)) [
  | inl t ↦ rw t refl
  | inr t ↦
      let big = ltb→le _ _ t in
      rw t (
        ap (λ (ds : List ℕ). ds ++ (48 + v % 10) ∷ [])
          (decimal_in-enough a b (v / 10) (omega arith) (omega arith)))
]

pub decimal_one : (v : ℕ) → v < 10 → decimal v ≡ (48 + v) ∷ []
unfolding decimal decimal_in
decimal_one v h = rw (lt→ltb _ _ h) refl

pub decimal_more : (v : ℕ) → 10 ≤ v → decimal v ≡ decimal (v / 10) ++ (48 + v % 10) ∷ []
unfolding decimal decimal_in
decimal_more v h = rw (le→ltb _ _ h) (
    ap (λ (ds : List ℕ). ds ++ (48 + v % 10) ∷ [])
      (decimal_in-enough v (suc (v / 10)) (v / 10) (omega arith) (omega arith)))

-- The value of digits behind digits of the value `v`.
abbrev pub value_on : ℕ → List ℕ → ℕ
value_on v [] = v
value_on v (c ∷ cs) = value_on (v * 10 + (c - 48)) cs

value_on-append : (v : ℕ) (ds es : List ℕ) → value_on v (ds ++ es) ≡ value_on (value_on v ds) es
value_on-append v [] es = refl
value_on-append v (c ∷ cs) es = value_on-append (v * 10 + (c - 48)) cs es

abbrev pub IsDigit : ℕ → Type 0
IsDigit c = (48 ≤ c) × (c ≤ 57)

-- Digits, with no zero in front of another.
pub record Numeral (ds : List ℕ) : Type 0 where
  pub head : ℕ
  pub tail : List ℕ
  pub here : ds ≡ head ∷ tail
  pub digits : All IsDigit ds
  pub plain : (head ≢ 48) ⊎ (tail ≡ [])

pub All-append : (ds es : List ℕ) → All IsDigit ds → All IsDigit es → All IsDigit (ds ++ es)
All-append [] es h k = k
All-append (c ∷ cs) es h k = (h.0, All-append cs es h.1 k)

-- What is to be shown of the decimal form, by the digits taken off its end.
decimal_rec :
    (P : ℕ → List ℕ → Type 0)
    → ((v : ℕ) → v < 10 → P v ((48 + v) ∷ []))
    → ((v : ℕ)
        → 10 ≤ v
        → P (v / 10) (decimal (v / 10))
        → P v (decimal (v / 10) ++ (48 + v % 10) ∷ []))
    → (v : ℕ) → P v (decimal v)
decimal_rec P one more v = go (suc v) v (omega arith)
  where
    go : (rounds v : ℕ) → v < rounds → P v (decimal v)
    go zero v h = absurd (omega arith)
    go (suc rounds) v h = elim (Bool-cases (ltb v 10)) [
      | inl t ↦ let small = ltb→lt _ _ t in subst (P v) (sym (decimal_one v small)) (one v small)
      | inr t ↦
          let big = ltb→le _ _ t in
          subst (P v) (sym (decimal_more v big)) (more v big (go rounds (v / 10) (omega arith)))
    ]

pub value_on-decimal : (v : ℕ) → value_on 0 (decimal v) ≡ v
value_on-decimal =
    decimal_rec (λ (v : ℕ) (ds : List ℕ). value_on 0 ds ≡ v) (λ v h. omega arith)
      (λ v h ih.
        value_on-append 0 (decimal (v / 10)) ((48 + v % 10) ∷ [])
        ∙ ap (λ (n : ℕ). n * 10 + (48 + v % 10 - 48)) ih
        ∙ omega arith)

-- The decimal form is a numeral, and it is that of zero only if its first digit is.
abbrev Printed : ℕ → List ℕ → Type 0
Printed v ds = (c : ℕ) × (cs : List ℕ) × (ds ≡ c ∷ cs) × All IsDigit ds × ((c ≡ 48) → v ≡ 0)

Printed-decimal : (v : ℕ) → Printed v (decimal v)
Printed-decimal =
    decimal_rec Printed
      (λ v h. (48 + v, [], refl, ((omega arith, omega arith), tt), λ e. omega arith))
      (λ v h ih.
        let (c, cs, e, all, zero_only) = ih in
        (
          c,
          cs ++ (48 + v % 10) ∷ [],
          ap (λ (ds : List ℕ). ds ++ (48 + v % 10) ∷ []) e,
          All-append (decimal (v / 10)) ((48 + v % 10) ∷ []) all ((omega arith, omega arith), tt),
          λ z. let low = zero_only z in omega arith,
        ))

pub Numeral-decimal : (v : ℕ) → Numeral (decimal v)
Numeral-decimal zero = record {
  head = 48;
  tail = [];
  here = decimal_one 0 (omega arith);
  digits = (Printed-decimal 0).3;
  plain = inr refl;
}
Numeral-decimal (suc v) =
    let (c, cs, e, all, zero_only) = Printed-decimal (suc v) in
    record {
      head = c;
      tail = cs;
      here = e;
      digits = all;
      plain = inl (λ z. absurd (let none_left = zero_only z in omega arith));
    }
