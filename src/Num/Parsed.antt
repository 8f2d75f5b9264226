-- ===== src/Num/Parsed.antt =====
-- What `parse_u128` of src/num/atoi.rs reads.
use structio.Prelude.{
  ℕ, suc, ◌+◌, ◌-◌, ◌*◌, ◌^◌, ◌≤◌, ◌<◌, ◌≡◌, refl, sym, ap, ◌∙◌, arith, true, false, none, some,
  List, [], ◌∷◌, ◌++◌, ltb, ◌==◌, if◌then◌else◌, length, get_elem?, get_elem?-append_length, drop,
  drop-append, All, inl, inr, Bool-cases, ltb→lt, ltb→le, lt→ltb, le→ltb, ◌≢◌, ◌⊎◌, ==→eq, ==→ne,
  take, take-append_length,
}
use structio.Error.{PResult, ok, err}
use structio.Num.Atoi.{is_digit, digit_at, out_of_range, widened, run, parse_from, parse_u128}
use structio.Num.Itoa.{write_u64, max_int_digits}
use structio.Num.Printed.{write_u64-decimal}
use mathlib.Core.Path.{subst}
use structio.Num.Decimal.{value_on, IsDigit, Numeral, decimal, value_on-decimal, Numeral-decimal}

ne→== : (a b : ℕ) → a ≢ b → (a == b) ≡ false
ne→== a b h = ground arith

is_digit_lem : (c : ℕ) → IsDigit c → is_digit c ≡ true
unfolding is_digit
is_digit_lem c h = lt→ltb _ _ (omega (arith, h.0, h.1))

run-append : (ds back : List ℕ) → All IsDigit ds → run back ≡ 0 → run (ds ++ back) ≡ length ds
unfolding run
run-append [] back h k = k
run-append (c ∷ cs) back h k = rw (is_digit_lem c h.0) (ap suc (run-append cs back h.1 k))

value_on-ge : (v : ℕ) (ds : List ℕ) → v ≤ value_on v ds
value_on-ge v [] = omega arith
value_on-ge v (c ∷ cs) = omega (arith, value_on-ge (v * 10 + (c - 48)) cs)

widened-some : (v c : ℕ) → v * 10 + (c - 48) < 2 ^ 128 → widened v c ≡ some (v * 10 + (c - 48))
unfolding widened
widened-some v c h =
    rw (lt→ltb (v * 10) (2 ^ 128) (omega arith), lt→ltb (v * 10 + (c - 48)) (2 ^ 128) h) refl

widened-none : (v c : ℕ) → 2 ^ 128 ≤ v * 10 + (c - 48) → widened v c ≡ none
unfolding widened
widened-none v c h = elim (Bool-cases (ltb (v * 10) (2 ^ 128))) [
  | inl t ↦ rw (t, le→ltb _ _ h) refl
  | inr t ↦ rw t refl
]

-- A number that ends at `end_`, or the refusal of it.
abbrev pub fitted : List ℕ → ℕ → ℕ → ℕ × PResult ℕ
fitted buf end_ v = (end_, if ltb v (2 ^ 128) then ok v else err (out_of_range buf end_))

run_zero : (c : ℕ) (cs : List ℕ) → run (c ∷ cs) ≡ 0 → is_digit c ≡ false
unfolding run
run_zero c cs h = elim (Bool-cases (is_digit c)) [
  | inl t ↦ absurd (let k = sym (one_more t) ∙ h in omega arith)
  | inr t ↦ t
]
  where
    one_more : is_digit c ≡ true → run (c ∷ cs) ≡ suc (run cs)
    one_more t = unfold run in rw t refl

module _ (buf back : List ℕ) (stops : run back ≡ 0) where
  parse_end : (back : List ℕ) → run back ≡ 0 → (idx v : ℕ) → parse_from buf back idx v ≡ (idx, ok v)
  unfolding parse_from
  parse_end [] h idx v = refl
  parse_end (c ∷ cs) h idx v = rw (run_zero c cs h) refl

  parse_from_lem :
      (ds : List ℕ) (idx v : ℕ)
      → All IsDigit ds
      → v < 2 ^ 128
      → parse_from buf (ds ++ back) idx v ≡ fitted buf (idx + length ds) (value_on v ds)
  unfolding parse_from
  parse_from_lem [] idx v h k =
      parse_end back stops idx v
      ∙ rw (lt→ltb v (2 ^ 128) k) (ap (λ (t : ℕ). (t, ok v)) (omega arith))
  parse_from_lem (c ∷ cs) idx v h k = elim (Bool-cases (ltb (v * 10 + (c - 48)) (2 ^ 128))) [
    | inl t ↦
        let small = ltb→lt _ _ t in
        rw (is_digit_lem c h.0, widened-some v c small)
          (parse_from_lem cs (idx + 1) (v * 10 + (c - 48)) h.1 small
            ∙ ap (λ (n : ℕ). fitted buf n (value_on v (c ∷ cs))) (omega arith))
    | inr t ↦
        let big = ltb→le _ _ t in
        rw
          (
            is_digit_lem c h.0,
            widened-none v c big,
            run-append (c ∷ cs) back h stops,
            le→ltb (value_on v (c ∷ cs)) (2 ^ 128)
                (omega (arith, big, value_on-ge (v * 10 + (c - 48)) cs)),
          )
          refl
  ]

module _ (front back : List ℕ) (stops : run back ≡ 0) where
  first_is : (c : ℕ) (cs : List ℕ) → get_elem? (front ++ ((c ∷ cs) ++ back)) (length front) ≡ some c
  first_is c cs =
      ap (get_elem? (front ++ ((c ∷ cs) ++ back))) (omega arith)
      ∙ get_elem?-append_length front ((c ∷ cs) ++ back) 0

  stopped : (c : ℕ) → digit_at (front ++ ((c ∷ []) ++ back)) (length front + 1) ≡ false
  unfolding digit_at
  stopped c = rw (digit_at, get_elem?-append_length front (c ∷ back) 1) (none_ahead back stops)
    where
      none_ahead :
          (back : List ℕ)
          → run back ≡ 0
          → elim (get_elem? back 0) [ none ↦ false | some c ↦ is_digit c ] ≡ false
      none_ahead [] h = refl
      none_ahead (c ∷ cs) h = run_zero c cs h

  parse-plain :
      (c : ℕ) (cs : List ℕ)
      → All IsDigit (c ∷ cs)
      → c ≢ 48
      → parse_u128 (front ++ ((c ∷ cs) ++ back)) (length front)
        ≡ fitted
            (front ++ ((c ∷ cs) ++ back))
            (length front + length (c ∷ cs))
            (value_on 0 (c ∷ cs))
  unfolding parse_u128
  parse-plain c cs h n =
      rw
        (
          parse_u128,
          first_is c cs,
          is_digit_lem c h.0,
          ne→== c 48 n,
          drop-append front ((c ∷ cs) ++ back),
        )
        (parse_from_lem (front ++ ((c ∷ cs) ++ back)) back stops (c ∷ cs) (length front) 0 h
          (omega arith))

  parse-zero : parse_u128 (front ++ ((48 ∷ []) ++ back)) (length front) ≡ (length front + 1, ok 0)
  unfolding parse_u128
  parse-zero =
      rw (parse_u128, first_is 48 [], is_digit_lem 48 (omega arith, omega arith), stopped 48) refl

  -- Where a numeral stands at the cursor and no digit behind it: `parse_u128` moves the cursor
  -- behind the numeral, and answers its value, or where the value is 2^128 or more the refusal of
  -- a number out of range at that place.
  pub parse_u128-Numeral :
      (ds : List ℕ)
      → Numeral ds
      → parse_u128 (front ++ (ds ++ back)) (length front)
        ≡ fitted (front ++ (ds ++ back)) (length front + length ds) (value_on 0 ds)
  parse_u128-Numeral ds n =
      subst
        (λ (es : List ℕ).
          parse_u128 (front ++ (es ++ back)) (length front)
          ≡ fitted (front ++ (es ++ back)) (length front + length es) (value_on 0 es))
        (sym n.here) (go n.head n.tail (subst (All IsDigit) n.here n.digits) n.plain)
    where
      go :
          (c : ℕ) (cs : List ℕ)
          → All IsDigit (c ∷ cs)
          → (c ≢ 48) ⊎ (cs ≡ [])
          → parse_u128 (front ++ ((c ∷ cs) ++ back)) (length front)
            ≡ fitted
                (front ++ ((c ∷ cs) ++ back))
                (length front + length (c ∷ cs))
                (value_on 0 (c ∷ cs))
      go c cs h p = elim (Bool-cases (c == 48)) [
        | inl t ↦ elim p [
          | inl k ↦ absurd (k (==→eq _ _ t))
          | inr e ↦ rw (==→eq _ _ t, e) parse-zero
        ]
        | inr t ↦ parse-plain c cs h (==→ne _ _ t)
      ]

  -- What `write_u64` puts into a buffer of twenty bytes for a `u64`, copied out between any bytes
  -- of which those behind do not begin with a digit, is read by `parse_u128` as the number, with
  -- the cursor left behind it.
  pub parse_u128-write_u64 :
      (v : ℕ) (buf : List ℕ)
      → v < 2 ^ 64
      → length buf ≡ max_int_digits
      → (n : ℕ) × (out : List ℕ) × (write_u64 v buf ≡ some (n, out))
        × (parse_u128 (front ++ (take n out ++ back)) (length front) ≡ (length front + n, ok v))
  parse_u128-write_u64 v buf h e = (
    length (decimal v),
    decimal v ++ drop (length (decimal v)) buf,
    (write_u64-decimal v buf h e).0,
    ap (λ (ds : List ℕ). parse_u128 (front ++ (ds ++ back)) (length front))
          (take-append_length (decimal v) (drop (length (decimal v)) buf))
        ∙ parse_u128-Numeral (decimal v) (Numeral-decimal v)
        ∙ ap (fitted (front ++ (decimal v ++ back)) (length front + length (decimal v)))
            (value_on-decimal v)
        ∙ rw (lt→ltb v (2 ^ 128) (omega arith)) refl,
  )
