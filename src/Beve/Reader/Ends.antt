-- ===== src/Beve/Reader/Ends.antt =====
-- Walks of src/beve/reader.rs and their fuel. Only `nested` spends fuel: it goes a level deeper, and a
-- level past `max_depth` is refused.
use structio.Prelude.{
  Option, none, some, div_ceil8, ℕ, zero, suc, ◌+◌, ◌≤◌, ◌≢◌, arith, Bool, true, false,
  if◌then◌else◌, Bool-cases, inl, inr, leb, refl,
}
use structio.Error.{ErrorCode, PResult, ok, err, stuck}
use structio.Beve.Header.Extent.{decode_size-cases}
use structio.Beve.Walk.{Walk, Reader, continue, pure, raise, lift, gets, repeat, ◌>>=◌}
use structio.Beve.Walk.Moves.{Moves, Keeps}
use structio.Beve.Reader.{
  max_depth, Typed, bools, strings, fixed, head, take, drop_bytes, size, as_count, count, enter,
  leaving, nested, key_width, bare_header, fixed_width, bool_padding, aligned_padding, payload_len,
  complex_payload, checked_extent, skip_padding, aligned_head, expect, aligned_pairs,
  typed_preamble, bools_present, last_padding, typed_head, complex_pairs, complex_head,
}
use structio.Beve.Reader.Moves.{
  preamble_keeps, Keeps-drop_bytes, Keeps-count, Keeps-typed_preamble, Keeps-bools_present,
  Keeps-typed_head, Keeps-complex_pairs, Keeps-complex_head, Keeps-aligned_head,
  Keeps-aligned_pairs, have-cases,
}

-- With `fuel` left at a depth, the levels that are left to `max_depth` can all be entered.
pub record Enough (fuel : ℕ) (r : Reader) : Type 0 where
  pub shallow : r.depth ≤ 256
  pub fuelled : 257 ≤ fuel + r.depth

pub record Ends {ℓ} {A : Type ℓ} (fuel : ℕ) (m : Walk A) : Type ℓ where
  pub at : (r : Reader) → Enough fuel r → (m r).0 ≢ stuck

pub Enough-Moves : {fuel : ℕ} {r s : Reader} → Enough fuel r → Moves r s → Enough fuel s
Enough-Moves e m = record {
  shallow = omega (arith, e.shallow, m.same_depth);
  fuelled = omega (arith, e.fuelled, m.same_depth);
}

-- Code that does not recur never answers `stuck`.
abbrev pub Answers {ℓ} : {A : Type ℓ} → PResult A → Type ℓ
Answers x = x ≢ stuck

module _ {ℓ} {A : Type ℓ} (fuel : ℕ) where
  pub Ends-pure : (a : A) → Ends fuel (pure a)
  unfolding pure
  Ends-pure a = record { at = λ r e p. cc }

  pub Ends-raise : (c : ErrorCode) → Ends fuel (raise {A = A} c)
  unfolding raise
  Ends-raise c = record { at = λ r e p. cc }

  pub Ends-gets : (f : Reader → A) → Ends fuel (gets f)
  unfolding gets
  Ends-gets f = record { at = λ r e p. cc }

  pub Ends-lift : (x : PResult A) → Answers x → Ends fuel (lift x)
  unfolding lift
  Ends-lift x h = record { at = λ r e. h }

  pub Ends-if :
      (b : Bool) (m n : Walk A) → Ends fuel m → Ends fuel n → Ends fuel (if b then m else n)
  Ends-if true m n km kn = km
  Ends-if false m n km kn = kn

module _ {ℓ κ} {A : Type ℓ} {B : Type κ} (fuel : ℕ) where
  Ends-continue :
      (x : PResult A) (f : A → Walk B) (s : Reader)
      → x ≢ stuck
      → ((a : A) → Ends fuel (f a))
      → Enough fuel s
      → (continue x f s).0 ≢ stuck
  Ends-continue (ok a) f s h kf e = (kf a).at s e
  Ends-continue (err c) f s h kf e = λ p. cc
  Ends-continue stuck f s h kf e = absurd (h refl)

  pub Ends-bind :
      (m : Walk A) (f : A → Walk B)
      → Keeps m
      → Ends fuel m
      → ((a : A) → Ends fuel (f a))
      → Ends fuel (m >>= f)
  unfolding ◌>>=◌
  Ends-bind m f keeps km kf = record {
    at = λ r e. Ends-continue (m r).0 f (m r).1 (km.at r e) kf (Enough-Moves e (keeps.at r));
  }

pub Ends-repeat :
    (fuel n : ℕ) (body : Walk (Unit {0})) → Keeps body → Ends fuel body → Ends fuel (repeat n body)
unfolding repeat
Ends-repeat fuel zero body k e = Ends-pure fuel tt
Ends-repeat fuel (suc n) body k e = Ends-bind fuel _ _ k e (λ _. Ends-repeat fuel n body k e)

-- One level deeper there is one round less to need.
pub Ends-nested {ℓ} :
    {A : Type ℓ} (fuel : ℕ) (body : Walk A) → Ends fuel body → Ends (suc fuel) (nested body)
unfolding nested enter leaving ◌>>=◌
Ends-nested fuel body k = record {
  at = λ r e. elim (Bool-cases (leb max_depth r.depth)) [
    | inl full ↦ rw full (λ p. cc)
    | inr room ↦ rw room (
        k.at (record r { depth = r.depth + 1 })
          (record { shallow = ground (arith, e.shallow); fuelled = omega (arith, e.fuelled) }))
  ];
}

-- The primitives and the tests.
pub Ends-head : (fuel : ℕ) → Ends fuel head
unfolding head
Ends-head fuel = record { at = λ r e. ground arith }

pub Ends-take : (fuel n : ℕ) → Ends fuel (take n)
unfolding take
Ends-take fuel n = record { at = λ r e. ground arith }

pub Ends-size : (fuel : ℕ) → Ends fuel size
unfolding size
Ends-size fuel = record {
  at = λ r e. elim (decode_size-cases r.bytes r.pos) [
    | inl (v, end, p, _, _) ↦ rw (p, size) (λ q. cc)
    | inr p ↦ rw (p, size) (λ q. cc)
  ];
}

pub Answers-as_count : (n : ℕ) → Answers (as_count n)
unfolding as_count
Answers-as_count n = ground arith

pub Answers-fixed_width : (h : ℕ) → Answers (fixed_width h)
unfolding fixed_width
Answers-fixed_width h = ground arith

pub Answers-key_width : (h : ℕ) → Answers (key_width h)
unfolding key_width
Answers-key_width h = ground arith

pub Answers-bare_header : (h : ℕ) → Answers (bare_header h)
unfolding bare_header
Answers-bare_header h = ground arith

pub Answers-aligned_padding : (p w : ℕ) → Answers (aligned_padding p w)
unfolding aligned_padding
Answers-aligned_padding p w = ground arith

pub Answers-checked_extent : (n w : ℕ) → Answers (checked_extent n w)
unfolding checked_extent
Answers-checked_extent n w = ground arith

pub Answers-payload_len : (h n : ℕ) → Answers (payload_len h n)
unfolding payload_len checked_extent
Answers-payload_len h n = ground (arith, Answers-fixed_width h)

pub Answers-complex_payload : (w : ℕ) (p : Option ℕ) → Answers (complex_payload w p)
unfolding complex_payload
Answers-complex_payload w none = Answers-checked_extent _ _
Answers-complex_payload w (some n) = Answers-checked_extent _ _

pub ruleset ends_rules = (
  Ends-pure, Ends-raise, Ends-gets, Ends-lift, Ends-if, Ends-bind, Ends-repeat, Ends-nested,
  Ends-head, Ends-take, Ends-size, Answers-as_count, Answers-fixed_width, Answers-key_width,
  Answers-bare_header, Answers-aligned_padding, Answers-payload_len, Answers-complex_payload,
  preamble_keeps,
)

module _ (fuel : ℕ) where
  pub Ends-drop_bytes : (n : ℕ) → Ends fuel (drop_bytes n)
  unfolding drop_bytes
  Ends-drop_bytes n = search ends_rules

  pub Ends-count : Ends fuel count
  unfolding count
  Ends-count = search ends_rules

pub ruleset small_ends = (ends_rules, Ends-drop_bytes, Ends-count)

module _ (fuel : ℕ) where
  pub Ends-skip_padding : (w : ℕ) → Ends fuel (skip_padding w)
  unfolding skip_padding
  Ends-skip_padding w = search small_ends depth 8

  pub Ends-expect : (h : ℕ) → Ends fuel (expect h)
  unfolding expect
  Ends-expect h = search small_ends depth 8

ruleset padding_ends = (small_ends, Ends-skip_padding, Ends-expect)

module _ (fuel : ℕ) where
  pub Ends-aligned_head : Ends fuel aligned_head
  unfolding aligned_head
  Ends-aligned_head = search padding_ends depth 10

  pub Ends-aligned_pairs : (c w : ℕ) → Ends fuel (aligned_pairs c w)
  unfolding aligned_pairs
  Ends-aligned_pairs c w = search padding_ends depth 10

ruleset aligned_ends =
    (padding_ends, Ends-aligned_head, Ends-aligned_pairs, Keeps-aligned_head, Keeps-aligned_pairs)

Answers-bool_padding : (n last : ℕ) → Answers (bool_padding n last)
unfolding bool_padding
Answers-bool_padding n last = ground arith

module _ (fuel : ℕ) where
  pub Ends-typed_preamble : (h : ℕ) → Ends fuel (typed_preamble h)
  unfolding typed_preamble
  Ends-typed_preamble h = search aligned_ends depth 10

  Ends-last_padding : (n extent : ℕ) → Ends fuel (last_padding n extent)
  unfolding last_padding bool_padding
  Ends-last_padding n zero = record { at = λ r e p. cc }
  Ends-last_padding n (suc last) = record { at = λ r e. ground arith }

  Ends-bools_present : (form : Typed) → Ends fuel (bools_present form)
  unfolding bools_present ◌>>=◌
  Ends-bools_present (strings n) = Ends-pure fuel tt
  Ends-bools_present (fixed h n) = Ends-pure fuel tt
  Ends-bools_present (bools n) = record {
    at = λ r e. elim (have-cases (div_ceil8 n) r) [
      | inl (p, _) ↦ rw p ((Ends-last_padding n (div_ceil8 n)).at r e)
      | inr p ↦ rw p (λ q. cc)
    ];
  }

  pub Ends-typed_head : (h : ℕ) → Ends fuel (typed_head h)
  unfolding typed_head
  Ends-typed_head h =
      search
        (
          aligned_ends, Ends-typed_preamble, Ends-bools_present, Keeps-typed_preamble,
          Keeps-bools_present,
        )
        depth 8

  Ends-complex_pairs : (c w : ℕ) → Ends fuel (complex_pairs c w)
  unfolding complex_pairs
  Ends-complex_pairs c w = search aligned_ends depth 10

  pub Ends-complex_head : Ends fuel complex_head
  unfolding complex_head
  Ends-complex_head = search (aligned_ends, Ends-complex_pairs, Keeps-complex_pairs) depth 10
