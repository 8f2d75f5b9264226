-- ===== src/Beve/Reader/Extent.antt =====
-- The preambles of src/beve/reader.rs, and the predicate of `Walk.Local`.
use structio.Prelude.{
  ap, ℕ, zero, suc, ◌+◌, ◌^◌, ◌≤◌, ◌<◌, ◌≡◌, refl, arith, List, [], ◌++◌, length, inl, inr, leb,
  get_or, Bool-cases, div_ceil8, get_or-append_length, get_or-append_left, ◌∙◌, length-append, ltb,
  ltb→lt, ltb→le, true, false,
}
use mathlib.Core.List.{append-nil}
use structio.Error.{PResult, ok, err, stuck, unexpected_end}
use structio.Beve.Walk.{Reader, Walk, ◌>>=◌}
use structio.Beve.Walk.Local.{
  embed, Final, Carried, Fits, Local, Local-bind, Local-pure, local_rules,
}
use structio.Beve.Reader.{
  max_depth, Typed, bools, strings, fixed, drop_bytes, count, enter, leave, leaving, nested,
  skip_padding, aligned_head, expect, aligned_pairs, have, bool_padding, typed_preamble,
  refuse_past, last_padding, bools_present, typed_head, complex_pairs, complex_head,
}
use structio.Beve.Reader.Moves.{
  preamble_keeps, Keeps-drop_bytes, Keeps-count, Keeps-typed_preamble, Keeps-bools_present,
  Keeps-aligned_head, Keeps-aligned_pairs, Keeps-complex_pairs, have-cases,
}
use structio.Beve.Reader.Local.{Local-head, Local-take, Local-size, Final-end}

module _ {ℓ} {A : Type ℓ} (pre more : List ℕ) where
  carried_leave :
      (p q : PResult A × Reader)
      → Carried pre more p q
      → Carried pre more (p.0, leave p.1) (q.0, leave q.1)
  unfolding leave
  carried_leave (ok a, s) q h = rw h
  carried_leave (err e, s) q h = λ fin. rw (h fin)
  carried_leave (stuck, s) q h = rw h

pub Local-nested {ℓ} : {A : Type ℓ} (body : Walk A) → Local body → Local (nested body)
unfolding nested enter leaving ◌>>=◌
Local-nested body k = record {
  at = λ pre more r fits. elim (Bool-cases (leb max_depth r.depth)) [
    | inl full ↦ rw full (λ _. refl)
    | inr room ↦ rw room (
        carried_leave pre more (body (deeper r)) (body (deeper (embed pre more r)))
          (k.at pre more (deeper r) fits))
  ];
}
  where
    deeper : Reader → Reader
    deeper r = record r { depth = r.depth + 1 }

pub ruleset reader_local =
    (local_rules, Local-head, Local-take, Local-size, Local-nested, preamble_keeps)

pub Local-drop_bytes : (n : ℕ) → Local (drop_bytes n)
unfolding drop_bytes
Local-drop_bytes n = search reader_local

pub Local-count : Local count
unfolding count
Local-count = search reader_local

pub Local-skip_padding : (w : ℕ) → Local (skip_padding w)
unfolding skip_padding
Local-skip_padding w = search (reader_local, Local-drop_bytes) depth 8

pub Local-expect : (h : ℕ) → Local (expect h)
unfolding expect
Local-expect h = search reader_local

pub ruleset preamble_local =
    (reader_local, Local-drop_bytes, Local-count, Local-skip_padding, Local-expect)

Local-aligned_head : Local aligned_head
unfolding aligned_head
Local-aligned_head = search preamble_local depth 10

Local-aligned_pairs : (c w : ℕ) → Local (aligned_pairs c w)
unfolding aligned_pairs
Local-aligned_pairs c w = search preamble_local depth 10

pub Local-typed_preamble : (h : ℕ) → Local (typed_preamble h)
unfolding typed_preamble
Local-typed_preamble h = search (preamble_local, Local-aligned_head, Keeps-aligned_head) depth 10

Local-complex_pairs : (c w : ℕ) → Local (complex_pairs c w)
unfolding complex_pairs
Local-complex_pairs c w = search (preamble_local, Local-aligned_pairs, Keeps-aligned_pairs) depth 10

pub Local-complex_head : Local complex_head
unfolding complex_head
Local-complex_head = search (preamble_local, Local-complex_pairs, Keeps-complex_pairs) depth 10

have_ok :
    (n : ℕ) (r : Reader) → r.pos + n < 2 ^ 64 → r.pos + n ≤ length r.bytes → have n r ≡ (ok tt, r)
unfolding have
have_ok n r h k = ground arith

have_end : (n : ℕ) (r : Reader) → length r.bytes < r.pos + n → have n r ≡ (err unexpected_end, r)
unfolding have
have_end n r h = ground arith

module _ (pre more : List ℕ) (r : Reader) where
  carried_refuse_past :
      (x : PResult (Unit {0})) (k : ℕ)
      → Carried pre more (refuse_past x k r) (refuse_past x k (embed pre more r))
  unfolding refuse_past
  carried_refuse_past (ok _) k = refl
  carried_refuse_past (err e) k = λ _. ground arith
  carried_refuse_past stuck k = refl

  carried_last_padding :
      (n extent : ℕ)
      → r.pos + extent ≤ length r.bytes
      → Carried pre more (last_padding n extent r) (last_padding n extent (embed pre more r))
  unfolding last_padding
  carried_last_padding n zero h = refl
  carried_last_padding n (suc last) h =
      rw byte (carried_refuse_past (bool_padding n (get_or r.bytes (r.pos + last) 0)) (suc last))
    where
      byte :
          get_or (pre ++ (r.bytes ++ more)) (length pre + r.pos + last) 0
          ≡ get_or r.bytes (r.pos + last) 0
      byte =
          ap (λ (t : ℕ). get_or (pre ++ (r.bytes ++ more)) t 0) (omega arith)
          ∙ get_or-append_length pre (r.bytes ++ more) (r.pos + last) 0
          ∙ get_or-append_left r.bytes more (r.pos + last) 0 (omega arith)

  module _ (n : ℕ) (fits : Fits pre r) where
    carried_bools :
        Carried pre more (bools_present (bools n) r) (bools_present (bools n) (embed pre more r))
    unfolding bools_present ◌>>=◌
    carried_bools = elim (Bool-cases (ltb (length r.bytes) (r.pos + div_ceil8 n))) [
      | inl short ↦
          rw (have_end (div_ceil8 n) r (ltb→lt _ _ short))
            (λ fin. rw (have_end (div_ceil8 n) (embed pre more r) (stays short (Final-end fin))))
      | inr long ↦
          rw
            (
              have_ok (div_ceil8 n) r (omega (arith, ltb→le _ _ long)) (ltb→le _ _ long),
              have_ok (div_ceil8 n) (embed pre more r) (omega (arith, ltb→le _ _ long)) (room long),
            )
            (carried_last_padding n (div_ceil8 n) (ltb→le _ _ long))
    ]
      where
        stays :
            ltb (length r.bytes) (r.pos + div_ceil8 n) ≡ true
            → more ≡ []
            → length (pre ++ (r.bytes ++ more)) < length pre + r.pos + div_ceil8 n
        stays s e = rw (e, append-nil, length-append) (omega (arith, ltb→lt _ _ s))

        room :
            ltb (length r.bytes) (r.pos + div_ceil8 n) ≡ false
            → length pre + r.pos + div_ceil8 n ≤ length (pre ++ (r.bytes ++ more))
        room s = rw (length-append, length-append) (omega (arith, ltb→le _ _ s))

Local-bools_present : (form : Typed) → Local (bools_present form)
unfolding bools_present
Local-bools_present (bools n) = record { at = λ pre more r fits. carried_bools pre more r n fits }
Local-bools_present (strings n) = Local-pure tt
Local-bools_present (fixed h n) = Local-pure tt

pub Local-typed_head : (h : ℕ) → Local (typed_head h)
unfolding typed_head
Local-typed_head h =
    search
      (
        preamble_local, Local-typed_preamble, Local-bools_present, Keeps-typed_preamble,
        Keeps-bools_present,
      )
      depth 8
