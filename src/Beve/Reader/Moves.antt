-- ===== src/Beve/Reader/Moves.antt =====
-- The primitives and the preambles of src/beve/reader.rs, and the predicate of `Walk.Moves`.
use structio.Prelude.{
  ltb→le, ◌^◌, ◌⊎◌, div_ceil8, ℕ, zero, suc, ◌+◌, ◌≤◌, ◌≡◌, refl, ◌∙◌, arith, inl, inr, length,
  Bool-cases, Option-cases, ltb, leb, get_elem?, get_elem?-lt,
}
use structio.Error.{ok, err, unexpected_end}
use structio.Beve.Header.Extent.{decode_size-cases}
use structio.Beve.Walk.{Reader, Walk, ◌>>=◌}
use structio.Beve.Walk.Moves.{
  Moves, Moves-refl, Moves-trans, Keeps, Keeps-pure, Keeps-bind, Keeps-repeat, basic_keeps,
}
use structio.Beve.Reader.{
  max_depth, Typed, bools, strings, fixed, head, take, drop_bytes, size, count, enter, leave,
  leaving, nested, skip_padding, aligned_head, expect, aligned_pairs, have, typed_preamble,
  last_padding, bools_present, typed_head, complex_pairs, complex_head,
}

head_inside : (r : Reader) → r.pos ≤ length r.bytes → (head r).1.pos ≤ length (head r).1.bytes
unfolding head
head_inside r h = elim (Option-cases r.implied) [
  | inr (x, e) ↦ rw (e, head) h
  | inl e ↦ elim (Option-cases (get_elem? r.bytes r.pos)) [
    | inl f ↦ rw (e, f, head) h
    | inr (b, f) ↦ rw (e, f, head) (omega (arith, get_elem?-lt r.bytes r.pos f))
  ]
]

pub Keeps-head : Keeps head
Keeps-head = record {
  at = λ r. record {
    same_bytes = unfold head in ground arith;
    same_depth = unfold head in ground arith;
    same_installed = unfold head in ground arith;
    forward = unfold head in ground arith;
    inside = head_inside r;
  };
}

pub Keeps-take : (n : ℕ) → Keeps (take n)
unfolding take
Keeps-take n = record {
  at = λ r. record {
    same_bytes = ground arith;
    same_depth = ground arith;
    same_installed = ground arith;
    forward = ground arith;
    inside = λ h. ground arith;
  };
}

pub Keeps-size : Keeps size
unfolding size
Keeps-size = record {
  at = λ r. elim (decode_size-cases r.bytes r.pos) [
    | inl (v, end, e, lo, hi) ↦
        rw (e, size)
          (record {
            same_bytes = refl;
            same_depth = refl;
            same_installed = refl;
            forward = omega arith;
            inside = λ _. hi;
          })
    | inr e ↦ rw (e, size) (Moves-refl r)
  ];
}

Moves-nested :
    {r s t : Reader}
    → r.depth + 1 ≡ s.depth
    → Moves s t
    → s.bytes ≡ r.bytes
    → s.pos ≡ r.pos
    → s.installed ≡ r.installed
    → Moves r (leave t)
unfolding leave
Moves-nested {r} {s} {t} d m e p i = record {
  same_bytes = m.same_bytes ∙ e;
  same_depth = omega (arith, m.same_depth, d);
  same_installed = m.same_installed ∙ i;
  forward = omega (arith, m.forward, p);
  inside = λ h. m.inside (rw (p, e) h);
}

-- A level is left on every way out, a failure included.
pub Keeps-nested {ℓ} : {A : Type ℓ} (body : Walk A) → Keeps body → Keeps (nested body)
unfolding nested enter leaving ◌>>=◌
Keeps-nested body k = record {
  at = λ r. elim (Bool-cases (leb max_depth r.depth)) [
    | inl full ↦ rw full (Moves-refl r)
    | inr room ↦
        rw room (Moves-nested {r = r} refl (k.at (record r { depth = r.depth + 1 })) refl refl refl)
  ];
}

pub ruleset reader_keeps =
    (basic_keeps, Keeps-repeat, Keeps-head, Keeps-take, Keeps-size, Keeps-nested)

pub Keeps-drop_bytes : (n : ℕ) → Keeps (drop_bytes n)
unfolding drop_bytes
Keeps-drop_bytes n = search reader_keeps

pub Keeps-count : Keeps count
unfolding count
Keeps-count = search reader_keeps

pub Keeps-have : (n : ℕ) → Keeps (have n)
unfolding have
Keeps-have n = record {
  at = λ r. record {
    same_bytes = ground arith;
    same_depth = ground arith;
    same_installed = ground arith;
    forward = ground arith;
    inside = λ h. ground arith;
  };
}

pub Keeps-skip_padding : (w : ℕ) → Keeps (skip_padding w)
unfolding skip_padding
Keeps-skip_padding w = search (reader_keeps, Keeps-drop_bytes)

pub Keeps-expect : (h : ℕ) → Keeps (expect h)
unfolding expect
Keeps-expect h = search reader_keeps

pub ruleset preamble_keeps =
    (reader_keeps, Keeps-drop_bytes, Keeps-count, Keeps-skip_padding, Keeps-expect)

pub Keeps-aligned_head : Keeps aligned_head
unfolding aligned_head
Keeps-aligned_head = search preamble_keeps depth 8

pub Keeps-aligned_pairs : (c w : ℕ) → Keeps (aligned_pairs c w)
unfolding aligned_pairs
Keeps-aligned_pairs c w = search preamble_keeps depth 8

pub Keeps-typed_preamble : (h : ℕ) → Keeps (typed_preamble h)
unfolding typed_preamble
Keeps-typed_preamble h = search (preamble_keeps, Keeps-aligned_head) depth 8

pub Keeps-complex_pairs : (c w : ℕ) → Keeps (complex_pairs c w)
unfolding complex_pairs
Keeps-complex_pairs c w = search (preamble_keeps, Keeps-aligned_pairs) depth 8

pub Keeps-complex_head : Keeps complex_head
unfolding complex_head
Keeps-complex_head = search (preamble_keeps, Keeps-complex_pairs) depth 8

-- `have` moves nothing, and what it grants is inside.
pub have-cases :
    (n : ℕ) (r : Reader)
    → (((have n r ≡ (ok tt, r)) × (r.pos + n ≤ length r.bytes))
        ⊎ (have n r ≡ (err unexpected_end, r)))
unfolding have
have-cases n r = elim (Bool-cases (ltb (r.pos + n) (2 ^ 64))) [
  | inr f ↦ inr (rw (f, have))
  | inl t ↦ elim (Bool-cases (ltb (length r.bytes) (r.pos + n))) [
    | inl u ↦ inr (rw (t, u, have))
    | inr u ↦ inl (rw (t, u, have), ltb→le _ _ u)
  ]
]

last_padding-Moves :
    (n extent : ℕ) (r : Reader)
    → r.pos + extent ≤ length r.bytes
    → Moves r (last_padding n extent r).1
unfolding last_padding
last_padding-Moves n zero r h = Moves-refl r
last_padding-Moves n (suc last) r h = record {
  same_bytes = ground arith;
  same_depth = ground arith;
  same_installed = ground arith;
  forward = ground arith;
  inside = λ _. ground arith;
}

pub Keeps-bools_present : (form : Typed) → Keeps (bools_present form)
unfolding bools_present ◌>>=◌
Keeps-bools_present (strings n) = Keeps-pure tt
Keeps-bools_present (fixed h n) = Keeps-pure tt
Keeps-bools_present (bools n) = record {
  at = λ r. elim (have-cases (div_ceil8 n) r) [
    | inl (e, h) ↦ rw e (last_padding-Moves n (div_ceil8 n) r h)
    | inr e ↦ rw e (Moves-refl r)
  ];
}

pub Keeps-typed_head : (h : ℕ) → Keeps (typed_head h)
unfolding typed_head
Keeps-typed_head h = search (reader_keeps, Keeps-typed_preamble, Keeps-bools_present)
