-- ===== src/Beve/Splitter/Elements.antt =====
-- One element of the top-level array (`next` of src/beve/stream/split.rs), in whichever of the four
-- layouts it is stored.
use structio.Prelude.{
  ℕ, zero, suc, ◌+◌, ◌-◌, ◌≤◌, ◌<◌, ◌≡◌, ◌≢◌, refl, sym, ap, arith, Bool, Option, none, some, List,
  length, ltb, ◌==◌, Bool-cases, inl, inr, get_elem?, get_elem?-lt, ltb→le,
}
use mathlib.Core.Path.{subst}
use structio.Error.{PResult, ok, err, stuck, unexpected_end}
use structio.Beve.Reader.{bool_padding}
use structio.Beve.Split.{size_at}
use structio.Beve.Split.Progress.{size_at-cases}
use structio.Beve.Splitter.{
  Elem, generic, fixed, strings, bools, State, before_element, Splitter, take_fixed, take_string,
  take_bool, string_end, produce, next_element, advance_bit, last_bit,
}
use structio.Beve.Splitter.Opening.{Plain}
use structio.Beve.Splitter.Placed.{Stands, Placed, Safe, need_or-Between, Plain-Stands, Safe-begin}

-- What a layout finds.
abbrev Found : List ℕ → ℕ → PResult (Option ℕ) × Splitter → Type 0
Found buf from (ok (some stop), t) = Placed buf t × (from ≤ stop) × (stop ≤ t.cursor)
Found buf from (ok none, t) = Placed buf t × (from ≤ t.cursor)
Found buf from (err e, t) = Placed buf t × (from ≤ t.cursor)
Found buf from (stuck, t) = 1 ≤ 0

taken-Placed :
    (buf : List ℕ) (t : Splitter) → Placed buf t → Placed buf (record t { left = t.left - 1 })
taken-Placed buf t p = record {
  cursor_inside = p.cursor_inside;
  scan_inside = p.scan_inside;
  sound = p.sound;
  stands = p.stands;
}

Safe-produce :
    (buf : List ℕ) (eof : Bool) (from : ℕ) (x : PResult (Option ℕ) × Splitter)
    → Found buf from x
    → Safe buf from (produce eof from x)
unfolding produce
Safe-produce buf eof from (ok (some stop), t) (p, a, b) =
    (λ q. cc, taken-Placed buf t p, omega arith, (omega arith, a, b))
Safe-produce buf eof from (ok none, t) (p, a) =
    let (n, b) = need_or-Between eof from t.cursor unexpected_end in (n, p, a, b)
Safe-produce buf eof from (err e, t) (p, a) = (λ q. cc, p, a, tt)
Safe-produce buf eof from (stuck, t) h = absurd (omega arith)

Stands-bit : (b c p n : ℕ) → c < n → Stands before_element (bools b) c p n
Stands-bit zero c p n h = tt
Stands-bit (suc b) c p n h = h

last_bit-ne-stuck : (left bit byte : ℕ) → last_bit left bit byte ≢ stuck
unfolding last_bit bool_padding
last_bit-ne-stuck left bit byte = ground arith

module _ (buf : List ℕ) (s : Splitter) (placed : Placed buf s) (at : s.state ≡ before_element) where
  -- A state that stands between elements of another layout or at another cursor.
  moved :
      (c : ℕ) (e : Elem) (h : Option ℕ)
      → c ≤ length buf
      → Stands before_element e c s.scan.pos (length buf)
      → Placed buf (record s { cursor = c; elem = e; implied = h })
  moved c e h inside st = record {
    cursor_inside = inside;
    scan_inside = placed.scan_inside;
    sound = placed.sound;
    stands = subst (λ (q : State). Stands q e c s.scan.pos (length buf)) (sym at) st;
  }

  Plain-moved :
      (c : ℕ) (h : Option ℕ)
      → Plain s.elem
      → c ≤ length buf
      → Placed buf (record s { cursor = c; implied = h })
  Plain-moved c h plain inside =
      moved c s.elem h inside (Plain-Stands s.elem c s.scan.pos (length buf) plain)

  Found-fixed :
      (implied width : ℕ) → Plain s.elem → Found buf s.cursor (take_fixed buf implied width s)
  unfolding take_fixed
  Found-fixed implied width plain = elim (Bool-cases (ltb (length buf - s.cursor) width)) [
    | inl e ↦ rw e (placed, omega arith)
    | inr e ↦ rw e (
      Plain-moved (s.cursor + width) (some implied) plain
          (omega (arith, ltb→le _ _ e, placed.cursor_inside)),
      omega arith,
      omega arith,
    )
  ]

  Found-string :
      (o : Option ℕ)
      → Plain s.elem
      → ((stop : ℕ) → o ≡ some stop → (s.cursor ≤ stop) × (stop ≤ length buf))
      → Found buf s.cursor (take_string o s)
  unfolding take_string
  Found-string none plain h = (placed, omega arith)
  Found-string (some stop) plain h =
      let (lo, hi) = h stop refl in (Plain-moved stop _ plain hi, lo, omega arith)

  string_end-bounds :
      (stop : ℕ)
      → string_end buf (size_at buf s.cursor) ≡ some stop
      → (s.cursor ≤ stop) × (stop ≤ length buf)
  unfolding string_end
  string_end-bounds stop h = elim (size_at-cases buf s.cursor) [
    | inr e ↦ cc (ap (string_end buf) e)
    | inl (n, p, d, e, lo, hi) ↦ ground (arith, e)
  ]

  bit-Placed :
      (bit byte : ℕ)
      → s.cursor < length buf
      → Placed buf (advance_bit bit byte s)
        × (s.cursor ≤ s.cursor)
        × (s.cursor ≤ (advance_bit bit byte s).cursor)
  unfolding advance_bit
  bit-Placed bit byte lt = elim (Bool-cases (bit + 1 == 8)) [
    | inl e ↦ rw e (moved (s.cursor + 1) (bools 0) _ (omega arith) tt, omega arith, omega arith)
    | inr e ↦ rw e (
      moved s.cursor (bools (bit + 1)) _ placed.cursor_inside
          (Stands-bit (bit + 1) s.cursor s.scan.pos (length buf) lt),
      omega arith,
      omega arith,
    )
  ]

  Found-bool :
      (bit : ℕ) (o : Option ℕ)
      → ((b : ℕ) → o ≡ some b → s.cursor < length buf)
      → Found buf s.cursor (take_bool bit o s)
  unfolding take_bool
  Found-bool bit none h = (placed, omega arith)
  Found-bool bit (some byte) h = go (last_bit s.left bit byte) refl
    where
      go :
          (x : PResult (Unit {0}))
          → last_bit s.left bit byte ≡ x
          → Found buf s.cursor (elim x [
            | ok _ ↦ (ok (some s.cursor), advance_bit bit byte s)
            | err e ↦ (err e, s)
            | stuck ↦ (stuck, s)
          ])
      go (ok u) e = bit-Placed bit byte (h byte refl)
      go (err c) e = (placed, omega arith)
      go stuck e = absurd (last_bit-ne-stuck s.left bit byte e)

  pub Safe-element :
      (eof : Bool) (e : Elem) → s.elem ≡ e → Safe buf s.cursor (next_element buf eof e s)
  unfolding next_element
  Safe-element eof generic same = elim (Bool-cases (ltb s.cursor (length buf))) [
    | inl e ↦ rw e (Safe-begin buf eof s placed.cursor_inside (subst Plain (sym same) tt))
    | inr e ↦ rw e (Safe-produce buf eof s.cursor (ok none, s) (placed, omega arith))
  ]
  Safe-element eof (fixed implied width) same =
      Safe-produce buf eof s.cursor _ (Found-fixed implied width (subst Plain (sym same) tt))
  Safe-element eof strings same = Safe-produce buf eof s.cursor _ (
      Found-string (string_end buf (size_at buf s.cursor)) (subst Plain (sym same) tt)
        string_end-bounds)
  Safe-element eof (bools bit) same =
      Safe-produce buf eof s.cursor _
        (Found-bool bit (get_elem? buf s.cursor) (λ b h. get_elem?-lt buf s.cursor h))
