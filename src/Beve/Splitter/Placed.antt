-- ===== src/Beve/Splitter/Placed.antt =====
-- The splitter of src/beve/stream/split.rs inside its buffer: walking an item, and the states around
-- it.
use structio.Prelude.{
  ℕ, zero, suc, ◌+◌, ◌≤◌, ◌<◌, ◌≡◌, ◌≢◌, refl, sym, arith, Bool, true, false, Option, none, some,
  List, [], ◌∷◌, length, ltb, leb, ◌==◌, Bool-cases, inl, inr, drop, length-drop,
}
use mathlib.Core.Path.{subst}
use structio.Error.{ErrorCode, PResult, ok, err, stuck, unexpected_end}
use structio.Stream.{Between}
use structio.Beve.Header.{delimiter}
use structio.Beve.Split.{Scanner, advance, restart}
use structio.Beve.Split.Frames.{SoundFrames}
use structio.Beve.Split.Advance.{advance-answers}
use structio.Beve.Split.End.{Stops, advance-Stops}
use structio.Beve.Splitter.{
  Mode, values, array, Elem, generic, fixed, strings, bools, State, between, in_item, before_array,
  before_element, done, Split, item, need, end, Splitter, need_or, next_done, in_item_answer,
  next_in_item, begin_item, end_item, delimiters, next_between,
}
use structio.Beve.Splitter.Opening.{Plain}

-- What a state asks for: a walk begun stands at the cursor or behind it, and a byte some of whose bits
-- have gone out is in the buffer.
abbrev pub Stands : State → Elem → (cursor pos len : ℕ) → Type 0
Stands in_item e c p n = (c ≤ p) × Plain e
Stands before_element (bools (suc b)) c p n = c < n
Stands before_element e c p n = Unit
Stands between e c p n = Plain e
Stands before_array e c p n = Plain e
Stands done e c p n = Plain e

pub record Placed (buf : List ℕ) (s : Splitter) : Type 0 where
  pub cursor_inside : s.cursor ≤ length buf
  pub scan_inside : s.scan.pos ≤ length buf
  pub sound : SoundFrames s.scan.stack
  pub stands : Stands s.state s.elem s.cursor s.scan.pos (length buf)

abbrev pub Safe : List ℕ → ℕ → PResult Split × Splitter → Type 0
Safe buf from (x, t) = (x ≢ stuck) × Placed buf t × (from ≤ t.cursor) × Between from t.cursor x

pub need_or-Between :
    (eof : Bool) (from to : ℕ) (c : ErrorCode)
    → (need_or eof (err c) ≢ stuck) × Between from to (need_or eof (err c))
unfolding need_or
need_or-Between true from to c = (λ p. cc, tt)
need_or-Between false from to c = (λ p. cc, tt)

pub need_or_end :
    (eof : Bool) (from to : ℕ)
    → (need_or eof (ok end) ≢ stuck) × Between from to (need_or eof (ok end))
unfolding need_or
need_or_end true from to = (λ p. cc, tt)
need_or_end false from to = (λ p. cc, tt)

pub Safe-from :
    (buf : List ℕ) (from mid : ℕ) (x : PResult Split × Splitter)
    → from ≤ mid
    → Safe buf mid x
    → Safe buf from x
Safe-from buf from mid (ok (item a b), t) h (n, p, c, s) =
    (n, p, omega arith, (omega (arith, s.0), s.1, s.2))
Safe-from buf from mid (ok need, t) h (n, p, c, s) = (n, p, omega arith, tt)
Safe-from buf from mid (ok end, t) h (n, p, c, s) = (n, p, omega arith, tt)
Safe-from buf from mid (err e, t) h (n, p, c, s) = (n, p, omega arith, tt)
Safe-from buf from mid (stuck, t) h (n, p, c, s) = (n, p, omega arith, tt)

pub Plain-Stands : (e : Elem) (c p n : ℕ) → Plain e → Stands before_element e c p n
Plain-Stands generic c p n h = tt
Plain-Stands (fixed implied width) c p n h = tt
Plain-Stands strings c p n h = tt
Plain-Stands (bools zero) c p n h = tt
Plain-Stands (bools (suc b)) c p n h = absurd (omega arith)

end_item-cursor : (stop : ℕ) (u : Splitter) → (end_item stop u).cursor ≡ stop
unfolding end_item
end_item-cursor stop u = ground arith

-- Walking an item.
module _ (buf : List ℕ) (eof : Bool) (s : Splitter) (walking : s.state ≡ in_item)
    (plain : Plain s.elem) where
  walking-Placed :
      (t : Scanner)
      → s.cursor ≤ t.pos
      → t.pos ≤ length buf
      → SoundFrames t.stack
      → Placed buf (record s { scan = t })
  walking-Placed t lo hi k = record {
    cursor_inside = omega arith;
    scan_inside = hi;
    sound = k;
    stands =
        subst (λ (st : State). Stands st s.elem s.cursor t.pos (length buf)) (sym walking)
          (lo, plain);
  }

  item-Placed :
      (mode : Mode) (t : Scanner)
      → s.cursor ≤ t.pos
      → t.pos ≤ length buf
      → SoundFrames t.stack
      → Placed buf (end_item t.pos (record s { mode = mode; scan = t }))
  unfolding end_item
  item-Placed values t lo hi k = record {
    cursor_inside = hi;
    scan_inside = hi;
    sound = k;
    stands = plain;
  }
  item-Placed array t lo hi k = record {
    cursor_inside = hi;
    scan_inside = hi;
    sound = k;
    stands = Plain-Stands s.elem t.pos t.pos (length buf) plain;
  }

  Safe-answer :
      (x : PResult (Option ℕ) × Scanner)
      → s.cursor ≤ x.1.pos
      → x.1.pos ≤ length buf
      → SoundFrames x.1.stack
      → x.0 ≢ stuck
      → Stops x
      → Safe buf s.cursor (in_item_answer eof x s)
  unfolding in_item_answer
  Safe-answer (ok (some e), t) lo hi k n st = (
    λ p. cc,
    subst (λ (stop : ℕ). Placed buf (end_item stop (record s { scan = t }))) (sym st)
        (item-Placed s.mode t lo hi k),
    omega (arith, end_item-cursor e (record s { scan = t })),
    (omega arith, omega arith, omega (arith, end_item-cursor e (record s { scan = t }))),
  )
  Safe-answer (ok none, t) lo hi k n st =
      let (a, b) = need_or-Between eof s.cursor s.cursor unexpected_end in
      (a, walking-Placed t lo hi k, omega arith, b)
  Safe-answer (err c, t) lo hi k n st = (λ p. cc, walking-Placed t lo hi k, omega arith, tt)
  Safe-answer (stuck, t) lo hi k n st = absurd (n refl)

  pub Safe-item :
      s.cursor ≤ s.scan.pos
      → s.scan.pos ≤ length buf
      → SoundFrames s.scan.stack
      → Safe buf s.cursor (next_in_item buf eof s)
  unfolding next_in_item
  Safe-item lo hi k =
      let a = advance-answers buf s.scan hi k in
      Safe-answer (advance buf s.scan) (omega (arith, a.1)) a.2 a.3 a.0 (advance-Stops buf s.scan)

module _ (buf : List ℕ) (eof : Bool) where
  pub Safe-begin :
      (s : Splitter)
      → s.cursor ≤ length buf
      → Plain s.elem
      → Safe buf s.cursor (next_in_item buf eof (begin_item s))
  unfolding begin_item restart
  Safe-begin s inside plain = Safe-item buf eof (begin_item s) refl plain (omega arith) inside tt

  delimiters-le : (bs : List ℕ) → delimiters bs ≤ length bs
  unfolding delimiters
  delimiters-le [] = omega arith
  delimiters-le (b ∷ bs) = elim (Bool-cases (b == delimiter)) [
    | inl e ↦ rw e (omega (arith, delimiters-le bs))
    | inr e ↦ rw e (omega arith)
  ]

  pub Safe-between :
      (s : Splitter) → Placed buf s → s.state ≡ between → Safe buf s.cursor (next_between buf eof s)
  unfolding next_between
  Safe-between s placed at = elim (Bool-cases (leb (length buf) c)) [
    | inl e ↦ rw e (
        let (a, b) = need_or_end eof s.cursor c in
        (
          a,
          record {
            cursor_inside = inside;
            scan_inside = placed.scan_inside;
            sound = placed.sound;
            stands =
                subst (λ (st : State). Stands st s.elem c s.scan.pos (length buf)) (sym at) plain;
          },
          omega arith,
          b,
        ))
    | inr e ↦ rw e (
        Safe-from buf s.cursor c _ (omega arith)
          (Safe-begin (record s { cursor = c }) inside plain))
  ]
    where
      c : ℕ
      c = s.cursor + delimiters (drop s.cursor buf)

      inside : c ≤ length buf
      inside =
          omega (
            arith,
            placed.cursor_inside,
            delimiters-le (drop s.cursor buf),
            length-drop s.cursor buf,
          )

      plain : Plain s.elem
      plain =
          subst (λ (st : State). Stands st s.elem s.cursor s.scan.pos (length buf)) at placed.stands

  pub Safe-done : (s : Splitter) → Placed buf s → Safe buf s.cursor (next_done buf eof s)
  unfolding next_done
  Safe-done s placed = elim (Bool-cases (ltb s.cursor (length buf))) [
    | inl e ↦ rw e (λ p. cc, placed, omega arith, tt)
    | inr e ↦ rw e (let (a, b) = need_or_end eof s.cursor s.cursor in (a, placed, omega arith, b))
  ]
