-- ===== src/Beve/Splitter/Next.antt =====
-- `next` of src/beve/stream/split.rs as a whole, and the splitter when its buffer grows or is cut.
use structio.Prelude.{
  ℕ, zero, suc, ◌+◌, ◌-◌, ◌≤◌, ◌≡◌, ◌≢◌, refl, sym, arith, Bool, true, false, none, some, List,
  ◌++◌, length, leb, ◌==◌, if◌then◌else◌, Bool-cases, inl, inr, drop, length-drop, length-append,
  lt→ltb,
}
use mathlib.Core.Path.{subst}
use structio.Error.{PResult, ok, err, stuck, unexpected_end}
use structio.Beve.Walk.{Reader, new}
use structio.Beve.Split.{Scanner, size_at}
use structio.Beve.Split as Walks
use structio.Beve.Splitter.{
  Mode, values, array, Elem, generic, fixed, strings, bools, State, between, in_item, before_array,
  before_element, done, need, end, Splitter, opened, open_array, close_array, next_before_element,
  after_open, next_in, next, array_head, rebase, new_splitter, consumed,
}
use structio.Beve.Splitter.Elements.{Safe-element}
use structio.Beve.Splitter.Opening.{
  Plain, PlainAnswer, array_head-inside, array_head-ne-stuck, array_head-Plain,
}
use structio.Beve.Splitter.Placed.{
  Stands, Placed, Safe, Safe-from, Plain-Stands, Safe-item, Safe-between, Safe-done,
}

closed-Placed :
    (buf : List ℕ) (s : Splitter) (e : Elem)
    → Placed buf s
    → Stands before_element e s.cursor s.scan.pos (length buf)
    → Placed buf (close_array (record s { elem = e }))
      × (s.cursor ≤ (close_array (record s { elem = e })).cursor)
unfolding close_array
closed-Placed buf s generic p st = (
  record {
    cursor_inside = p.cursor_inside;
    scan_inside = p.scan_inside;
    sound = p.sound;
    stands = tt;
  },
  omega arith,
)
closed-Placed buf s (fixed implied width) p st = (
  record {
    cursor_inside = p.cursor_inside;
    scan_inside = p.scan_inside;
    sound = p.sound;
    stands = tt;
  },
  omega arith,
)
closed-Placed buf s strings p st = (
  record {
    cursor_inside = p.cursor_inside;
    scan_inside = p.scan_inside;
    sound = p.sound;
    stands = tt;
  },
  omega arith,
)
closed-Placed buf s (bools zero) p st = (
  record {
    cursor_inside = p.cursor_inside;
    scan_inside = p.scan_inside;
    sound = p.sound;
    stands = tt;
  },
  omega arith,
)
closed-Placed buf s (bools (suc b)) p st = rw (lt→ltb 0 (suc b) (omega arith)) (
  record { cursor_inside = omega arith; scan_inside = p.scan_inside; sound = p.sound; stands = tt },
  omega arith,
)

module _ (buf : List ℕ) (eof : Bool) where
  Safe-before_element :
      (s : Splitter)
      → Placed buf s
      → s.state ≡ before_element
      → Safe buf s.cursor (next_before_element buf eof s)
  unfolding next_before_element
  Safe-before_element s placed at = elim (Bool-cases (s.left == 0)) [
    | inl e ↦ rw e (
        let (p, c) = closed-Placed buf s s.elem placed (
          subst (λ (q : State). Stands q s.elem s.cursor s.scan.pos (length buf)) at
            placed.stands) in
        Safe-from buf s.cursor (close_array s).cursor _ c (Safe-done buf eof (close_array s) p))
    | inr e ↦ rw e (Safe-element buf s placed at eof s.elem refl)
  ]

  opened-Placed :
      (n pos : ℕ) (e : Elem) (s : Splitter)
      → Placed buf s
      → s.cursor + pos ≤ length buf
      → Plain e
      → Placed buf
          (record s { cursor = s.cursor + pos; left = n; elem = e; state = before_element })
  opened-Placed n pos e s placed inside plain = record {
    cursor_inside = inside;
    scan_inside = placed.scan_inside;
    sound = placed.sound;
    stands = Plain-Stands e (s.cursor + pos) s.scan.pos (length buf) plain;
  }

Safe-opened :
    (buf : List ℕ) (eof : Bool) (x : PResult (ℕ × Elem) × Reader) (s : Splitter)
    → Placed buf s
    → s.cursor + x.1.pos ≤ length buf
    → x.0 ≢ stuck
    → PlainAnswer x.0
    → Safe buf s.cursor (after_open buf eof (opened eof x s))
unfolding after_open opened
Safe-opened buf eof (ok (m, e), r) s placed inside n plain =
    Safe-from buf s.cursor (s.cursor + r.pos) _ (omega arith) (
      Safe-before_element buf eof
        (record s { cursor = s.cursor + r.pos; left = m; elem = e; state = before_element })
        (opened-Placed buf eof m r.pos e s placed inside plain) refl)
Safe-opened buf true (err c, r) s placed inside n plain = (λ p. cc, placed, omega arith, tt)
Safe-opened buf false (err unexpected_end, r) s placed inside n plain =
    (λ p. cc, placed, omega arith, tt)
Safe-opened buf false (err c, r) s placed inside n plain = (λ p. cc, placed, omega arith, tt)
Safe-opened buf eof (stuck, r) s placed inside n plain = absurd (n refl)

module _ (buf : List ℕ) (eof : Bool) where
  Safe-open :
      (s : Splitter) → Placed buf s → Safe buf s.cursor (after_open buf eof (open_array buf eof s))
  unfolding open_array after_open
  Safe-open s placed = elim (Bool-cases (leb (length buf) s.cursor)) [
    | inl e ↦ rw e (ended eof)
    | inr e ↦ rw e (
        Safe-opened buf eof (array_head (new (drop s.cursor buf))) s placed
          (array_head-inside buf s.cursor placed.cursor_inside)
          (array_head-ne-stuck buf s.cursor placed.cursor_inside)
          (array_head-Plain buf s.cursor placed.cursor_inside))
  ]
    where
      ended :
          (b : Bool)
          → Safe buf s.cursor (after_open buf eof (ok (some (if b then end else need)), s))
      ended true = (λ p. cc, placed, omega arith, tt)
      ended false = (λ p. cc, placed, omega arith, tt)

  Safe-in :
      (state : State) (s : Splitter)
      → Placed buf s
      → s.state ≡ state
      → Safe buf s.cursor (next_in state buf eof s)
  unfolding next_in
  Safe-in between s placed at = Safe-between buf eof s placed at
  Safe-in in_item s placed at =
      let st =
        subst (λ (q : State). Stands q s.elem s.cursor s.scan.pos (length buf)) at placed.stands in
      Safe-item buf eof s at st.1 st.0 placed.scan_inside placed.sound
  Safe-in before_array s placed at = Safe-open s placed
  Safe-in before_element s placed at = Safe-before_element buf eof s placed at
  Safe-in done s placed at = Safe-done buf eof s placed

-- From a splitter inside its buffer `next` answers before any fuel runs out, and leaves a splitter
-- inside the buffer whose cursor has not gone back; an item that it answers begins at the old
-- cursor or behind it and ends at the new cursor or before it.
pub next-Safe :
    (buf : List ℕ) (eof : Bool) (s : Splitter) → Placed buf s → Safe buf s.cursor (next buf eof s)
unfolding next
next-Safe buf eof s placed = Safe-in buf eof s.state (record s { implied = none }) cleared refl
  where
    cleared : Placed buf (record s { implied = none })
    cleared = record {
      cursor_inside = placed.cursor_inside;
      scan_inside = placed.scan_inside;
      sound = placed.sound;
      stands = placed.stands;
    }

rebase-Stands :
    (st : State) (e : Elem) (c p n : ℕ) → c ≤ n → Stands st e c p n → Stands st e 0 (p - c) (n - c)
rebase-Stands in_item e c p n h (lo, plain) = (omega arith, plain)
rebase-Stands before_element generic c p n h k = tt
rebase-Stands before_element (fixed implied width) c p n h k = tt
rebase-Stands before_element strings c p n h k = tt
rebase-Stands before_element (bools zero) c p n h k = tt
rebase-Stands before_element (bools (suc b)) c p n h k = omega arith
rebase-Stands between e c p n h k = k
rebase-Stands before_array e c p n h k = k
rebase-Stands done e c p n h k = k

grown-Stands : (st : State) (e : Elem) (c p n m : ℕ) → n ≤ m → Stands st e c p n → Stands st e c p m
grown-Stands in_item e c p n m h k = k
grown-Stands before_element generic c p n m h k = tt
grown-Stands before_element (fixed implied width) c p n m h k = tt
grown-Stands before_element strings c p n m h k = tt
grown-Stands before_element (bools zero) c p n m h k = tt
grown-Stands before_element (bools (suc b)) c p n m h k = omega arith
grown-Stands between e c p n m h k = k
grown-Stands before_array e c p n m h k = k
grown-Stands done e c p n m h k = k

-- For a splitter inside its buffer: a new splitter of either mode is inside the buffer; once the
-- bytes that are consumed are discarded the rebased splitter is inside what is left; and the
-- splitter is inside the buffer grown by any bytes.
pub splitter-Placed :
    (buf more : List ℕ) (mode : Mode) (s : Splitter)
    → Placed buf s
    → Placed buf (new_splitter mode)
      × Placed (drop (consumed s) buf) (rebase s)
      × Placed (buf ++ more) s
unfolding new_splitter rebase consumed Walks.rebase Walks.new_scanner
splitter-Placed buf more mode s p = (fresh mode, shifted, grown)
  where
    fresh : (m : Mode) → Placed buf (new_splitter m)
    fresh values = record {
      cursor_inside = omega arith;
      scan_inside = omega arith;
      sound = tt;
      stands = tt;
    }
    fresh array = record {
      cursor_inside = omega arith;
      scan_inside = omega arith;
      sound = tt;
      stands = tt;
    }

    shifted : Placed (drop s.cursor buf) (rebase s)
    shifted = record {
      cursor_inside = omega arith;
      scan_inside = omega (arith, p.scan_inside, length-drop s.cursor buf);
      sound = p.sound;
      stands =
          subst (λ (n : ℕ). Stands s.state s.elem 0 (s.scan.pos - s.cursor) n)
            (sym (length-drop s.cursor buf))
            (rebase-Stands s.state s.elem s.cursor s.scan.pos (length buf) p.cursor_inside
              p.stands);
    }

    grown : Placed (buf ++ more) s
    grown = record {
      cursor_inside = omega (arith, p.cursor_inside, length-append buf more);
      scan_inside = omega (arith, p.scan_inside, length-append buf more);
      sound = p.sound;
      stands =
          grown-Stands s.state s.elem s.cursor s.scan.pos (length buf) (length (buf ++ more))
            (omega (arith, length-append buf more)) p.stands;
    }
