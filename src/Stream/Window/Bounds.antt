-- ===== src/Stream/Window/Bounds.antt =====
-- How much the window of src/stream.rs holds.
use structio.Prelude.{
  ℕ, ◌+◌, ◌-◌, ◌≤◌, ◌≡◌, refl, sym, ap, ◌∙◌, arith, max, true, List, [], ◌∷◌, ◌++◌, length,
  length-append, drop-append_left,
}
use mathlib.Core.Path.{subst}
use mathlib.Core.List.{append-nil}
use structio.Stream.{Framer, FramerLaws}
use structio.Stream.Window.{
  Window, Outcome, got, interrupted, broken, buffered, offset, wanted, filled, fill,
}
use structio.Stream.Window.Tracks.{Tracks}

-- A reader fills at most the slice that it is given.
abbrev pub Fits : {E : Type 0} → ℕ → Outcome E → Type 0
Fits n (got bytes) = length bytes ≤ n
Fits n interrupted = Unit
Fits n (broken e) = Unit

-- The bytes that a read has brought.
abbrev pub brought : {E : Type 0} → Outcome E → List ℕ
brought (got bytes) = bytes
brought interrupted = []
brought (broken e) = []

module _ {f : Framer} (laws : FramerLaws f) where
  buffered_alive :
      (stream : List ℕ) (w : Window f)
      → Tracks laws stream w
      → buffered w ≡ length w.buf - f.consumed w.split
  unfolding buffered
  buffered_alive stream w t = simp (buffered, t.alive)

  wanted_bounds :
      (chunk : ℕ) (w : Window f)
      → (1 ≤ wanted chunk w) × (wanted chunk w ≤ w.limit - buffered w + 1)
  unfolding wanted
  wanted_bounds chunk w = (omega arith, omega arith)

  -- The window with the slice made ready.
  abbrev ready : ℕ → Window f → Window f
  ready n w = record w { inited = max w.inited (length w.buf + n) }

  ready-Tracks :
      (n : ℕ) (stream : List ℕ) (w : Window f)
      → Tracks laws stream w
      → Tracks laws stream (ready n w)
  ready-Tracks n stream w t = record {
    alive = t.alive;
    begun = t.begun;
    window = t.window;
    placed = t.placed;
    initialized = omega (arith, t.initialized);
  }

  module _ (stream : List ℕ) (n : ℕ) (w : Window f) (t : Tracks laws stream w) where
    -- What a read leaves of the window.
    abbrev Filled : {E : Type 0} → Outcome E → Type 0
    Filled x =
        Tracks laws (stream ++ brought x) (filled x (ready n w)).1
        × (offset (filled x (ready n w)).1 ≡ offset w)
        × (buffered (filled x (ready n w)).1 ≤ buffered w + n)

    unread :
        (v : Window f)
        → Tracks laws stream v
        → offset v ≡ offset w
        → buffered v ≡ buffered w
        → Tracks laws (stream ++ []) v × (offset v ≡ offset w) × (buffered v ≤ buffered w + n)
    unread v k o b =
        (subst (λ (bs : List ℕ). Tracks laws bs v) (sym (append-nil stream)) k, o, omega (arith, b))

    abbrev grown : List ℕ → Window f
    grown bytes = record w { buf = w.buf ++ bytes; inited = max w.inited (length w.buf + n) }

    grown-Tracks : (bytes : List ℕ) → length bytes ≤ n → Tracks laws (stream ++ bytes) (grown bytes)
    grown-Tracks bytes h = record {
      alive = t.alive;
      begun = omega (arith, t.begun, length-append stream bytes);
      window =
          ap (λ (b : List ℕ). b ++ bytes) t.window
          ∙ sym (drop-append_left w.origin stream bytes t.begun);
      placed = laws.grown_placed w.buf bytes w.split t.placed;
      initialized = omega (arith, length-append w.buf bytes, h);
    }

    filled_lem : {E : Type 0} (x : Outcome E) → Fits n x → Filled x
    unfolding filled offset buffered
    filled_lem (got []) h = unread _ (at_end (ready-Tracks n stream w t)) refl refl
      where
        at_end :
            {v : Window f} → Tracks laws stream v → Tracks laws stream (record v { eof = true })
        at_end k = record {
          alive = k.alive;
          begun = k.begun;
          window = k.window;
          placed = k.placed;
          initialized = k.initialized;
        }
    filled_lem (got (b ∷ bs)) h = (
      grown-Tracks (b ∷ bs) h,
      refl,
      omega (
        arith,
        buffered_alive (stream ++ b ∷ bs) (grown (b ∷ bs)) (grown-Tracks (b ∷ bs) h),
        buffered_alive stream w t,
        length-append w.buf (b ∷ bs),
        laws.consumed_inside w.buf w.split t.placed,
      ),
    )
    filled_lem interrupted h = unread _ (ready-Tracks n stream w t) refl refl
    filled_lem (broken e) h = unread _ (ready-Tracks n stream w t) refl refl

module _ {f : Framer} (laws : FramerLaws f) {R E : Type 0} (read : R → ℕ → Outcome E × R) where
  -- For a reader that fills at most the slice it is given, in a window that holds the bytes of the
  -- stream from its origin on with no more than the limit buffered: `fill` asks for a byte at
  -- least, leaves a window that holds the stream with what was read behind it, at the same offset,
  -- and buffers no more than the limit and one byte.
  pub fill-Tracks :
      (stream : List ℕ) (chunk : ℕ) (reader : R) (w : Window f)
      → Tracks laws stream w
      → buffered w ≤ w.limit
      → Fits (wanted chunk w) (read reader (wanted chunk w)).0
      → let bytes = brought (read reader (wanted chunk w)).0 in
        let v = (fill read chunk reader w).2 in
        (1 ≤ wanted chunk w)
        × Tracks laws (stream ++ bytes) v
        × (offset v ≡ offset w)
        × (buffered v ≤ w.limit + 1)
  unfolding fill filled
  fill-Tracks stream chunk reader w t b h =
      let (lo, hi) = wanted_bounds laws chunk w in
      let (k, o, m) =
        filled_lem laws stream (wanted chunk w) w t (read reader (wanted chunk w)).0 h in
      (lo, k, o, omega (arith, m, hi, b))
