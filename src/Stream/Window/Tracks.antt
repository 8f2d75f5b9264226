-- ===== src/Stream/Window/Tracks.antt =====
-- The window of src/stream.rs against the bytes that the stream has brought so far.
use structio.Prelude.{
  ℕ, ◌+◌, ◌-◌, ◌%◌, ◌^◌, ◌≤◌, ◌<◌, ◌≡◌, ◌≢◌, refl, sym, ap, ◌∙◌, arith, Bool, true, false, List, [],
  ◌++◌, ltb, ◌==◌, length, take, drop, length-append, length-drop, ◌⊎◌, drop-append_left, drop-drop,
  inl, inr, Bool-cases, ltb→le, ltb→lt, ==→eq, le→ltb,
}
use structio.Error.{ErrorCode, PResult, ok, err, stuck, document_too_large}
use structio.Stream.{Split, item, need, end, Framer, FramerLaws, Between}
use structio.Stream.Window.{
  Window, Answer, located, refused, lost, buffered, offset, extend, compact, error_at, extent_at,
  limited, placed_answer, locate, settle, try_next,
}
use mathlib.Core.Path.{subst}

module _ {f : Framer} (laws : FramerLaws f) where
  -- The window holds what the stream has brought from `origin` on, with the framer placed in it.
  pub record Tracks (stream : List ℕ) (w : Window f) : Type 0 where
    pub alive : w.failed ≡ false
    pub begun : w.origin ≤ length stream
    pub window : w.buf ≡ drop w.origin stream
    pub placed : laws.Placed w.buf w.split
    pub initialized : length w.buf ≤ w.inited

  Tracks-length :
      (stream : List ℕ) (w : Window f) → Tracks stream w → w.origin + length w.buf ≡ length stream
  Tracks-length stream w t = omega (arith, t.begun, ap length t.window, length-drop w.origin stream)

  module _ (stream : List ℕ) (w : Window f) (t : Tracks stream w) where
    pub extend-Tracks : (bytes : List ℕ) → Tracks (stream ++ bytes) (extend bytes w)
    unfolding extend
    extend-Tracks bytes =
        rw (extend, t.alive)
          (record {
            alive = refl;
            begun = omega (arith, t.begun, length-append stream bytes);
            window =
                ap (λ (b : List ℕ). b ++ bytes) t.window
                ∙ sym (drop-append_left w.origin stream bytes t.begun);
            placed = laws.grown_placed w.buf bytes w.split t.placed;
            initialized = omega (arith, length-append w.buf bytes);
          })

  module _ (stream : List ℕ) (w : Window f) (t : Tracks stream w)
      (short : length stream < 2 ^ 64) where
    abbrev compacted : Window f
    compacted = record w {
      buf = drop (f.consumed w.split) w.buf;
      split = f.rebase w.split;
      origin = (w.origin + f.consumed w.split) % 2 ^ 64;
    }

    unwrapped : (w.origin + f.consumed w.split) % 2 ^ 64 ≡ w.origin + f.consumed w.split
    unwrapped =
        omega (arith, short, Tracks-length stream w t, laws.consumed_inside w.buf w.split t.placed)

    compacted-Tracks : Tracks stream compacted
    compacted-Tracks = record {
      alive = t.alive;
      begun =
          omega (
            arith,
            unwrapped,
            Tracks-length stream w t,
            laws.consumed_inside w.buf w.split t.placed,
          );
      window =
          ap (drop (f.consumed w.split)) t.window
          ∙ drop-drop (f.consumed w.split) w.origin stream
          ∙ ap (λ (n : ℕ). drop n stream) (sym unwrapped);
      placed = laws.rebase_placed w.buf w.split t.placed;
      initialized = omega (arith, t.initialized, length-drop (f.consumed w.split) w.buf);
    }

    -- Compaction keeps the stream, the place in it, the limit and the end, and leaves less than
    -- half of the buffer dead.
    pub record Compacts (v : Window f) : Type 0 where
      pub tracks : Tracks stream v
      pub offset_same : offset v ≡ offset w
      pub limit_same : v.limit ≡ w.limit
      pub eof_same : v.eof ≡ w.eof
      pub live : (f.consumed v.split ≡ 0) ⊎ (f.consumed v.split + f.consumed v.split < length v.buf)

    kept-Compacts :
        (f.consumed w.split ≡ 0) ⊎ (f.consumed w.split + f.consumed w.split < length w.buf)
        → Compacts w
    kept-Compacts l = record {
      tracks = t;
      offset_same = refl;
      limit_same = refl;
      eof_same = refl;
      live = l;
    }

    compacted-Compacts : Compacts compacted
    unfolding offset
    compacted-Compacts = record {
      tracks = compacted-Tracks;
      offset_same = omega (arith, laws.rebase_consumed w.split, unwrapped);
      limit_same = refl;
      eof_same = refl;
      live = inl (laws.rebase_consumed w.split);
    }

    abbrev dead : ℕ
    dead = f.consumed w.split

    compact_none : (dead == 0) ≡ true → compact w ≡ w
    unfolding compact
    compact_none e = simp (compact, e)

    compact_few : (dead == 0) ≡ false → ltb dead (length w.buf - dead) ≡ true → compact w ≡ w
    unfolding compact
    compact_few e l = simp (compact, e, l)

    compact_most :
        (dead == 0) ≡ false → ltb dead (length w.buf - dead) ≡ false → compact w ≡ compacted
    unfolding compact
    compact_most e l = simp (compact, e, l)

    pub compact-Compacts : Compacts (compact w)
    compact-Compacts = elim (Bool-cases (dead == 0)) [
      | inl e ↦ subst Compacts (sym (compact_none e)) (kept-Compacts (inl (==→eq _ _ e)))
      | inr e ↦ elim (Bool-cases (ltb dead (length w.buf - dead))) [
        | inl l ↦
            subst Compacts (sym (compact_few e l))
              (kept-Compacts (inr (omega (arith, ltb→lt _ _ l))))
        | inr l ↦ subst Compacts (sym (compact_most e l)) compacted-Compacts
      ]
    ]

  -- What a call of `try_next` makes of a window that tracks the stream, by its answer.
  pub NextAnswer : List ℕ → Window f → Answer × Window f → Type 0
  NextAnswer stream w (located (item start stop), v) =
      Tracks stream v
      × (offset w ≤ v.origin + start)
      × (start ≤ stop)
      × (v.origin + stop ≤ offset v)
      × (stop - start ≤ v.limit)
      × (take (stop - start) (drop start v.buf)
          ≡ take (stop - start) (drop (v.origin + start) stream))
  NextAnswer stream w (located need, v) =
      Tracks stream v × (offset w ≤ offset v) × (v.eof ≡ false) × (buffered v ≤ v.limit)
  NextAnswer stream w (located end, v) = Tracks stream v × (offset w ≤ offset v)
  NextAnswer stream w (refused code at, v) = (v.failed ≡ true) × (v.buf ≡ []) × (at ≤ length stream)
  NextAnswer stream w (lost, v) = ⊥

  offset_eq :
      (stream : List ℕ) (u : Window f)
      → Tracks stream u
      → length stream < 2 ^ 64
      → offset u ≡ u.origin + f.consumed u.split
  unfolding offset
  offset_eq stream u t short =
      omega (arith, short, Tracks-length stream u t, laws.consumed_inside u.buf u.split t.placed)

  module _ (stream : List ℕ) (w u : Window f) (base : ℕ) (t : Tracks stream u)
      (short : length stream < 2 ^ 64) (begins : offset w ≡ u.origin + base)
      (forward : base ≤ f.consumed u.split) where
    -- A failure's window, and where it is reported.
    failed_at :
        (code : ErrorCode) (at : ℕ)
        → at ≤ length u.buf
        → NextAnswer stream w (settle (error_at code at u, u))
    unfolding NextAnswer settle error_at
    failed_at code at h = (refl, refl, omega (arith, h, short, Tracks-length stream u t))

    located_need :
        u.eof ≡ false → buffered u ≤ u.limit → NextAnswer stream w (settle (located need, u))
    unfolding NextAnswer settle
    located_need e l = (t, omega (arith, begins, forward, offset_eq stream u t short), e, l)

    located_end : NextAnswer stream w (settle (located end, u))
    unfolding NextAnswer settle
    located_end = (t, omega (arith, begins, forward, offset_eq stream u t short))

    located_item :
        (start stop : ℕ)
        → base ≤ start
        → start ≤ stop
        → stop ≤ f.consumed u.split
        → stop - start ≤ u.limit
        → NextAnswer stream w (settle (located (item start stop), u))
    unfolding NextAnswer settle
    located_item start stop lo mid hi l = (
      t,
      omega (arith, begins, lo),
      mid,
      omega (arith, hi, offset_eq stream u t short),
      l,
      ap (λ (b : List ℕ). take (stop - start) (drop start b)) t.window
          ∙ ap (take (stop - start)) (drop-drop start u.origin stream),
    )

    limited-NextAnswer :
        (split : Split)
        → Between base (f.consumed u.split) (ok split)
        → (split ≡ need → u.eof ≡ false)
        → NextAnswer stream w (settle (limited split u, u))
    unfolding limited extent_at
    limited-NextAnswer need b n = elim (Bool-cases (ltb u.limit (buffered u))) [
      | inl l ↦ rw (limited, l) (failed_at document_too_large (f.consumed u.split) inside)
      | inr l ↦ rw (limited, l) (located_need (n refl) (ltb→le _ _ l))
    ]
      where
        inside : f.consumed u.split ≤ length u.buf
        inside = laws.consumed_inside u.buf u.split t.placed
    limited-NextAnswer (item start stop) b n = elim (Bool-cases (ltb u.limit (stop - start))) [
      | inl l ↦
          rw (limited, l)
            (failed_at document_too_large start (omega (arith, b.0, b.1, b.2, inside)))
      | inr l ↦ rw (limited, l) (located_item start stop b.0 b.1 b.2 (ltb→le _ _ l))
    ]
      where
        inside : f.consumed u.split ≤ length u.buf
        inside = laws.consumed_inside u.buf u.split t.placed
    limited-NextAnswer end b n = rw (limited, le→ltb u.limit 0 (omega arith)) located_end

    placed-NextAnswer :
        (x : PResult Split)
        → Between base (f.consumed u.split) x
        → (x ≡ ok need → u.eof ≡ false)
        → x ≢ stuck
        → NextAnswer stream w (settle (placed_answer x u, u))
    unfolding placed_answer
    placed-NextAnswer (ok split) b n s = limited-NextAnswer split b (λ e. n (ap ok e))
    placed-NextAnswer (err code) b n s =
        failed_at code (f.position u.split) (laws.position_inside u.buf u.split t.placed)
    placed-NextAnswer stuck b n s = absurd (s refl)

  try_next_alive : (w : Window f) → w.failed ≡ false → try_next w ≡ settle (locate w)
  unfolding try_next
  try_next_alive w e = simp (try_next, e)

  -- For a framer that keeps its laws, in a window that holds the bytes of a stream of fewer than 2^64
  -- bytes from its origin on: `try_next` leaves such a window or a failed one. An item begins at the old offset
  -- or behind it, ends at the new one or before it, is no longer than the limit, and its bytes are
  -- those of the stream there. More bytes are asked for only before the end of the input, with no
  -- more than the limit buffered. A failure drops the buffer and is placed inside the stream.
  pub try_next-NextAnswer :
      (stream : List ℕ) (w : Window f)
      → Tracks stream w
      → length stream < 2 ^ 64
      → NextAnswer stream w (try_next w)
  unfolding locate
  try_next-NextAnswer stream w t short =
      subst (NextAnswer stream w) (sym (try_next_alive w t.alive)) (
        placed-NextAnswer stream w (record v { split = x.1 }) (f.consumed v.split) stepped short
          (sym c.offset_same ∙ offset_eq stream v c.tracks short)
          (laws.next_forward v.buf v.eof v.split c.tracks.placed) x.0
          (laws.next_between v.buf v.eof v.split c.tracks.placed) (waiting v.eof v.buf v.split)
          (laws.next_answers v.buf v.eof v.split c.tracks.placed))
    where
      v : Window f
      v = compact w

      c : Compacts stream w t short v
      c = compact-Compacts stream w t short

      x : PResult Split × f.State
      x = f.next v.buf v.eof v.split

      stepped : Tracks stream (record v { split = x.1 })
      stepped = record {
        alive = c.tracks.alive;
        begun = c.tracks.begun;
        window = c.tracks.window;
        placed = laws.next_placed v.buf v.eof v.split c.tracks.placed;
        initialized = c.tracks.initialized;
      }

      waiting :
          (eof : Bool) (buf : List ℕ) (s : f.State) → (f.next buf eof s).0 ≡ ok need → eof ≡ false
      waiting true buf s e = absurd (laws.next_resolves buf s e)
      waiting false buf s e = refl
