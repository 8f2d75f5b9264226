-- ===== src/Beve/Writer/Room.antt =====
-- The room in the buffer of src/beve/writer.rs: what `reserve`, a spill and a store leave.
use structio.Prelude.{
  ℕ, ◌+◌, ◌≤◌, ◌<◌, ◌≡◌, refl, sym, ap, ◌∙◌, arith, min, true, false, Option, none, some, List, [],
  ◌++◌, ltb, length, inl, inr, Bool-cases, Option-cases, ltb→lt, ltb→le, le→ltb, lt→ltb,
  length-append,
}
use structio.Beve.Writer.{
  Io, Sink, Writer, Put, drain, send, reserved, relimit, spill, room, hand_over, store, raw_full,
  raw_stored,
}
use mathlib.Core.Path.{subst}
use mathlib.Core.List.{append-nil, append_assoc}
use structio.Beve.Writer.Buffer.{
  IoLaws, Sound, Appended, Appended-trans, Appended-refl, drain-Appended, send_lem,
}

module _ {io : Io} (laws : IoLaws io) where
  -- `reserve` and the new limit keep everything but the room.
  abbrev roomier : Writer io → ℕ → Writer io
  roomier w c = record w { capacity = c; limit = min c w.threshold }

  Appended-roomier : (w : Writer io) (c : ℕ) → Sound w → Appended laws [] w (roomier w c)
  Appended-roomier w c s = record {
    sound = record { within = omega arith; begun = s.begun };
    reached = omega arith;
    skip_same = refl;
    aligned_same = refl;
    sink_same = refl;
    written = λ h. (h, sym (append-nil _));
  }

  relimit-reserved :
      (n : ℕ) (w : Writer io)
      → (c : ℕ) × (relimit io (reserved io n w) ≡ roomier w c) × (length w.buf + n ≤ c)
  unfolding reserved relimit
  relimit-reserved n w = elim (Bool-cases (ltb w.capacity (length w.buf + n))) [
    | inl t ↦ (
      io.reserve w.capacity (length w.buf) n,
      rw t,
      laws.reserve_room w.capacity (length w.buf) n,
    )
    | inr t ↦ (w.capacity, rw t, ltb→le _ _ t)
  ]

  -- After `spill` there is room for what was asked, and nothing is lost.
  abbrev pub Roomy : ℕ → Writer io → Writer io → Type 0
  Roomy n w w' = Appended laws [] w w' × (length w'.buf + n ≤ w'.capacity)

  pub spill-Roomy : (n : ℕ) (w : Writer io) → Sound w → Roomy n w (spill io n w)
  unfolding spill
  spill-Roomy n w s =
      let (c, e, h) = relimit-reserved n (drain io w) in
      let d = drain-Appended laws w s in
      subst (λ (v : Writer io). Roomy n w v) (sym e)
        (Appended-trans laws d (Appended-roomier (drain io w) c d.sound), h)

  pub room-Roomy : (n : ℕ) (w : Writer io) → Sound w → Roomy n w (room io n w)
  unfolding room
  room-Roomy n w s = elim (Bool-cases (ltb w.limit (length w.buf + n))) [
    | inl t ↦ rw t (spill-Roomy n w s)
    | inr t ↦ rw t (Appended-refl laws w s, omega (arith, ltb→le _ _ t, s.within))
  ]

  abbrev pub Appends : List ℕ → Put io → Type 0
  Appends bs m =
      (w : Writer io) → Sound w → (w' : Writer io) × (m w ≡ some w') × Appended laws bs w w'

  -- A store into room that is there.
  pub store-Appended :
      (touched : ℕ) (bs : List ℕ) (w : Writer io)
      → Sound w
      → length w.buf + touched ≤ w.capacity
      → (w' : Writer io) × (store io touched bs w ≡ some w') × Appended laws bs w w'
  unfolding store
  store-Appended touched bs w s h = (
    record w { buf = w.buf ++ bs },
    rw (le→ltb _ _ h),
    record {
      sound = record { within = s.within; begun = omega (arith, s.begun, length-append w.buf bs) };
      reached = omega (arith, length-append w.buf bs);
      skip_same = refl;
      aligned_same = refl;
      sink_same = refl;
      written = λ c. (c, stored w.sink);
    },
  )
    where
      stored :
          (k : Option (Sink io))
          → elim k [ none ↦ w.buf ++ bs | some s ↦ laws.received s.out ++ (w.buf ++ bs) ]
            ≡ elim k [ none ↦ w.buf | some s ↦ laws.received s.out ++ w.buf ] ++ bs
      stored none = refl
      stored (some x) = sym (append_assoc (laws.received x.out) w.buf bs)

  -- Room for `touched` bytes, then a store of at most so many.
  pub Appends-store :
      (touched : ℕ) (bs : List ℕ) → Appends bs (λ w. store io touched bs (room io touched w))
  Appends-store touched bs w s =
      let (a, h) = room-Roomy touched w s in
      let (w', e, b) = store-Appended touched bs (room io touched w) a.sound h in
      (w', e, Appended-trans laws a b)

  module _ (bs : List ℕ) (w : Writer io) (x : Sink io) where
    abbrev passed : Writer io
    passed = record w { origin = w.origin + length bs; sink = some (send io x bs) }

    Appended-passed : Sound w → w.buf ≡ [] → w.sink ≡ some x → Appended laws bs w passed
    Appended-passed s f e = record {
      sound = record { within = s.within; begun = omega (arith, s.begun) };
      reached = omega arith;
      skip_same = refl;
      aligned_same = refl;
      sink_same = rw e refl;
      written = λ c.
          let l = send_lem laws x bs c in
          rw (e, f)
            (
              l.0,
              ap (λ (t : List ℕ). t ++ []) l.1
                  ∙ append-nil _
                  ∙ ap (λ (t : List ℕ). t ++ bs) (sym (append-nil _)),
            );
    }

  drain-empty : (w : Writer io) (x : Sink io) → (drain io w).sink ≡ some x → (drain io w).buf ≡ []
  unfolding drain
  drain-empty w x e = ground arith

  module _ (bs : List ℕ) (w : Writer io) where
    raw_small : (length bs < w.threshold) → hand_over io bs w ≡ (false, w)
    unfolding hand_over
    raw_small h = rw (lt→ltb _ _ h)

    raw_none :
        w.threshold ≤ length bs → (drain io w).sink ≡ none → hand_over io bs w ≡ (false, drain io w)
    unfolding hand_over
    raw_none h e = simp (le→ltb _ _ h, e)

    raw_some :
        (x : Sink io)
        → w.threshold ≤ length bs
        → (drain io w).sink ≡ some x
        → hand_over io bs w ≡ (true, passed bs (drain io w) x)
    unfolding hand_over
    raw_some x h e = simp (le→ltb _ _ h, e)

  abbrev pub Result : List ℕ → Writer io → Option (Writer io) → Type 0
  Result bs w o = (w' : Writer io) × (o ≡ some w') × Appended laws bs w w'

  -- What `raw` does when the bytes do not fit: they go to the sink, or to a buffer with room.
  raw_full-Appends : (bs : List ℕ) → Appends bs (raw_full io bs)
  unfolding raw_full
  raw_full-Appends bs w s = elim (Bool-cases (ltb (length bs) w.threshold)) [
    | inl t ↦ rw (raw_small bs w (ltb→lt _ _ t)) (spilled w (Appended-refl laws w s))
    | inr t ↦ elim (Option-cases (drain io w).sink) [
      | inl e ↦ rw (raw_none bs w (ltb→le _ _ t) e) (spilled (drain io w) (drain-Appended laws w s))
      | inr (x, e) ↦ rw (raw_some bs w x (ltb→le _ _ t) e) (
        passed bs (drain io w) x,
        refl,
        Appended-trans laws (drain-Appended laws w s) (
            Appended-passed bs (drain io w) x (drain-Appended laws w s).sound (drain-empty w x e)
              e),
      )
    ]
  ]
    where
      spilled :
          (v : Writer io)
          → Appended laws [] w v
          → Result bs w (store io (length bs) bs (spill io (length bs) v))
      spilled v a =
          let (b, h) = spill-Roomy (length bs) v a.sound in
          let (w', e, c) = store-Appended (length bs) bs (spill io (length bs) v) b.sound h in
          (w', e, Appended-trans laws (Appended-trans laws a b) c)

  pub Appends-raw_stored : (bs : List ℕ) → Appends bs (raw_stored io bs)
  unfolding raw_stored
  Appends-raw_stored bs w s = elim (Bool-cases (ltb w.limit (length w.buf + length bs))) [
    | inl t ↦ rw t (raw_full-Appends bs w s)
    | inr t ↦ rw t (store-Appended (length bs) bs w s (omega (arith, ltb→le _ _ t, s.within)))
  ]
