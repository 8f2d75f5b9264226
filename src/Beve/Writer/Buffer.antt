-- ===== src/Beve/Writer/Buffer.antt =====
-- The buffer of src/beve/writer.rs: draining, and what reaches the sink.
use structio.Prelude.{
  ℕ, ◌+◌, ◌≤◌, ◌≡◌, refl, sym, ap, ◌∙◌, arith, Bool, true, false, none, some, List, [], ◌∷◌, ◌++◌,
  length, inl, inr, Option-cases, length-append,
}
use structio.Beve.Writer.{Io, Sink, Writer, drain, send}
use mathlib.Core.List.{append-nil, append_assoc}

-- What the writer relies on: a `write_all` that succeeds has passed every byte on, and a `reserve`
-- that returns has made the room asked for.
pub record IoLaws (io : Io) : Type 0 where
  pub received : io.State → List ℕ
  pub write_all_none :
      (s : io.State) (bytes : List ℕ)
      → (io.write_all s bytes).0 ≡ none
      → received (io.write_all s bytes).1 ≡ received s ++ bytes
  pub reserve_room : (capacity len n : ℕ) → len + n ≤ io.reserve capacity len n

module _ {io : Io} where
  abbrev pub reach : Writer io → ℕ
  reach w = w.origin + length w.buf

  -- `limit <= capacity`, and the document has begun at or before the next byte.
  pub record Sound (w : Writer io) : Type 0 where
    pub within : w.limit ≤ w.capacity
    pub begun : w.skip ≤ reach w

  abbrev pub clean_sink : Sink io → Bool
  clean_sink s = elim s.error [ none ↦ true | some e ↦ false ]

  -- No write to the sink has failed.
  abbrev pub clean : Writer io → Bool
  clean w = elim w.sink [ none ↦ true | some s ↦ clean_sink s ]

  abbrev pub has_sink : Writer io → Bool
  has_sink w = elim w.sink [ none ↦ false | some s ↦ true ]

module _ {io : Io} (laws : IoLaws io) where
  -- What the sink has received, then what is buffered.
  abbrev pub contents : Writer io → List ℕ
  contents w = elim w.sink [ none ↦ w.buf | some s ↦ laws.received s.out ++ w.buf ]

  -- From `w` to `w'` the bytes `bs` were appended, whatever was drained on the way.
  pub record Appended (bs : List ℕ) (w w' : Writer io) : Type 0 where
    pub sound : Sound w'
    pub reached : reach w' ≡ reach w + length bs
    pub skip_same : w'.skip ≡ w.skip
    pub aligned_same : w'.aligned ≡ w.aligned
    pub sink_same : has_sink w' ≡ has_sink w
    pub written : clean w' ≡ true → (clean w ≡ true) × (contents w' ≡ contents w ++ bs)

  pub Appended-trans :
      {bs cs : List ℕ} {u v w : Writer io}
      → Appended bs u v
      → Appended cs v w
      → Appended (bs ++ cs) u w
  Appended-trans {bs} {cs} a b = record {
    sound = b.sound;
    reached = omega (arith, a.reached, b.reached, length-append bs cs);
    skip_same = b.skip_same ∙ a.skip_same;
    aligned_same = b.aligned_same ∙ a.aligned_same;
    sink_same = b.sink_same ∙ a.sink_same;
    written = λ c.
        let later = b.written c in
        let earlier = a.written later.0 in
        (earlier.0, later.1 ∙ ap (λ (t : List ℕ). t ++ cs) earlier.1 ∙ append_assoc _ bs cs);
  }

  pub Appended-refl : (w : Writer io) → Sound w → Appended [] w w
  Appended-refl w s = record {
    sound = s;
    reached = omega arith;
    skip_same = refl;
    aligned_same = refl;
    sink_same = refl;
    written = λ c. (c, sym (append-nil _));
  }

  module _ (s : Sink io) (bytes : List ℕ) where
    send_clean :
        s.error ≡ none
        → send io s bytes
          ≡ record s { out = (io.write_all s.out bytes).1; error = (io.write_all s.out bytes).0 }
    unfolding send
    send_clean e = rw e

    send_failed : (x : io.Error) → s.error ≡ some x → send io s bytes ≡ s
    unfolding send
    send_failed x e = rw e

    -- A sink without an error after a write had none before, and received the bytes.
    pub send_lem :
        clean_sink (send io s bytes) ≡ true
        → (clean_sink s ≡ true)
          × (laws.received (send io s bytes).out ≡ laws.received s.out ++ bytes)
    send_lem = elim (Option-cases s.error) [
      | inl e ↦ rw (send_clean e, e) (λ c. (refl, laws.write_all_none s.out bytes (no_error c)))
      | inr (x, e) ↦ rw (send_failed x e, e) (λ c. absurd (cc))
    ]
      where
        no_error :
            elim (io.write_all s.out bytes).0 [ none ↦ true | some e ↦ false ] ≡ true
            → (io.write_all s.out bytes).0 ≡ none
        no_error c = ground arith

  drain_kept : (w : Writer io) → w.sink ≡ none → drain io w ≡ w
  unfolding drain
  drain_kept w e = ground arith

  drain_nil : (w : Writer io) → w.buf ≡ [] → drain io w ≡ w
  unfolding drain
  drain_nil w e = rw e

  module _ (w : Writer io) (x : Sink io) (e : w.sink ≡ some x) where
    abbrev drained : Writer io
    drained = record w { buf = []; origin = reach w; sink = some (send io x w.buf) }

    drain_cons : (b : ℕ) (bs : List ℕ) → w.buf ≡ b ∷ bs → drain io w ≡ drained
    unfolding drain
    drain_cons b bs f = ground arith

    Appended-drained : Sound w → Appended [] w drained
    Appended-drained s = record {
      sound = record { within = s.within; begun = omega (arith, s.begun) };
      reached = omega arith;
      skip_same = refl;
      aligned_same = refl;
      sink_same = rw e refl;
      written = λ c. let l = send_lem x w.buf c in rw e (l.0, ap (λ (t : List ℕ). t ++ []) l.1);
    }

  pub drain-Appended : (w : Writer io) → Sound w → Appended [] w (drain io w)
  drain-Appended w s = elim (Option-cases w.sink) [
    | inl e ↦ rw (drain_kept w e) (Appended-refl w s)
    | inr (x, e) ↦ go x e w.buf refl
  ]
    where
      go : (x : Sink io) → w.sink ≡ some x → (bs : List ℕ) → w.buf ≡ bs → Appended [] w (drain io w)
      go x e [] f = rw (drain_nil w f) (Appended-refl w s)
      go x e (b ∷ bs) f = rw (drain_cons w x e b bs f) (Appended-drained w x e s)
