-- ===== src/Beve/Writer/Emits.antt =====
-- The primitives of src/beve/writer.rs as bytes of the document, whether they are buffered, passed
-- to the sink or only counted.
use structio.Prelude.{
  ℕ, ◌+◌, ◌*◌, ◌≤◌, ◌≡◌, refl, sym, ap, ◌∙◌, arith, Bool, true, false, some, List, [], ◌∷◌, ◌++◌,
  inl, inr, Bool-cases, ◌≢◌, length, length-append, if◌then◌else◌,
}
use structio.Beve.Header.{
  max_size, null, true_header, false_header, string, generic_array, matrix, complex,
}
use structio.Beve.Header.Size.{size_bytes, size_prefix-size_bytes}
use structio.Beve.Writer.{
  Io, Writer, Put, offset, unless_measuring, ◌then◌, push, raw, room, store, write_number,
  write_complex, begin_matrix, size, write_null, write_bool, write_str_body, write_str,
  begin_generic_array, keep,
}
use structio.Beve.Writer.Buffer.{IoLaws, Sound, Appended, reach, clean, contents, has_sink}
use structio.Beve.Writer.Room.{Appends, Appends-store, Appends-raw_stored}
use mathlib.Core.List.{append-nil, append_assoc}

module _ {io : Io} (laws : IoLaws io) (measure : Bool) where
  -- The bytes `bs` were written: the offset moves past them in every mode. A measuring writer holds
  -- what it held; another one holds them, or its sink received them, unless the sink has failed.
  pub record Wrote (bs : List ℕ) (w w' : Writer io) : Type 0 where
    pub sound : Sound w'
    pub reached : reach w' ≡ reach w + length bs
    pub skip_same : w'.skip ≡ w.skip
    pub aligned_same : w'.aligned ≡ w.aligned
    pub sink_same : has_sink w' ≡ has_sink w
    pub counted : measure ≡ true → w'.buf ≡ w.buf
    pub written :
        measure ≡ false
        → clean w' ≡ true
        → (clean w ≡ true) × (contents laws w' ≡ contents laws w ++ bs)

  pub Wrote-trans :
      {bs cs : List ℕ} {u v w : Writer io} → Wrote bs u v → Wrote cs v w → Wrote (bs ++ cs) u w
  Wrote-trans {bs} {cs} a b = record {
    sound = b.sound;
    reached = omega (arith, a.reached, b.reached, length-append bs cs);
    skip_same = b.skip_same ∙ a.skip_same;
    aligned_same = b.aligned_same ∙ a.aligned_same;
    sink_same = b.sink_same ∙ a.sink_same;
    counted = λ m. b.counted m ∙ a.counted m;
    written = λ m c.
        let later = b.written m c in
        let earlier = a.written m later.0 in
        (earlier.0, later.1 ∙ ap (λ (t : List ℕ). t ++ cs) earlier.1 ∙ append_assoc _ bs cs);
  }

  Wrote-refl : (w : Writer io) → Sound w → Wrote [] w w
  Wrote-refl w s = record {
    sound = s;
    reached = omega arith;
    skip_same = refl;
    aligned_same = refl;
    sink_same = refl;
    counted = λ m. refl;
    written = λ m c. (c, sym (append-nil _));
  }

  pub Wrote-offset :
      {bs : List ℕ} {w w' : Writer io}
      → Sound w
      → Wrote bs w w'
      → offset io w' ≡ offset io w + length bs
  unfolding offset
  Wrote-offset s a = omega (arith, s.begun, a.reached, a.skip_same)

  -- From every sound writer the method returns, having written `bs`.
  pub record Emits (bs : List ℕ) (m : Put io) : Type 0 where
    pub at : (w : Writer io) → Sound w → (w' : Writer io) × (m w ≡ some w') × Wrote bs w w'

  module _ (n : ℕ) (body : Put io) (w : Writer io) where
    only_counted :
        measure ≡ true
        → unless_measuring io measure n body w ≡ some (record w { origin = w.origin + n })
    unfolding unless_measuring
    only_counted m = rw m

    not_counted : measure ≡ false → unless_measuring io measure n body w ≡ body w
    unfolding unless_measuring
    not_counted m = rw m

  Emits-unless_measuring :
      (n : ℕ) (bs : List ℕ) (body : Put io)
      → length bs ≡ n
      → Appends laws bs body
      → Emits bs (unless_measuring io measure n body)
  Emits-unless_measuring n bs body h appends = record {
    at = λ w s. elim (Bool-cases measure) [
      | inl m ↦ (record w { origin = w.origin + n }, only_counted n body w m, skipped w s m)
      | inr m ↦ let (w', e, a) = appends w s in (w', not_counted n body w m ∙ e, stored a m)
    ];
  }
    where
      true_ne_false : true ≢ false
      true_ne_false = λ p. cc

      skipped :
          (w : Writer io)
          → Sound w
          → measure ≡ true
          → Wrote bs w (record w { origin = w.origin + n })
      skipped w s m = record {
        sound = record { within = s.within; begun = omega (arith, s.begun) };
        reached = omega (arith, h);
        skip_same = refl;
        aligned_same = refl;
        sink_same = refl;
        counted = λ t. refl;
        written = λ f. absurd (true_ne_false (sym m ∙ f));
      }

      stored : {w w' : Writer io} → Appended laws bs w w' → measure ≡ false → Wrote bs w w'
      stored a m = record {
        sound = a.sound;
        reached = a.reached;
        skip_same = a.skip_same;
        aligned_same = a.aligned_same;
        sink_same = a.sink_same;
        counted = λ t. absurd (true_ne_false (sym t ∙ m));
        written = λ f. a.written;
      }

  pub Emits-then :
      {bs cs : List ℕ} {m k : Put io} → Emits bs m → Emits cs k → Emits (bs ++ cs) (m then k)
  unfolding ◌then◌
  Emits-then a b = record {
    at = λ w s.
        let (v, e, x) = a.at w s in
        let (w', f, y) = b.at v x.sound in (w', rw (◌then◌, e) f, Wrote-trans x y);
  }

  pub Emits-store :
      (touched n : ℕ) (bs : List ℕ)
      → length bs ≡ n
      → Emits bs (unless_measuring io measure n (λ w. store io touched bs (room io touched w)))
  Emits-store touched n bs h = Emits-unless_measuring n bs _ h (Appends-store laws touched bs)

  pub Emits-push : (b : ℕ) → Emits (b ∷ []) (push io measure b)
  unfolding push
  Emits-push b = Emits-store 1 1 (b ∷ []) refl

  pub Emits-raw : (bs : List ℕ) → Emits bs (raw io measure bs)
  unfolding raw
  Emits-raw bs = Emits-unless_measuring (length bs) bs _ refl (Appends-raw_stored laws bs)

  pub Emits-write_number :
      (tag : ℕ) (payload : List ℕ) → Emits (tag ∷ payload) (write_number io measure tag payload)
  unfolding write_number
  Emits-write_number tag payload =
      Emits-store (length payload + 1) (length payload + 1) (tag ∷ payload) (omega arith)

  pub Emits-write_complex :
      (class : ℕ) (re im : List ℕ)
      → length im ≡ length re
      → Emits (complex ∷ class ∷ (re ++ im)) (write_complex io measure class re im)
  unfolding write_complex
  Emits-write_complex class re im h =
      Emits-store (2 * length re + 2) (2 * length re + 2) (complex ∷ class ∷ (re ++ im))
        (omega (arith, length-append re im))

  pub Emits-size : (n : ℕ) → n ≤ max_size → Emits (size_bytes n) (size io measure n)
  unfolding size
  Emits-size n h = record {
    at = λ w s.
        rw (size, size_prefix-size_bytes n h)
          ((Emits-store 8 (length (size_bytes n)) (size_bytes n) refl).at w s);
  }

  pub Emits-begin_matrix :
      (layout : ℕ) → Emits (matrix ∷ layout ∷ []) (begin_matrix io measure layout)
  unfolding begin_matrix
  Emits-begin_matrix layout = Emits-then (Emits-push matrix) (Emits-push layout)

  pub Emits-write_null : Emits (null ∷ []) (write_null io measure)
  unfolding write_null
  Emits-write_null = Emits-push null

  pub Emits-write_bool :
      (b : Bool) → Emits ((if b then true_header else false_header) ∷ []) (write_bool io measure b)
  unfolding write_bool
  Emits-write_bool b = Emits-push _

  pub Emits-write_str_body :
      (s : List ℕ)
      → length s ≤ max_size
      → Emits (size_bytes (length s) ++ s) (write_str_body io measure s)
  unfolding write_str_body
  Emits-write_str_body s h = Emits-then (Emits-size (length s) h) (Emits-raw s)

  pub Emits-write_str :
      (s : List ℕ)
      → length s ≤ max_size
      → Emits (string ∷ (size_bytes (length s) ++ s)) (write_str io measure s)
  unfolding write_str
  Emits-write_str s h = Emits-then (Emits-push string) (Emits-write_str_body s h)

  pub Emits-begin_generic_array :
      (len : ℕ)
      → len ≤ max_size
      → Emits (generic_array ∷ size_bytes len) (begin_generic_array io measure len)
  unfolding begin_generic_array
  Emits-begin_generic_array len h = Emits-then (Emits-push generic_array) (Emits-size len h)

  pub Emits-keep : Emits [] keep
  unfolding keep
  Emits-keep = record { at = λ w s. (w, refl, Wrote-refl w s) }
