-- ===== src/Beve/Writer/Typed.antt =====
-- The preamble of a typed array, written by src/beve/writer.rs and read by `typed_head` of
-- src/beve/reader.rs.
use structio.Prelude.{
  ℕ, ◌≤◌, ◌<◌, ◌≡◌, refl, arith, Bool, true, false, some, [], ◌∷◌, ◌++◌, inl, inr, Option-cases,
  leb, ◌==◌,
}
use structio.Error.{ok}
use structio.Beve.Walk.{Walk, ◌>>=◌}
use structio.Beve.Header.{max_size, ty, sub, count as width_count, aligned_array}
use structio.Beve.Header.Size.{size_bytes}
use structio.Beve.Reader.{
  Typed, fixed, head, fixed_width, aligned_padding, skip_padding, aligned_head, typed_preamble,
  typed_head, bools_present, first_of_bytes,
}
use structio.Beve.Reader.Reads.{
  Reads, Reads-pure, Reads-lift, Reads-bind, Reads-last, Reads-head, Reads-take, Reads-drop_bytes,
  Reads-count,
}
use structio.Beve.Writer.{padded_width, zeros}
use structio.Beve.Writer.Arrays.{aligned_bytes, typed_bytes, length-zeros, padded_width-bounds}

-- A header is read, then the preamble that it asks for.
abbrev pub read_typed : Walk Typed
read_typed = do h ← head; typed_head h

gt→leb : {pad width : ℕ} → pad < width → leb width pad ≡ false
gt→leb h = ground arith

Reads-skip_padding :
    (levels width pad : ℕ) → pad < width → Reads levels (pad ∷ zeros pad) (skip_padding width) tt
unfolding skip_padding first_of_bytes aligned_padding
Reads-skip_padding levels width pad h =
    Reads-bind {bs = pad ∷ []} _ (pad ∷ []) (Reads-take levels (pad ∷ [])) (
      Reads-bind {bs = []} _ tt
        (Reads-lift levels (aligned_padding pad width) tt (rw (aligned_padding, gt→leb h) refl))
        (Reads-drop_bytes levels pad (zeros pad) (length-zeros pad)))

module _ (levels h len w : ℕ) (t : ty h ≡ 4) (o : (sub h == 3) ≡ false) (e : fixed_width h ≡ ok w)
    (l : len ≤ max_size) where
  Reads-aligned_head :
      (pad : ℕ)
      → pad < w
      → Reads levels (h ∷ (size_bytes len ++ pad ∷ zeros pad)) aligned_head (h, len)
  unfolding aligned_head
  Reads-aligned_head pad g = Reads-bind {bs = h ∷ []} _ h (Reads-head levels h) (
      rw (t, o)
        (Reads-bind {bs = []} _ w (Reads-lift levels (fixed_width h) w e) (
          Reads-bind _ len (Reads-count levels len l)
            (Reads-last _ tt (Reads-skip_padding levels w pad g) (Reads-pure levels (h, len))))))

  Reads-plain : Reads levels (h ∷ size_bytes len) read_typed (fixed h len)
  unfolding typed_head typed_preamble bools_present
  Reads-plain = Reads-bind {bs = h ∷ []} _ h (Reads-head levels h) (
      Reads-last _ (fixed h len)
        (rw (typed_preamble, o)
          (Reads-bind {bs = []} _ w (Reads-lift levels (fixed_width h) w e)
            (Reads-last _ len (Reads-count levels len l) (Reads-pure levels (fixed h len)))))
        (Reads-last _ tt (Reads-pure levels tt) (Reads-pure levels (fixed h len))))

  Reads-aligned :
      (pad : ℕ)
      → pad < w
      → Reads levels
          (aligned_array ∷ h ∷ (size_bytes len ++ pad ∷ zeros pad))
          read_typed
          (fixed h len)
  unfolding typed_head typed_preamble bools_present sub width_count
  Reads-aligned pad g =
      Reads-bind {bs = aligned_array ∷ []} _ aligned_array (Reads-head levels aligned_array) (
        Reads-last _ (fixed h len)
          (Reads-last _ (h, len) (Reads-aligned_head pad g) (Reads-pure levels (fixed h len)))
          (Reads-last _ tt (Reads-pure levels tt) (Reads-pure levels (fixed h len))))

  padded_width-fixed : (width : ℕ) → padded_width h ≡ some width → width ≡ w
  unfolding padded_width fixed_width
  padded_width-fixed width f = ground arith

  -- For a header of a numeric typed array and a length of at most `max_size`: the preamble of the
  -- array, plain or padded at any offset, is read by `head` and `typed_head` as that header and
  -- that length, and the reader stops where the payload begins.
  pub read_typed-typed_bytes :
      (aligned : Bool) (at : ℕ)
      → Reads levels (typed_bytes aligned at h len) read_typed (fixed h len)
  unfolding typed_bytes aligned_bytes
  read_typed-typed_bytes false at = Reads-plain
  read_typed-typed_bytes true at = elim (Option-cases (padded_width h)) [
    | inl f ↦ rw f Reads-plain
    | inr (width, f) ↦ rw f (
        Reads-aligned _
          (omega (arith, padded_width-fixed width f, (padded_width-bounds h width f).0)))
  ]
