-- ===== src/Beve/Writer/Arrays.antt =====
-- The preambles of arrays in src/beve/writer.rs: plain, and padded so that the payload begins at a
-- multiple of its element width.
use structio.Prelude.{
  ℕ, suc, ◌+◌, ◌-◌, ◌*◌, ◌%◌, ◌≤◌, ◌<◌, ◌≡◌, refl, sym, ap, ◌∙◌, arith, Bool, true, false, Option,
  none, some, List, [], ◌∷◌, ◌++◌, length, length-append, if◌then◌else◌, inl, inr, Bool-cases,
  Option-cases,
}
use structio.Beve.Header.{
  max_size, sub, count, byte_width, aligned_array, complex, complex_class, complex_components,
  complex_aligned,
}
use mathlib.Core.Path.{subst}
use structio.Beve.Header.Size.{size_bytes}
use structio.Beve.Writer.{
  Io, Writer, Put, offset, zeros, padded_width, ◌then◌, pad_to, begin_aligned_array,
  begin_typed_array, begin_aligned_complex_array, size, push,
}
use native.Mathlib.Nat.{mod_self, mod-add-mod, mod-lt, mod-eq_of_lt}
use structio.Beve.Writer.Buffer.{IoLaws, Sound}
use structio.Beve.Writer.Emits.{
  Wrote, Wrote-trans, Wrote-offset, Emits, Emits-then, Emits-push, Emits-size, Emits-store,
}

-- The padding after which a payload whose length byte stands at `at` begins on `width`.
abbrev pub pad_of : ℕ → ℕ → ℕ
pad_of width at = width - 1 - at % width

-- The aligned preamble at the offset `at` of the document.
unfoldable pub aligned_bytes : ℕ → ℕ → ℕ → ℕ → List ℕ
aligned_bytes at h len width =
    let front = aligned_array ∷ h ∷ size_bytes len in
    let pad = pad_of width (at + length front) in front ++ pad ∷ zeros pad

-- The preamble of a typed array, plain or aligned.
unfoldable pub typed_bytes : Bool → ℕ → ℕ → ℕ → List ℕ
typed_bytes aligned at h len =
    let plain = h ∷ size_bytes len in
    if aligned
    then elim (padded_width h) [ none ↦ plain | some width ↦ aligned_bytes at h len width ]
    else plain

pub length-zeros : (n : ℕ) → length (zeros n) ≡ n
unfolding zeros
length-zeros ℕ.zero = refl
length-zeros (suc n) = ap suc (length-zeros n)

pub padded_width-bounds : (h width : ℕ) → padded_width h ≡ some width → (2 ≤ width) × (width ≤ 16)
unfolding padded_width byte_width
padded_width-bounds h width e = ground arith

on_width : (o width : ℕ) → 2 ≤ width → (o + suc (pad_of width o)) % width ≡ 0
on_width o width g =
    ap (λ (t : ℕ). t % width) (omega (arith, below))
    ∙ sym (mod-add-mod o width (width - o % width))
    ∙ ap (λ (t : ℕ). t % width) (omega (arith, below))
    ∙ mod_self width
  where
    below : o % width < width
    below = mod-lt o (omega arith)

-- The payload begins on its width.
pub length-aligned_bytes :
    (at h len width : ℕ) → 2 ≤ width → (at + length (aligned_bytes at h len width)) % width ≡ 0
unfolding aligned_bytes
length-aligned_bytes at h len width g =
    ap (λ (t : ℕ). t % width)
      (omega (arith, length-append front (pad ∷ zeros pad), length-zeros pad))
    ∙ on_width (at + length front) width g
  where
    front : List ℕ
    front = aligned_array ∷ h ∷ size_bytes len

    pad : ℕ
    pad = pad_of width (at + length front)

module _ {io : Io} (laws : IoLaws io) (measure : Bool) where
  -- From a sound writer `m` returns, having written `bs`.
  abbrev pub Writes : List ℕ → Writer io → Option (Writer io) → Type 0
  Writes bs w o = (w' : Writer io) × (o ≡ some w') × Wrote laws measure bs w w'

  Writes-pad_to :
      (width : ℕ) (w : Writer io)
      → 2 ≤ width
      → width ≤ 16
      → Sound w
      → let pad = pad_of width (offset io w) in
        Writes (pad ∷ zeros pad) w (pad_to io measure width w)
  unfolding pad_to
  Writes-pad_to width w g h s =
      subst (λ (b : ℕ). Writes (b ∷ zeros pad) w (pad_to io measure width w))
        (mod-eq_of_lt (omega arith))
        ((Emits-store laws measure 16 (1 + pad) (pad % 256 ∷ zeros pad)
            (omega (arith, length-zeros pad))).at
          w s)
    where
      pad : ℕ
      pad = pad_of width (offset io w)

  -- `k` after `m`, where what `k` writes may depend on where it begins.
  Writes-then :
      {bs cs : List ℕ} (m k : Put io) {w : Writer io}
      → Writes bs w (m w)
      → ((v : Writer io) → Wrote laws measure bs w v → Writes cs v (k v))
      → Writes (bs ++ cs) w ((m then k) w)
  unfolding ◌then◌
  Writes-then m k (v, e, a) b =
      let (w', f, c) = b v a in (w', rw (◌then◌, e) f, Wrote-trans laws measure a c)

  Writes-begin_aligned_array :
      (h len width : ℕ) (w : Writer io)
      → len ≤ max_size
      → 2 ≤ width
      → width ≤ 16
      → Sound w
      → Writes
          (aligned_bytes (offset io w) h len width)
          w
          (begin_aligned_array io measure h len width w)
  unfolding begin_aligned_array aligned_bytes
  Writes-begin_aligned_array h len width w l g k s = Writes-then _ _ (front.at w s) (λ v a.
      subst
        (λ (o : ℕ). Writes (pad_of width o ∷ zeros (pad_of width o)) v (pad_to io measure width v))
        (Wrote-offset laws measure s a) (Writes-pad_to width v g k a.sound))
    where
      front :
          Emits laws measure
            (aligned_array ∷ h ∷ size_bytes len)
            (push io measure aligned_array then push io measure h then size io measure len)
      front =
          Emits-then laws measure
            (Emits-then laws measure (Emits-push laws measure aligned_array)
              (Emits-push laws measure h))
            (Emits-size laws measure len l)

  Writes-eq :
      {bs cs : List ℕ} {w : Writer io} {o p : Option (Writer io)}
      → cs ≡ bs
      → p ≡ o
      → Writes bs w o
      → Writes cs w p
  Writes-eq {w} e f (w', g, a) =
      (w', f ∙ g, subst (λ (t : List ℕ). Wrote laws measure t w w') (sym e) a)

  Writes-plain :
      (h len : ℕ) (w : Writer io)
      → len ≤ max_size
      → Sound w
      → Writes (h ∷ size_bytes len) w ((push io measure h then size io measure len) w)
  Writes-plain h len w l s =
      (Emits-then laws measure (Emits-push laws measure h) (Emits-size laws measure len l)).at w s

  module _ (h len : ℕ) (w : Writer io) where
    abbrev plain_call : Option (Writer io)
    plain_call = (push io measure h then size io measure len) w

    call_plain : w.aligned ≡ false → begin_typed_array io measure h len w ≡ plain_call
    unfolding begin_typed_array
    call_plain f = simp f

    call_unpadded :
        w.aligned ≡ true → padded_width h ≡ none → begin_typed_array io measure h len w ≡ plain_call
    unfolding begin_typed_array
    call_unpadded t e = simp (t, e)

    call_padded :
        (width : ℕ)
        → w.aligned ≡ true
        → padded_width h ≡ some width
        → begin_typed_array io measure h len w ≡ begin_aligned_array io measure h len width w
    unfolding begin_typed_array
    call_padded width t e = simp (t, e)

    bytes_plain : w.aligned ≡ false → typed_bytes w.aligned (offset io w) h len ≡ h ∷ size_bytes len
    unfolding typed_bytes
    bytes_plain f = simp f

    bytes_unpadded :
        w.aligned ≡ true
        → padded_width h ≡ none
        → typed_bytes w.aligned (offset io w) h len ≡ h ∷ size_bytes len
    unfolding typed_bytes
    bytes_unpadded t e = simp (t, e)

    bytes_padded :
        (width : ℕ)
        → w.aligned ≡ true
        → padded_width h ≡ some width
        → typed_bytes w.aligned (offset io w) h len ≡ aligned_bytes (offset io w) h len width
    unfolding typed_bytes
    bytes_padded width t e = simp (t, e)

  -- From a sound writer, for a length of at most `max_size`: `begin_typed_array` returns, having
  -- written the plain preamble, or the padded one where the writer is aligned and the element is
  -- wider than a byte.
  pub begin_typed_array-typed_bytes :
      (h len : ℕ) (w : Writer io)
      → len ≤ max_size
      → Sound w
      → Writes (typed_bytes w.aligned (offset io w) h len) w (begin_typed_array io measure h len w)
  begin_typed_array-typed_bytes h len w l s = elim (Bool-cases w.aligned) [
    | inl t ↦ elim (Option-cases (padded_width h)) [
      | inl e ↦
          Writes-eq (bytes_unpadded h len w t e) (call_unpadded h len w t e)
            (Writes-plain h len w l s)
      | inr (width, e) ↦
          let (g, k) = padded_width-bounds h width e in
          Writes-eq (bytes_padded h len w width t e) (call_padded h len w width t e)
            (Writes-begin_aligned_array h len width w l g k s)
    ]
    | inr f ↦ Writes-eq (bytes_plain h len w f) (call_plain h len w f) (Writes-plain h len w l s)
  ]

  -- From a sound aligned writer, for a header of an element wider than a byte and a length of at
  -- most `max_size`: `begin_typed_array` returns, and the payload that follows begins at a
  -- multiple of the element's width, counted from the start of the document.
  pub begin_typed_array-on_width :
      (h len width : ℕ) (w : Writer io)
      → len ≤ max_size
      → Sound w
      → w.aligned ≡ true
      → padded_width h ≡ some width
      → (w' : Writer io) × (begin_typed_array io measure h len w ≡ some w')
        × (offset io w' % width ≡ 0)
  begin_typed_array-on_width h len width w l s t e =
      let (w', f, a) = begin_typed_array-typed_bytes h len w l s in
      (
        w',
        f,
        ap (λ (o : ℕ). o % width) (Wrote-offset laws measure s a)
            ∙ ap (λ (bs : List ℕ). (offset io w + length bs) % width)
                (bytes_padded h len w width t e)
            ∙ length-aligned_bytes (offset io w) h len width (padded_width-bounds h width e).0,
      )

  -- The aligned complex array, in front of which two bytes stand.
  pub Writes-begin_aligned_complex_array :
      (class len width : ℕ) (w : Writer io)
      → 2 * len ≤ max_size
      → 2 ≤ width
      → width ≤ 16
      → Sound w
      → Writes
          (complex
            ∷ complex_class (sub class) (count class) complex_aligned
            ∷ aligned_bytes (offset io w + 2) (complex_components class) (2 * len) width)
          w
          (begin_aligned_complex_array io measure class len width w)
  unfolding begin_aligned_complex_array
  Writes-begin_aligned_complex_array class len width w l g k s =
      Writes-then _ _ (front.at w s) (λ v a.
        subst
          (λ (o : ℕ).
            Writes (aligned_bytes o (complex_components class) (2 * len) width) v
              (begin_aligned_array io measure (complex_components class) (2 * len) width v))
          (Wrote-offset laws measure s a)
          (Writes-begin_aligned_array (complex_components class) (2 * len) width v l g k a.sound))
    where
      front :
          Emits laws measure
            (complex ∷ complex_class (sub class) (count class) complex_aligned ∷ [])
            (push io measure complex
              then push io measure (complex_class (sub class) (count class) complex_aligned))
      front = Emits-then laws measure (Emits-push laws measure complex) (Emits-push laws measure _)
