-- ===== src/Map/Taken.antt =====
-- The bucket of an entry taken out of a table of src/map.rs.
use structio.Prelude.{
  ℕ, suc, ◌+◌, ◌-◌, ◌%◌, ◌^◌, ◌≤◌, ◌<◌, ◌≡◌, ◌≢◌, refl, sym, ap, ◌∙◌, arith, false, some, List, map,
  ltb, ◌==◌, length, get_elem?, get_elem?-lt, inl, inr, Bool-cases, ltb→lt, ltb→le,
}
use structio.Map.{
  Bucket, Table, is_empty, hash_key, indexed, shift_down, shift_down_above, load_limit, bucket_of,
  erase,
}
use structio.Map.Ordered.{without}
use structio.Map.Probe.{Sized, home-lt, ideal_lem, far-lt}
use structio.Map.Robin.{at_place, weight, tally, Robin}
use structio.Map.Tallies.{bucket_at, tally-place, place-tally, one-full}
use structio.Map.Good.{Good, bucket-entry, entry-bucket}
use structio.Map.Erase.{Loses, erase-Loses, bucket_from_lem}
use structio.Map.Shift.{
  Fits, tally-shift_below, tally-shift_above, occupied-shift, length-shift, Robin-shift,
  tally-without_below, tally-without_above, tally-indexed_at, length-without,
}
use structio.Map.Build.{load_limit-lt}
use mathlib.Core.Path.{subst}
use mathlib.Core.Option.{some-injective}
use native.Mathlib.Nat.{mod-eq_of_lt}

module _ {ℓ} {V : Type ℓ} {t : Table} {es : List (List ℕ × V)} (g : Good t es)
    (short : length es ≤ 2 ^ 30) (pos : ℕ) (x : List ℕ × V) (e : get_elem? es pos ≡ some x) where
  abbrev m : ℕ
  m = length t

  in_range : pos < length es
  in_range = get_elem?-lt es pos e

  full_bucket : (b : Bucket) → b.index ≡ pos → is_empty b ≡ false
  full_bucket b f = low b.index (omega (arith, f, in_range, short))
    where
      low : (n : ℕ) → n < 2 ^ 31 → (n == (2 ^ 32 - 1)) ≡ false
      low n h = ground arith

  bucket_of_lem :
      (a : ℕ) × (bucket_of es pos t ≡ some a)
      × (a < m)
      × ((at_place t a).index ≡ pos)
      × ((at_place t a).hash ≡ hash_key x.0)
  unfolding bucket_of
  bucket_of_lem =
      let (p, k, f, y, z) = entry-bucket g (omega (arith, short)) pos x e in
      let home = home-lt g.sized (hash_key x.0) in
      let (a, q, l, i) =
        bucket_from_lem g.sized (length t) (hash_key x.0 % m) p pos t refl home k y
          (far-lt m (hash_key x.0 % m) p home k) in
      let (c, u, w) = bucket-entry g (omega (arith, short)) a l (full_bucket (at_place t a) i) in
      let same = some-injective c x (sym u ∙ ap (get_elem? es) i ∙ e) in
      (
        a,
        rw (e, ideal_lem g.sized t refl (hash_key x.0)) q,
        l,
        i,
        sym w ∙ ap (λ (d : List ℕ × V). hash_key d.0) same,
      )

  module _ (t' : Table) (b : Bucket) (index : b.index ≡ pos) (hash : b.hash ≡ hash_key x.0)
      (l : Loses g.sized b t t') where
    Fits-left : Fits t'
    Fits-left a h f =
        let d = at_place t' a in
        let there = place-tally t' a h f in
        let (c, k, u, y, z) =
          tally-place d.index d.hash t (omega (arith, there, l.tallies d.index d.hash)) in
        let (w, q, r) = bucket-entry g (omega (arith, short)) c k u in
        omega (arith, y, get_elem?-lt es (at_place t c).index q, short)

    other : (i h : ℕ) → i ≢ pos → tally i h t' ≡ tally i h (indexed 0 es)
    other i h k = omega (arith, l.tallies i h, g.tallies i h, weightless)
      where
        weightless : weight i h b ≡ 0
        weightless = ground arith

    gone : (h : ℕ) → tally pos h t' ≡ 0
    gone h = omega (arith, l.tallies pos h, g.tallies pos h, once)
      where
        from_zero : 0 + pos ≡ pos
        from_zero = omega arith

        alike : weight pos h (bucket_at pos x.0) ≡ weight pos h b
        alike =
            ap (λ (i : ℕ). weight pos h (record { index = i; hash = hash_key x.0 }))
              (mod-eq_of_lt (omega (arith, in_range, short)) ∙ sym index)
            ∙ ap (λ (k : ℕ). weight pos h (record { index = b.index; hash = k })) (sym hash)

        once : tally pos h (indexed 0 es) ≡ weight pos h b
        once =
            subst (λ (i : ℕ). tally i h (indexed 0 es) ≡ weight i h (bucket_at i x.0)) from_zero
              (tally-indexed_at pos h 0 es x (omega (arith, short)) e)
            ∙ alike

    taken-Good : Good (shift_down_above pos t') (without pos es)
    unfolding shift_down_above
    taken-Good = record {
      sized = subst Sized (sym (length-shift pos t' ∙ l.size)) g.sized;
      robin =
          subst (λ (n : ℕ). Robin n (map (shift_down pos) t')) (sym (length-shift pos t' ∙ l.size))
            (Robin-shift m pos t' l.size g.sized.low Fits-left l.robin);
      tallies = λ i h. elim (Bool-cases (ltb i pos)) [
        | inl k ↦
            let less = ltb→lt _ _ k in
            tally-shift_below pos t' Fits-left i h less
            ∙ other i h (λ z. absurd (omega (arith, z, less)))
            ∙ sym (tally-without_below i h 0 pos es (omega (arith, short)) (omega (arith, less)))
        | inr k ↦
            let more = ltb→le _ _ k in
            tally-shift_above pos t' Fits-left i h more (gone h)
            ∙ other (suc i) h (λ z. absurd (omega (arith, z, more)))
            ∙ sym (tally-without_above i h 0 pos es (omega (arith, short)) (omega (arith, more)))
      ];
      full = omega (
        arith,
        occupied-shift pos t' Fits-left,
        l.fewer,
        one-full b (full_bucket b index),
        g.full,
        length-without pos es in_range,
      );
      load =
          subst (λ (n : ℕ). length (without pos es) ≤ load_limit n)
            (sym (length-shift pos t' ∙ l.size))
            (omega (arith, g.load, length-without pos es in_range));
    }

  -- The bucket is found, and what is left describes what is left of the entries.
  pub taken :
      (a : ℕ) × (bucket_of es pos t ≡ some a)
      × (t' : Table) × (erase a t ≡ some t')
      × Good (shift_down_above pos t') (without pos es)
  taken =
      let (a, q, k, i, h) = bucket_of_lem in
      let (t', p, l) =
        erase-Loses g.sized a t refl g.robin k (full_bucket (at_place t a) i)
          (omega (arith, g.full, g.load, load_limit-lt m g.sized.low)) in
      (a, q, t', p, taken-Good t' (at_place t a) i h l)
