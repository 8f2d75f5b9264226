-- ===== src/Map/Shift.antt =====
-- `shift_down_above` of src/map.rs, and the entries without the one that goes.
use structio.Prelude.{
  ℕ, zero, suc, ◌+◌, ◌^◌, ◌≤◌, ◌<◌, ◌≡◌, refl, sym, ap, ◌∙◌, arith, false, some, List, [], ◌∷◌, map,
  ◌==◌, if◌then◌else◌, length, get_elem?, inl, inr, Bool-cases,
}
use structio.Map.{Bucket, Table, is_empty, indexed, shift_down}
use structio.Map.Ordered.{without}
use structio.Map.Probe.{succ_of, succ_of-lt}
use structio.Map.Robin.{at_place, weight, tally, one, occupied, level_of, level, Robin}
use structio.Map.Tallies.{bucket_at}
use mathlib.Core.Path.{subst}
use mathlib.Core.Option.{some-injective}

-- No bucket that holds something has an index past those of a `u32`.
abbrev pub Fits : Table → Type 0
Fits t = (a : ℕ) → a < length t → is_empty (at_place t a) ≡ false → (at_place t a).index < 2 ^ 32

module _ (pos : ℕ) (b : Bucket) (low : is_empty b ≡ false → b.index < 2 ^ 32) where
  shift-empty : is_empty (shift_down pos b) ≡ is_empty b
  shift-empty = ground arith

  one-shift : one (shift_down pos b) ≡ one b
  one-shift = ground arith

  shift-hash : (shift_down pos b).hash ≡ b.hash
  shift-hash = ground arith

  weight-shift_below : (i h : ℕ) → i < pos → weight i h (shift_down pos b) ≡ weight i h b
  weight-shift_below i h k = ground arith

  weight-shift_above :
      (i h : ℕ)
      → pos ≤ i
      → weight i h (shift_down pos b)
        ≡ weight (suc i) h b + (if i == pos then weight pos h b else 0)
  weight-shift_above i h k = ground arith

Fits-tail : (b : Bucket) (t : Table) → Fits (b ∷ t) → Fits t
Fits-tail b t h a k e = h (suc a) (omega arith) e

pub tally-shift_below :
    (pos : ℕ) (t : Table)
    → Fits t
    → (i h : ℕ) → i < pos
    → tally i h (map (shift_down pos) t) ≡ tally i h t
tally-shift_below pos [] low i h k = refl
tally-shift_below pos (b ∷ t) low i h k = omega (
  arith,
  weight-shift_below pos b (λ e. low 0 (omega arith) e) i h k,
  tally-shift_below pos t (Fits-tail b t low) i h k,
)

pub tally-shift_above :
    (pos : ℕ) (t : Table)
    → Fits t
    → (i h : ℕ) → pos ≤ i
    → tally pos h t ≡ 0
    → tally i h (map (shift_down pos) t) ≡ tally (suc i) h t
tally-shift_above pos [] low i h k z = refl
tally-shift_above pos (b ∷ t) low i h k z = omega (
  arith,
  weight-shift_above pos b (λ e. low 0 (omega arith) e) i h k,
  nothing,
  tally-shift_above pos t (Fits-tail b t low) i h k (omega (arith, z)),
)
  where
    nothing : (if i == pos then weight pos h b else 0) ≡ 0
    nothing = elim (Bool-cases (i == pos)) [ inl e ↦ rw e (omega (arith, z)) | inr e ↦ rw e refl ]

pub occupied-shift : (pos : ℕ) (t : Table) → Fits t → occupied (map (shift_down pos) t) ≡ occupied t
occupied-shift pos [] low = refl
occupied-shift pos (b ∷ t) low =
    omega (
      arith,
      one-shift pos b (λ e. low 0 (omega arith) e),
      occupied-shift pos t (Fits-tail b t low),
    )

pub length-shift : (pos : ℕ) (t : Table) → length (map (shift_down pos) t) ≡ length t
length-shift pos [] = refl
length-shift pos (b ∷ t) = ap suc (length-shift pos t)

at_place-shift :
    (pos : ℕ) (t : Table) (a : ℕ)
    → a < length t
    → at_place (map (shift_down pos) t) a ≡ shift_down pos (at_place t a)
at_place-shift pos [] a h = absurd (omega arith)
at_place-shift pos (b ∷ t) zero h = refl
at_place-shift pos (b ∷ t) (suc a) h = at_place-shift pos t a (omega arith)

pub Robin-shift :
    (m pos : ℕ) (t : Table)
    → length t ≡ m
    → 16 ≤ m
    → Fits t
    → Robin m t
    → Robin m (map (shift_down pos) t)
Robin-shift m pos t e big low r = record {
  step = λ a h. omega (arith, same a h, same (succ_of m a) (succ_of-lt m a h), r.step a h);
}
  where
    same : (a : ℕ) → a < m → level m (map (shift_down pos) t) a ≡ level m t a
    same a h =
        let k = subst (λ (n : ℕ). a < n) (sym e) h in
        ap (level_of m a) (at_place-shift pos t a k) ∙ alike (at_place t a) (low a k)
      where
        alike :
            (b : Bucket)
            → (is_empty b ≡ false → b.index < 2 ^ 32)
            → level_of m a (shift_down pos b) ≡ level_of m a b
        alike b l = rw (shift-empty pos b l, shift-hash pos b l) refl

module _ {ℓ} {V : Type ℓ} where
  tally-indexed_below :
      (i h n : ℕ) (es : List (List ℕ × V))
      → n + length es < 2 ^ 32
      → i < n
      → tally i h (indexed n es) ≡ 0
  tally-indexed_below i h n [] k l = refl
  tally-indexed_below i h n (x ∷ es) k l =
      omega (arith, other, tally-indexed_below i h (suc n) es (omega arith) (omega arith))
    where
      other : weight i h (bucket_at n x.0) ≡ 0
      other = ground arith

  tally-indexed_next :
      (i h n : ℕ) (es : List (List ℕ × V))
      → suc n + length es < 2 ^ 32
      → tally i h (indexed n es) ≡ tally (suc i) h (indexed (suc n) es)
  tally-indexed_next i h n [] k = refl
  tally-indexed_next i h n (x ∷ es) k =
      omega (arith, same, tally-indexed_next i h (suc n) es (omega arith))
    where
      same : weight i h (bucket_at n x.0) ≡ weight (suc i) h (bucket_at (suc n) x.0)
      same = ground arith

  pub tally-without_below :
      (i h n p : ℕ) (es : List (List ℕ × V))
      → n + length es < 2 ^ 32
      → i < n + p
      → tally i h (indexed n (without p es)) ≡ tally i h (indexed n es)
  tally-without_below i h n p [] k l = refl
  tally-without_below i h n zero (x ∷ es) k l = omega (
    arith,
    tally-indexed_below i h n es (omega arith) (omega arith),
    tally-indexed_below i h n (x ∷ es) (omega (arith, k)) (omega arith),
  )
  tally-without_below i h n (suc p) (x ∷ es) k l =
      omega (arith, tally-without_below i h (suc n) p es (omega arith) (omega arith))

  pub tally-without_above :
      (i h n p : ℕ) (es : List (List ℕ × V))
      → n + length es < 2 ^ 32
      → n + p ≤ i
      → tally i h (indexed n (without p es)) ≡ tally (suc i) h (indexed n es)
  tally-without_above i h n p [] k l = refl
  tally-without_above i h n zero (x ∷ es) k l =
      omega (arith, other, tally-indexed_next i h n es (omega arith))
    where
      other : weight (suc i) h (bucket_at n x.0) ≡ 0
      other = ground arith
  tally-without_above i h n (suc p) (x ∷ es) k l =
      omega
        (arith, other, another, tally-without_above i h (suc n) p es (omega arith) (omega arith))
    where
      other : weight (suc i) h (bucket_at n x.0) ≡ 0
      other = ground arith

      another : weight i h (bucket_at n x.0) ≡ 0
      another = ground arith

  -- The entry at a position has one bucket.
  pub tally-indexed_at :
      (j h n : ℕ) (es : List (List ℕ × V)) (x : List ℕ × V)
      → n + length es < 2 ^ 32
      → get_elem? es j ≡ some x
      → tally (n + j) h (indexed n es) ≡ weight (n + j) h (bucket_at (n + j) x.0)
  tally-indexed_at j h n [] x k e = absurd (cc)
  tally-indexed_at zero h n (y ∷ es) x k e =
      subst
        (λ (z : List ℕ × V).
          tally (n + 0) h (indexed n (y ∷ es)) ≡ weight (n + 0) h (bucket_at (n + 0) z.0))
        (some-injective y x e)
        (ap (λ (i : ℕ). tally i h (indexed n (y ∷ es))) none_more
          ∙ omega (arith, tally-indexed_below n h (suc n) es (omega arith) (omega arith))
          ∙ ap (λ (i : ℕ). weight i h (bucket_at i y.0)) (sym none_more))
    where
      none_more : n + 0 ≡ n
      none_more = omega arith
  tally-indexed_at (suc j) h n (y ∷ es) x k e =
      ap (λ (i : ℕ). tally i h (indexed n (y ∷ es))) one_more
      ∙ omega (arith, other)
      ∙ tally-indexed_at j h (suc n) es x (omega arith) e
      ∙ ap (λ (i : ℕ). weight i h (bucket_at i x.0)) (sym one_more)
    where
      one_more : n + suc j ≡ suc n + j
      one_more = omega arith

      other : weight (suc n + j) h (bucket_at n y.0) ≡ 0
      other = ground arith

  pub length-without :
      (p : ℕ) (es : List (List ℕ × V)) → p < length es → length (without p es) + 1 ≡ length es
  length-without p [] h = absurd (omega arith)
  length-without zero (x ∷ es) h = omega arith
  length-without (suc p) (x ∷ es) h = omega (arith, length-without p es (omega arith))
