-- ===== src/Map/Build.antt =====
-- The tables that src/map.rs builds and grows, and a bucket for a new entry.
use structio.Prelude.{
  ℕ, zero, suc, ◌+◌, ◌-◌, ◌*◌, ◌^◌, ◌≤◌, ◌<◌, ◌≡◌, refl, sym, ap, ◌∙◌, arith, some, List, [], ◌∷◌,
  ◌++◌, ltb, length, length-append, inl, inr, Bool-cases, ltb→lt, ltb→le,
}
use structio.Map.{
  Table, hash_key, load_limit, buckets_from, buckets_for, min_buckets, all_vacant, held, indexed,
  place, grow, rebuild,
}
use structio.Map.Ordered.{placed}
use structio.Map.Probe.{Sized}
use structio.Map.Robin.{weight, tally, occupied, Robin}
use structio.Map.Place.{place-Gains, place_all-GainsAll}
use structio.Map.Tallies.{
  length-all_vacant, tally-all_vacant, occupied-all_vacant, Robin-all_vacant, tally-held,
  occupied-held, length-held, occupied-indexed, length-indexed, bucket_at, bucket_at-full, one-full,
}
use structio.Map.Good.{Good}
use mathlib.Core.Path.{subst}
use native.Mathlib.Nat.{pow-suc, pow-le-pow_right}

-- A `Sized` number of buckets that a number of entries below 2^30 overflows can be doubled.
pub Sized-double :
    (m n : ℕ) (s : Sized m)
    → load_limit m < n
    → n ≤ 2 ^ 30
    → (s' : Sized (m * 2)) × (s'.log ≡ suc s.log)
unfolding load_limit
Sized-double m n s h k = (
  record {
    log = suc s.log;
    size = ap (λ (a : ℕ). a * 2) s.size ∙ sym (pow-suc 2 s.log);
    low = omega (arith, s.low);
    high = omega (arith, s.size, bounded);
    log-le = omega (arith, log-small);
  },
  refl,
)
  where
    log-small : s.log ≤ 30
    log-small = elim (Bool-cases (ltb 30 s.log)) [
      | inl e ↦
          let last = s.size ∙ ap (λ (a : ℕ). 2 ^ a) (exactly (ltb→lt _ _ e)) in
          absurd (omega (arith, last))
      | inr e ↦ ltb→le _ _ e
    ]
      where
        exactly : 30 < s.log → s.log ≡ 31
        exactly e = omega (arith, s.log-le)

    bounded : 2 ^ s.log ≤ 2 ^ 30
    bounded = pow-le-pow_right (omega arith) log-small

pub Sized-min : Sized min_buckets
Sized-min = record {
  log = 4;
  size = refl;
  low = omega arith;
  high = omega arith;
  log-le = omega arith;
}

buckets_from-Sized :
    (rounds n m : ℕ) (s : Sized m)
    → n ≤ 2 ^ 30
    → 31 - s.log < rounds
    → Sized (buckets_from rounds n m) × (n ≤ load_limit (buckets_from rounds n m))
unfolding buckets_from
buckets_from-Sized zero n m s h k = absurd (omega arith)
buckets_from-Sized (suc rounds) n m s h k = elim (Bool-cases (ltb (load_limit m) n)) [
  | inl e ↦
      let (double, grown) = Sized-double m n s (ltb→lt _ _ e) h in
      rw e (buckets_from-Sized rounds n (m * 2) double h (omega (arith, grown, k, double.log-le)))
  | inr e ↦ rw e (s, ltb→le _ _ e)
]

pub buckets_for-Sized :
    (n : ℕ) → n ≤ 2 ^ 30 → Sized (buckets_for n) × (n ≤ load_limit (buckets_for n))
unfolding buckets_for
buckets_for-Sized n h = buckets_from-Sized 64 n min_buckets Sized-min h (omega arith)

pub load_limit-lt : (m : ℕ) → 16 ≤ m → load_limit m < m
unfolding load_limit
load_limit-lt m h = omega arith

-- A table with room for one entry more than it describes.
record Roomy (t t' : Table) (n : ℕ) : Type 0 where
  sized : Sized (length t')
  robin : Robin (length t') t'
  tallies : (i h : ℕ) → tally i h t' ≡ tally i h t
  full : occupied t' ≡ occupied t
  load : n ≤ load_limit (length t')

load_limit-double : (m n : ℕ) → 16 ≤ m → n ≤ load_limit m → n + 1 ≤ load_limit (m * 2)
unfolding load_limit
load_limit-double m n h k = omega arith

module _ {ℓ} {V : Type ℓ} where
  pub rebuild-Good :
      (es : List (List ℕ × V))
      → length es ≤ 2 ^ 30
      → (t : Table) × (rebuild es ≡ some t) × Good t es
  unfolding rebuild
  rebuild-Good es h =
      let (s, l) = buckets_for-Sized (length es) h in
      let m = buckets_for (length es) in
      let (t, e, g) =
        place_all-GainsAll s (indexed 0 es) (all_vacant m) (length-all_vacant m)
          (Robin-all_vacant m m)
          (occupied-indexed 0 es (omega (arith, h)) ∙ sym (length-indexed 0 es))
          (omega (arith, length-indexed 0 es, occupied-all_vacant m, l, load_limit-lt m s.low)) in
      (
        t,
        e,
        record {
          sized = subst Sized (sym g.size) s;
          robin = subst (λ (n : ℕ). Robin n t) (sym g.size) g.robin;
          tallies = λ i k. omega (arith, g.tallies i k, tally-all_vacant i k m);
          full =
              omega
                (arith, g.more, occupied-all_vacant m, occupied-indexed 0 es (omega (arith, h)));
          load = subst (λ (n : ℕ). length es ≤ load_limit n) (sym g.size) l;
        },
      )

  tally-indexed_append :
      (i h n : ℕ) (es : List (List ℕ × V)) (e : List ℕ × V)
      → tally i h (indexed n (es ++ e ∷ []))
        ≡ tally i h (indexed n es) + weight i h (bucket_at (n + length es) e.0)
  tally-indexed_append i h n [] e =
      omega (arith, ap (λ (k : ℕ). weight i h (bucket_at k e.0)) none_more)
    where
      none_more : n + 0 ≡ n
      none_more = omega arith
  tally-indexed_append i h n (x ∷ es) e = omega (
    arith,
    tally-indexed_append i h (suc n) es e,
    ap (λ (k : ℕ). weight i h (bucket_at k e.0)) one_more,
  )
    where
      one_more : n + suc (length es) ≡ suc n + length es
      one_more = omega arith

  grow-Roomy :
      (t : Table) (es : List (List ℕ × V))
      → Good t es
      → load_limit (length t) < length es + 1
      → length es + 1 ≤ 2 ^ 30
      → (t' : Table) × (grow t ≡ some t') × Roomy t t' (length es + 1)
  unfolding grow
  grow-Roomy t es d h k =
      let (s, _) = Sized-double (length t) (length es + 1) d.sized h k in
      let m = length t * 2 in
      let (t', e, g) =
        place_all-GainsAll s (held t) (all_vacant m) (length-all_vacant m) (Robin-all_vacant m m)
          (occupied-held t ∙ sym (length-held t))
          (omega (
            arith,
            length-held t,
            occupied-all_vacant m,
            d.full,
            d.load,
            load_limit-lt (length t) d.sized.low,
          )) in
      (
        t',
        e,
        record {
          sized = subst Sized (sym g.size) s;
          robin = subst (λ (n : ℕ). Robin n t') (sym g.size) g.robin;
          tallies = λ i n. omega (arith, g.tallies i n, tally-all_vacant i n m, tally-held i n t);
          full = omega (arith, g.more, occupied-all_vacant m, occupied-held t);
          load =
              subst (λ (n : ℕ). length es + 1 ≤ load_limit n) (sym g.size)
                (load_limit-double (length t) (length es) d.sized.low d.load);
        },
      )

  Roomy-self :
      (t : Table) (es : List (List ℕ × V))
      → Good t es
      → length es + 1 ≤ load_limit (length t)
      → Roomy t t (length es + 1)
  Roomy-self t es d h = record {
    sized = d.sized;
    robin = d.robin;
    tallies = λ i n. refl;
    full = refl;
    load = h;
  }

  -- The bucket of an entry put at the end of those that the table describes.
  Roomy-Good :
      (t t' : Table) (es : List (List ℕ × V)) (x : List ℕ × V)
      → Good t es
      → Roomy t t' (length es + 1)
      → length es + 1 ≤ 2 ^ 30
      → (t2 : Table) × (place (bucket_at (length es) x.0) t' ≡ some t2) × Good t2 (es ++ x ∷ [])
  Roomy-Good t t' es x d r h =
      let b = bucket_at (length es) x.0 in
      let held = bucket_at-full (length es) x.0 (omega (arith, h)) in
      let (t2, e, g) =
        place-Gains r.sized b t' refl r.robin held
          (omega (arith, r.full, d.full, r.load, load_limit-lt (length t') r.sized.low)) in
      (
        t2,
        e,
        record {
          sized = subst Sized (sym g.size) r.sized;
          robin = subst (λ (n : ℕ). Robin n t2) (sym g.size) g.robin;
          tallies = λ i n. omega (
            arith,
            g.tallies i n,
            r.tallies i n,
            d.tallies i n,
            tally-indexed_append i n 0 es x,
            ap (λ (k : ℕ). weight i n (bucket_at k x.0)) from_zero,
          );
          full = omega (arith, g.more, r.full, d.full, one-full b held, length-append es (x ∷ []));
          load =
              subst (λ (n : ℕ). length (es ++ x ∷ []) ≤ load_limit n) (sym g.size)
                (omega (arith, r.load, length-append es (x ∷ [])));
        },
      )
    where
      from_zero : 0 + length es ≡ length es
      from_zero = omega arith

  pub placed-Good :
      (t : Table) (es : List (List ℕ × V)) (x : List ℕ × V)
      → Good t es
      → length es + 1 ≤ 2 ^ 30
      → (t2 : Table) × (placed (es ++ x ∷ []) (length es) (hash_key x.0) t ≡ some t2)
        × Good t2 (es ++ x ∷ [])
  unfolding placed
  placed-Good t es x d h = elim (Bool-cases (ltb (load_limit (length t)) (length (es ++ x ∷ [])))) [
    | inl e ↦
        let (t', p, r) = grow-Roomy t es d (omega (arith, ltb→lt _ _ e, long)) h in
        rw (e, p) (Roomy-Good t t' es x d r h)
    | inr e ↦ rw e (Roomy-Good t t es x d (Roomy-self t es d (omega (arith, ltb→le _ _ e, long))) h)
  ]
    where
      long : length (es ++ x ∷ []) ≡ length es + 1
      long = omega (arith, length-append es (x ∷ []))
