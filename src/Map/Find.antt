-- ===== src/Map/Find.antt =====
-- `HashTable::find` of src/map.rs against a scan of the entries.
use structio.Prelude.{
  ℕ, zero, suc, ◌+◌, ◌-◌, ◌%◌, ◌^◌, ◌≤◌, ◌<◌, ◌≡◌, ◌≢◌, refl, sym, ap, ◌∙◌, arith, true, false,
  Option, none, some, List, ltb, ◌==◌, length, get_elem?, inl, inr, Bool-cases, Option-cases,
  ltb→lt, ltb→le, le→ltb, lt→ltb, ==→ne,
}
use structio.Map.{
  Bucket, Table, is_empty, same_key, hash_key, find_from, find_in, position, confirmed,
}
use structio.Map.Probe.{
  far, far-lt, far_self, far-eq, far-injective, far-succ_of, succ_of, succ_of-lt, succ_of-far,
  home-lt, ideal_lem, next-succ_of, distance-far,
}
use structio.Map.Robin.{at_place, get_elem?-at_place, level, vacancy}
use structio.Map.Good.{
  Good, Distinct, position-some, position-none, position-get, bucket-entry, entry-bucket,
  same_key-eq,
}
use mathlib.Core.Path.{subst}
use mathlib.Core.Option.{some-injective}

module _ {ℓ} {V : Type ℓ} {t : Table} {entries : List (List ℕ × V)} (g : Good t entries)
    (short : length entries < 2 ^ 32) (key : List ℕ) where
  abbrev m : ℕ
  m = length t

  abbrev home : ℕ
  home = hash_key key % m

  abbrev rest : ℕ → ℕ → ℕ → Option (Option ℕ)
  rest rounds at_ travelled = find_from rounds entries key (hash_key key) at_ travelled t

  module _ (rounds at_ travelled : ℕ) (h : at_ < m) where
    abbrev bucket : Bucket
    bucket = at_place t at_

    abbrev later : Option (Option ℕ)
    later = rest rounds (succ_of m at_) (travelled + 1)

    -- One round, by what is in the bucket.
    round-vacant : is_empty bucket ≡ true → rest (suc rounds) at_ travelled ≡ some none
    unfolding find_from
    round-vacant e = rw (get_elem?-at_place t at_ h, e) refl

    round-passed :
        is_empty bucket ≡ false
        → far m (bucket.hash % m) at_ < travelled
        → rest (suc rounds) at_ travelled ≡ some none
    unfolding find_from
    round-passed e k =
        rw
          (
            get_elem?-at_place t at_ h,
            e,
            distance-far g.sized t refl at_ bucket.hash h,
            lt→ltb _ _ k,
          )
          refl

    module _ (e : is_empty bucket ≡ false) (k : travelled ≤ far m (bucket.hash % m) at_) where
      round-other : (bucket.hash == hash_key key) ≡ false → rest (suc rounds) at_ travelled ≡ later
      unfolding find_from
      round-other o =
          rw
            (
              get_elem?-at_place t at_ h,
              e,
              distance-far g.sized t refl at_ bucket.hash h,
              le→ltb _ _ k,
              o,
              next-succ_of g.sized t refl at_ h,
            )
            refl

      round-same :
          (bucket.hash == hash_key key) ≡ true
          → rest (suc rounds) at_ travelled ≡ confirmed entries key bucket.index later
      unfolding find_from
      round-same o =
          rw
            (
              get_elem?-at_place t at_ h,
              e,
              distance-far g.sized t refl at_ bucket.hash h,
              le→ltb _ _ k,
              o,
              next-succ_of g.sized t refl at_ h,
            )
            refl

  module _ (pos : ℕ) (x : List ℕ × V) (later : Option (Option ℕ))
      (e : get_elem? entries pos ≡ some x) where
    confirmed_other : same_key x.0 key ≡ false → confirmed entries key pos later ≡ later
    confirmed_other f = rw (e, f) refl

    confirmed_hit : same_key x.0 key ≡ true → confirmed entries key pos later ≡ some (some pos)
    confirmed_hit f = rw (e, f) refl

  -- A key that is not there, with a vacant place ahead.
  absent :
      (rounds at_ travelled v : ℕ)
      → position key entries ≡ none
      → at_ < m
      → v < m
      → is_empty (at_place t v) ≡ true
      → far m at_ v < rounds
      → rest rounds at_ travelled ≡ some none
  absent zero at_ travelled v n h k w r = absurd (omega arith)
  absent (suc rounds) at_ travelled v n h k w r = elim (Bool-cases (is_empty (at_place t at_))) [
    | inl e ↦ round-vacant rounds at_ travelled h e
    | inr e ↦ elim (Bool-cases (ltb (far m ((at_place t at_).hash % m) at_) travelled)) [
      | inl l ↦ round-passed rounds at_ travelled h e (ltb→lt _ _ l)
      | inr l ↦
          let on =
            absent rounds (succ_of m at_) (travelled + 1) v n (succ_of-lt m at_ h) k w
              (omega (arith, r, nearer e)) in
          elim (Bool-cases ((at_place t at_).hash == hash_key key)) [
            | inl o ↦
                let (x, y, z) = bucket-entry g short at_ h e in
                round-same rounds at_ travelled h e (ltb→le _ _ l) o
                ∙ confirmed_other (at_place t at_).index x _ y (position-none key entries _ x n y)
                ∙ on
            | inr o ↦ round-other rounds at_ travelled h e (ltb→le _ _ l) o ∙ on
          ]
    ]
  ]
    where
      elsewhere : is_empty (at_place t at_) ≡ false → at_ ≢ v
      elsewhere e c = absurd (let f = sym e ∙ ap (λ (a : ℕ). is_empty (at_place t a)) c ∙ w in cc)

      nearer : is_empty (at_place t at_) ≡ false → far m (succ_of m at_) v + 1 ≡ far m at_ v
      nearer e = succ_of-far m at_ v h k (λ z. elsewhere e (far-eq m at_ v h k z))

  level-place :
      (p : ℕ)
      → is_empty (at_place t p) ≡ false
      → (at_place t p).hash ≡ hash_key key
      → level m t p ≡ suc (far m home p)
  level-place p f x = rw f (ap (λ (n : ℕ). suc (far m (n % m) p)) x)

  level-held :
      (a : ℕ)
      → 1 ≤ level m t a
      → (is_empty (at_place t a) ≡ false) × (level m t a ≡ suc (far m ((at_place t a).hash % m) a))
  level-held a h = elim (Bool-cases (is_empty (at_place t a))) [
    | inl e ↦ absurd (let z = nothing e in omega arith)
    | inr e ↦ (e, rw e refl)
  ]
    where
      nothing : is_empty (at_place t a) ≡ true → level m t a ≡ 0
      nothing e = rw e refl

  -- The buckets on the way to the bucket of an entry are no closer to home than the way.
  chain :
      (p n a : ℕ)
      → p < m
      → a < m
      → is_empty (at_place t p) ≡ false
      → (at_place t p).hash ≡ hash_key key
      → far m home a + n ≡ far m home p
      → suc (far m home a) ≤ level m t a
  chain p zero a h k f x e =
      let there =
        far-injective m home a p (home-lt g.sized (hash_key key)) k h (omega (arith, e)) in
      subst (λ (b : ℕ). suc (far m home b) ≤ level m t b) (sym there)
        (omega (arith, level-place p f x))
  chain p (suc n) a h k f x e =
      let ahead =
        far-succ_of m home a (home-lt g.sized (hash_key key)) k
          (omega (arith, e, far-lt m home p (home-lt g.sized (hash_key key)) h)) in
      let later = chain p n (succ_of m a) h (succ_of-lt m a k) f x (omega (arith, e, ahead)) in
      omega (arith, later, ahead, g.robin.step a k)

  module _ (d : Distinct entries) (p i : ℕ) (k : p < m) (f : is_empty (at_place t p) ≡ false)
      (x : (at_place t p).hash ≡ hash_key key) (y : (at_place t p).index ≡ i)
      (q : position key entries ≡ some i) where
    -- Where the probe goes on, it is not at the bucket of the key.
    passes :
        (at_ : ℕ) (c : List ℕ × V)
        → get_elem? entries (at_place t at_).index ≡ some c
        → same_key c.0 key ≡ false
        → at_ ≢ p
    passes at_ c u b z =
        let (c', u', b') = position-some key entries i q in
        let index = ap (λ (a : ℕ). (at_place t a).index) z ∙ y in
        let same = some-injective c c' (sym u ∙ ap (get_elem? entries) index ∙ u') in
        absurd (let b'' = subst (λ (n : List ℕ × V). same_key n.0 key ≡ false) same b in cc)

    round-present :
        (rounds at_ travelled : ℕ)
        → at_ < m
        → is_empty (at_place t at_) ≡ false
        → travelled ≤ far m ((at_place t at_).hash % m) at_
        → (at_ ≢ p → rest rounds (succ_of m at_) (travelled + 1) ≡ some (some i))
        → rest (suc rounds) at_ travelled ≡ some (some i)
    round-present rounds at_ travelled h e l on =
        elim (Bool-cases ((at_place t at_).hash == hash_key key)) [
          | inl o ↦
              let (c, u, z) = bucket-entry g short at_ h e in
              elim (Bool-cases (same_key c.0 key)) [
                | inl b ↦
                    round-same rounds at_ travelled h e l o
                    ∙ confirmed_hit (at_place t at_).index c _ u b
                    ∙ ap (λ (n : Option ℕ). some n) (sym (position-get key entries _ c d u b) ∙ q)
                | inr b ↦
                    round-same rounds at_ travelled h e l o
                    ∙ confirmed_other (at_place t at_).index c _ u b
                    ∙ on (passes at_ c u b)
              ]
          | inr o ↦
              round-other rounds at_ travelled h e l o
              ∙ on (λ z. ==→ne _ _ o (ap (λ (a : ℕ). (at_place t a).hash) z ∙ x))
        ]

    present :
        (rounds at_ travelled : ℕ)
        → at_ < m
        → far m home at_ ≡ travelled
        → travelled ≤ far m home p
        → far m home p < travelled + rounds
        → rest rounds at_ travelled ≡ some (some i)
    present zero at_ travelled h w l r = absurd (omega arith)
    present (suc rounds) at_ travelled h w l r =
        let reached = chain p (far m home p - travelled) at_ k h f x (omega (arith, w, l)) in
        let (e, held) = level-held at_ (omega (arith, reached)) in
        round-present rounds at_ travelled h e (omega (arith, reached, held, w)) (λ z.
          let less = short_of z in
          present rounds (succ_of m at_) (travelled + 1) (succ_of-lt m at_ h)
            (far-succ_of m home at_ (home-lt g.sized (hash_key key)) h
                (omega (arith, less, w, far-lt m home p (home-lt g.sized (hash_key key)) k))
              ∙ ap (λ (n : ℕ). n + 1) w)
            (omega (arith, less)) (omega (arith, r)))
      where
        short_of : at_ ≢ p → travelled < far m home p
        short_of z = elim (Bool-cases (ltb travelled (far m home p))) [
          | inl a ↦ ltb→lt _ _ a
          | inr a ↦ absurd (
              z (
                far-injective m home at_ p (home-lt g.sized (hash_key key)) h k
                  (omega (arith, w, l, ltb→le _ _ a))))
        ]

  -- In a table that describes the entries, whose keys are distinct, the probe answers what a scan
  -- of the entries answers.
  pub find_in-position :
      Distinct entries
      → length entries < length t
      → find_in entries key (hash_key key) t ≡ some (position key entries)
  unfolding find_in
  find_in-position d k =
      rw (ideal_lem g.sized t refl (hash_key key)) (elim (Option-cases (position key entries)) [
        | inl n ↦
            let (v, w, a) = vacancy t (omega (arith, g.full, k)) in
            rw n (
              absent m home 0 v n (home-lt g.sized (hash_key key)) w a
                (far-lt m home v (home-lt g.sized (hash_key key)) w))
        | inr (i, n) ↦
            let (c, u, b) = position-some key entries i n in
            let (p, w, a, y, x) = entry-bucket g short i c u in
            rw n (
              present d p i w a (x ∙ ap hash_key (same_key-eq c.0 key b)) y n m home 0
                (home-lt g.sized (hash_key key)) (far_self m home) (omega arith)
                (omega (arith, far-lt m home p (home-lt g.sized (hash_key key)) w)))
      ])
