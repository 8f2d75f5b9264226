-- ===== src/Map/Place.antt =====
-- `place` of src/map.rs: a bucket goes into a table with a vacant place, and nothing is lost.
use structio.Prelude.{
  ℕ, zero, suc, ◌+◌, ◌%◌, ◌≤◌, ◌<◌, ◌≡◌, ◌≢◌, refl, sym, ap, ◌∙◌, arith, true, false, Option, some,
  List, [], ◌∷◌, ltb, length, set, inl, inr, Bool-cases, ltb→lt, ltb→le,
}
use mathlib.Core.Path.{subst}
use structio.Map.{Bucket, Table, is_empty, place_from, place, place_all}
use structio.Map.Probe.{
  Sized, far, far-lt, far_self, far-eq, far-succ_of, succ_of, succ_of-lt, succ_of-far,
  succ_of-injective, home-lt, ideal_lem, next-succ_of, distance-far,
}
use structio.Map.Robin.{
  at_place, get_elem?-at_place, length-set, at_place-set, at_place-set_other, weight, tally, one,
  occupied, tally-set, occupied-set, vacancy, level_of, level, Robin, Robin-set,
}

module _ {m : ℕ} (s : Sized m) where
  -- What the table holds afterwards: what it held, and the bucket.
  pub record Gains (b : Bucket) (t t' : Table) : Type 0 where
    pub size : length t' ≡ m
    pub robin : Robin m t'
    pub tallies : (i h : ℕ) → tally i h t' ≡ tally i h t + weight i h b
    pub more : occupied t' ≡ occupied t + one b

  -- The loop of `place` with a bucket in hand, and a vacant place `v` ahead.
  record Carries (b : Bucket) (at_ travelled v : ℕ) (t : Table) : Type 0 where
    size : length t ≡ m
    robin : Robin m t
    here : at_ < m
    ahead : v < m
    room : is_empty (at_place t v) ≡ true
    holds : is_empty b ≡ false
    way : far m (b.hash % m) at_ ≡ travelled
    enough : travelled + far m at_ v < m
    behind : (a : ℕ) → a < m → succ_of m a ≡ at_ → travelled ≤ level m t a

  level_of-held :
      (a : ℕ) (b : Bucket) → is_empty b ≡ false → level_of m a b ≡ suc (far m (b.hash % m) a)
  level_of-held a b e = rw e refl

  level_of-empty : (a : ℕ) (b : Bucket) → is_empty b ≡ true → level_of m a b ≡ 0
  level_of-empty a b e = rw e refl

  module _ {b : Bucket} {at_ travelled v : ℕ} {t : Table} (c : Carries b at_ travelled v t) where
    abbrev occupant : Bucket
    occupant = at_place t at_

    put-Robin : level m t at_ ≤ suc travelled → Robin m (set t at_ b)
    put-Robin h =
        Robin-set m t at_ b c.size (omega (arith, s.low)) c.here c.robin
          (λ a k e. omega (arith, level_of-held at_ b c.holds, c.way, c.behind a k e))
          (omega (arith, level_of-held at_ b c.holds, c.way, c.robin.step at_ c.here, h))

    put-Gains : is_empty occupant ≡ true → Gains b t (set t at_ b)
    put-Gains e = record {
      size = length-set t at_ b ∙ c.size;
      robin = put-Robin (omega (arith, level_of-empty at_ occupant e));
      tallies = λ i h.
          omega (arith, tally-set i h t at_ b (omega (arith, c.size, c.here)), weightless i h);
      more = omega (arith, occupied-set t at_ b (omega (arith, c.size, c.here)), oneless);
    }
      where
        weightless : (i h : ℕ) → weight i h occupant ≡ 0
        weightless i h = rw e refl

        oneless : one occupant ≡ 0
        oneless = rw e refl

    not_there : is_empty occupant ≡ false → at_ ≢ v
    not_there e k =
        let f = sym e ∙ ap (λ (a : ℕ). is_empty (at_place t a)) k ∙ c.room in absurd (cc)

    gap_left : is_empty occupant ≡ false → far m (succ_of m at_) v + 1 ≡ far m at_ v
    gap_left e =
        succ_of-far m at_ v c.here c.ahead (λ z. not_there e (far-eq m at_ v c.here c.ahead z))

    abbrev theirs : ℕ
    theirs = far m (occupant.hash % m) at_

    -- The occupant goes on instead of the bucket.
    steal-Carries :
        is_empty occupant ≡ false
        → theirs < travelled
        → Carries occupant (succ_of m at_) (theirs + 1) v (set t at_ b)
    steal-Carries e h = record {
      size = length-set t at_ b ∙ c.size;
      robin = put-Robin (omega (arith, level_of-held at_ occupant e, h));
      here = succ_of-lt m at_ c.here;
      ahead = c.ahead;
      room = ap is_empty (at_place-set_other t at_ v b (not_there e)) ∙ c.room;
      holds = e;
      way =
          far-succ_of m (occupant.hash % m) at_ (home-lt s occupant.hash) c.here
            (omega (arith, h, c.enough));
      enough = omega (arith, h, c.enough, gap_left e);
      behind = λ a k x.
          subst (λ (n : ℕ). theirs + 1 ≤ level m (set t at_ b) n)
            (succ_of-injective m at_ a c.here k (sym x))
            (omega (arith, stored, level_of-held at_ b c.holds, c.way, h));
    }
      where
        stored : level m (set t at_ b) at_ ≡ level_of m at_ b
        stored = ap (level_of m at_) (at_place-set t at_ b (omega (arith, c.size, c.here)))

    -- The bucket goes on.
    on-Carries :
        is_empty occupant ≡ false
        → travelled ≤ theirs
        → Carries b (succ_of m at_) (travelled + 1) v t
    on-Carries e h = record {
      size = c.size;
      robin = c.robin;
      here = succ_of-lt m at_ c.here;
      ahead = c.ahead;
      room = c.room;
      holds = c.holds;
      way =
          far-succ_of m (b.hash % m) at_ (home-lt s b.hash) c.here
            (omega (arith, c.way, c.enough, gap_left e))
          ∙ ap (λ (n : ℕ). n + 1) c.way;
      enough = omega (arith, c.enough, gap_left e);
      behind = λ a k x.
          subst (λ (n : ℕ). travelled + 1 ≤ level m t n)
            (succ_of-injective m at_ a c.here k (sym x))
            (omega (arith, level_of-held at_ occupant e, h));
    }

  Gains-swap :
      (b : Bucket) (at_ : ℕ) (t t' : Table)
      → length t ≡ m
      → at_ < m
      → Gains (at_place t at_) (set t at_ b) t'
      → Gains b t t'
  Gains-swap b at_ t t' e h g = record {
    size = g.size;
    robin = g.robin;
    tallies = λ i k. omega (arith, g.tallies i k, tally-set i k t at_ b (omega (arith, e, h)));
    more = omega (arith, g.more, occupied-set t at_ b (omega (arith, e, h)));
  }

  Placed : Bucket → Table → Option Table → Type 0
  Placed b t o = (t' : Table) × (o ≡ some t') × Gains b t t'

  place_from_lem :
      (rounds : ℕ) (b : Bucket) (at_ travelled v : ℕ) (t : Table)
      → Carries b at_ travelled v t
      → far m at_ v < rounds
      → Placed b t (place_from rounds b at_ travelled t)
  unfolding place_from Placed
  place_from_lem zero b at_ travelled v t c h = absurd (omega arith)
  place_from_lem (suc rounds) b at_ travelled v t c h =
      elim (Bool-cases (is_empty (at_place t at_))) [
        | inl e ↦
            rw (get_elem?-at_place t at_ (omega (arith, c.size, c.here)), e)
              (set t at_ b, refl, put-Gains c e)
        | inr e ↦
            rw
              (
                get_elem?-at_place t at_ (omega (arith, c.size, c.here)),
                e,
                distance-far s t c.size at_ (at_place t at_).hash c.here,
                next-succ_of s t c.size at_ c.here,
              )
              (elim (Bool-cases (ltb (theirs c) travelled)) [
                | inl x ↦
                    let less = ltb→lt _ _ x in
                    let (t', q, g) =
                      place_from_lem rounds (at_place t at_) (succ_of m at_) (theirs c + 1) v
                        (set t at_ b) (steal-Carries c e less) (omega (arith, h, gap_left c e)) in
                    rw x (t', q, Gains-swap b at_ t t' c.size c.here g)
                | inr x ↦ rw x (
                    place_from_lem rounds b (succ_of m at_) (travelled + 1) v t
                      (on-Carries c e (ltb→le _ _ x)) (omega (arith, h, gap_left c e)))
              ])
      ]

  pub place-Gains :
      (b : Bucket) (t : Table)
      → length t ≡ m
      → Robin m t
      → is_empty b ≡ false
      → occupied t < m
      → (t' : Table) × (place b t ≡ some t') × Gains b t t'
  unfolding place Placed
  place-Gains b t e r f k =
      let (v, l, g) = vacancy t (omega (arith, e, k)) in
      let home = home-lt s b.hash in
      rw (ideal_lem s t e b.hash) (
        place_from_lem (length t) b (b.hash % m) 0 v t
          (record {
            size = e;
            robin = r;
            here = home;
            ahead = omega (arith, l, e);
            room = g;
            holds = f;
            way = far_self m (b.hash % m);
            enough = omega (arith, far-lt m (b.hash % m) v home (omega (arith, l, e)));
            behind = λ a h x. omega arith;
          })
          (omega (arith, e, far-lt m (b.hash % m) v home (omega (arith, l, e)))))

  pub record GainsAll (bs : List Bucket) (t t' : Table) : Type 0 where
    pub size : length t' ≡ m
    pub robin : Robin m t'
    pub tallies : (i h : ℕ) → tally i h t' ≡ tally i h t + tally i h bs
    pub more : occupied t' ≡ occupied t + occupied bs

  GainsAll-nil : (t : Table) → length t ≡ m → Robin m t → GainsAll [] t t
  GainsAll-nil t e r = record {
    size = e;
    robin = r;
    tallies = λ i h. omega arith;
    more = omega arith;
  }

  pub place_all-GainsAll :
      (bs : List Bucket) (t : Table)
      → length t ≡ m
      → Robin m t
      → occupied bs ≡ length bs
      → occupied t + length bs ≤ m
      → (t' : Table) × (place_all bs t ≡ some t') × GainsAll bs t t'
  unfolding place_all
  place_all-GainsAll [] t e r f k = (t, refl, GainsAll-nil t e r)
  place_all-GainsAll (b ∷ bs) t e r f k =
      let held = all_held b bs f in
      let (t1, p, g) = place-Gains b t e r held.0 (omega arith) in
      let (t2, q, j) =
        place_all-GainsAll bs t1 g.size g.robin held.1 (omega (arith, g.more, k, one-le b)) in
      (
        t2,
        rw p q,
        record {
          size = j.size;
          robin = j.robin;
          tallies = λ i h. omega (arith, g.tallies i h, j.tallies i h);
          more = omega (arith, g.more, j.more);
        },
      )
    where
      one-le : (b : Bucket) → one b ≤ 1
      one-le b = elim (Bool-cases (is_empty b)) [
        | inl x ↦ rw x (omega arith)
        | inr x ↦ rw x (omega arith)
      ]

      occupied-le : (bs : List Bucket) → occupied bs ≤ length bs
      occupied-le [] = omega arith
      occupied-le (b ∷ bs) = omega (arith, one-le b, occupied-le bs)

      all_held :
          (b : Bucket) (bs : List Bucket)
          → occupied (b ∷ bs) ≡ length (b ∷ bs)
          → (is_empty b ≡ false) × (occupied bs ≡ length bs)
      all_held b bs f = elim (Bool-cases (is_empty b)) [
        | inl x ↦ absurd (let z = empty_one x in omega (arith, occupied-le bs, f))
        | inr x ↦ (x, let z = full_one x in omega (arith, f))
      ]
        where
          empty_one : is_empty b ≡ true → one b ≡ 0
          empty_one x = rw x refl

          full_one : is_empty b ≡ false → one b ≡ 1
          full_one x = rw x refl
