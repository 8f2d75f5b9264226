-- ===== src/Map/Erase.antt =====
-- `erase` of src/map.rs: the chain behind a bucket that goes moves up, and nothing else is lost.
use structio.Prelude.{
  ℕ, zero, suc, ◌+◌, ◌%◌, ◌≤◌, ◌<◌, ◌≡◌, ◌≢◌, refl, sym, ap, ◌∙◌, arith, true, false, Option, some,
  ◌==◌, length, set, inl, inr, Bool-cases, ==→eq, ==→ne,
}
use structio.Map.{Bucket, Table, vacant, is_empty, erase_from, erase, bucket_from}
use structio.Map.Probe.{
  Sized, far, far-lt, far-eq, far-before, succ_of, succ_of-lt, succ_of-far, succ_of-ne, home-lt,
  next-succ_of, distance-far,
}
use structio.Map.Robin.{
  at_place, get_elem?-at_place, length-set, at_place-set_other, weight, tally, one, occupied,
  tally-set, occupied-set, vacancy, level_of, level, Robin, Robin-set,
}
use mathlib.Core.Path.{subst}

module _ {m : ℕ} (s : Sized m) where
  -- What the table holds afterwards: what it held but for the bucket.
  pub record Loses (b : Bucket) (t t' : Table) : Type 0 where
    pub size : length t' ≡ m
    pub robin : Robin m t'
    pub tallies : (i h : ℕ) → tally i h t' + weight i h b ≡ tally i h t
    pub fewer : occupied t' + one b ≡ occupied t

  -- The loop of `erase` with a hole, in front of a vacant place `v`.
  record Hole (hole v : ℕ) (t : Table) : Type 0 where
    size : length t ≡ m
    robin : Robin m t
    here : hole < m
    ahead : v < m
    room : is_empty (at_place t v) ≡ true
    holds : is_empty (at_place t hole) ≡ false

  module _ {hole v : ℕ} {t : Table} (c : Hole hole v t) where
    abbrev curr : ℕ
    curr = succ_of m hole

    abbrev bucket : Bucket
    bucket = at_place t curr

    abbrev wayward : ℕ
    wayward = far m (bucket.hash % m) curr

    level-empty : is_empty bucket ≡ true → level m t curr ≡ 0
    level-empty e = rw e refl

    level-full : is_empty bucket ≡ false → level m t curr ≡ suc wayward
    level-full e = rw e refl

    -- The chain ends here.
    stop-Loses : level m t curr ≤ 1 → Loses (at_place t hole) t (set t hole vacant)
    stop-Loses h = record {
      size = length-set t hole vacant ∙ c.size;
      robin =
          Robin-set m t hole vacant c.size (omega (arith, s.low)) c.here c.robin
            (λ a k e. omega arith) (omega (arith, h));
      tallies = λ i k. omega (arith, tally-set i k t hole vacant (omega (arith, c.size, c.here)));
      fewer = omega (arith, occupied-set t hole vacant (omega (arith, c.size, c.here)));
    }

    module _ (e : is_empty bucket ≡ false) (f : wayward ≢ 0) where
      moved : level_of m hole bucket + 1 ≡ level m t curr
      moved = omega (
        arith,
        level-full e,
        full,
        far-before m (bucket.hash % m) hole (home-lt s bucket.hash) c.here f,
      )
        where
          full : level_of m hole bucket ≡ suc (far m (bucket.hash % m) hole)
          full = rw e refl

      v-ne : hole ≢ v
      v-ne k =
          absurd (let g = sym c.holds ∙ ap (λ (a : ℕ). is_empty (at_place t a)) k ∙ c.room in cc)

      curr-ne : curr ≢ v
      curr-ne k = absurd (let g = sym e ∙ ap (λ (a : ℕ). is_empty (at_place t a)) k ∙ c.room in cc)

      kept : at_place (set t hole bucket) curr ≡ bucket
      kept =
          at_place-set_other t hole curr bucket
            (λ k. succ_of-ne m hole c.here (omega (arith, s.low)) (sym k))

      -- The bucket moves up, and the hole with it.
      move-Hole : Hole curr v (set t hole bucket)
      move-Hole = record {
        size = length-set t hole bucket ∙ c.size;
        robin =
            Robin-set m t hole bucket c.size (omega (arith, s.low)) c.here c.robin
              (λ a k x. omega (
                arith,
                moved,
                c.robin.step hole c.here,
                subst (λ (n : ℕ). level m t n ≤ level m t a + 1) x (c.robin.step a k),
              ))
              (omega (arith, moved));
        here = succ_of-lt m hole c.here;
        ahead = c.ahead;
        room = ap is_empty (at_place-set_other t hole v bucket v-ne) ∙ c.room;
        holds = ap is_empty kept ∙ e;
      }

      nearer : far m (succ_of m curr) v + 1 ≡ far m curr v
      nearer =
          succ_of-far m curr v (succ_of-lt m hole c.here) c.ahead
            (λ z. curr-ne (far-eq m curr v (succ_of-lt m hole c.here) c.ahead z))

      move-Loses :
          (t' : Table)
          → Loses (at_place (set t hole bucket) curr) (set t hole bucket) t'
          → Loses (at_place t hole) t t'
      move-Loses t' l = record {
        size = l.size;
        robin = l.robin;
        tallies = λ i k. omega (
          arith,
          l.tallies i k,
          ap (weight i k) kept,
          tally-set i k t hole bucket (omega (arith, c.size, c.here)),
        );
        fewer = omega (
          arith,
          l.fewer,
          ap one kept,
          occupied-set t hole bucket (omega (arith, c.size, c.here)),
        );
      }

  Erased : Bucket → Table → Option Table → Type 0
  Erased b t o = (t' : Table) × (o ≡ some t') × Loses b t t'

  erase_from_lem :
      (rounds hole v : ℕ) (t : Table)
      → Hole hole v t
      → far m (succ_of m hole) v < rounds
      → Erased (at_place t hole) t (erase_from rounds hole (succ_of m hole) t)
  unfolding erase_from Erased
  erase_from_lem zero hole v t c h = absurd (omega arith)
  erase_from_lem (suc rounds) hole v t c h =
      let here = succ_of-lt m hole c.here in
      let place = get_elem?-at_place t (succ_of m hole) (omega (arith, c.size, here)) in
      elim (Bool-cases (is_empty (at_place t (succ_of m hole)))) [
        | inl e ↦
            rw (place, e) (set t hole vacant, refl, stop-Loses c (omega (arith, level-empty c e)))
        | inr e ↦ elim (Bool-cases (wayward c == 0)) [
          | inl f ↦
              rw (place, e, distance-far s t c.size _ (at_place t (succ_of m hole)).hash here, f)
                (set t hole vacant, refl, stop-Loses c (omega (arith, level-full c e, ==→eq _ _ f)))
          | inr f ↦
              let (t', p, l) =
                erase_from_lem rounds (succ_of m hole) v (set t hole (bucket c))
                  (move-Hole c e (==→ne _ _ f)) (omega (arith, h, nearer c e (==→ne _ _ f))) in
              rw
                (
                  place,
                  e,
                  distance-far s t c.size _ (at_place t (succ_of m hole)).hash here,
                  f,
                  next-succ_of s t c.size (succ_of m hole) here,
                )
                (t', p, move-Loses c e (==→ne _ _ f) t' l)
        ]
      ]

  pub erase-Loses :
      (hole : ℕ) (t : Table)
      → length t ≡ m
      → Robin m t
      → hole < m
      → is_empty (at_place t hole) ≡ false
      → occupied t < m
      → (t' : Table) × (erase hole t ≡ some t') × Loses (at_place t hole) t t'
  unfolding erase Erased
  erase-Loses hole t e r h f k =
      let (v, l, g) = vacancy t (omega (arith, e, k)) in
      rw (next-succ_of s t e hole h) (
        erase_from_lem (length t) hole v t
          (record {
            size = e;
            robin = r;
            here = h;
            ahead = omega (arith, l, e);
            room = g;
            holds = f;
          })
          (omega
            (arith, e, far-lt m (succ_of m hole) v (succ_of-lt m hole h) (omega (arith, l, e)))))

  -- The loop of `bucket_of` comes to a bucket of the position, where there is one ahead.
  pub bucket_from_lem :
      (rounds at_ p pos : ℕ) (t : Table)
      → length t ≡ m
      → at_ < m
      → p < m
      → (at_place t p).index ≡ pos
      → far m at_ p < rounds
      → (a : ℕ) × (bucket_from rounds pos at_ t ≡ some a) × (a < m) × ((at_place t a).index ≡ pos)
  unfolding bucket_from
  bucket_from_lem zero at_ p pos t e h k f l = absurd (omega arith)
  bucket_from_lem (suc rounds) at_ p pos t e h k f l =
      let place = get_elem?-at_place t at_ (omega (arith, e, h)) in
      elim (Bool-cases ((at_place t at_).index == pos)) [
        | inl x ↦ rw (place, x) (at_, refl, h, ==→eq _ _ x)
        | inr x ↦
            rw (place, x, next-succ_of s t e at_ h)
              (bucket_from_lem rounds (succ_of m at_) p pos t e (succ_of-lt m at_ h) k f (
                omega (
                  arith,
                  l,
                  succ_of-far m at_ p h k (λ z.
                      ==→ne _ _ x
                        (ap (λ (a : ℕ). (at_place t a).index) (far-eq m at_ p h k z) ∙ f)),
                )))
      ]
