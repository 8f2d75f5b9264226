-- ===== src/Map/Retain.antt =====
-- `retain` and `extend` of src/map.rs.
use structio.Prelude.{
  ℕ, suc, ◌+◌, ◌%◌, ◌^◌, ◌≤◌, ◌≡◌, refl, sym, ap, ◌∙◌, arith, Bool, true, false, Option, none, some,
  List, [], ◌∷◌, ◌==◌, length, inl, inr, Bool-cases, ==→eq,
}
use structio.Map.{Bucket, Table, indexed, position, same_key, one_later, hash_key}
use structio.Map.Ordered.{OrderedMap, retained, retain, extend}
use structio.Map.Robin.{tally}
use structio.Map.Good.{Distinct, position-there, position-apart}
use structio.Map.Abstract.{put}
use structio.Map.Refines.{Valid, Tabled, reindex-Valid, insert-put}
use mathlib.Core.Path.{subst}

module _ {ℓ} {V : Type ℓ} {S : Type ℓ} (f : S → List ℕ → V → Bool × V × S) where
  abbrev kept : S → List (List ℕ × V) → List (List ℕ × V)
  kept s es = (retained f s es).0

  retained-keep :
      (s : S) (e : List ℕ × V) (es : List (List ℕ × V))
      → (f s e.0 e.1).0 ≡ true
      → kept s (e ∷ es) ≡ (e.0, (f s e.0 e.1).1) ∷ kept (f s e.0 e.1).2 es
  unfolding retained
  retained-keep s e es k = rw k refl

  retained-drop :
      (s : S) (e : List ℕ × V) (es : List (List ℕ × V))
      → (f s e.0 e.1).0 ≡ false
      → kept s (e ∷ es) ≡ kept (f s e.0 e.1).2 es
  unfolding retained
  retained-drop s e es k = rw k refl

  length-retained : (s : S) (es : List (List ℕ × V)) → length (kept s es) ≤ length es
  unfolding retained
  length-retained s [] = omega arith
  length-retained s (e ∷ es) = elim (Bool-cases (f s e.0 e.1).0) [
    | inl k ↦ omega (arith, ap length (retained-keep s e es k), length-retained (f s e.0 e.1).2 es)
    | inr k ↦ omega (arith, ap length (retained-drop s e es k), length-retained (f s e.0 e.1).2 es)
  ]

  position-retained :
      (s : S) (key : List ℕ) (es : List (List ℕ × V))
      → position key es ≡ none
      → position key (kept s es) ≡ none
  unfolding retained
  position-retained s key [] n = n
  position-retained s key (e ∷ es) n =
      let (g, m) = position-apart key e es n in
      elim (Bool-cases (f s e.0 e.1).0) [
        | inl k ↦
            ap (position key) (retained-keep s e es k)
            ∙ position-there key (e.0, (f s e.0 e.1).1) (kept (f s e.0 e.1).2 es) g
            ∙ ap one_later (position-retained (f s e.0 e.1).2 key es m)
        | inr k ↦
            ap (position key) (retained-drop s e es k) ∙ position-retained (f s e.0 e.1).2 key es m
      ]

  Distinct-retained : (s : S) (es : List (List ℕ × V)) → Distinct es → Distinct (kept s es)
  unfolding retained
  Distinct-retained s [] d = d
  Distinct-retained s (e ∷ es) d = elim (Bool-cases (f s e.0 e.1).0) [
    | inl k ↦
        subst Distinct (sym (retained-keep s e es k))
          (position-retained (f s e.0 e.1).2 e.0 es d.0, Distinct-retained (f s e.0 e.1).2 es d.1)
    | inr k ↦
        subst Distinct (sym (retained-drop s e es k)) (Distinct-retained (f s e.0 e.1).2 es d.1)
  ]

  -- Where nothing goes, the keys stay as they are.
  indexed-retained :
      (s : S) (n : ℕ) (es : List (List ℕ × V))
      → length (kept s es) ≡ length es
      → indexed n (kept s es) ≡ indexed n es
  unfolding retained
  indexed-retained s n [] h = refl
  indexed-retained s n (e ∷ es) h = elim (Bool-cases (f s e.0 e.1).0) [
    | inl k ↦
        ap (indexed n) (retained-keep s e es k)
        ∙ ap (λ (t : List Bucket). (record { index = n % 2 ^ 32; hash = hash_key e.0 }) ∷ t)
            (indexed-retained (f s e.0 e.1).2 (suc n) es
              (omega (arith, h, ap length (retained-keep s e es k))))
    | inr k ↦
        absurd
          (omega (arith, h, ap length (retained-drop s e es k), length-retained (f s e.0 e.1).2 es))
  ]

  Tabled-same :
      (es fs : List (List ℕ × V)) (t : Option Table)
      → length fs ≡ length es
      → indexed 0 fs ≡ indexed 0 es
      → Tabled es t
      → Tabled fs t
  Tabled-same es fs none l e d = tt
  Tabled-same es fs (some t) l e d =
      let g = d.0 in
      (
        record {
          sized = g.sized;
          robin = g.robin;
          tallies = λ i k. g.tallies i k ∙ ap (tally i k) (sym e);
          full = g.full ∙ sym l;
          load = omega (arith, g.load, l);
        },
        omega (arith, d.1, l),
      )

  -- For a valid map and a closure with a state of its own: `retain` returns, with the state that the
  -- closure ends in, and leaves a valid map, whose entries are those that the closure keeps, in their
  -- order and with the values that it leaves.
  pub retain-retained :
      (s : S) (m : OrderedMap V)
      → Valid m
      → (m' : OrderedMap V) × (retain f s m ≡ some (m', (retained f s m.entries).1))
        × Valid m'
        × (m'.entries ≡ (retained f s m.entries).0)
  unfolding retain
  retain-retained s m v = elim (Bool-cases (length (kept s m.entries) == length m.entries)) [
    | inl e ↦
        let same = ==→eq _ _ e in
        rw e (
          record m { entries = kept s m.entries },
          refl,
          record {
            distinct = Distinct-retained s m.entries v.distinct;
            short = omega (arith, v.short, same);
            tabled =
                Tabled-same m.entries (kept s m.entries) m.table same
                  (indexed-retained s 0 m.entries same) v.tabled;
          },
          refl,
        )
    | inr e ↦
        let (m', q, w, r) =
          reindex-Valid (record m { entries = kept s m.entries })
            (Distinct-retained s m.entries v.distinct)
            (omega (arith, v.short, length-retained s m.entries)) in
        rw (e, q) (m', refl, w, r)
  ]

module _ {ℓ} {V : Type ℓ} where
  -- The entries put one after the other.
  unfoldable pub put_all : List (List ℕ × V) → List (List ℕ × V) → List (List ℕ × V)
  put_all [] es = es
  put_all (x ∷ xs) es = put_all xs (put x.0 x.1 es)

  length-put :
      (key : List ℕ) (value : V) (es : List (List ℕ × V))
      → length (put key value es) ≤ length es + 1
  unfolding put
  length-put key value [] = omega arith
  length-put key value (e ∷ es) = elim (Bool-cases (same_key e.0 key)) [
    | inl k ↦ rw k (omega arith)
    | inr k ↦ rw k (omega (arith, length-put key value es))
  ]

  -- For a valid map, with the entries that come at most 2^30 in all: `extend` returns, and leaves a
  -- valid map, whose list of entries is the one before with each that comes put into it in turn.
  pub extend-put_all :
      (xs : List (List ℕ × V)) (m : OrderedMap V)
      → Valid m
      → length m.entries + length xs ≤ 2 ^ 30
      → (m' : OrderedMap V) × (extend xs m ≡ some m')
        × Valid m'
        × (m'.entries ≡ put_all xs m.entries)
  unfolding extend put_all
  extend-put_all [] m v h = (m, refl, v, refl)
  extend-put_all (x ∷ xs) m v h =
      let (m1, p, w, e) = insert-put x.0 x.1 m v (omega arith) in
      let (m2, q, u, f) =
        extend-put_all xs m1 w (omega (arith, ap length e, length-put x.0 x.1 m.entries)) in
      (m2, rw p q, u, f ∙ ap (put_all xs) e)
