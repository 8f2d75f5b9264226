-- ===== src/Map/Good.antt =====
-- A table of src/map.rs that describes the entries, and the keys of a map.
use structio.Prelude.{
  ℕ, zero, suc, ◌+◌, ◌^◌, ◌≤◌, ◌<◌, ◌≡◌, refl, sym, ap, ◌∙◌, arith, true, false, none, some, List,
  [], ◌∷◌, ◌==◌, length, get_elem?, inl, inr, Bool-cases, Option-cases, ==→eq, ==-self,
}
use structio.Map.{Table, is_empty, same_key, hash_key, indexed, position, one_later, load_limit}
use structio.Map.Probe.{Sized}
use structio.Map.Robin.{at_place, tally, occupied, Robin}
use structio.Map.Tallies.{tally-place, place-tally, tally-indexed, indexed-tally}
use mathlib.Core.Option.{some-injective}
use mathlib.Core.Path.{subst}

pub same_key-eq : (k l : List ℕ) → same_key k l ≡ true → k ≡ l
same_key-eq [] [] h = refl
same_key-eq [] (b ∷ l) h = absurd (cc)
same_key-eq (a ∷ k) [] h = absurd (cc)
same_key-eq (a ∷ k) (b ∷ l) h = elim (Bool-cases (a == b)) [
  | inl e ↦ both (==→eq a b e) (same_key-eq k l (sym (head_same e) ∙ h))
  | inr e ↦ absurd (let f = sym h ∙ head_other e in cc)
]
  where
    head_same : (a == b) ≡ true → same_key (a ∷ k) (b ∷ l) ≡ same_key k l
    head_same e = rw e refl

    head_other : (a == b) ≡ false → same_key (a ∷ k) (b ∷ l) ≡ false
    head_other e = rw e refl

    both : {a b : ℕ} {k l : List ℕ} → a ≡ b → k ≡ l → a ∷ k ≡ b ∷ l
    both p q = cc

pub same_key_self : (k : List ℕ) → same_key k k ≡ true
same_key_self [] = refl
same_key_self (a ∷ k) = rw (==-self a, same_key_self k) refl

module _ {ℓ} {V : Type ℓ} where
  -- No key stands twice.
  abbrev pub Distinct : List (List ℕ × V) → Type 0
  Distinct [] = Unit {0}
  Distinct (e ∷ es) = (position e.0 es ≡ none) × Distinct es

  pub record Good (t : Table) (entries : List (List ℕ × V)) : Type 0 where
    pub sized : Sized (length t)
    pub robin : Robin (length t) t
    pub tallies : (i h : ℕ) → tally i h t ≡ tally i h (indexed 0 entries)
    pub full : occupied t ≡ length entries
    pub load : length entries ≤ load_limit (length t)

  module _ (key : List ℕ) (x : List ℕ × V) (es : List (List ℕ × V)) where
    pub position-here : same_key x.0 key ≡ true → position key (x ∷ es) ≡ some 0
    unfolding position
    position-here t = rw t refl

    pub position-there :
        same_key x.0 key ≡ false → position key (x ∷ es) ≡ one_later (position key es)
    unfolding position
    position-there f = rw f refl

  -- The entry at a position that a scan answers.
  Found : List ℕ → List (List ℕ × V) → ℕ → Type ℓ
  Found key es p = (e : List ℕ × V) × (get_elem? es p ≡ some e) × (same_key e.0 key ≡ true)

  pub position-some :
      (key : List ℕ) (es : List (List ℕ × V)) (p : ℕ)
      → position key es ≡ some p
      → (e : List ℕ × V) × (get_elem? es p ≡ some e) × (same_key e.0 key ≡ true)
  unfolding Found position
  position-some key [] p h = absurd (cc)
  position-some key (x ∷ es) p h = elim (Bool-cases (same_key x.0 key)) [
    | inl t ↦
        subst (Found key (x ∷ es)) (some-injective 0 p (sym (position-here key x es t) ∙ h))
          (x, refl, t)
    | inr f ↦ elim (Option-cases (position key es)) [
      | inl n ↦ absurd (let a = sym h ∙ position-there key x es f ∙ ap one_later n in cc)
      | inr (q, n) ↦
          let later = sym (sym h ∙ position-there key x es f ∙ ap one_later n) in
          let (y, g, k) = position-some key es q n in
          subst (Found key (x ∷ es)) (some-injective (suc q) p later) (y, g, k)
    ]
  ]

  pub position-apart :
      (key : List ℕ) (x : List ℕ × V) (es : List (List ℕ × V))
      → position key (x ∷ es) ≡ none
      → (same_key x.0 key ≡ false) × (position key es ≡ none)
  position-apart key x es h = elim (Bool-cases (same_key x.0 key)) [
    | inl t ↦ absurd (let a = sym h ∙ position-here key x es t in cc)
    | inr f ↦ elim (Option-cases (position key es)) [
      | inl n ↦ (f, n)
      | inr (q, n) ↦ absurd (let a = sym h ∙ position-there key x es f ∙ ap one_later n in cc)
    ]
  ]

  pub position-none :
      (key : List ℕ) (es : List (List ℕ × V)) (i : ℕ) (e : List ℕ × V)
      → position key es ≡ none
      → get_elem? es i ≡ some e
      → same_key e.0 key ≡ false
  position-none key [] i e h g = absurd (cc)
  position-none key (x ∷ es) zero e h g =
      subst (λ (d : List ℕ × V). same_key d.0 key ≡ false) (some-injective x e g)
        (position-apart key x es h).0
  position-none key (x ∷ es) (suc i) e h g =
      position-none key es i e (position-apart key x es h).1 g

  -- With distinct keys, the entry with the key is the one that a scan finds.
  pub position-get :
      (key : List ℕ) (es : List (List ℕ × V)) (i : ℕ) (e : List ℕ × V)
      → Distinct es
      → get_elem? es i ≡ some e
      → same_key e.0 key ≡ true
      → position key es ≡ some i
  position-get key [] i e d g k = absurd (cc)
  position-get key (x ∷ es) zero e d g k =
      position-here key x es
        (subst (λ (c : List ℕ × V). same_key c.0 key ≡ true) (sym (some-injective x e g)) k)
  position-get key (x ∷ es) (suc i) e d g k = elim (Bool-cases (same_key x.0 key)) [
    | inl t ↦
        let other = position-none x.0 es i e d.0 g in
        absurd (
          let same =
            subst (λ (c : List ℕ). same_key e.0 c ≡ true) (sym (same_key-eq x.0 key t)) k in
          cc)
    | inr f ↦ position-there key x es f ∙ ap one_later (position-get key es i e d.1 g k)
  ]

  module _ {t : Table} {entries : List (List ℕ × V)} (g : Good t entries)
      (short : length entries < 2 ^ 32) where
    -- Every bucket that holds something is of an entry, with the hash of its key.
    pub bucket-entry :
        (a : ℕ)
        → a < length t
        → is_empty (at_place t a) ≡ false
        → (e : List ℕ × V) × (get_elem? entries (at_place t a).index ≡ some e)
          × (hash_key e.0 ≡ (at_place t a).hash)
    bucket-entry a h f =
        let b = at_place t a in
        let (j, x, e, y, z) =
          indexed-tally b.index b.hash 0 entries (omega (arith, short))
            (omega (arith, place-tally t a h f, g.tallies b.index b.hash)) in
        (e, ap (get_elem? entries) (x ∙ from_zero j) ∙ y, z)
      where
        from_zero : (j : ℕ) → 0 + j ≡ j
        from_zero j = omega arith

    -- Every entry has a bucket.
    pub entry-bucket :
        (i : ℕ) (e : List ℕ × V)
        → get_elem? entries i ≡ some e
        → (a : ℕ) × (a < length t)
          × (is_empty (at_place t a) ≡ false)
          × ((at_place t a).index ≡ i)
          × ((at_place t a).hash ≡ hash_key e.0)
    entry-bucket i e f =
        tally-place i (hash_key e.0) t (omega (arith, g.tallies i (hash_key e.0), tallied))
      where
        from_zero : 0 + i ≡ i
        from_zero = omega arith

        tallied : 1 ≤ tally i (hash_key e.0) (indexed 0 entries)
        tallied =
            subst (λ (n : ℕ). 1 ≤ tally n (hash_key e.0) (indexed 0 entries)) from_zero
              (tally-indexed i 0 entries e (omega (arith, short)) f)
