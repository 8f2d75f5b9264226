-- ===== src/Map/Abstract.antt =====
-- The list of entries that a map of src/map.rs stands for, and what its operations do to the list.
use structio.Prelude.{
  ℕ, zero, suc, ◌%◌, ◌^◌, ◌≡◌, refl, sym, ap, ◌∙◌, true, false, Option, none, some, List, [], ◌∷◌,
  ◌++◌, if◌then◌else◌, length, get_elem?, set, inl, inr, Bool-cases, Option-cases,
}
use structio.Map.{Bucket, same_key, indexed, position, one_later, hash_key}
use structio.Map.Ordered.{without}
use structio.Map.Good.{
  Distinct, position-here, position-there, position-apart, same_key-eq, same_key_self,
}
use mathlib.Core.Option.{some-injective}
use mathlib.Core.Path.{subst}

module _ {ℓ} {V : Type ℓ} where
  -- The entry of a key.
  unfoldable pub entry_of : List ℕ → List (List ℕ × V) → Option (List ℕ × V)
  entry_of key [] = none
  entry_of key (e ∷ es) = if same_key e.0 key then some e else entry_of key es

  -- A key with its value: where the key stands, or at the end.
  unfoldable pub put : List ℕ → V → List (List ℕ × V) → List (List ℕ × V)
  put key value [] = (key, value) ∷ []
  put key value (e ∷ es) =
      let later = put key value es in if same_key e.0 key then (e.0, value) ∷ es else e ∷ later

  -- The entries but that of a key.
  unfoldable pub drop_key : List ℕ → List (List ℕ × V) → List (List ℕ × V)
  drop_key key [] = []
  drop_key key (e ∷ es) = let later = drop_key key es in if same_key e.0 key then es else e ∷ later

  module _ (key : List ℕ) where
    pub entry_of-absent : (es : List (List ℕ × V)) → position key es ≡ none → entry_of key es ≡ none
    unfolding entry_of
    entry_of-absent [] n = refl
    entry_of-absent (x ∷ es) n =
        let (f, m) = position-apart key x es n in rw f (entry_of-absent es m)

    pub put-absent :
        (value : V) (es : List (List ℕ × V))
        → position key es ≡ none
        → put key value es ≡ es ++ (key, value) ∷ []
    unfolding put
    put-absent value [] n = refl
    put-absent value (x ∷ es) n =
        let (f, m) = position-apart key x es n in
        rw f (ap (λ (t : List (List ℕ × V)). x ∷ t) (put-absent value es m))

    pub drop_key-absent : (es : List (List ℕ × V)) → position key es ≡ none → drop_key key es ≡ es
    unfolding drop_key
    drop_key-absent [] n = refl
    drop_key-absent (x ∷ es) n =
        let (f, m) = position-apart key x es n in
        rw f (ap (λ (t : List (List ℕ × V)). x ∷ t) (drop_key-absent es m))

    -- The key stands at `p`, in the entry `e`.
    pub record At (es : List (List ℕ × V)) (p : ℕ) (e : List ℕ × V) : Type ℓ where
      pub entry : entry_of key es ≡ some e
      pub assigned : (value : V) → put key value es ≡ set es p (e.0, value)
      pub dropped : drop_key key es ≡ without p es
      pub got : get_elem? es p ≡ some e
      pub same : same_key e.0 key ≡ true

    At-here : (x : List ℕ × V) (es : List (List ℕ × V)) → same_key x.0 key ≡ true → At (x ∷ es) 0 x
    unfolding entry_of put drop_key
    At-here x es t = record {
      entry = rw t refl;
      assigned = λ value. rw t refl;
      dropped = rw t refl;
      got = refl;
      same = t;
    }

    At-there :
        (x : List ℕ × V) (es : List (List ℕ × V)) (p : ℕ) (e : List ℕ × V)
        → same_key x.0 key ≡ false
        → At es p e
        → At (x ∷ es) (suc p) e
    unfolding entry_of put drop_key
    At-there x es p e f a = record {
      entry = rw f a.entry;
      assigned = λ value. rw f (ap (λ (t : List (List ℕ × V)). x ∷ t) (a.assigned value));
      dropped = rw f (ap (λ (t : List (List ℕ × V)). x ∷ t) a.dropped);
      got = a.got;
      same = a.same;
    }

    pub position-At :
        (es : List (List ℕ × V)) (p : ℕ) → position key es ≡ some p → (e : List ℕ × V) × At es p e
    unfolding position
    position-At [] p h = absurd (cc)
    position-At (x ∷ es) p h = elim (Bool-cases (same_key x.0 key)) [
      | inl t ↦
          subst (λ (q : ℕ). (e : List ℕ × V) × At (x ∷ es) q e)
            (some-injective 0 p (sym (position-here key x es t) ∙ h)) (x, At-here x es t)
      | inr f ↦ elim (Option-cases (position key es)) [
        | inl n ↦ absurd (let a = sym h ∙ position-there key x es f ∙ ap one_later n in cc)
        | inr (q, n) ↦
            let later = sym (sym h ∙ position-there key x es f ∙ ap one_later n) in
            let (e, a) = position-At es q n in
            subst (λ (q : ℕ). (e : List ℕ × V) × At (x ∷ es) q e) (some-injective (suc q) p later)
              (e, At-there x es q e f a)
      ]
    ]

  -- A value put in the place of another leaves the keys as they are.
  pub indexed-set :
      (n : ℕ) (es : List (List ℕ × V)) (p : ℕ) (e : List ℕ × V) (value : V)
      → get_elem? es p ≡ some e
      → indexed n (set es p (e.0, value)) ≡ indexed n es
  indexed-set n [] p e value h = refl
  indexed-set n (x ∷ es) zero e value h =
      ap
        (λ (y : List ℕ × V).
          (record { index = n % 2 ^ 32; hash = hash_key y.0 }) ∷ indexed (suc n) es)
        (sym (some-injective x e h))
  indexed-set n (x ∷ es) (suc p) e value h =
      ap (λ (t : List Bucket). (record { index = n % 2 ^ 32; hash = hash_key x.0 }) ∷ t)
        (indexed-set (suc n) es p e value h)

  pub length-set_entry :
      (es : List (List ℕ × V)) (p : ℕ) (e : List ℕ × V) → length (set es p e) ≡ length es
  length-set_entry [] p e = refl
  length-set_entry (x ∷ es) zero e = refl
  length-set_entry (x ∷ es) (suc p) e = ap suc (length-set_entry es p e)

  position-put_here :
      (key : List ℕ) (x y : List ℕ × V) (es : List (List ℕ × V))
      → x.0 ≡ y.0
      → position key (x ∷ es) ≡ position key (y ∷ es)
  position-put_here key x y es h = elim (Bool-cases (same_key x.0 key)) [
    | inl t ↦
        position-here key x es t
        ∙ sym (position-here key y es (sym (ap (λ (k : List ℕ). same_key k key) h) ∙ t))
    | inr f ↦
        position-there key x es f
        ∙ sym (position-there key y es (sym (ap (λ (k : List ℕ). same_key k key) h) ∙ f))
  ]

  position-cons :
      (key : List ℕ) (x : List ℕ × V) (es fs : List (List ℕ × V))
      → position key es ≡ position key fs
      → position key (x ∷ es) ≡ position key (x ∷ fs)
  position-cons key x es fs h = elim (Bool-cases (same_key x.0 key)) [
    | inl t ↦ position-here key x es t ∙ sym (position-here key x fs t)
    | inr f ↦ position-there key x es f ∙ ap one_later h ∙ sym (position-there key x fs f)
  ]

  position-set :
      (key : List ℕ) (es : List (List ℕ × V)) (p : ℕ) (e : List ℕ × V) (value : V)
      → get_elem? es p ≡ some e
      → position key (set es p (e.0, value)) ≡ position key es
  position-set key [] p e value h = refl
  position-set key (x ∷ es) zero e value h =
      position-put_here key (e.0, value) x es
        (sym (ap (λ (y : List ℕ × V). y.0) (some-injective x e h)))
  position-set key (x ∷ es) (suc p) e value h =
      position-cons key x (set es p (e.0, value)) es (position-set key es p e value h)

  pub Distinct-set :
      (es : List (List ℕ × V)) (p : ℕ) (e : List ℕ × V) (value : V)
      → get_elem? es p ≡ some e
      → Distinct es
      → Distinct (set es p (e.0, value))
  Distinct-set [] p e value h d = d
  Distinct-set (x ∷ es) zero e value h d =
      (ap (λ (y : List ℕ × V). position y.0 es) (sym (some-injective x e h)) ∙ d.0, d.1)
  Distinct-set (x ∷ es) (suc p) e value h d =
      (position-set x.0 es p e value h ∙ d.0, Distinct-set es p e value h d.1)

  position-append :
      (key : List ℕ) (es : List (List ℕ × V)) (x : List ℕ × V)
      → position key es ≡ none
      → same_key x.0 key ≡ false
      → position key (es ++ x ∷ []) ≡ none
  unfolding position
  position-append key [] x n f = position-there key x [] f
  position-append key (y ∷ es) x n f =
      let (g, m) = position-apart key y es n in
      position-there key y (es ++ x ∷ []) g ∙ ap one_later (position-append key es x m f)

  pub Distinct-append :
      (es : List (List ℕ × V)) (x : List ℕ × V)
      → Distinct es
      → position x.0 es ≡ none
      → Distinct (es ++ x ∷ [])
  unfolding position
  Distinct-append [] x d n = (refl, tt)
  Distinct-append (y ∷ es) x d n =
      let (f, m) = position-apart x.0 y es n in
      (position-append y.0 es x d.0 (other f), Distinct-append es x d.1 m)
    where
      other : same_key y.0 x.0 ≡ false → same_key x.0 y.0 ≡ false
      other f = elim (Bool-cases (same_key x.0 y.0)) [
        | inl t ↦
            absurd
              (let g = sym f ∙ ap (same_key y.0) (same_key-eq x.0 y.0 t) ∙ same_key_self y.0 in cc)
        | inr g ↦ g
      ]

  position-without :
      (key : List ℕ) (es : List (List ℕ × V)) (p : ℕ)
      → position key es ≡ none
      → position key (without p es) ≡ none
  unfolding position
  position-without key [] p n = refl
  position-without key (x ∷ es) zero n = (position-apart key x es n).1
  position-without key (x ∷ es) (suc p) n =
      let (f, m) = position-apart key x es n in
      position-there key x (without p es) f ∙ ap one_later (position-without key es p m)

  pub Distinct-without : (es : List (List ℕ × V)) (p : ℕ) → Distinct es → Distinct (without p es)
  Distinct-without [] p d = d
  Distinct-without (x ∷ es) zero d = d.1
  Distinct-without (x ∷ es) (suc p) d = (position-without x.0 es p d.0, Distinct-without es p d.1)
