-- ===== src/Map/Tallies.antt =====
-- What a table of src/map.rs holds, by counting its buckets.
use structio.Prelude.{
  ℕ, zero, suc, ◌+◌, ◌%◌, ◌^◌, ◌≤◌, ◌<◌, ◌≡◌, refl, sym, ap, ◌∙◌, arith, true, false, some, List,
  [], ◌∷◌, ◌==◌, length, get_elem?, inl, inr, Bool-cases, ==→eq, ==→ne, ==-self,
}
use structio.Map.{Bucket, Table, vacant, is_empty, all_vacant, held, hash_key, indexed}
use structio.Map.Robin.{at_place, weight, tally, one, occupied, Robin}
use native.Mathlib.Nat.{mod-eq_of_lt}
use mathlib.Core.Path.{subst}
use mathlib.Core.Option.{some-injective}

pub weight_self : (b : Bucket) → is_empty b ≡ false → weight b.index b.hash b ≡ 1
weight_self b e = rw (e, ==-self b.index, ==-self b.hash) refl

pub weight-pos :
    (i h : ℕ) (b : Bucket) → 1 ≤ weight i h b → (is_empty b ≡ false) × (b.index ≡ i) × (b.hash ≡ h)
weight-pos i h b k = ground arith

-- Where a bucket of an entry stands.
pub tally-place :
    (i h : ℕ) (t : Table)
    → 1 ≤ tally i h t
    → (a : ℕ) × (a < length t)
      × (is_empty (at_place t a) ≡ false)
      × ((at_place t a).index ≡ i)
      × ((at_place t a).hash ≡ h)
tally-place i h [] k = absurd (omega arith)
tally-place i h (b ∷ t) k = elim (Bool-cases (weight i h b == 0)) [
  | inl e ↦
      let (a, l, k', x, y) = tally-place i h t (let z = ==→eq _ _ e in omega arith) in
      (suc a, omega arith, k', x, y)
  | inr e ↦
      let (k', x, y) = weight-pos i h b (let z = ==→ne _ _ e in omega arith) in
      (0, omega arith, k', x, y)
]

pub place-tally :
    (t : Table) (a : ℕ)
    → a < length t
    → is_empty (at_place t a) ≡ false
    → 1 ≤ tally (at_place t a).index (at_place t a).hash t
place-tally [] a h e = absurd (omega arith)
place-tally (b ∷ t) zero h e = omega (arith, weight_self b e)
place-tally (b ∷ t) (suc a) h e = omega (arith, place-tally t a (omega arith) e)

pub length-all_vacant : (n : ℕ) → length (all_vacant n) ≡ n
length-all_vacant zero = refl
length-all_vacant (suc n) = ap suc (length-all_vacant n)

pub at_place-all_vacant : (n i : ℕ) → at_place (all_vacant n) i ≡ vacant
at_place-all_vacant zero i = refl
at_place-all_vacant (suc n) zero = refl
at_place-all_vacant (suc n) (suc i) = at_place-all_vacant n i

pub tally-all_vacant : (i h n : ℕ) → tally i h (all_vacant n) ≡ 0
tally-all_vacant i h zero = refl
tally-all_vacant i h (suc n) = omega (arith, tally-all_vacant i h n)

pub occupied-all_vacant : (n : ℕ) → occupied (all_vacant n) ≡ 0
occupied-all_vacant zero = refl
occupied-all_vacant (suc n) = omega (arith, occupied-all_vacant n)

pub Robin-all_vacant : (m n : ℕ) → Robin m (all_vacant n)
Robin-all_vacant m n = record {
  step = λ a h. rw (at_place-all_vacant n a, at_place-all_vacant n _) (omega arith);
}

held-full : (b : Bucket) (t : Table) → is_empty b ≡ false → held (b ∷ t) ≡ b ∷ held t
held-full b t e = rw e refl

held-empty : (b : Bucket) (t : Table) → is_empty b ≡ true → held (b ∷ t) ≡ held t
held-empty b t e = rw e refl

weight-empty : (i h : ℕ) (b : Bucket) → is_empty b ≡ true → weight i h b ≡ 0
weight-empty i h b e = rw e refl

one-empty : (b : Bucket) → is_empty b ≡ true → one b ≡ 0
one-empty b e = rw e refl

pub one-full : (b : Bucket) → is_empty b ≡ false → one b ≡ 1
one-full b e = rw e refl

pub tally-held : (i h : ℕ) (t : Table) → tally i h (held t) ≡ tally i h t
tally-held i h [] = refl
tally-held i h (b ∷ t) = elim (Bool-cases (is_empty b)) [
  | inl e ↦
      ap (tally i h) (held-empty b t e) ∙ omega (arith, tally-held i h t, weight-empty i h b e)
  | inr e ↦ ap (tally i h) (held-full b t e) ∙ ap (λ (n : ℕ). weight i h b + n) (tally-held i h t)
]

pub occupied-held : (t : Table) → occupied (held t) ≡ occupied t
occupied-held [] = refl
occupied-held (b ∷ t) = elim (Bool-cases (is_empty b)) [
  | inl e ↦ ap occupied (held-empty b t e) ∙ omega (arith, occupied-held t, one-empty b e)
  | inr e ↦ ap occupied (held-full b t e) ∙ ap (λ (n : ℕ). one b + n) (occupied-held t)
]

pub length-held : (t : Table) → length (held t) ≡ occupied t
length-held [] = refl
length-held (b ∷ t) = elim (Bool-cases (is_empty b)) [
  | inl e ↦ ap length (held-empty b t e) ∙ omega (arith, length-held t, one-empty b e)
  | inr e ↦ ap length (held-full b t e) ∙ omega (arith, length-held t, one-full b e)
]

abbrev pub bucket_at : ℕ → List ℕ → Bucket
bucket_at n key = record { index = n % 2 ^ 32; hash = hash_key key }

pub bucket_at-full : (n : ℕ) (key : List ℕ) → n + 1 < 2 ^ 32 → is_empty (bucket_at n key) ≡ false
bucket_at-full n key h = ground arith

weight-bucket_at :
    (n : ℕ) (key : List ℕ) → n + 1 < 2 ^ 32 → weight n (hash_key key) (bucket_at n key) ≡ 1
weight-bucket_at n key h =
    ap (λ (i : ℕ). weight i (hash_key key) (bucket_at n key))
      (sym (mod-eq_of_lt {m = 2 ^ 32} (omega arith)))
    ∙ weight_self (bucket_at n key) (bucket_at-full n key h)

module _ {ℓ} {V : Type ℓ} where
  pub occupied-indexed :
      (n : ℕ) (es : List (List ℕ × V))
      → n + length es < 2 ^ 32
      → occupied (indexed n es) ≡ length es
  occupied-indexed n [] h = refl
  occupied-indexed n (e ∷ es) h = omega (
    arith,
    one-full (bucket_at n e.0) (bucket_at-full n e.0 (omega arith)),
    occupied-indexed (suc n) es (omega arith),
  )

  pub length-indexed : (n : ℕ) (es : List (List ℕ × V)) → length (indexed n es) ≡ length es
  length-indexed n [] = refl
  length-indexed n (e ∷ es) = ap suc (length-indexed (suc n) es)

  pub tally-indexed :
      (i n : ℕ) (es : List (List ℕ × V)) (e : List ℕ × V)
      → n + length es < 2 ^ 32
      → get_elem? es i ≡ some e
      → 1 ≤ tally (n + i) (hash_key e.0) (indexed n es)
  tally-indexed i n [] e k f = absurd (cc)
  tally-indexed zero n (x ∷ es) e k f =
      subst (λ (d : List ℕ × V). 1 ≤ tally (n + 0) (hash_key d.0) (indexed n (x ∷ es)))
        (some-injective x e f)
        (subst (λ (j : ℕ). 1 ≤ tally j (hash_key x.0) (indexed n (x ∷ es))) same
          (omega (arith, weight-bucket_at n x.0 (omega arith))))
    where
      same : n ≡ n + 0
      same = omega arith
  tally-indexed (suc i) n (x ∷ es) e k f =
      subst (λ (j : ℕ). 1 ≤ tally j (hash_key e.0) (indexed n (x ∷ es))) same
        (omega (arith, tally-indexed i (suc n) es e (omega arith) f))
    where
      same : suc n + i ≡ n + suc i
      same = omega arith

  pub indexed-tally :
      (i h n : ℕ) (es : List (List ℕ × V))
      → n + length es < 2 ^ 32
      → 1 ≤ tally i h (indexed n es)
      → (j : ℕ) × (i ≡ n + j) × (e : List ℕ × V) × (get_elem? es j ≡ some e) × (hash_key e.0 ≡ h)
  indexed-tally i h n [] k f = absurd (omega arith)
  indexed-tally i h n (x ∷ es) k f = elim (Bool-cases (weight i h (bucket_at n x.0) == 0)) [
    | inl z ↦
        let (j, y, e, g, w) =
          indexed-tally i h (suc n) es (omega arith) (let q = ==→eq _ _ z in omega arith) in
        (suc j, omega arith, e, g, w)
    | inr z ↦
        let (a, b, c) = weight-pos i h (bucket_at n x.0) (let q = ==→ne _ _ z in omega arith) in
        (0, omega (arith, b, mod-eq_of_lt {n = n} {m = 2 ^ 32} (omega arith)), x, refl, c)
  ]
