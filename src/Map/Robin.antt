-- ===== src/Map/Robin.antt =====
-- The probe chains of src/map.rs: no bucket is more than a step further from home than the bucket
-- in front of it.
use structio.Prelude.{
  ℕ, zero, suc, ◌+◌, ◌%◌, ◌≤◌, ◌<◌, ◌≡◌, ◌≢◌, refl, sym, ap, arith, true, false, ◌&&◌, some, List,
  [], ◌∷◌, ◌==◌, if◌then◌else◌, length, get_elem?, set, inl, inr, Bool-cases, ==→eq, ==→ne,
}
use structio.Map.{Bucket, Table, vacant, is_empty}
use structio.Map.Probe.{far, succ_of, succ_of-ne}
use mathlib.Core.Path.{subst}

-- The bucket at a place, or a vacant one past the end.
abbrev pub at_place : Table → ℕ → Bucket
at_place [] i = vacant
at_place (b ∷ t) zero = b
at_place (b ∷ t) (suc i) = at_place t i

pub get_elem?-at_place : (t : Table) (i : ℕ) → i < length t → get_elem? t i ≡ some (at_place t i)
get_elem?-at_place [] i h = absurd (omega arith)
get_elem?-at_place (b ∷ t) zero h = refl
get_elem?-at_place (b ∷ t) (suc i) h = get_elem?-at_place t i (omega arith)

pub length-set : (t : Table) (i : ℕ) (b : Bucket) → length (set t i b) ≡ length t
length-set [] i b = refl
length-set (a ∷ t) zero b = refl
length-set (a ∷ t) (suc i) b = ap suc (length-set t i b)

pub at_place-set : (t : Table) (i : ℕ) (b : Bucket) → i < length t → at_place (set t i b) i ≡ b
at_place-set [] i b h = absurd (omega arith)
at_place-set (a ∷ t) zero b h = refl
at_place-set (a ∷ t) (suc i) b h = at_place-set t i b (omega arith)

pub at_place-set_other :
    (t : Table) (i j : ℕ) (b : Bucket) → i ≢ j → at_place (set t i b) j ≡ at_place t j
at_place-set_other [] i j b h = refl
at_place-set_other (a ∷ t) zero zero b h = absurd (h refl)
at_place-set_other (a ∷ t) zero (suc j) b h = refl
at_place-set_other (a ∷ t) (suc i) zero b h = refl
at_place-set_other (a ∷ t) (suc i) (suc j) b h = at_place-set_other t i j b (λ e. h (ap suc e))

-- Whether the bucket is of the entry at `i`, whose hash is `h`.
abbrev pub weight : ℕ → ℕ → Bucket → ℕ
weight i h b = if is_empty b then 0 else if (b.index == i) && (b.hash == h) then 1 else 0

-- How many buckets are of the entry at `i`, whose hash is `h`.
abbrev pub tally : ℕ → ℕ → List Bucket → ℕ
tally i h [] = 0
tally i h (b ∷ t) = weight i h b + tally i h t

abbrev pub one : Bucket → ℕ
one b = if is_empty b then 0 else 1

-- How many buckets hold something.
abbrev pub occupied : List Bucket → ℕ
occupied [] = 0
occupied (b ∷ t) = one b + occupied t

pub tally-set :
    (i h : ℕ) (t : Table) (a : ℕ) (b : Bucket)
    → a < length t
    → tally i h (set t a b) + weight i h (at_place t a) ≡ tally i h t + weight i h b
tally-set i h [] a b k = absurd (omega arith)
tally-set i h (c ∷ t) zero b k = omega arith
tally-set i h (c ∷ t) (suc a) b k = omega (arith, tally-set i h t a b (omega arith))

pub occupied-set :
    (t : Table) (a : ℕ) (b : Bucket)
    → a < length t
    → occupied (set t a b) + one (at_place t a) ≡ occupied t + one b
occupied-set [] a b k = absurd (omega arith)
occupied-set (c ∷ t) zero b k = omega arith
occupied-set (c ∷ t) (suc a) b k = omega (arith, occupied-set t a b (omega arith))

-- A table that is not full has a vacant place.
pub vacancy :
    (t : Table)
    → occupied t < length t
    → (v : ℕ) × (v < length t) × (is_empty (at_place t v) ≡ true)
vacancy [] h = absurd (omega arith)
vacancy (b ∷ t) h = elim (Bool-cases (is_empty b)) [
  | inl e ↦ (0, omega arith, e)
  | inr e ↦ let (v, k, f) = vacancy t (still e) in (suc v, omega arith, f)
]
  where
    still : is_empty b ≡ false → occupied t < length t
    still e = ground arith

module _ (m : ℕ) where
  -- Nothing for a vacant bucket, and one more than the way from home for another.
  abbrev pub level_of : ℕ → Bucket → ℕ
  level_of a b = if is_empty b then 0 else suc (far m (b.hash % m) a)

  abbrev pub level : Table → ℕ → ℕ
  level t a = level_of a (at_place t a)

  pub record Robin (t : Table) : Type 0 where
    pub step : (a : ℕ) → a < m → level t (succ_of m a) ≤ level t a + 1

  -- A bucket put at a place that is no further from home than the place in front allows, and at
  -- least as far as what was there.
  pub Robin-set :
      (t : Table) (at_ : ℕ) (b : Bucket)
      → length t ≡ m
      → 2 ≤ m
      → at_ < m
      → Robin t
      → ((a : ℕ) → a < m → succ_of m a ≡ at_ → level_of at_ b ≤ level t a + 1)
      → level t (succ_of m at_) ≤ level_of at_ b + 1
      → Robin (set t at_ b)
  Robin-set t at_ b e two k r before after = record {
    step = λ a h. elim (Bool-cases (at_ == a)) [
      | inl x ↦ here a h (==→eq _ _ x)
      | inr x ↦ elim (Bool-cases (at_ == succ_of m a)) [
        | inl y ↦ behind a h (==→ne _ _ x) (==→eq _ _ y)
        | inr y ↦ elsewhere a h (==→ne _ _ x) (==→ne _ _ y)
      ]
    ];
  }
    where
      put : level_of at_ (at_place (set t at_ b) at_) ≡ level_of at_ b
      put = ap (level_of at_) (at_place-set t at_ b (omega arith))

      kept : (a : ℕ) → at_ ≢ a → level (set t at_ b) a ≡ level t a
      kept a h = ap (level_of a) (at_place-set_other t at_ a b h)

      here :
          (a : ℕ) → a < m → at_ ≡ a → level (set t at_ b) (succ_of m a) ≤ level (set t at_ b) a + 1
      here a h x =
          subst (λ (c : ℕ). level (set t at_ b) (succ_of m c) ≤ level (set t at_ b) c + 1) x
            (omega (arith, put, kept (succ_of m at_) (λ y. succ_of-ne m at_ k two (sym y)), after))

      behind :
          (a : ℕ)
          → a < m
          → at_ ≢ a
          → at_ ≡ succ_of m a
          → level (set t at_ b) (succ_of m a) ≤ level (set t at_ b) a + 1
      behind a h x y =
          subst (λ (c : ℕ). level (set t at_ b) c ≤ level (set t at_ b) a + 1) y
            (omega (arith, put, kept a x, before a h (sym y)))

      elsewhere :
          (a : ℕ)
          → a < m
          → at_ ≢ a
          → at_ ≢ succ_of m a
          → level (set t at_ b) (succ_of m a) ≤ level (set t at_ b) a + 1
      elsewhere a h x y = omega (arith, kept a x, kept (succ_of m a) y, r.step a h)
