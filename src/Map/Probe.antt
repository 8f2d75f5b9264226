-- ===== src/Map/Probe.antt =====
-- Walks round a table of src/map.rs: the places of a hash, and how far a place is from them.
use structio.Prelude.{
  ℕ, zero, suc, ◌+◌, ◌-◌, ◌*◌, ◌%◌, ◌^◌, ◌≤◌, ◌<◌, ◌≡◌, ◌≢◌, sym, ap, ◌∙◌, arith, bit_and, leb,
  ◌==◌, if◌then◌else◌, length, inl, inr, Bool-cases, ==→eq, ==→ne, leb→le, leb→lt,
}
use structio.Prelude.Masks.{bit_and-mask, pow_add}
use structio.Prelude.Bits.{one_le_pow}
use structio.Map.{Table, mask, ideal, distance, next}
use native.Mathlib.Nat.{suc-mul, mod_self, mod-lt, mod-eq_of_lt, add-mul-mod_self_right}

-- A power of two of buckets that a `u32` addresses.
pub record Sized (m : ℕ) : Type 0 where
  pub log : ℕ
  pub size : m ≡ 2 ^ log
  pub low : 16 ≤ m
  pub high : m ≤ 2 ^ 31
  pub log-le : log ≤ 31

-- From the place `a` on to the place `b`, round a table of `m` buckets.
abbrev pub far : ℕ → ℕ → ℕ → ℕ
far m a b = if leb a b then b - a else b + m - a

abbrev pub succ_of : ℕ → ℕ → ℕ
succ_of m a = if (a + 1) == m then 0 else a + 1

module _ (m : ℕ) where
  pub far-lt : (a b : ℕ) → a < m → b < m → far m a b < m
  far-lt a b h k = ground arith

  pub far_self : (a : ℕ) → far m a a ≡ 0
  far_self a = ground arith

  pub far-eq : (a b : ℕ) → a < m → b < m → far m a b ≡ 0 → a ≡ b
  far-eq a b h k e = ground arith

  pub far-injective : (a b c : ℕ) → a < m → b < m → c < m → far m a b ≡ far m a c → b ≡ c
  far-injective a b c h k l e = ground arith

  pub succ_of-lt : (a : ℕ) → a < m → succ_of m a < m
  succ_of-lt a h = ground arith

  pub far-succ_of :
      (a b : ℕ) → a < m → b < m → far m a b + 1 < m → far m a (succ_of m b) ≡ far m a b + 1
  far-succ_of a b h k l = ground arith

  pub succ_of-far :
      (a b : ℕ) → a < m → b < m → far m a b ≢ 0 → far m (succ_of m a) b + 1 ≡ far m a b
  succ_of-far a b h k l = ground arith

  -- The other way round, behind a place that is not home.
  pub far-before :
      (a b : ℕ) → a < m → b < m → far m a (succ_of m b) ≢ 0 → far m a (succ_of m b) ≡ far m a b + 1
  far-before a b h k l = ground arith

  pub succ_of-ne : (a : ℕ) → a < m → 2 ≤ m → succ_of m a ≢ a
  succ_of-ne a h k e = ground arith

  pub succ_of-injective : (a b : ℕ) → a < m → b < m → succ_of m a ≡ succ_of m b → a ≡ b
  succ_of-injective a b h k e = ground arith

module _ {m : ℕ} (s : Sized m) where
  -- 2^32 is a multiple of the number of buckets.
  rounds_of : (c : ℕ) × (c * m + m ≡ 2 ^ 32)
  rounds_of = (
    2 ^ (32 - s.log) - 1,
    omega (arith, whole, sub_one (2 ^ (32 - s.log)) m (one_le_pow (32 - s.log))),
  )
    where
      together : 32 - s.log + s.log ≡ 32
      together = omega (arith, s.log-le)

      whole : 2 ^ (32 - s.log) * m ≡ 2 ^ 32
      whole =
          ap (λ (n : ℕ). 2 ^ (32 - s.log) * n) s.size
          ∙ sym (pow_add (32 - s.log) s.log)
          ∙ ap (λ (n : ℕ). 2 ^ n) together

      sub_one : (p n : ℕ) → 0 < p → (p - 1) * n + n ≡ p * n
      sub_one zero n h = absurd (omega arith)
      sub_one (suc p) n h = ap (λ (q : ℕ). q * n + n) less ∙ sym (suc-mul p n)
        where
          less : suc p - 1 ≡ p
          less = omega arith

  pub home-lt : (hash : ℕ) → hash % m < m
  home-lt hash = mod-lt hash {m = m} (omega (arith, s.low))

  -- The wrapping subtraction, under the mask.
  wrap_far : (a i : ℕ) → a < m → i < m → (a + 2 ^ 32 - i) % 2 ^ 32 % m ≡ far m i a
  wrap_far a i h k = elim (Bool-cases (leb i a)) [
    | inl e ↦ rw e (ap (λ (n : ℕ). n % m) (plain (leb→le _ _ e)) ∙ mod-eq_of_lt (omega arith))
    | inr e ↦ rw e (
        ap (λ (n : ℕ). n % m) (wrapped (leb→lt _ _ e))
        ∙ add-mul-mod_self_right (a + m - i) rounds_of.0 m
        ∙ mod-eq_of_lt (omega (arith, leb→lt _ _ e)))
  ]
    where
      plain : i ≤ a → (a + 2 ^ 32 - i) % 2 ^ 32 ≡ a - i
      plain l = omega (arith, s.high)

      wrapped : a < i → (a + 2 ^ 32 - i) % 2 ^ 32 ≡ a + m - i + rounds_of.0 * m
      wrapped l = omega (arith, s.high, rounds_of.1)

  wrap_next : (a : ℕ) → a < m → (a + 1) % 2 ^ 32 % m ≡ succ_of m a
  wrap_next a h =
      ap (λ (n : ℕ). n % m) (mod-eq_of_lt (omega (arith, s.high)))
      ∙ elim (Bool-cases ((a + 1) == m)) [
        | inl e ↦ rw e (ap (λ (n : ℕ). n % m) (==→eq _ _ e) ∙ mod_self m)
        | inr e ↦ rw e (mod-eq_of_lt (omega (arith, ==→ne _ _ e)))
      ]

  module _ (t : Table) (e : length t ≡ m) where
    masked : (x : ℕ) → bit_and x (mask t) ≡ x % m
    unfolding mask
    masked x =
        ap (λ (n : ℕ). bit_and x ((n - 1) % 2 ^ 32)) e
        ∙ ap (bit_and x) (mod-eq_of_lt (omega (arith, s.high, s.low)))
        ∙ ap (λ (n : ℕ). bit_and x (n - 1)) s.size
        ∙ bit_and-mask s.log x
        ∙ ap (λ (n : ℕ). x % n) (sym s.size)

    pub ideal_lem : (hash : ℕ) → ideal t hash ≡ hash % m
    unfolding ideal
    ideal_lem hash = masked hash

    pub next-succ_of : (a : ℕ) → a < m → next t a ≡ succ_of m a
    unfolding next
    next-succ_of a h = masked ((a + 1) % 2 ^ 32) ∙ wrap_next a h

    pub distance-far : (a hash : ℕ) → a < m → distance t a hash ≡ far m (hash % m) a
    unfolding distance
    distance-far a hash h =
        masked ((a + 2 ^ 32 - ideal t hash) % 2 ^ 32)
        ∙ ap (λ (i : ℕ). (a + 2 ^ 32 - i) % 2 ^ 32 % m) (ideal_lem hash)
        ∙ wrap_far a (hash % m) h (home-lt hash)
