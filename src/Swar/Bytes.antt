-- ===== src/Swar/Bytes.antt =====
-- The binary operations on words, byte by byte.
use structio.Prelude.{
  ℕ, zero, suc, ◌+◌, ◌*◌, ◌/◌, ◌%◌, ◌^◌, ◌<◌, ◌≡◌, refl, sym, ap, ◌∙◌, arith, bit_and, bit_or,
  bit_xor, max, min,
}
use structio.Prelude.Bits.{bit_or_halves, zero-bit_or, double_shift}
use structio.Prelude.Masks.{bit_and_halves, zero-bit_and, bit_xor_halves, zero-bit_xor}
use Prim.Native.Nat.{differ}
use native.Mathlib.Nat.{pow-suc}

-- An operation on binary digits.
module _ (op : ℕ → ℕ → ℕ) (digit : ℕ → ℕ → ℕ)
    (halves : (a b : ℕ) → op a b ≡ op (a / 2) (b / 2) * 2 + digit (a % 2) (b % 2))
    (nothing : op 0 0 ≡ 0) (binary : (a b : ℕ) → a < 2 → b < 2 → digit a b < 2) where
  op-lt : (k a b : ℕ) → a < 2 ^ k → b < 2 ^ k → op a b < 2 ^ k
  op-lt zero a b h l = rw (none_left a h, none_left b l, nothing) (omega arith)
    where
      none_left : (a : ℕ) → a < 2 ^ 0 → a ≡ 0
      none_left a h = omega arith
  op-lt (suc k) a b h l = omega (
    arith,
    halves a b,
    op-lt k (a / 2) (b / 2) (omega (arith, pow-suc 2 k)) (omega (arith, pow-suc 2 k)),
    binary (a % 2) (b % 2) (omega arith) (omega arith),
    pow-suc 2 k,
  )

  op-join :
      (k a b x y : ℕ)
      → a < 2 ^ k
      → b < 2 ^ k
      → op (a + x * 2 ^ k) (b + y * 2 ^ k) ≡ op a b + op x y * 2 ^ k
  op-join zero a b x y h l = cc2 (alone a x h) (alone b y l) (omega (arith, start))
    where
      alone : (a x : ℕ) → a < 2 ^ 0 → a + x * 2 ^ 0 ≡ x
      alone a x h = omega arith

      start : op a b ≡ 0
      start = ap (λ (n : ℕ). op n b) (none_left a h) ∙ ap (op 0) (none_left b l) ∙ nothing
        where
          none_left : (a : ℕ) → a < 2 ^ 0 → a ≡ 0
          none_left a h = omega arith

      cc2 : {u v r : ℕ} → u ≡ x → v ≡ y → op x y ≡ r → op u v ≡ r
      cc2 p q e = cc
  op-join (suc k) a b x y h l =
      halves (a + x * 2 ^ suc k) (b + y * 2 ^ suc k)
      ∙ both (half a x) (half b y) (parity a x) (parity b y)
      ∙ omega (
        arith,
        op-join k (a / 2) (b / 2) x y (omega (arith, pow-suc 2 k)) (omega (arith, pow-suc 2 k)),
        halves a b,
        double_shift (op x y) k,
      )
    where
      half : (a x : ℕ) → (a + x * 2 ^ suc k) / 2 ≡ a / 2 + x * 2 ^ k
      half a x = omega (arith, double_shift x k)

      parity : (a x : ℕ) → (a + x * 2 ^ suc k) % 2 ≡ a % 2
      parity a x = omega (arith, double_shift x k)

      both :
          {u u' v v' p p' q q' : ℕ}
          → u ≡ u'
          → v ≡ v'
          → p ≡ p'
          → q ≡ q'
          → op u v * 2 + digit p q ≡ op u' v' * 2 + digit p' q'
      both e f g j = cc

min-binary : (a b : ℕ) → a < 2 → b < 2 → min a b < 2
min-binary a b h l = omega arith

max-binary : (a b : ℕ) → a < 2 → b < 2 → max a b < 2
max-binary a b h l = omega arith

differ-binary : (a b : ℕ) → a < 2 → b < 2 → differ a b < 2
differ-binary zero b h l = l
differ-binary (suc zero) zero h l = omega arith
differ-binary (suc zero) (suc zero) h l = omega arith
differ-binary (suc zero) (suc (suc b)) h l = absurd (omega arith)
differ-binary (suc (suc a)) b h l = absurd (omega arith)

-- The low byte apart from the rest.
abbrev pub Apart : (ℕ → ℕ → ℕ) → Type 0
Apart op =
    (a b x y : ℕ) → a < 256 → b < 256 → op (a + 256 * x) (b + 256 * y) ≡ op a b + 256 * op x y

module _ (op : ℕ → ℕ → ℕ) where
  Apart-join :
      ((a b x y : ℕ)
        → a < 2 ^ 8
        → b < 2 ^ 8
        → op (a + x * 2 ^ 8) (b + y * 2 ^ 8) ≡ op a b + op x y * 2 ^ 8)
      → Apart op
  Apart-join f a b x y h l =
      two_args (swap a x) (swap b y) ∙ f a b x y h l ∙ sym (swap (op a b) (op x y))
    where
      swap : (a x : ℕ) → a + 256 * x ≡ a + x * 2 ^ 8
      swap a x = omega arith

      two_args : {u u' v v' : ℕ} → u ≡ u' → v ≡ v' → op u v ≡ op u' v'
      two_args p q = cc

pub Apart-bit_and : Apart bit_and
Apart-bit_and =
    Apart-join bit_and (op-join bit_and min bit_and_halves (zero-bit_and 0) min-binary 8)

pub Apart-bit_or : Apart bit_or
Apart-bit_or = Apart-join bit_or (op-join bit_or max bit_or_halves (zero-bit_or 0) max-binary 8)

pub Apart-bit_xor : Apart bit_xor
Apart-bit_xor =
    Apart-join bit_xor (op-join bit_xor differ bit_xor_halves (zero-bit_xor 0) differ-binary 8)

pub bit_and-join :
    (k a b x y : ℕ)
    → a < 2 ^ k
    → b < 2 ^ k
    → bit_and (a + x * 2 ^ k) (b + y * 2 ^ k) ≡ bit_and a b + bit_and x y * 2 ^ k
bit_and-join = op-join bit_and min bit_and_halves (zero-bit_and 0) min-binary

pub bit_xor-lt : (k a b : ℕ) → a < 2 ^ k → b < 2 ^ k → bit_xor a b < 2 ^ k
bit_xor-lt = op-lt bit_xor differ bit_xor_halves (zero-bit_xor 0) differ-binary

pub bit_or-lt : (k a b : ℕ) → a < 2 ^ k → b < 2 ^ k → bit_or a b < 2 ^ k
bit_or-lt = op-lt bit_or max bit_or_halves (zero-bit_or 0) max-binary

pub bit_and-lt : (k a b : ℕ) → a < 2 ^ k → b < 2 ^ k → bit_and a b < 2 ^ k
bit_and-lt = op-lt bit_and min bit_and_halves (zero-bit_and 0) min-binary

differ-eq : (a b : ℕ) → differ a b ≡ 0 → a ≡ b
differ-eq zero zero e = refl
differ-eq zero (suc b) e = absurd (omega arith)
differ-eq (suc a) zero e = absurd (omega arith)
differ-eq (suc a) (suc b) e = ap suc (differ-eq a b e)

differ_self : (a : ℕ) → differ a a ≡ 0
differ_self zero = refl
differ_self (suc a) = differ_self a

pub bit_xor_self : (k a : ℕ) → a < 2 ^ k → bit_xor a a ≡ 0
bit_xor_self zero a h =
    ap (λ (n : ℕ). bit_xor n a) none_left ∙ ap (bit_xor 0) none_left ∙ zero-bit_xor 0
  where
    none_left : a ≡ 0
    none_left = omega arith
bit_xor_self (suc k) a h = omega (
  arith,
  bit_xor_halves a a,
  bit_xor_self k (a / 2) (omega (arith, pow-suc 2 k)),
  differ_self (a % 2),
)

pub bit_xor-eq : (k a b : ℕ) → a < 2 ^ k → b < 2 ^ k → bit_xor a b ≡ 0 → a ≡ b
bit_xor-eq zero a b h l e = omega arith
bit_xor-eq (suc k) a b h l e =
    let split = bit_xor_halves a b in
    omega (
      arith,
      bit_xor-eq k (a / 2) (b / 2) (omega (arith, pow-suc 2 k)) (omega (arith, pow-suc 2 k))
          (omega (arith, split, e)),
      differ-eq (a % 2) (b % 2) (omega (arith, split, e)),
    )
