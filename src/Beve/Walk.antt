-- ===== src/Beve/Walk.antt =====
-- src/beve/reader.rs: the cursor that every walk of a document moves, and how walks are composed.
-- `error_key` and `deferred`, which only reads into a type consult, are left out.
pub mod Moves
pub mod Local
use structio.Prelude.{ℕ, List, Option, none}
use structio.Error.{ErrorCode, PResult, ok, err, stuck}

-- `Reader`: `installed` is where the value with an implied header begins, with that header.
pub record Reader : Type 0 where
  pub bytes : List ℕ
  pub pos : ℕ
  pub depth : ℕ
  pub implied : Option ℕ
  pub installed : Option (ℕ × ℕ)

-- `Reader::new`
abbrev pub new : List ℕ → Reader
new bytes = record { bytes = bytes; pos = 0; depth = 0; implied = none; installed = none }

-- A method with `&mut self`: the cursor comes back beside a refusal too.
abbrev pub Walk {ℓ} : Type ℓ → Type ℓ
Walk A = Reader → PResult A × Reader

module _ {ℓ} {A : Type ℓ} where
  unfoldable pub pure : A → Walk A
  pure a r = (ok a, r)

  unfoldable pub raise : ErrorCode → Walk A
  raise e r = (err e, r)

  -- Code that does not touch the cursor, under `?`.
  unfoldable pub lift : PResult A → Walk A
  lift x r = (x, r)

  unfoldable pub gets : (Reader → A) → Walk A
  gets f r = (ok (f r), r)

  -- The walk on fuel has run out of it.
  unfoldable pub out_of_fuel : Walk A
  out_of_fuel r = (stuck, r)

unfoldable pub modify : (Reader → Reader) → Walk (Unit {0})
modify f r = (ok tt, f r)

abbrev pub continue {ℓ κ} :
    {A : Type ℓ} {B : Type κ} → PResult A → (A → Walk B) → Reader → PResult B × Reader
continue (ok a) f r = f a r
continue (err e) f r = (err e, r)
continue stuck f r = (stuck, r)

-- `e?` and what follows it.
infixl 5 ◌>>=◌ ◌>>◌
unfoldable pub ◌>>=◌ {ℓ κ} : {A : Type ℓ} {B : Type κ} → Walk A → (A → Walk B) → Walk B
◌>>=◌ m f r = let (x, r') = m r in continue x f r'

abbrev pub ◌>>◌ {ℓ κ} : {A : Type ℓ} {B : Type κ} → Walk A → Walk B → Walk B
m >> k = m >>= λ _. k

-- `for _ in 0..n { body?; }`
unfoldable pub repeat : ℕ → Walk (Unit {0}) → Walk (Unit {0})
repeat ℕ.zero body = pure tt
repeat (ℕ.suc n) body = body >>= λ _. repeat n body
