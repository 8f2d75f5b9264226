-- ===== src/Beve/Walk/Moves.antt =====
-- A predicate of walks of src/beve/reader.rs: the cursor moves forward inside the bytes, and the bytes,
-- the depth and the record of the installed header stay as they were.
use structio.Prelude.{
  ℕ, zero, suc, ◌≤◌, ◌≡◌, refl, ◌∙◌, arith, Bool, true, false, if◌then◌else◌, length,
}
use structio.Error.{ErrorCode, PResult, ok, err, stuck}
use structio.Beve.Walk.{Reader, Walk, pure, raise, lift, gets, out_of_fuel, repeat, ◌>>=◌, continue}

pub record Moves (r s : Reader) : Type 0 where
  pub same_bytes : s.bytes ≡ r.bytes
  pub same_depth : s.depth ≡ r.depth
  pub same_installed : s.installed ≡ r.installed
  pub forward : r.pos ≤ s.pos
  pub inside : r.pos ≤ length r.bytes → s.pos ≤ length s.bytes

pub Moves-refl : (r : Reader) → Moves r r
Moves-refl r = record {
  same_bytes = refl;
  same_depth = refl;
  same_installed = refl;
  forward = omega arith;
  inside = λ h. h;
}

pub Moves-trans : {r s t : Reader} → Moves r s → Moves s t → Moves r t
Moves-trans a b = record {
  same_bytes = b.same_bytes ∙ a.same_bytes;
  same_depth = b.same_depth ∙ a.same_depth;
  same_installed = b.same_installed ∙ a.same_installed;
  forward = omega (arith, a.forward, b.forward);
  inside = λ h. b.inside (a.inside h);
}

pub record Keeps {ℓ} {A : Type ℓ} (m : Walk A) : Type 0 where
  pub at : (r : Reader) → Moves r (m r).1

module _ {ℓ} {A : Type ℓ} where
  pub Keeps-pure : (a : A) → Keeps (pure a)
  unfolding pure
  Keeps-pure a = record { at = Moves-refl }

  pub Keeps-raise : (e : ErrorCode) → Keeps (raise {A = A} e)
  unfolding raise
  Keeps-raise e = record { at = Moves-refl }

  pub Keeps-lift : (x : PResult A) → Keeps (lift x)
  unfolding lift
  Keeps-lift x = record { at = Moves-refl }

  pub Keeps-gets : (f : Reader → A) → Keeps (gets f)
  unfolding gets
  Keeps-gets f = record { at = Moves-refl }

  pub Keeps-out_of_fuel : Keeps (out_of_fuel {A = A})
  unfolding out_of_fuel
  Keeps-out_of_fuel = record { at = Moves-refl }

  pub Keeps-if : (b : Bool) (m n : Walk A) → Keeps m → Keeps n → Keeps (if b then m else n)
  Keeps-if true m n km kn = km
  Keeps-if false m n km kn = kn

module _ {ℓ κ} {A : Type ℓ} {B : Type κ} where
  Moves-continue :
      (x : PResult A) (f : A → Walk B) (r s : Reader)
      → ((a : A) → Keeps (f a))
      → Moves r s
      → Moves r (continue x f s).1
  Moves-continue (ok a) f r s kf h = Moves-trans h ((kf a).at s)
  Moves-continue (err e) f r s kf h = h
  Moves-continue stuck f r s kf h = h

  pub Keeps-bind :
      (m : Walk A) (f : A → Walk B) → Keeps m → ((a : A) → Keeps (f a)) → Keeps (m >>= f)
  unfolding ◌>>=◌
  Keeps-bind m f km kf = record { at = λ r. Moves-continue (m r).0 f r (m r).1 kf (km.at r) }

pub ruleset basic_keeps =
    (Keeps-pure, Keeps-raise, Keeps-lift, Keeps-gets, Keeps-out_of_fuel, Keeps-if, Keeps-bind)

pub Keeps-repeat : (n : ℕ) (body : Walk (Unit {0})) → Keeps body → Keeps (repeat n body)
unfolding repeat
Keeps-repeat zero body k = Keeps-pure tt
Keeps-repeat (suc n) body k = Keeps-bind _ _ k (λ _. Keeps-repeat n body k)
