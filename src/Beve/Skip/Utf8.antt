-- ===== src/Beve/Skip/Utf8.antt =====
-- `validate_value` of src/beve/reader.rs against `skip_value`.
use structio.Prelude.{
  ℕ, zero, suc, ◌≡◌, refl, Bool, true, false, not, if◌then◌else◌, List, ◌⊎◌, inl, inr,
}
use structio.Error.{PResult, ok, err, stuck, invalid_utf8}
use structio.Beve.Walk.{Walk, Reader, continue, pure, raise, repeat, ◌>>=◌}
use structio.Beve.Reader.{Typed, bools, strings, fixed, take, count, enter, leaving, nested}
use structio.Beve.Skip.{
  skip_str, skip_form, skip_typed, skip_key, skip_members, skip_extension, skip_body, step_over,
  step, step_fuel, skip_value, validate_value,
}

-- `m`, the stricter walk, does what `n` does, or refuses a string that is not UTF-8.
pub record Refines {ℓ} {A : Type ℓ} (m n : Walk A) : Type ℓ where
  pub at : (r : Reader) → (m r ≡ n r) ⊎ ((m r).0 ≡ err invalid_utf8)

module _ {ℓ} {A : Type ℓ} where
  Refines-refl : (m : Walk A) → Refines m m
  Refines-refl m = record { at = λ r. inl refl }

  Refines-if :
      (b : Bool) (m n m' n' : Walk A)
      → Refines m m'
      → Refines n n'
      → Refines (if b then m else n) (if b then m' else n')
  Refines-if true m n m' n' h k = h
  Refines-if false m n m' n' h k = k

module _ {ℓ κ} {A : Type ℓ} {B : Type κ} where
  Refines-continue :
      (x : PResult A) (f g : A → Walk B) (s : Reader)
      → ((a : A) → Refines (f a) (g a))
      → ((continue x f s ≡ continue x g s) ⊎ ((continue x f s).0 ≡ err invalid_utf8))
  Refines-continue (ok a) f g s h = (h a).at s
  Refines-continue (err e) f g s h = inl refl
  Refines-continue stuck f g s h = inl refl

  Refines-bind :
      (m n : Walk A) (f g : A → Walk B)
      → Refines m n
      → ((a : A) → Refines (f a) (g a))
      → Refines (m >>= f) (n >>= g)
  unfolding ◌>>=◌
  Refines-bind m n f g h k = record { at = λ r. go r (h.at r) }
    where
      go :
          (r : Reader)
          → ((m r ≡ n r) ⊎ ((m r).0 ≡ err invalid_utf8))
          → ((continue (m r).0 f (m r).1 ≡ continue (n r).0 g (n r).1)
              ⊎ ((continue (m r).0 f (m r).1).0 ≡ err invalid_utf8))
      go r (inl e) = rw (← e) (Refines-continue (m r).0 f g (m r).1 k)
      go r (inr e) = inr (rw e)

Refines-repeat : (n : ℕ) (b c : Walk (Unit {0})) → Refines b c → Refines (repeat n b) (repeat n c)
unfolding repeat
Refines-repeat zero b c h = Refines-refl _
Refines-repeat (suc n) b c h = Refines-bind _ _ _ _ h (λ _. Refines-repeat n b c h)

Refines-leaving {ℓ} : {A : Type ℓ} (b c : Walk A) → Refines b c → Refines (leaving b) (leaving c)
unfolding leaving
Refines-leaving b c h = record { at = λ r. go r (h.at r) }
  where
    go :
        (r : Reader)
        → ((b r ≡ c r) ⊎ ((b r).0 ≡ err invalid_utf8))
        → ((leaving b r ≡ leaving c r) ⊎ ((leaving b r).0 ≡ err invalid_utf8))
    go r (inl e) = inl (rw e)
    go r (inr e) = inr e

Refines-nested {ℓ} : {A : Type ℓ} (b c : Walk A) → Refines b c → Refines (nested b) (nested c)
unfolding nested
Refines-nested b c h = Refines-bind _ _ _ _ (Refines-refl enter) (λ _. Refines-leaving b c h)

ruleset refines_rules = (Refines-refl, Refines-if, Refines-bind, Refines-repeat, Refines-nested)

module _ (is_utf8 : List ℕ → Bool) where
  Refines-skip_str : Refines (skip_str true is_utf8) (skip_str false is_utf8)
  unfolding skip_str
  Refines-skip_str =
      Refines-bind _ _ _ _ (Refines-refl count)
        λ n. Refines-bind _ _ _ _ (Refines-refl (take n)) λ bytes. text (is_utf8 bytes)
    where
      text :
          (b : Bool)
          → Refines {0} {A = Unit {0}} (if not b then raise invalid_utf8 else pure tt) (pure tt)
      text true = Refines-refl _
      text false = record { at = λ r. inr (unfold raise in refl) }

  Refines-skip_form :
      (form : Typed) → Refines (skip_form true is_utf8 form) (skip_form false is_utf8 form)
  unfolding skip_form
  Refines-skip_form (bools n) = Refines-refl _
  Refines-skip_form (strings n) = Refines-repeat n _ _ Refines-skip_str
  Refines-skip_form (fixed h n) = Refines-refl _

  Refines-skip_typed : (h : ℕ) → Refines (skip_typed true is_utf8 h) (skip_typed false is_utf8 h)
  unfolding skip_typed
  Refines-skip_typed h = search (refines_rules, Refines-skip_form)

  Refines-skip_key : (c w : ℕ) → Refines (skip_key true is_utf8 c w) (skip_key false is_utf8 c w)
  unfolding skip_key
  Refines-skip_key c w = search (refines_rules, Refines-skip_str)

  module _ (m n : Walk (Unit {0})) (h : Refines m n) where
    Refines-skip_members :
        (c w k : ℕ)
        → Refines (skip_members true is_utf8 m c w k) (skip_members false is_utf8 n c w k)
    unfolding skip_members
    Refines-skip_members c w k = search (refines_rules, Refines-skip_key)

    Refines-skip_extension : (b : ℕ) → Refines (skip_extension m b) (skip_extension n b)
    unfolding skip_extension
    Refines-skip_extension b = search refines_rules depth 10

    Refines-skip_body : (b : ℕ) → Refines (skip_body true is_utf8 m b) (skip_body false is_utf8 n b)
    unfolding skip_body
    Refines-skip_body b =
        search
          (
            refines_rules, Refines-skip_str, Refines-skip_typed, Refines-skip_members,
            Refines-skip_extension,
          )
          depth 14

    Refines-step_over : Refines (step_over true is_utf8 m) (step_over false is_utf8 n)
    unfolding step_over
    Refines-step_over = search (refines_rules, Refines-skip_body) depth 8

  Refines-step : (fuel : ℕ) → Refines (step true is_utf8 fuel) (step false is_utf8 fuel)
  unfolding step
  Refines-step zero = Refines-refl _
  Refines-step (suc fuel) = Refines-step_over _ _ (Refines-step fuel)

-- On every input `validate_value` answers what `skip_value` answers and leaves the cursor as it
-- leaves it, or it answers InvalidUtf8.
pub validate_value-Refines :
    (is_utf8 : List ℕ → Bool) (r : Reader)
    → (validate_value is_utf8 r ≡ skip_value is_utf8 r)
      ⊎ ((validate_value is_utf8 r).0 ≡ err invalid_utf8)
unfolding validate_value skip_value
validate_value-Refines is_utf8 r = (Refines-step is_utf8 step_fuel).at r
