-- ===== src/Beve/Walk/Local.antt =====
-- A predicate of walks of src/beve/reader.rs: the same walk over the same bytes, with other bytes in
-- front of them and behind them, does the same, moved by the length of what is in front.
use structio.Prelude.{
  ℕ, zero, suc, ◌+◌, ◌^◌, ◌<◌, ◌≡◌, ◌≢◌, refl, Bool, true, false, if◌then◌else◌, Option, none, some,
  List, [], ◌++◌, length, ◌⊎◌,
}
use structio.Error.{ErrorCode, PResult, ok, err, stuck, unexpected_end}
use structio.Beve.Walk.Moves.{Moves, Keeps}
use structio.Beve.Walk.{Reader, Walk, pure, raise, lift, repeat, continue, out_of_fuel, ◌>>=◌}

abbrev pub shift_installed : ℕ → Option (ℕ × ℕ) → Option (ℕ × ℕ)
shift_installed n none = none
shift_installed n (some (at, h)) = some (n + at, h)

-- The cursor `r` where its bytes stand between `pre` and `more`.
abbrev pub embed : List ℕ → List ℕ → Reader → Reader
embed pre more r = record {
  bytes = pre ++ (r.bytes ++ more);
  pos = length pre + r.pos;
  depth = r.depth;
  implied = r.implied;
  installed = shift_installed (length pre) r.installed;
}

-- Whether a refusal is the same with `more` behind: all are but a short read.
abbrev pub Final : ErrorCode → List ℕ → Type 0
Final e more = (e ≢ unexpected_end) ⊎ (more ≡ [])

abbrev pub Carried {ℓ} :
    {A : Type ℓ} → List ℕ → List ℕ → PResult A × Reader → PResult A × Reader → Type ℓ
Carried pre more (ok a, s) q = q ≡ (ok a, embed pre more s)
Carried pre more (err e, s) q = Final e more → q ≡ (err e, embed pre more s)
Carried pre more (stuck, s) q = q ≡ (stuck, embed pre more s)

-- The bytes up to the end of `r`'s own are no more than an address can count.
abbrev pub Fits : List ℕ → Reader → Type 0
Fits pre r = length pre + length r.bytes < 2 ^ 64

pub record Local {ℓ} {A : Type ℓ} (m : Walk A) : Type ℓ where
  pub at :
      (pre more : List ℕ) (r : Reader) → Fits pre r → Carried pre more (m r) (m (embed pre more r))

module _ {ℓ} {A : Type ℓ} where
  pub Local-pure : (a : A) → Local (pure a)
  unfolding pure
  Local-pure a = record { at = λ pre more r _. refl }

  pub Local-raise : (e : ErrorCode) → Local (raise {A = A} e)
  unfolding raise
  Local-raise e = record { at = λ pre more r _ _. refl }

  pub Local-lift : (x : PResult A) → Local (lift x)
  unfolding lift
  Local-lift (ok a) = record { at = λ pre more r _. refl }
  Local-lift (err e) = record { at = λ pre more r _ _. refl }
  Local-lift stuck = record { at = λ pre more r _. refl }

  pub Local-out_of_fuel : Local (out_of_fuel {A = A})
  unfolding out_of_fuel
  Local-out_of_fuel = record { at = λ pre more r _. refl }

  pub Local-if : (b : Bool) (m n : Walk A) → Local m → Local n → Local (if b then m else n)
  Local-if true m n h k = h
  Local-if false m n h k = k

module _ {ℓ κ} {A : Type ℓ} {B : Type κ} (pre more : List ℕ) (f : A → Walk B)
    (kf : (a : A) → Local (f a)) where
  carried_continue :
      (p q : PResult A × Reader)
      → Fits pre p.1
      → Carried pre more p q
      → Carried pre more (continue p.0 f p.1) (continue q.0 f q.1)
  carried_continue (ok a, s) q fits h = rw h ((kf a).at pre more s fits)
  carried_continue (err e, s) q fits h = λ fin. rw (h fin)
  carried_continue (stuck, s) q fits h = rw h

Fits-Moves : (pre : List ℕ) {r s : Reader} → Fits pre r → Moves r s → Fits pre s
Fits-Moves pre h m = rw m.same_bytes h

module _ {ℓ κ} {A : Type ℓ} {B : Type κ} where
  pub Local-bind :
      (m : Walk A) (f : A → Walk B) → Keeps m → Local m → ((a : A) → Local (f a)) → Local (m >>= f)
  unfolding ◌>>=◌
  Local-bind m f keeps km kf = record {
    at = λ pre more r fits.
        carried_continue pre more f kf (m r) (m (embed pre more r))
          (Fits-Moves pre fits (keeps.at r)) (km.at pre more r fits);
  }

pub Local-repeat :
    (n : ℕ) (body : Walk (Unit {0})) → Keeps body → Local body → Local (repeat n body)
unfolding repeat
Local-repeat zero body keeps k = Local-pure tt
Local-repeat (suc n) body keeps k = Local-bind _ _ keeps k (λ _. Local-repeat n body keeps k)

pub ruleset local_rules =
    (Local-pure, Local-raise, Local-lift, Local-out_of_fuel, Local-if, Local-bind, Local-repeat)
