-- ===== src/Beve/Skip/Moves.antt =====
-- `step` of src/beve/reader.rs and the cursor: the predicate of `Walk.Moves` for it.
use structio.Prelude.{ℕ, zero, suc, ◌≤◌, ◌≡◌, ap, arith, length, Bool, List}
use structio.Beve.Walk.{Walk}
use structio.Beve.Walk.Moves.{Moves, Keeps, Keeps-repeat, Keeps-out_of_fuel}
use structio.Beve.Walk.{Reader}
use structio.Beve.Reader.{Typed, bools, strings, fixed}
use structio.Beve.Reader.Moves.{
  preamble_keeps, Keeps-drop_bytes, Keeps-typed_head, Keeps-complex_head,
}
use structio.Beve.Skip.{
  skip_str, skip_form, skip_typed, skip_key, skip_members, skip_extension, skip_body, step_over,
  step, skip_value, validate_value,
}

module _ (utf8 : Bool) (is_utf8 : List ℕ → Bool) where
  pub Keeps-skip_str : Keeps (skip_str utf8 is_utf8)
  unfolding skip_str
  Keeps-skip_str = search preamble_keeps

  pub Keeps-skip_form : (form : Typed) → Keeps (skip_form utf8 is_utf8 form)
  unfolding skip_form
  Keeps-skip_form (bools n) = Keeps-drop_bytes _
  Keeps-skip_form (strings n) = Keeps-repeat n _ Keeps-skip_str
  Keeps-skip_form (fixed h n) = search preamble_keeps

  pub Keeps-skip_typed : (h : ℕ) → Keeps (skip_typed utf8 is_utf8 h)
  unfolding skip_typed
  Keeps-skip_typed h = search (preamble_keeps, Keeps-typed_head, Keeps-skip_form)

  pub Keeps-skip_key : (cat width : ℕ) → Keeps (skip_key utf8 is_utf8 cat width)
  unfolding skip_key
  Keeps-skip_key cat width = search (preamble_keeps, Keeps-skip_str)

  module _ (rec : Walk (Unit {0})) (keeps_rec : Keeps rec) where
    pub Keeps-skip_members : (cat width n : ℕ) → Keeps (skip_members utf8 is_utf8 rec cat width n)
    unfolding skip_members
    Keeps-skip_members cat width n = search (preamble_keeps, Keeps-skip_key)

    pub Keeps-skip_extension : (h : ℕ) → Keeps (skip_extension rec h)
    unfolding skip_extension
    Keeps-skip_extension h = search (preamble_keeps, Keeps-complex_head) depth 10

    pub Keeps-skip_body : (h : ℕ) → Keeps (skip_body utf8 is_utf8 rec h)
    unfolding skip_body
    Keeps-skip_body h =
        search
          (
            preamble_keeps, Keeps-skip_str, Keeps-skip_typed, Keeps-skip_members,
            Keeps-skip_extension,
          )
          depth 12

    pub Keeps-step_over : Keeps (step_over utf8 is_utf8 rec)
    unfolding step_over
    Keeps-step_over = search (preamble_keeps, Keeps-skip_body) depth 8

  pub Keeps-step : (fuel : ℕ) → Keeps (step utf8 is_utf8 fuel)
  unfolding step
  Keeps-step zero = Keeps-out_of_fuel
  Keeps-step (suc fuel) = Keeps-step_over (step utf8 is_utf8 fuel) (Keeps-step fuel)

-- What a caller reads off the cursor after a walk.
abbrev pub Kept : Reader → Reader → Type 0
Kept r s =
    (s.bytes ≡ r.bytes)
    × (s.depth ≡ r.depth)
    × (s.installed ≡ r.installed)
    × (r.pos ≤ s.pos)
    × (s.pos ≤ length r.bytes)

kept : {r s : Reader} → r.pos ≤ length r.bytes → Moves r s → Kept r s
kept h m = (
  m.same_bytes,
  m.same_depth,
  m.same_installed,
  m.forward,
  omega (arith, m.inside h, ap length m.same_bytes),
)

-- From a cursor inside the bytes, `skip_value` and `validate_value`, whether they succeed or
-- refuse, leave the bytes, the depth and the record of the installed header as they were, do not
-- move the cursor back, and leave it inside the bytes.
pub skip_value-moves :
    (is_utf8 : List ℕ → Bool) (r : Reader)
    → r.pos ≤ length r.bytes
    → Kept r (skip_value is_utf8 r).1 × Kept r (validate_value is_utf8 r).1
unfolding skip_value validate_value
skip_value-moves is_utf8 r h =
    (kept h ((Keeps-step _ is_utf8 _).at r), kept h ((Keeps-step _ is_utf8 _).at r))
