-- ===== src/Beve/Skip/Total.antt =====
-- `step` of src/beve/reader.rs and its fuel: every recursive call is a level deeper, and a level past
-- `max_depth` is refused.
use structio.Prelude.{ℕ, zero, suc, ◌≤◌, ◌≢◌, arith, Bool, List, Option, none, some}
use structio.Error.{stuck}
use structio.Beve.Walk.{Walk, Reader}
use structio.Beve.Walk.Moves.{Keeps}
use structio.Beve.Reader.{Typed, bools, strings, fixed, max_depth}
use structio.Beve.Reader.Moves.{Keeps-typed_head, Keeps-complex_head}
use structio.Beve.Reader.Ends.{
  Ends, Enough, Answers, Ends-repeat, Ends-drop_bytes, small_ends, Ends-typed_head,
  Ends-complex_head,
}
use structio.Beve.Skip.{
  or_invalid, skip_str, skip_form, skip_typed, skip_key, skip_members, skip_extension, skip_body,
  step_over, step, skip_value, validate_value,
}
use structio.Beve.Skip.Moves.{Keeps-skip_str, Keeps-skip_key, Keeps-step}

Answers-or_invalid : (o : Option ℕ) → Answers (or_invalid o)
unfolding or_invalid
Answers-or_invalid none = λ p. cc
Answers-or_invalid (some w) = λ p. cc

module _ (utf8 : Bool) (is_utf8 : List ℕ → Bool) (fuel : ℕ) where
  Ends-skip_str : Ends fuel (skip_str utf8 is_utf8)
  unfolding skip_str
  Ends-skip_str = search small_ends depth 8

  Ends-skip_form : (form : Typed) → Ends fuel (skip_form utf8 is_utf8 form)
  unfolding skip_form
  Ends-skip_form (bools n) = Ends-drop_bytes fuel _
  Ends-skip_form (strings n) = Ends-repeat fuel n _ (Keeps-skip_str utf8 is_utf8) Ends-skip_str
  Ends-skip_form (fixed h n) = search small_ends depth 8

  Ends-skip_key : (cat width : ℕ) → Ends fuel (skip_key utf8 is_utf8 cat width)
  unfolding skip_key
  Ends-skip_key cat width = search (small_ends, Ends-skip_str)

ruleset leaf_ends = (
  small_ends, Ends-skip_str, Ends-skip_form, Ends-skip_key, Ends-typed_head, Ends-complex_head,
  Keeps-skip_str, Keeps-skip_key, Keeps-typed_head, Keeps-complex_head,
)

module _ (utf8 : Bool) (is_utf8 : List ℕ → Bool) (fuel : ℕ) where
  Ends-skip_typed : (h : ℕ) → Ends fuel (skip_typed utf8 is_utf8 h)
  unfolding skip_typed
  Ends-skip_typed h = search leaf_ends depth 8

  module _ (rec : Walk (Unit {0})) (keeps : Keeps rec) (ends : Ends fuel rec) where
    Ends-skip_members : (cat width n : ℕ) → Ends fuel (skip_members utf8 is_utf8 rec cat width n)
    unfolding skip_members
    Ends-skip_members cat width n = search leaf_ends depth 8

    Ends-skip_extension : (h : ℕ) → Ends (suc fuel) (skip_extension rec h)
    unfolding skip_extension
    Ends-skip_extension h = search leaf_ends depth 12

    Ends-skip_body : (h : ℕ) → Ends (suc fuel) (skip_body utf8 is_utf8 rec h)
    unfolding skip_body
    Ends-skip_body h =
        search (leaf_ends, Ends-skip_typed, Ends-skip_members, Ends-skip_extension) depth 14

    Ends-step_over : Ends (suc fuel) (step_over utf8 is_utf8 rec)
    unfolding step_over
    Ends-step_over = search (leaf_ends, Ends-skip_body, Answers-or_invalid) depth 10

-- Fits the limit a step over a value answers, with the fuel that its depth leaves.
pub Ends-step :
    (utf8 : Bool) (is_utf8 : List ℕ → Bool) (fuel : ℕ) → Ends fuel (step utf8 is_utf8 fuel)
unfolding step
Ends-step utf8 is_utf8 zero = record { at = λ r e. absurd (omega (arith, e.shallow, e.fuelled)) }
Ends-step utf8 is_utf8 (suc fuel) =
    Ends-step_over utf8 is_utf8 fuel (step utf8 is_utf8 fuel) (Keeps-step utf8 is_utf8 fuel)
      (Ends-step utf8 is_utf8 fuel)

-- From a depth of at most `max_depth`, on any bytes at any position, `skip_value` and
-- `validate_value` answer before their fuel runs out.
pub skip_value-ne-stuck :
    (is_utf8 : List ℕ → Bool) (r : Reader)
    → r.depth ≤ max_depth
    → ((skip_value is_utf8 r).0 ≢ stuck) × ((validate_value is_utf8 r).0 ≢ stuck)
unfolding skip_value validate_value
skip_value-ne-stuck is_utf8 r h =
    ((Ends-step _ is_utf8 _).at r enough, (Ends-step _ is_utf8 _).at r enough)
  where
    enough : Enough 257 r
    enough = record { shallow = h; fuelled = omega arith }
