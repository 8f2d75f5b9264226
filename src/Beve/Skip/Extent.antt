-- ===== src/Beve/Skip/Extent.antt =====
-- `step` of src/beve/reader.rs and the bytes around a value: the predicate of `Walk.Local` for it.
use structio.Prelude.{ℕ, zero, suc, ◌+◌, ◌^◌, ◌<◌, ◌≡◌, ◌≢◌, refl, Bool, inl, false, List, length}
use mathlib.Core.Path.{subst}
use structio.Error.{ErrorCode, ok, err, unexpected_end}
use structio.Beve.Walk.{Reader, Walk}
use structio.Beve.Walk.Moves.{Keeps}
use structio.Beve.Walk.Local.{embed, Local, Carried, Local-repeat, Local-out_of_fuel}
use structio.Beve.Walk.{gets}
use structio.Beve.Reader.{Typed, bools, strings, fixed}
use structio.Beve.Reader.Moves.{Keeps-typed_head, Keeps-complex_head}
use structio.Beve.Reader.Extent.{
  preamble_local, Local-drop_bytes, Local-typed_head, Local-complex_head,
}
use structio.Beve.Skip.{
  is_implied, skip_str, skip_form, skip_typed, skip_key, skip_members, skip_extension, skip_body,
  step_over, step, step_fuel, skip_value,
}
use structio.Beve.Skip.Moves.{Keeps-skip_str, Keeps-skip_key, Keeps-step}

Local-is_implied : Local (gets is_implied)
unfolding gets is_implied
Local-is_implied = record { at = λ pre more r _. refl }

module _ (utf8 : Bool) (is_utf8 : List ℕ → Bool) where
  Local-skip_str : Local (skip_str utf8 is_utf8)
  unfolding skip_str
  Local-skip_str = search preamble_local depth 8

  Local-skip_form : (form : Typed) → Local (skip_form utf8 is_utf8 form)
  unfolding skip_form
  Local-skip_form (bools n) = Local-drop_bytes _
  Local-skip_form (strings n) = Local-repeat n _ (Keeps-skip_str utf8 is_utf8) Local-skip_str
  Local-skip_form (fixed h n) = search preamble_local depth 8

  Local-skip_key : (cat width : ℕ) → Local (skip_key utf8 is_utf8 cat width)
  unfolding skip_key
  Local-skip_key cat width = search (preamble_local, Local-skip_str)

  Local-skip_typed : (h : ℕ) → Local (skip_typed utf8 is_utf8 h)
  unfolding skip_typed
  Local-skip_typed h =
      search (preamble_local, Local-skip_form, Local-typed_head, Keeps-typed_head) depth 8

ruleset leaf_local = (
  preamble_local, Local-skip_str, Local-skip_typed, Local-skip_key, Local-complex_head,
  Keeps-skip_str, Keeps-skip_key, Keeps-complex_head, Local-is_implied,
)

module _ (utf8 : Bool) (is_utf8 : List ℕ → Bool) (rec : Walk (Unit {0})) (keeps : Keeps rec)
    (loc : Local rec) where
  Local-skip_members : (cat width n : ℕ) → Local (skip_members utf8 is_utf8 rec cat width n)
  unfolding skip_members
  Local-skip_members cat width n = search leaf_local depth 8

  Local-skip_extension : (h : ℕ) → Local (skip_extension rec h)
  unfolding skip_extension
  Local-skip_extension h = search leaf_local depth 12

  Local-skip_body : (h : ℕ) → Local (skip_body utf8 is_utf8 rec h)
  unfolding skip_body
  Local-skip_body h = search (leaf_local, Local-skip_members, Local-skip_extension) depth 14

  Local-step_over : Local (step_over utf8 is_utf8 rec)
  unfolding step_over
  Local-step_over = search (leaf_local, Local-skip_body) depth 10

pub Local-step : (utf8 : Bool) (is_utf8 : List ℕ → Bool) (fuel : ℕ) → Local (step utf8 is_utf8 fuel)
unfolding step
Local-step utf8 is_utf8 zero = Local-out_of_fuel
Local-step utf8 is_utf8 (suc fuel) =
    Local-step_over utf8 is_utf8 (step utf8 is_utf8 fuel) (Keeps-step utf8 is_utf8 fuel)
      (Local-step utf8 is_utf8 fuel)

module _ (is_utf8 : List ℕ → Bool) (pre more : List ℕ) (r s : Reader) where
  -- Where `skip_value` succeeds, it succeeds and steps over the same bytes with any bytes put in
  -- front of the document and any behind it, as long as those in front and the document's own are
  -- fewer than 2^64.
  pub skip_value-embed :
      length pre + length r.bytes < 2 ^ 64
      → skip_value is_utf8 r ≡ (ok tt, s)
      → skip_value is_utf8 (embed pre more r) ≡ (ok tt, embed pre more s)
  unfolding skip_value
  skip_value-embed fits h =
      subst (λ q. Carried pre more q (skip_value is_utf8 (embed pre more r))) h
        ((Local-step false is_utf8 step_fuel).at pre more r fits)

  -- Where `skip_value` refuses with an error other than UnexpectedEnd, it refuses with the same
  -- error at the same place with any bytes put in front of the document and any behind it, as long
  -- as those in front and the document's own are fewer than 2^64.
  pub skip_value-embed_err :
      (e : ErrorCode)
      → length pre + length r.bytes < 2 ^ 64
      → e ≢ unexpected_end
      → skip_value is_utf8 r ≡ (err e, s)
      → skip_value is_utf8 (embed pre more r) ≡ (err e, embed pre more s)
  unfolding skip_value
  skip_value-embed_err e fits final h =
      subst (λ q. Carried pre more q (skip_value is_utf8 (embed pre more r))) h
        ((Local-step false is_utf8 step_fuel).at pre more r fits) (inl final)
