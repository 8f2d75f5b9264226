-- ===== src/Beve/Skip.antt =====
-- src/beve/reader.rs: stepping over a value, and validating one, which is the same walk with the
-- text of every string checked. `is_utf8` stands for `core::str::from_utf8(..).is_ok()`.
pub mod Moves
pub mod Total
pub mod Utf8
pub mod Extent
use structio.Prelude.{
  ℕ, zero, suc, Bool, true, false, not, ◌&&◌, ◌||◌, Option, none, some, List, ◌==◌, if◌then◌else◌,
  div_ceil8,
}
use structio.Error.{PResult, ok, err, invalid_header, unsupported_feature, invalid_utf8}
use structio.Beve.Walk.{Reader, Walk, pure, raise, lift, gets, out_of_fuel, repeat, ◌>>=◌, ◌>>◌}
use structio.Beve.Header.{
  ty, sub, ext_id, element_width, ty_null_bool, ty_number, ty_string, ty_object, ty_generic_array,
  ty_typed_array, ty_extension, ty_undefined, cat_float, null, false_header, true_header,
  ext_delimiter, ext_type_tag, ext_matrix, ext_complex,
}
use structio.Beve.Reader.{
  Typed, bools, strings, fixed, head, take, drop_bytes, size, count, nested, key_width, bare_header,
  fixed_width, typed_head, payload_len, complex_head, complex_payload,
}

-- `self.implied.is_some()`
unfoldable pub is_implied : Reader → Bool
is_implied r = elim r.implied [ none ↦ false | some h ↦ true ]

unfoldable pub or_invalid : Option ℕ → PResult ℕ
or_invalid none = err invalid_header
or_invalid (some w) = ok w

-- The walks that recur take the call of `step` as an argument.
unfoldable pub skip_extension : Walk (Unit {0}) → ℕ → Walk (Unit {0})
skip_extension rec h =
    if ext_id h == ext_delimiter
    then raise invalid_header
    else if ext_id h == ext_type_tag
    then (do size; nested rec)
    else if ext_id h == ext_matrix
    then (do drop_bytes 1; nested (do rec; rec))
    else if ext_id h == ext_complex
    then (do
      (class, width, pairs) ← complex_head
      total ← lift (complex_payload width pairs)
      drop_bytes total)
    else raise unsupported_feature

module _ (utf8 : Bool) (is_utf8 : List ℕ → Bool) where
  unfoldable pub skip_str : Walk (Unit {0})
  skip_str = do
    n ← count
    bytes ← take n
    if utf8 && not (is_utf8 bytes) then raise invalid_utf8 else pure tt

  unfoldable pub skip_form : Typed → Walk (Unit {0})
  skip_form (bools n) = drop_bytes (div_ceil8 n)
  skip_form (strings n) = repeat n skip_str
  skip_form (fixed h n) = do total ← lift (payload_len h n); drop_bytes total

  unfoldable pub skip_typed : ℕ → Walk (Unit {0})
  skip_typed h = do form ← typed_head h; skip_form form

  unfoldable pub skip_key : ℕ → ℕ → Walk (Unit {0})
  skip_key cat width = if cat == cat_float then skip_str else drop_bytes width

  module _ (rec : Walk (Unit {0})) where
    unfoldable pub skip_members : ℕ → ℕ → ℕ → Walk (Unit {0})
    skip_members cat width members = repeat members (do skip_key cat width; rec)

    unfoldable pub skip_body : ℕ → Walk (Unit {0})
    skip_body h =
        if ty h == ty_null_bool
        then (if h == null || h == false_header || h == true_header
            then pure tt
            else raise invalid_header)
        else if ty h == ty_number
        then (do w ← lift (fixed_width h); drop_bytes w)
        else if ty h == ty_string
        then (do lift (bare_header h); skip_str)
        else if ty h == ty_object
        then (do
          width ← lift (key_width h)
          members ← count
          nested (skip_members (sub h) width members))
        else if ty h == ty_generic_array
        then (do lift (bare_header h); n ← count; nested (repeat n rec))
        else if ty h == ty_typed_array
        then nested (skip_typed h)
        else if ty h == ty_extension
        then skip_extension rec h
        else raise invalid_header

    unfoldable pub step_over : Walk (Unit {0})
    step_over = do
      installed ← gets is_implied
      h ← head
      if installed && ty h == ty_undefined
          then (do w ← lift (or_invalid (element_width h)); drop_bytes w)
          else skip_body h

  -- Every recursive call is a level deeper, so the fuel bounds the depth.
  unfoldable pub step : ℕ → Walk (Unit {0})
  step zero = out_of_fuel
  step (suc fuel) = step_over (step fuel)

-- One more round than `max_depth`: a level opened past it is refused.
abbrev pub step_fuel : ℕ
step_fuel = 257

unfoldable pub skip_value : (List ℕ → Bool) → Walk (Unit {0})
skip_value is_utf8 = step false is_utf8 step_fuel

unfoldable pub validate_value : (List ℕ → Bool) → Walk (Unit {0})
validate_value is_utf8 = step true is_utf8 step_fuel
