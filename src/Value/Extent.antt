-- ===== src/Value/Extent.antt =====
-- `skip_value` and `validate_value` of src/beve/reader.rs over what src/value.rs writes.
use structio.Prelude.{
  ℕ, zero, suc, ◌+◌, ◌≤◌, ◌<◌, ◌≡◌, refl, ap, ◌∙◌, arith, Bool, true, false, not, ◌&&◌, none, some,
  List, [], ◌∷◌, ◌++◌, length, if◌then◌else◌,
}
use structio.Error.{ok}
use structio.Beve.Walk.{Reader, Walk, gets, repeat}
use structio.Beve.Header.{
  ty, sub, count as width_count, byte_width, max_size, object as object_header,
  string as string_header, generic_array, null as null_header, true_header, false_header, cat_float,
  cat_signed, cat_unsigned, number as number_header, code_for,
}
use structio.Beve.Header.Fields.{header_fields, code_for_pow}
use structio.Beve.Header.Size.{le_bytes, length-le_bytes, size_bytes}
use structio.Beve.Reader.{key_width, bare_header, fixed_width}
use structio.Beve.Reader.Reads.{
  Ahead, Reads, past, Reads-pure, Reads-lift, Reads-bind, Reads-nested, Reads-head, Reads-take,
  Reads-drop_bytes, Reads-count, Reads-last, Reads-weaken,
}
use structio.Beve.Skip.{
  is_implied, skip_str, skip_key, skip_members, skip_body, step_over, step, skip_value,
  validate_value,
}
use structio.Value.{
  Repr, Value, Items, Fields, unsigned, signed, float, null, bool, number, string, array, object,
  no_items, item, no_fields, field, items_len, fields_len, tag, bits_of,
}
use structio.Value.Written.{
  sized, encode, encode_items, encode_fields, nesting, nesting_items, nesting_fields, Writable,
  WritableItems, WritableFields,
}

number_fields :
    (cat code w : ℕ)
    → cat < 4
    → code < 8
    → byte_width cat code ≡ some w
    → (ty (number_header cat code) ≡ 1) × (fixed_width (number_header cat code) ≡ ok w)
unfolding number_header fixed_width
number_fields cat code w h k e =
    let f = header_fields 1 cat code (omega arith) h k in (f.0, rw (fixed_width, f.1, f.2, e) refl)

coded :
    (cat : ℕ)
    → cat < 4
    → byte_width cat 3 ≡ some 8
    → (ty (number_header cat (code_for 8)) ≡ 1)
      × (fixed_width (number_header cat (code_for 8)) ≡ ok 8)
coded cat h e = rw (code_for_pow 3 (omega arith)) (number_fields cat 3 8 h (omega arith) e)

tag_fields : (n : Repr) → (ty (tag n) ≡ 1) × (fixed_width (tag n) ≡ ok 8)
unfolding byte_width
tag_fields (unsigned bits) = coded cat_unsigned (omega arith) refl
tag_fields (signed bits) = coded cat_signed (omega arith) refl
tag_fields (float bits) = number_fields cat_float 3 8 (omega arith) (omega arith) refl

module _ (utf8 : Bool) (is_utf8 : List ℕ → Bool) where
  -- What the mode asks of a string.
  abbrev Passes : List ℕ → Type 0
  Passes s = (utf8 && not (is_utf8 s)) ≡ false

  Reads-skip_str :
      (levels : ℕ) (s : List ℕ)
      → length s ≤ max_size
      → Passes s
      → Reads levels (sized s) (skip_str utf8 is_utf8) tt
  unfolding skip_str
  Reads-skip_str levels s h p =
      Reads-bind _ (length s) (Reads-count levels (length s) h)
        (Reads-last _ s (Reads-take levels s) (rw p (Reads-pure levels tt)))

  Reads-is_implied : (levels : ℕ) → Reads levels [] (gets is_implied) false
  unfolding gets is_implied
  Reads-is_implied levels = record {
    at = λ r h k.
        ap (λ (t : Bool). (ok t, r)) (unimplied r h.unimplied)
        ∙ ap (λ (t : ℕ). (ok false, record r { pos = t })) (omega arith);
  }
    where
      unimplied : (r : Reader) → r.implied ≡ none → is_implied r ≡ false
      unimplied r e = ground arith

  module _ (rec : Walk (Unit {0})) where
    -- A header that is read, then the body.
    Reads-step_over :
        (levels h : ℕ) (bs : List ℕ)
        → Reads levels bs (skip_body utf8 is_utf8 rec h) tt
        → Reads levels (h ∷ bs) (step_over utf8 is_utf8 rec) tt
    unfolding step_over
    Reads-step_over levels h bs x =
        Reads-bind _ false (Reads-is_implied levels) (Reads-bind _ h (Reads-head levels h) x)

    Reads-null : (levels : ℕ) → Reads levels [] (skip_body utf8 is_utf8 rec null_header) tt
    unfolding skip_body ty sub
    Reads-null levels = Reads-pure levels tt

    Reads-bool :
        (levels : ℕ) (b : Bool)
        → Reads levels [] (skip_body utf8 is_utf8 rec (if b then true_header else false_header)) tt
    unfolding skip_body ty sub
    Reads-bool levels true = Reads-pure levels tt
    Reads-bool levels false = Reads-pure levels tt

    Reads-fixed :
        (levels h w : ℕ) (bs : List ℕ)
        → ty h ≡ 1
        → fixed_width h ≡ ok w
        → length bs ≡ w
        → Reads levels bs (skip_body utf8 is_utf8 rec h) tt
    unfolding skip_body
    Reads-fixed levels h w bs t e l =
        rw (skip_body, t)
          (Reads-bind {bs = []} _ w (Reads-lift levels (fixed_width h) w e)
            (Reads-drop_bytes levels w bs l))

    Reads-number :
        (levels : ℕ) (n : Repr)
        → Reads levels (le_bytes 8 (bits_of n)) (skip_body utf8 is_utf8 rec (tag n)) tt
    Reads-number levels n =
        Reads-fixed levels (tag n) 8 _ (tag_fields n).0 (tag_fields n).1 (length-le_bytes 8 _)

    Reads-string :
        (levels : ℕ) (s : List ℕ)
        → length s ≤ max_size
        → Passes s
        → Reads levels (sized s) (skip_body utf8 is_utf8 rec string_header) tt
    unfolding skip_body ty sub width_count bare_header
    Reads-string levels s h p =
        Reads-bind {bs = []} _ tt (Reads-lift levels (bare_header string_header) tt refl)
          (Reads-skip_str levels s h p)

    Reads-array :
        (levels n : ℕ) (bs : List ℕ)
        → n ≤ max_size
        → Reads levels bs (repeat n rec) tt
        → Reads (suc levels) (size_bytes n ++ bs) (skip_body utf8 is_utf8 rec generic_array) tt
    unfolding skip_body ty sub width_count bare_header
    Reads-array levels n bs h x =
        Reads-bind {bs = []} _ tt (Reads-lift (suc levels) (bare_header generic_array) tt refl)
          (Reads-bind _ n (Reads-count (suc levels) n h) (Reads-nested x))

    Reads-object :
        (levels n : ℕ) (bs : List ℕ)
        → n ≤ max_size
        → Reads levels bs (skip_members utf8 is_utf8 rec 0 0 n) tt
        → Reads (suc levels) (size_bytes n ++ bs) (skip_body utf8 is_utf8 rec object_header) tt
    unfolding skip_body ty sub width_count key_width
    Reads-object levels n bs h x =
        Reads-bind {bs = []} _ 0 (Reads-lift (suc levels) (key_width object_header) 0 refl)
          (Reads-bind _ n (Reads-count (suc levels) n h) (Reads-nested x))

  -- Fuel above a bound is a successor.
  spend {ℓ} : {n : ℕ} (P : ℕ → Type ℓ) → ((f : ℕ) → n ≤ f → P (suc f)) → (f : ℕ) → n < f → P f
  spend P k zero h = absurd (omega arith)
  spend P k (suc f) h = k f (omega arith)

  abbrev over : ℕ → Walk (Unit {0})
  over fuel = step utf8 is_utf8 fuel

  abbrev ReadsValue : Value → Type 0
  ReadsValue v = (fuel : ℕ) → nesting v < fuel → Reads (nesting v) (encode v) (over fuel) tt

  abbrev ReadsItems : Items → Type 0
  ReadsItems vs =
      (fuel : ℕ)
      → nesting_items vs < fuel
      → Reads (nesting_items vs) (encode_items vs) (repeat (items_len vs) (over fuel)) tt

  abbrev ReadsFields : Fields → Type 0
  ReadsFields fs =
      (fuel : ℕ)
      → nesting_fields fs < fuel
      → Reads (nesting_fields fs) (encode_fields fs)
          (skip_members utf8 is_utf8 (over fuel) 0 0 (fields_len fs)) tt

  step-Reads :
      (P : List ℕ → Type 0)
      → ((s : List ℕ) → P s → Passes s)
      → (v : Value) → Writable P v
      → ReadsValue v
  unfolding nesting encode Writable step repeat skip_members skip_key
  step-Reads P passes v =
      elim v
        as (λ v. Writable P v → ReadsValue v) (λ vs. WritableItems P vs → ReadsItems vs) (λ fs.
          WritableFields P fs → ReadsFields fs) [
            | null ↦ λ h. spend _ λ f k. Reads-step_over _ 0 null_header [] (Reads-null _ 0)
            | bool b ↦ λ h. spend _ λ f k. Reads-step_over _ 0 _ [] (Reads-bool _ 0 b)
            | number n ↦ λ h. spend _ λ f k. Reads-step_over _ 0 _ _ (Reads-number _ 0 n)
            | string s ↦
                λ h. spend _ λ f k. Reads-step_over _ 0 _ _ (Reads-string _ 0 s h.0 (passes s h.1))
            | array (vs → ih) ↦
                λ h. spend _ λ f k. Reads-step_over _ _ _ _ (Reads-array _ _ _ _ h.0 (ih h.1 f k))
            | object (fs → ih) ↦
                λ h. spend _ λ f k. Reads-step_over _ _ _ _ (Reads-object _ _ _ _ h.0 (ih h.1 f k))
            | no_items ↦ λ h fuel k. Reads-pure 0 tt
            | item (v → ih) (vs → ihs) ↦ λ h fuel k.
                Reads-bind _ tt (Reads-weaken (omega arith) (ih h.0 fuel (omega arith)))
                  (Reads-weaken (omega arith) (ihs h.1 fuel (omega arith)))
            | no_fields ↦ λ h fuel k. Reads-pure 0 tt
            | field key (v → ih) (fs → ihs) ↦ λ h fuel k.
                Reads-bind _ tt
                  (Reads-bind _ tt (Reads-skip_str _ key h.0 (passes key h.1))
                    (Reads-weaken (omega arith) (ih h.2 fuel (omega arith))))
                  (Reads-weaken (omega arith) (ihs h.3 fuel (omega arith)))
          ]

abbrev pub Anything : List ℕ → Type 0
Anything s = Unit {0}

-- For a tree whose lengths are at most `max_size`, where its encoding is next in a document shorter
-- than 2^64 and the levels it opens fit below the limit, `skip_value` succeeds and stops exactly
-- past the encoding.
pub skip_value-encode :
    (is_utf8 : List ℕ → Bool) (v : Value) (r : Reader)
    → Writable Anything v
    → Ahead (encode v) r
    → r.depth + nesting v ≤ 256
    → skip_value is_utf8 r ≡ (ok tt, past (length (encode v)) r)
unfolding skip_value
skip_value-encode is_utf8 v r h a k =
    (step-Reads false is_utf8 Anything (λ s u. refl) v h 257 (omega arith)).at r a k

-- The same where every string passes the check of its text, for `validate_value`.
pub validate_value-encode :
    (is_utf8 : List ℕ → Bool) (v : Value) (r : Reader)
    → Writable (λ s. is_utf8 s ≡ true) v
    → Ahead (encode v) r
    → r.depth + nesting v ≤ 256
    → validate_value is_utf8 r ≡ (ok tt, past (length (encode v)) r)
unfolding validate_value
validate_value-encode is_utf8 v r h a k =
    (step-Reads true is_utf8 (λ s. is_utf8 s ≡ true) (λ s e. ap not e) v h 257 (omega arith)).at r a
      k
