-- ===== src/Beve/Header/Fields.antt =====
-- The fields of a header byte, and the headers derived from a header (src/beve/header.rs).
use structio.Prelude.{
  ℕ, zero, suc, ◌+◌, ◌*◌, ◌/◌, ◌%◌, ◌^◌, ◌≤◌, ◌<◌, ◌≡◌, ◌≢◌, arith, refl, bit_or, bit_and,
}
use structio.Prelude.{some, none, shl8, ◌↔◌, ◌⊎◌}
use structio.Prelude.Bits.{bit_or_high, clear_low_three}
use structio.Error.{ok, err, invalid_header, unsupported_feature}
use structio.Beve.Header.{
  header, number, array_of, complex_class, complex_components, complex_element, ty, sub, count,
  element_of, ty_undefined, byte_width, element_width, code_for, decodable_width, cat_float,
}

pub header_sum : (t s c : ℕ) → t < 8 → s < 4 → c < 8 → header t s c ≡ c * 32 + s * 8 + t
unfolding header
header_sum t s c ht hs hc = ground (
  arith,
  bit_or_high 5 c (s * 8) (omega arith),
  bit_or_high 3 (c * 4 + s) t (omega arith),
  inner,
  outer,
)
  where
    inner : shl8 c 5 ≡ c * 2 ^ 5
    inner = omega arith

    outer : c * 2 ^ 5 + s * 8 ≡ (c * 4 + s) * 2 ^ 3
    outer = omega arith

-- A header assembled from a type below 8, a category below 4 and a code below 8 holds those three
-- fields, and is below 256.
pub header_fields :
    (t s c : ℕ)
    → t < 8
    → s < 4
    → c < 8
    → (ty (header t s c) ≡ t)
      × (sub (header t s c) ≡ s)
      × (count (header t s c) ≡ c)
      × (header t s c < 256)
unfolding ty sub count
header_fields t s c ht hs hc = ground (arith, header_sum t s c ht hs hc)

-- A byte is the header assembled from its own three fields.
header_of_fields : (h : ℕ) → h < 256 → header (ty h) (sub h) (count h) ≡ h
unfolding ty sub count
header_of_fields h b =
    ground
      (arith, header_sum (h % 8) (h / 8 % 4) (h / 32) (omega arith) (omega arith) (omega arith))

retype : (t h : ℕ) → t < 8 → h < 256 → bit_or (bit_and h 0b1111_1000) t ≡ h / 8 * 8 + t
retype t h ht hh = ground (arith, clear_low_three h hh, bit_or_high 3 (h / 8) t (omega arith))

-- For a category below 4, a code below 8 and a form below 8: the array header gives its elements'
-- number header; the complex class gives its components' array header and their number header; and
-- the header of a complex element is the one with the undefined type.
pub derived_headers :
    (cat code form : ℕ)
    → cat < 4
    → code < 8
    → form < 8
    → (element_of (array_of cat code) ≡ number cat code)
      × (complex_components (complex_class cat code form) ≡ array_of cat code)
      × (element_of (complex_class cat code form) ≡ number cat code)
      × (complex_element (complex_class cat code form) ≡ header ty_undefined cat code)
unfolding element_of complex_components complex_element
derived_headers cat code form hc hk hf = (
  ground (arith, array_sum, number_sum, retype 1 (code * 32 + cat * 8 + 4)),
  ground (arith, array_sum, class_sum, retype 4 (code * 32 + cat * 8 + form)),
  ground (arith, number_sum, class_sum, retype 1 (code * 32 + cat * 8 + form)),
  ground (arith, undefined_sum, class_sum, retype 7 (code * 32 + cat * 8 + form)),
)
  where
    array_sum : array_of cat code ≡ code * 32 + cat * 8 + 4
    array_sum = unfold array_of in header_sum 4 cat code (omega arith) hc hk

    number_sum : number cat code ≡ code * 32 + cat * 8 + 1
    number_sum = unfold number in header_sum 1 cat code (omega arith) hc hk

    class_sum : complex_class cat code form ≡ code * 32 + cat * 8 + form
    class_sum = unfold complex_class in header_sum form cat code hf hc hk

    undefined_sum : header ty_undefined cat code ≡ code * 32 + cat * 8 + 7
    undefined_sum = header_sum 7 cat code (omega arith) hc hk

-- No width is stated exactly where the category is 3 or more or the code is 5 or more.
byte_width-none_iff : (cat code : ℕ) → (byte_width cat code ≡ none) ↔ ((3 ≤ cat) ⊎ (5 ≤ code))
unfolding byte_width
byte_width-none_iff cat code = (λ h. ground arith, λ h. ground arith)

pow_code : (code : ℕ) → code ≤ 4 → (1 ≤ 2 ^ code) × (2 ^ code ≤ 16)
pow_code zero h = omega arith
pow_code (suc zero) h = omega arith
pow_code (suc (suc zero)) h = omega arith
pow_code (suc (suc (suc zero))) h = omega arith
pow_code (suc (suc (suc (suc zero)))) h = omega arith
pow_code (suc (suc (suc (suc (suc n))))) h = absurd (omega arith)

pub byte_width-bounds : (cat code w : ℕ) → byte_width cat code ≡ some w → (1 ≤ w) × (w ≤ 16)
unfolding byte_width
byte_width-bounds cat code w h = ground (arith, pow_code code)

pub code_for_pow : (code : ℕ) → code ≤ 4 → code_for (2 ^ code) ≡ code
unfolding code_for
code_for_pow zero h = refl
code_for_pow (suc zero) h = refl
code_for_pow (suc (suc zero)) h = refl
code_for_pow (suc (suc (suc zero))) h = refl
code_for_pow (suc (suc (suc (suc zero)))) h = refl
code_for_pow (suc (suc (suc (suc (suc n))))) h = absurd (omega arith)

-- For a category other than the floats, `code_for` of a width that is stated is the code that
-- stated it.
code_for-byte_width :
    (cat code w : ℕ) → cat ≢ cat_float → byte_width cat code ≡ some w → code_for w ≡ code
unfolding byte_width
code_for-byte_width cat code w h e = ground (arith, code_for_pow code)

-- `decodable_width` answers a width exactly where `byte_width` states it and the header is not
-- that of the 128-bit float; it answers InvalidHeader exactly where no width is stated, and
-- UnsupportedFeature exactly for the 128-bit float.
pub decodable_width-cases :
    (cat code w : ℕ)
    → ((decodable_width cat code ≡ ok w)
        ↔ ((byte_width cat code ≡ some w) × ((cat ≢ cat_float) ⊎ (code ≢ 4))))
      × ((decodable_width cat code ≡ err invalid_header) ↔ (byte_width cat code ≡ none))
      × ((decodable_width cat code ≡ err unsupported_feature) ↔ ((cat ≡ cat_float) × (code ≡ 4)))
unfolding decodable_width
decodable_width-cases cat code w = (
  (λ h. ground arith, λ h. ground arith),
  (λ h. ground arith, λ h. ground arith),
  (λ h. ground arith, λ h. ground arith),
)

-- For a category below 4 and a code below 8 that state a width: the element header of the array
-- with them measures an element by that width, and the header of a complex element with them by
-- twice that width.
pub element_width-derived :
    (cat code w : ℕ)
    → cat < 4
    → code < 8
    → byte_width cat code ≡ some w
    → (element_width (element_of (array_of cat code)) ≡ some w)
      × (element_width (complex_element (complex_class cat code 1)) ≡ some (2 * w))
unfolding element_width number
element_width-derived cat code w hc hk e =
    let d = derived_headers cat code 1 hc hk (omega arith) in
    (
      rw d.0 (ground (arith, header_fields 1 cat code)),
      rw d.3 (ground (arith, header_fields 7 cat code)),
    )
