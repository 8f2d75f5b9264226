-- ===== src/Error.antt =====
-- src/error.rs: the error codes, and what a fallible operation answers.

-- `ErrorCode`, in the order of its declaration.
pub data ErrorCode : Type 0 where
  unexpected_end expected_brace expected_bracket expected_quote expected_colon : ErrorCode
  expected_comma expected_true expected_false expected_null unexpected_character : ErrorCode
  trailing_content exceeded_max_depth document_too_large : ErrorCode
  invalid_header invalid_padding unsupported_feature unsupported_key_type : ErrorCode
  expected_object expected_array expected_string expected_bool expected_integer : ErrorCode
  expected_bytes element_type_mismatch expected_complex expected_matrix : ErrorCode
  expected_variant expected_tag : ErrorCode
  number_out_of_range invalid_number expected_number invalid_escape invalid_surrogate : ErrorCode
  invalid_utf8 control_character_in_string escape_in_borrowed_string : ErrorCode
  array_length_mismatch expected_single_char unknown_key unknown_variant missing_key : ErrorCode
  invalid_matrix_shape invalid_matrix_layout invalid_pointer no_such_value : ErrorCode

-- `PResult`. `stuck` is no value of the source: a walk on fuel answers it when the fuel runs out.
pub data PResult {ℓ} (A : Type ℓ) : Type ℓ where
  ok : A → PResult A
  err : ErrorCode → PResult A
  stuck : PResult A

-- `e?` and what follows it, for code that changes no state.
infixl 5 ◌>>=◌ ◌>>◌
abbrev pub ◌>>=◌ {ℓ κ} : {A : Type ℓ} {B : Type κ} → PResult A → (A → PResult B) → PResult B
ok a >>= f = f a
err e >>= f = err e
stuck >>= f = stuck

abbrev pub ◌>>◌ {ℓ κ} : {A : Type ℓ} {B : Type κ} → PResult A → PResult B → PResult B
m >> k = m >>= λ _. k
