-- ===== src/Tests/Walks.antt =====
-- Stepping over a value and validating one, on the array of "hi" and true.
use structio.Prelude.{
  ℕ, ◌≡◌, ◌≢◌, ◌⊎◌, refl, arith, Bool, true, none, List, [], ◌∷◌, ◌++◌, ltb, ◌&&◌,
}
use structio.Error.{ok, err, stuck, invalid_header, invalid_utf8}
use structio.Beve.Walk.{Reader, pure, raise, lift, gets, repeat, ◌>>=◌}
use structio.Beve.Header
use structio.Beve.Reader
use structio.Beve.Skip
use structio.Beve.Skip.{skip_value, validate_value}
use structio.Beve.Skip.Total.{skip_value-ne-stuck}
use structio.Beve.Skip.Moves.{Kept, skip_value-moves}
use structio.Beve.Skip.Utf8.{validate_value-Refines}
use structio.Beve.Skip.Extent.{skip_value-embed, skip_value-embed_err}

-- A stand-in for the check of a string: ASCII only.
abbrev ascii : List ℕ → Bool
ascii [] = true
ascii (b ∷ bs) = ltb b 128 && ascii bs

abbrev document : List ℕ
document = 5 ∷ 8 ∷ 2 ∷ 8 ∷ 104 ∷ 105 ∷ 24 ∷ []

-- The array of a string that is not ASCII.
abbrev not_ascii : List ℕ
not_ascii = 5 ∷ 4 ∷ 2 ∷ 4 ∷ 200 ∷ []

abbrev reader_at : List ℕ → ℕ → Reader
reader_at bytes pos = record {
  bytes = bytes;
  pos = pos;
  depth = 0;
  implied = none;
  installed = none;
}

-- The number of a width that no integer has, as the first element of an array.
abbrev bad_width : List ℕ
bad_width = 5 ∷ 4 ∷ 169 ∷ []

run_skip : skip_value ascii (reader_at document 0) ≡ (ok tt, reader_at document 7)
unfolding skip_value validate_value Skip.step Skip.step_over Skip.is_implied Skip.skip_body
    Skip.skip_str Skip.or_invalid ◌>>=◌ pure raise lift gets repeat Reader.head Reader.count
    Reader.size Reader.as_count Reader.take Reader.drop_bytes Reader.enter Reader.leave
    Reader.leaving Reader.nested Reader.bare_header Reader.fixed_width Header.ty Header.sub
    Header.count Header.byte_width Header.decode_size Header.decode_loop Header.size_extra
run_skip = refl

run_refused : skip_value ascii (reader_at bad_width 0) ≡ (err invalid_header, reader_at bad_width 3)
unfolding skip_value validate_value Skip.step Skip.step_over Skip.is_implied Skip.skip_body
    Skip.skip_str Skip.or_invalid ◌>>=◌ pure raise lift gets repeat Reader.head Reader.count
    Reader.size Reader.as_count Reader.take Reader.drop_bytes Reader.enter Reader.leave
    Reader.leaving Reader.nested Reader.bare_header Reader.fixed_width Header.ty Header.sub
    Header.count Header.byte_width Header.decode_size Header.decode_loop Header.size_extra
run_refused = refl

run_not_ascii : (validate_value ascii (reader_at not_ascii 0)).0 ≡ err invalid_utf8
unfolding skip_value validate_value Skip.step Skip.step_over Skip.is_implied Skip.skip_body
    Skip.skip_str Skip.or_invalid ◌>>=◌ pure raise lift gets repeat Reader.head Reader.count
    Reader.size Reader.as_count Reader.take Reader.drop_bytes Reader.enter Reader.leave
    Reader.leaving Reader.nested Reader.bare_header Reader.fixed_width Header.ty Header.sub
    Header.count Header.byte_width Header.decode_size Header.decode_loop Header.size_extra
run_not_ascii = refl

skip_value-ne-stuck_example :
    ((skip_value ascii (reader_at document 0)).0 ≢ stuck)
    × ((validate_value ascii (reader_at document 0)).0 ≢ stuck)
skip_value-ne-stuck_example = skip_value-ne-stuck ascii (reader_at document 0) (omega arith)

skip_value-moves_example :
    Kept (reader_at not_ascii 0) (skip_value ascii (reader_at not_ascii 0)).1
    × Kept (reader_at not_ascii 0) (validate_value ascii (reader_at not_ascii 0)).1
skip_value-moves_example = skip_value-moves ascii (reader_at not_ascii 0) (omega arith)

validate_value-Refines_example :
    (validate_value ascii (reader_at not_ascii 0) ≡ skip_value ascii (reader_at not_ascii 0))
    ⊎ ((validate_value ascii (reader_at not_ascii 0)).0 ≡ err invalid_utf8)
validate_value-Refines_example = validate_value-Refines ascii (reader_at not_ascii 0)

skip_value-embed_example :
    skip_value ascii (reader_at ((7 ∷ 7 ∷ []) ++ (document ++ (9 ∷ []))) 2)
    ≡ (ok tt, reader_at ((7 ∷ 7 ∷ []) ++ (document ++ (9 ∷ []))) 9)
skip_value-embed_example =
    skip_value-embed ascii (7 ∷ 7 ∷ []) (9 ∷ []) (reader_at document 0) (reader_at document 7)
      (omega arith) run_skip

skip_value-embed_err_example :
    skip_value ascii (reader_at ((7 ∷ []) ++ (bad_width ++ (0 ∷ []))) 1)
    ≡ (err invalid_header, reader_at ((7 ∷ []) ++ (bad_width ++ (0 ∷ []))) 4)
skip_value-embed_err_example =
    skip_value-embed_err ascii (7 ∷ []) (0 ∷ []) (reader_at bad_width 0) (reader_at bad_width 3)
      invalid_header (omega arith) (λ p. cc) run_refused
