-- ===== src/Beve/Header/Context.antt =====
-- A compressed size inside a longer sequence of bytes (src/beve/header.rs).
use structio.Prelude.{
  Option-cases, ℕ, zero, suc, ◌+◌, ◌≤◌, ◌≡◌, refl, ap, ◌∙◌, arith, List, ◌++◌, length,
  length-append, get_elem?, get_or, shr, get_elem?-append_length, get_or-append_length,
  get_elem?-append_left, get_or-append_left, get_elem?-lt, inl, inr,
}
use structio.Error.{ok, err, unexpected_end}
use structio.Beve.Header.{size_extra, decode_loop, decode_size}
use structio.Beve.Header.Decode.{decode_size-some, decode_size-none}

decode_loop-append :
    (bytes more : List ℕ) (i r k v : ℕ)
    → i + 1 + k + r ≤ length bytes
    → decode_loop (bytes ++ more) i r k v ≡ decode_loop bytes i r k v
unfolding decode_loop
decode_loop-append bytes more i zero k v h = refl
decode_loop-append bytes more i (suc r) k v h =
    rw (get_or-append_left bytes more (i + 1 + k) 0 (omega arith))
      (decode_loop-append bytes more i r (k + 1) _ (omega arith))

-- Bytes behind a size do not change what is read.
pub decode_size-append :
    (bytes more : List ℕ) (pos v end : ℕ)
    → decode_size bytes pos ≡ ok (v, end)
    → decode_size (bytes ++ more) pos ≡ ok (v, end)
decode_size-append bytes more pos v end h = elim (Option-cases (get_elem? bytes pos)) [
  | inl e ↦ cc (decode_size-none bytes pos e)
  | inr (b, e) ↦ ground (
    arith,
    decode_size-some bytes pos b e,
    decode_size-some (bytes ++ more) pos b,
    get_elem?-append_left bytes more pos,
    get_elem?-lt bytes pos e,
    length-append bytes more,
    decode_loop-append bytes more pos (size_extra b) 0 (shr b 2),
  )
]

decode_loop-append_length :
    (pre bytes : List ℕ) (i r k v : ℕ)
    → decode_loop (pre ++ bytes) (length pre + i) r k v ≡ decode_loop bytes i r k v
unfolding decode_loop
decode_loop-append_length pre bytes i zero k v = refl
decode_loop-append_length pre bytes i (suc r) k v =
    rw byte (decode_loop-append_length pre bytes i r (k + 1) _)
  where
    byte : get_or (pre ++ bytes) (length pre + i + 1 + k) 0 ≡ get_or bytes (i + 1 + k) 0
    byte =
        ap (λ (t : ℕ). get_or (pre ++ bytes) t 0) (omega arith)
        ∙ get_or-append_length pre bytes (i + 1 + k) 0

-- A size is read the same where its bytes stand behind others, moved by their length.
pub decode_size-append_length :
    (pre bytes : List ℕ) (pos v end : ℕ)
    → decode_size bytes pos ≡ ok (v, end)
    → decode_size (pre ++ bytes) (length pre + pos) ≡ ok (v, length pre + end)
decode_size-append_length pre bytes pos v end h = elim (Option-cases (get_elem? bytes pos)) [
  | inl e ↦ cc (decode_size-none bytes pos e)
  | inr (b, e) ↦ ground (
    arith,
    decode_size-some bytes pos b e,
    decode_size-some (pre ++ bytes) (length pre + pos) b
        (get_elem?-append_length pre bytes pos ∙ e),
    length-append pre bytes,
    decode_loop-append_length pre bytes pos (size_extra b) 0 (shr b 2),
  )
]

pub decode_size-append_length_end :
    (pre bytes : List ℕ) (pos : ℕ)
    → decode_size bytes pos ≡ err unexpected_end
    → decode_size (pre ++ bytes) (length pre + pos) ≡ err unexpected_end
decode_size-append_length_end pre bytes pos h = elim (Option-cases (get_elem? bytes pos)) [
  | inl e ↦
      decode_size-none (pre ++ bytes) (length pre + pos) (get_elem?-append_length pre bytes pos ∙ e)
  | inr (b, e) ↦ ground (
    arith,
    decode_size-some bytes pos b e,
    decode_size-some (pre ++ bytes) (length pre + pos) b
        (get_elem?-append_length pre bytes pos ∙ e),
    length-append pre bytes,
  )
]
