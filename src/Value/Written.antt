-- ===== src/Value/Written.antt =====
-- The bytes of a document tree in src/value.rs, and that writing it produces them.
use structio.Prelude.{
  ℕ, zero, suc, ◌+◌, ◌^◌, ◌≤◌, ◌<◌, ◌≡◌, some, arith, max, Bool, List, [], ◌∷◌, ◌++◌, length,
  if◌then◌else◌,
}
use structio.Beve.Header.{
  max_size, object as object_header, string as string_header, generic_array, null as null_header,
  true_header, false_header,
}
use structio.Beve.Header.Size.{le_bytes, size_bytes}
use structio.Beve.Writer.{Io, Writer, Put, offset, ◌then◌}
use structio.Beve.Writer.Buffer.{IoLaws, Sound, reach}
use structio.Beve.Writer.Emits.{
  Emits, Wrote, Wrote-offset, Emits-then, Emits-keep, Emits-push, Emits-size, Emits-write_null,
  Emits-write_bool, Emits-write_number, Emits-write_str, Emits-write_str_body,
  Emits-begin_generic_array,
}
use structio.Value.{
  Value, Items, Fields, null, bool, number, string, array, object, no_items, item, no_fields, field,
  items_len, fields_len, tag, bits_of, deeper, write_repr, write_key, write, write_items,
  write_fields,
}

-- A size in front of so many bytes.
abbrev pub sized : List ℕ → List ℕ
sized s = size_bytes (length s) ++ s

unfoldable mutual
  pub encode : Value → List ℕ
  encode null = null_header ∷ []
  encode (bool b) = (if b then true_header else false_header) ∷ []
  encode (number n) = tag n ∷ le_bytes 8 (bits_of n)
  encode (string s) = string_header ∷ sized s
  encode (array vs) = (generic_array ∷ size_bytes (items_len vs)) ++ encode_items vs
  encode (object fs) = (object_header ∷ size_bytes (fields_len fs)) ++ encode_fields fs

  pub encode_items : Items → List ℕ
  encode_items no_items = []
  encode_items (item v vs) = encode v ++ encode_items vs

  pub encode_fields : Fields → List ℕ
  encode_fields no_fields = []
  encode_fields (field k v fs) = (sized k ++ encode v) ++ encode_fields fs

-- How many levels of arrays and objects a tree has.
unfoldable mutual
  pub nesting : Value → ℕ
  nesting null = 0
  nesting (bool b) = 0
  nesting (number n) = 0
  nesting (string s) = 0
  nesting (array vs) = suc (nesting_items vs)
  nesting (object fs) = suc (nesting_fields fs)

  pub nesting_items : Items → ℕ
  nesting_items no_items = 0
  nesting_items (item v vs) = max (nesting v) (nesting_items vs)

  pub nesting_fields : Fields → ℕ
  nesting_fields no_fields = 0
  nesting_fields (field k v fs) = max (nesting v) (nesting_fields fs)

-- Every length is at most `max_size`, and every string satisfies `P`.
module _ (P : List ℕ → Type 0) where
  unfoldable mutual
    pub Writable : Value → Type 0
    Writable null = Unit {0}
    Writable (bool b) = Unit {0}
    Writable (number n) = Unit {0}
    Writable (string s) = (length s ≤ max_size) × P s
    Writable (array vs) = (items_len vs ≤ max_size) × WritableItems vs
    Writable (object fs) = (fields_len fs ≤ max_size) × WritableFields fs

    pub WritableItems : Items → Type 0
    WritableItems no_items = Unit {0}
    WritableItems (item v vs) = Writable v × WritableItems vs

    pub WritableFields : Fields → Type 0
    WritableFields no_fields = Unit {0}
    WritableFields (field k v fs) = (length k ≤ max_size) × P k × Writable v × WritableFields fs

module _ {io : Io} (laws : IoLaws io) (measure : Bool) (P : List ℕ → Type 0) where
  Emits-deeper :
      {bs : List ℕ} (n stack : ℕ) (body : ℕ → Put io)
      → suc n ≤ stack
      → ((left : ℕ) → n ≤ left → Emits laws measure bs (body left))
      → Emits laws measure bs (deeper stack body)
  unfolding deeper
  Emits-deeper n zero body h e = absurd (omega arith)
  Emits-deeper n (suc stack) body h e = record { at = λ w s. (e stack (omega arith)).at w s }

  pub write-Emits :
      (v : Value) (stack : ℕ)
      → nesting v ≤ stack
      → Writable P v
      → Emits laws measure (encode v) (write io measure stack v)
  unfolding write encode Writable nesting write_repr write_key
  write-Emits v =
      elim v
        as (λ v.
          (stack : ℕ)
          → nesting v ≤ stack
          → Writable P v
          → Emits laws measure (encode v) (write io measure stack v)) (λ vs.
            (stack : ℕ)
            → nesting_items vs ≤ stack
            → WritableItems P vs
            → Emits laws measure (encode_items vs) (write_items io measure stack vs)) (λ fs.
              (stack : ℕ)
              → nesting_fields fs ≤ stack
              → WritableFields P fs
              → Emits laws measure (encode_fields fs) (write_fields io measure stack fs)) [
                | null ↦ λ stack n h. Emits-write_null laws measure
                | bool b ↦ λ stack n h. Emits-write_bool laws measure b
                | number r ↦
                    λ stack n h. Emits-write_number laws measure (tag r) (le_bytes 8 (bits_of r))
                | string s ↦ λ stack n h. Emits-write_str laws measure s h.0
                | array (vs → ih) ↦ λ stack n h.
                    Emits-deeper (nesting_items vs) stack _ n (λ left k.
                      Emits-then laws measure
                        (Emits-begin_generic_array laws measure (items_len vs) h.0) (ih left k h.1))
                | object (fs → ih) ↦ λ stack n h.
                    Emits-deeper (nesting_fields fs) stack _ n (λ left k.
                      Emits-then laws measure
                        (Emits-then laws measure (Emits-push laws measure object_header)
                          (Emits-size laws measure (fields_len fs) h.0))
                        (ih left k h.1))
                | no_items ↦ λ stack n h. Emits-keep laws measure
                | item (v → ih) (vs → ihs) ↦ λ stack n h.
                    Emits-then laws measure (ih stack (omega (arith, n)) h.0)
                      (ihs stack (omega (arith, n)) h.1)
                | no_fields ↦ λ stack n h. Emits-keep laws measure
                | field k (v → ih) (fs → ihs) ↦ λ stack n h.
                    Emits-then laws measure
                      (Emits-then laws measure (Emits-write_str_body laws measure k h.0)
                        (ih stack (omega (arith, n)) h.2))
                      (ihs stack (omega (arith, n)) h.3)
              ]

  -- For a tree whose lengths are at most `max_size`, with room on the stack for its levels of arrays
  -- and objects, from a writer whose limit is within its capacity and whose skip is at most its origin
  -- and its buffered bytes together, where these and the encoding are under 2^64 bytes: `write`
  -- returns, with every store inside the allocation, having written the encoding of the tree. The
  -- offset moves past it in every mode; a measuring writer stores nothing; another one has buffered
  -- it or passed it to the sink in order, unless a write to the sink has failed.
  pub write-Wrote :
      (v : Value) (stack : ℕ)
      → nesting v ≤ stack
      → Writable P v
      → (w : Writer io) → Sound w
      → reach w + length (encode v) < 2 ^ 64
      → (w' : Writer io) × (write io measure stack v w ≡ some w')
        × Wrote laws measure (encode v) w w'
        × (offset io w' ≡ offset io w + length (encode v))
  write-Wrote v stack n h w s k =
      let (w', f, a) = (write-Emits v stack n h).at w s in (w', f, a, Wrote-offset laws measure s a)
