-- ===== src/Value.antt =====
-- src/value.rs: the document tree, and its `beve::Write`. A string is its bytes, a machine word its 64
-- bits, and an object its members in the order of the map's iteration.
pub mod Written
pub mod Extent
pub mod Appended
use structio.Prelude.{ℕ, zero, suc, Bool, none, List}
use structio.Beve.Header.{
  number as number_header, object as object_header, code_for, cat_float, cat_signed, cat_unsigned,
}
use structio.Beve.Header.Size.{le_bytes, size_bytes}
use structio.Beve.Writer.{
  Io, Put, ◌then◌, keep, push, size, write_null, write_bool, write_number, write_str,
  write_str_body, begin_generic_array,
}

-- `Repr`
pub data Repr : Type 0 where
  unsigned signed float : ℕ → Repr

-- `Value`; `Items` and `Fields` are the list of an array and the members of an object.
mutual
  pub data Value : Type 0 where
    null : Value
    bool : Bool → Value
    number : Repr → Value
    string : List ℕ → Value
    array : Items → Value
    object : Fields → Value

  pub data Items : Type 0 where
    no_items : Items
    item : Value → Items → Items

  pub data Fields : Type 0 where
    no_fields : Fields
    field : List ℕ → Value → Fields → Fields

abbrev pub items_len : Items → ℕ
items_len no_items = 0
items_len (item v vs) = suc (items_len vs)

abbrev pub fields_len : Fields → ℕ
fields_len no_fields = 0
fields_len (field k v fs) = suc (fields_len fs)

-- `TAG` of the `Write` of `u64`, `i64` and `f64`
abbrev pub tag : Repr → ℕ
tag (unsigned bits) = number_header cat_unsigned (code_for 8)
tag (signed bits) = number_header cat_signed (code_for 8)
tag (float bits) = number_header cat_float 3

abbrev pub bits_of : Repr → ℕ
bits_of (unsigned bits) = bits
bits_of (signed bits) = bits
bits_of (float bits) = bits

-- One level more on the stack. Where the stack has room for no more the program aborts, which is `none`.
unfoldable pub deeper : {io : Io} → ℕ → (ℕ → Put io) → Put io
deeper zero body w = none
deeper (suc stack) body w = body stack w

module _ (io : Io) (measure : Bool) where
  -- `self.to_le_bytes()`
  unfoldable pub write_repr : Repr → Put io
  write_repr n = write_number io measure (tag n) (le_bytes 8 (bits_of n))

  unfoldable pub write_key : List ℕ → Put io
  write_key k = write_str_body io measure k

  -- The argument is how many levels of arrays and objects the stack has room for.
  -- The loops of `write_iter` and `write_keyed` are over `Items` and `Fields`.
  unfoldable mutual
    pub write : ℕ → Value → Put io
    write stack null = write_null io measure
    write stack (bool b) = write_bool io measure b
    write stack (number n) = write_repr n
    write stack (string s) = write_str io measure s
    write stack (array vs) =
        deeper stack
          (λ left. begin_generic_array io measure (items_len vs) then write_items left vs)
    write stack (object fs) = deeper stack (λ left.
        push io measure object_header
        then size io measure (fields_len fs)
        then write_fields left fs)

    pub write_items : ℕ → Items → Put io
    write_items stack no_items = keep
    write_items stack (item v vs) = write stack v then write_items stack vs

    pub write_fields : ℕ → Fields → Put io
    write_fields stack no_fields = keep
    write_fields stack (field k v fs) = write_key k then write stack v then write_fields stack fs
