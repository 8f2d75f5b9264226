-- ===== src/Map/Ordered.antt =====
-- src/map.rs: `OrderedMap` over its table. The capacity of the entries is left out.
use structio.Prelude.{
  ℕ, zero, suc, ◌-◌, ◌%◌, ◌^◌, Bool, true, false, Option, none, some, List, [], ◌∷◌, ◌++◌, ltb, leb,
  ◌==◌, if◌then◌else◌, length, get_elem?, set, ◌>>=◌,
}
use structio.Map.{
  linear_max, max_indexed, load_limit, hash_key, Table, place, erase, grow, shift_down_above,
  rebuild, find_in, bucket_of, position,
}

-- `Lookup`
pub data Lookup : Type 0 where
  occupied_at : ℕ → Lookup
  vacant_at : Option ℕ → Lookup

-- `OrderedMap`
pub record OrderedMap {ℓ} (V : Type ℓ) : Type ℓ where
  pub entries : List (List ℕ × V)
  pub table : Option Table

-- `Vec::remove`, in bounds
abbrev pub without {ℓ} : {A : Type ℓ} → ℕ → List A → List A
without i [] = []
without zero (x ∷ xs) = xs
without (suc i) (x ∷ xs) = x ∷ without i xs

lookup_of : ℕ → Option ℕ → Lookup
lookup_of hash none = vacant_at (some hash)
lookup_of hash (some pos) = occupied_at pos

scanned : Option ℕ → Lookup
scanned none = vacant_at none
scanned (some pos) = occupied_at pos

is_some : Option ℕ → Bool
is_some none = false
is_some (some pos) = true

-- `hash.unwrap_or_else(..)`
abbrev pub hash_or : List ℕ → Option ℕ → ℕ
hash_or key none = hash_key key
hash_or key (some hash) = hash

module _ {ℓ} {V : Type ℓ} where
  unfoldable pub new : OrderedMap V
  new = record { entries = []; table = none }

  unfoldable pub clear : OrderedMap V → OrderedMap V
  clear m = record { entries = []; table = none }

  unfoldable pub locate : List ℕ → OrderedMap V → Option Lookup
  unfolding lookup_of scanned
  locate key m = elim m.table [
    | none ↦ some (scanned (position key m.entries))
    | some t ↦ do
      found ← find_in m.entries key (hash_key key) t
      some (lookup_of (hash_key key) found)
  ]

  unfoldable pub find : List ℕ → OrderedMap V → Option (Option ℕ)
  find key m = do
    found ← locate key m
    elim found [ occupied_at pos ↦ some (some pos) | vacant_at hash ↦ some none ]

  -- `self.entries[pos]` of what `find` found.
  entry_at : OrderedMap V → Option ℕ → Option (Option (List ℕ × V))
  entry_at m none = some none
  entry_at m (some pos) = do entry ← get_elem? m.entries pos; some (some entry)

  unfoldable pub get_key_value : List ℕ → OrderedMap V → Option (Option (List ℕ × V))
  unfolding entry_at
  get_key_value key m = find key m >>= entry_at m

  value_of : Option (List ℕ × V) → Option V
  value_of none = none
  value_of (some entry) = some entry.1

  unfoldable pub get : List ℕ → OrderedMap V → Option (Option V)
  unfolding value_of
  get key m = do entry ← get_key_value key m; some (value_of entry)

  unfoldable pub contains_key : List ℕ → OrderedMap V → Option Bool
  unfolding is_some
  contains_key key m = do found ← find key m; some (is_some found)

  -- A bucket for the entry that was put at the end, in a table with room.
  unfoldable pub placed : List (List ℕ × V) → ℕ → ℕ → Table → Option Table
  placed entries pos hash t = do
    roomy ← (if ltb (load_limit (length t)) (length entries) then grow t else some t)
    place (record { index = pos % 2 ^ 32; hash = hash }) roomy

  unfoldable pub reindex : OrderedMap V → Option (OrderedMap V)
  reindex m =
      if leb (length m.entries) linear_max
      then some (record m { table = none })
      else if ltb max_indexed (length m.entries)
      then some (record m { table = none })
      else (do t ← rebuild m.entries; some (record m { table = some t }))

  unfoldable pub push_new : List ℕ → V → Option ℕ → OrderedMap V → Option (OrderedMap V)
  push_new key value hash m =
      let pushed = record m { entries = m.entries ++ (key, value) ∷ [] } in
      if leb (length pushed.entries) linear_max
      then some pushed
      else if ltb max_indexed (length pushed.entries)
      then some (record pushed { table = none })
      else elim m.table [
        | none ↦ reindex pushed
        | some t ↦ do
          t' ← placed pushed.entries (length m.entries) (hash_or key hash) t
          some (record pushed { table = some t' })
      ]

  -- `std::mem::replace(&mut self.entries[pos].1, value)`
  replaced : ℕ → V → OrderedMap V → Option (Option V × OrderedMap V)
  replaced pos value m = do
    entry ← get_elem? m.entries pos
    some (some entry.1, record m { entries = set m.entries pos (entry.0, value) })

  unfoldable pub insert : List ℕ → V → OrderedMap V → Option (Option V × OrderedMap V)
  unfolding replaced
  insert key value m = do
    found ← locate key m
    elim found [
      | occupied_at pos ↦ replaced pos value m
      | vacant_at hash ↦ do m' ← push_new key value hash m; some (none, m')
    ]

  -- What `remove_at` leaves where the map keeps its table.
  unfoldable pub unplaced : ℕ → Table → OrderedMap V → Option (OrderedMap V)
  unplaced pos t m = do
    at_ ← bucket_of m.entries (pos % 2 ^ 32) t
    erased ← erase at_ t
    some (record m {
      entries = without pos m.entries;
      table = some (shift_down_above (pos % 2 ^ 32) erased);
    })

  unfoldable pub remove_at : ℕ → OrderedMap V → Option ((List ℕ × V) × OrderedMap V)
  remove_at pos m = do
    removed ← get_elem? m.entries pos
    let plain = reindex (record m { entries = without pos m.entries })
    m' ←
        (if ltb linear_max (length m.entries - 1)
          then elim m.table [ none ↦ plain | some t ↦ unplaced pos t m ]
          else plain)
    some (removed, m')

  removed_at : OrderedMap V → Option ℕ → Option (Option (List ℕ × V) × OrderedMap V)
  removed_at m none = some (none, m)
  removed_at m (some pos) = do (removed, m') ← remove_at pos m; some (some removed, m')

  unfoldable pub remove_entry : List ℕ → OrderedMap V → Option (Option (List ℕ × V) × OrderedMap V)
  unfolding removed_at
  remove_entry key m = find key m >>= removed_at m

  -- `Vec::retain_mut` with a closure that answers whether to keep an entry, its value then, and the
  -- state of the closure.
  unfoldable pub retained :
      {S : Type ℓ} → (S → List ℕ → V → Bool × V × S) → S → List (List ℕ × V) → List (List ℕ × V) × S
  retained f s [] = ([], s)
  retained f s (e ∷ es) =
      let (keep, value, s') = f s e.0 e.1 in
      let (later, last) = retained f s' es in (if keep then (e.0, value) ∷ later else later, last)

  unfoldable pub retain :
      {S : Type ℓ} → (S → List ℕ → V → Bool × V × S) → S → OrderedMap V → Option (OrderedMap V × S)
  retain f s m = do
    let (entries, last) = retained f s m.entries
    let thinned = record m { entries = entries }
    m' ← (if length entries == length m.entries then some thinned else reindex thinned)
    some (m', last)

  -- The loop of `Extend::extend`
  unfoldable pub extend : List (List ℕ × V) → OrderedMap V → Option (OrderedMap V)
  extend [] m = some m
  extend (e ∷ es) m = do (old, m') ← insert e.0 e.1 m; extend es m'
