-- ===== src/Tests/Maps.antt =====
-- Ordered maps of the letters: eight entries are scanned, and the ninth builds a table.
use structio.Prelude.{
  ℕ, suc, zero, ◌+◌, if◌then◌else◌, ◌%◌, ◌==◌, ◌≡◌, refl, arith, Bool, Option, none, some, List, [],
  ◌∷◌, ◌>>=◌,
}
use structio.Keymap.{bitmix, fold_bytes, to_u64_below_8, key_digest, full_hash}
use structio.Map.{
  load_limit, buckets_from, buckets_for, hash_key, mask, ideal, distance, next, place_from, place,
  place_all, bucket_from, erase_from, erase, shift_down_above, rebuild, find_from, find_in,
  bucket_of, position,
}
use structio.Map.Ordered.{
  OrderedMap, new, locate, find, get_key_value, get, contains_key, placed, reindex, push_new,
  insert, unplaced, remove_at, remove_entry, extend, retained, retain,
}
use structio.Map.Abstract.{entry_of, put, drop_key}
use structio.Map.Retain.{retain-retained, put_all, extend-put_all}
use structio.Map.Refines.{
  Valid, new-Valid, value_at, found_at, get-entry_of, insert-put, remove_entry-drop_key,
}

-- The letters from `c` on, with their numbers.
abbrev letters : ℕ → ℕ → List (List ℕ × ℕ)
letters zero c = []
letters (suc n) c = (c ∷ [], c) ∷ letters n (suc c)

abbrev eight : OrderedMap ℕ
eight = record { entries = letters 8 97; table = none }

eight-Valid : Valid eight
unfolding position
eight-Valid = record {
  distinct = (refl, (refl, (refl, (refl, (refl, (refl, (refl, (refl, tt))))))));
  short = omega arith;
  tabled = tt;
}

abbrev c_key : List ℕ
c_key = 99 ∷ []

abbrev z_key : List ℕ
z_key = 122 ∷ []

get-entry_of_example :
    (get_key_value c_key eight ≡ some (entry_of c_key (letters 8 97)))
    × (get c_key eight ≡ some (value_at (entry_of c_key (letters 8 97))))
    × (contains_key c_key eight ≡ some (found_at (entry_of c_key (letters 8 97))))
get-entry_of_example = get-entry_of c_key eight eight-Valid

-- The ninth key builds the table.
insert-put_example :
    (m' : OrderedMap ℕ) × (insert z_key 7 eight
      ≡ some (value_at (entry_of z_key (letters 8 97)), m'))
    × Valid m'
    × (m'.entries ≡ put z_key 7 (letters 8 97))
insert-put_example = insert-put z_key 7 eight eight-Valid (omega arith)

remove_entry-drop_key_example :
    (m' : OrderedMap ℕ) × (remove_entry c_key eight ≡ some (entry_of c_key (letters 8 97), m'))
    × Valid m'
    × (m'.entries ≡ drop_key c_key (letters 8 97))
remove_entry-drop_key_example = remove_entry-drop_key c_key eight eight-Valid

run_hash : hash_key c_key ≡ 2453669188
unfolding hash_key full_hash key_digest to_u64_below_8 fold_bytes bitmix
run_hash = refl

-- Ten letters, of which the third is looked up, taken out and looked up again.
abbrev tenfold : Option (OrderedMap ℕ)
tenfold = extend (letters 10 97) new

run_get : (tenfold >>= get c_key) ≡ some (some 99)
unfolding extend new insert locate push_new reindex rebuild placed get get_key_value find find_in
    find_from place_all place place_from next ideal distance mask hash_key full_hash key_digest
    to_u64_below_8 fold_bytes bitmix buckets_for buckets_from load_limit position
run_get = refl

-- What is left once the third letter is gone still has a table.
run_remove :
    (tenfold >>= remove_entry c_key >>= λ (r : Option (List ℕ × ℕ) × OrderedMap ℕ).
    get (100 ∷ []) r.1)
    ≡ some (some 100)
unfolding extend new insert locate push_new reindex rebuild placed get get_key_value find find_in
    find_from place_all place place_from next ideal distance mask hash_key full_hash key_digest
    to_u64_below_8 fold_bytes bitmix buckets_for buckets_from load_limit position remove_entry
    remove_at unplaced bucket_of bucket_from erase erase_from shift_down_above
run_remove = refl

-- The even letters, each with the number kept before it added.
abbrev evens : ℕ → List ℕ → ℕ → Bool × ℕ × ℕ
evens kept_before key n =
    ((n % 2) == 0, n + kept_before, if (n % 2) == 0 then suc kept_before else kept_before)

retain-retained_example :
    (m' : OrderedMap ℕ) × (retain evens 0 eight ≡ some (m', (retained evens 0 (letters 8 97)).1))
    × Valid m'
    × (m'.entries ≡ (retained evens 0 (letters 8 97)).0)
retain-retained_example = retain-retained evens 0 eight eight-Valid

-- The ninth entry builds the table, and the thirteenth doubles it.
extend-put_all_example :
    (m' : OrderedMap ℕ) × (extend (letters 14 97) new ≡ some m')
    × Valid m'
    × (m'.entries ≡ put_all (letters 14 97) [])
unfolding new
extend-put_all_example = extend-put_all (letters 14 97) new new-Valid (omega arith)
