-- ===== src/Map.antt =====
-- src/map.rs: the insertion-ordered map. A key is its bytes. `none` is a panic or a loop that does
-- not end; a `u32` wraps.
pub mod Ordered
pub mod Probe
pub mod Robin
pub mod Place
pub mod Tallies
pub mod Good
pub mod Find
pub mod Build
pub mod Erase
pub mod Shift
pub mod Taken
pub mod Abstract
pub mod Refines
pub mod Retain
use structio.Prelude.{
  ℕ, zero, suc, ◌+◌, ◌-◌, ◌*◌, ◌/◌, ◌%◌, ◌^◌, bit_and, Bool, true, false, not, ◌&&◌, ◌||◌, Option,
  none, some, List, [], ◌∷◌, ◌++◌, map, ltb, leb, ◌==◌, if◌then◌else◌, length, get_elem?, set, shr,
  ◌>>=◌,
}
use structio.Keymap.{full_hash}

abbrev pub linear_max : ℕ
linear_max = 8

abbrev pub min_buckets : ℕ
min_buckets = 16

unfoldable pub load_limit : ℕ → ℕ
load_limit buckets = buckets / 4 * 3

-- The loop of `buckets_for`, of which sixty-four rounds pass every number of entries.
unfoldable pub buckets_from : ℕ → ℕ → ℕ → ℕ
buckets_from zero entries buckets = buckets
buckets_from (suc rounds) entries buckets =
    let later = buckets_from rounds entries (buckets * 2) in
    if ltb (load_limit buckets) entries then later else buckets

unfoldable pub buckets_for : ℕ → ℕ
buckets_for entries = buckets_from 64 entries min_buckets

abbrev pub hash_seed : ℕ
hash_seed = 0xA0761D6478BD642F

abbrev pub max_indexed : ℕ
max_indexed = 2 ^ 32 - 1

unfoldable pub hash_key : List ℕ → ℕ
hash_key key = shr (full_hash key (length key) hash_seed) 32 % 2 ^ 32

-- `EMPTY`
abbrev pub empty_index : ℕ
empty_index = 2 ^ 32 - 1

-- `Bucket`
pub record Bucket : Type 0 where
  pub index : ℕ
  pub hash : ℕ

abbrev pub vacant : Bucket
vacant = record { index = empty_index; hash = 0 }

abbrev pub is_empty : Bucket → Bool
is_empty b = b.index == empty_index

-- `HashTable`
abbrev pub Table : Type 0
Table = List Bucket

unfoldable pub mask : Table → ℕ
mask t = (length t - 1) % 2 ^ 32

unfoldable pub ideal : Table → ℕ → ℕ
ideal t hash = bit_and hash (mask t)

unfoldable pub distance : Table → ℕ → ℕ → ℕ
distance t at_ hash = bit_and ((at_ + 2 ^ 32 - ideal t hash) % 2 ^ 32) (mask t)

unfoldable pub next : Table → ℕ → ℕ
next t at_ = bit_and ((at_ + 1) % 2 ^ 32) (mask t)

-- `==` of two keys
abbrev pub same_key : List ℕ → List ℕ → Bool
same_key [] [] = true
same_key (a ∷ k) (b ∷ l) = (a == b) && same_key k l
same_key _ _ = false

-- The loop of `place`, in at most so many rounds.
unfoldable pub place_from : ℕ → Bucket → ℕ → ℕ → Table → Option Table
place_from zero carried at_ travelled t = none
place_from (suc rounds) carried at_ travelled t = do
  occupant ← get_elem? t at_
  let theirs = distance t at_ occupant.hash
  let steals = ltb theirs travelled
  let later =
      place_from rounds (if steals then occupant else carried) (next t at_)
        ((if steals then theirs else travelled) + 1) (if steals then set t at_ carried else t)
  if is_empty occupant then some (set t at_ carried) else later

unfoldable pub place : Bucket → Table → Option Table
place entry t = place_from (length t) entry (ideal t entry.hash) 0 t

unfoldable pub place_all : List Bucket → Table → Option Table
place_all [] t = some t
place_all (b ∷ bs) t = place b t >>= place_all bs

-- The loop of `bucket_of`
unfoldable pub bucket_from : ℕ → ℕ → ℕ → Table → Option ℕ
bucket_from zero pos at_ t = none
bucket_from (suc rounds) pos at_ t = do
  bucket ← get_elem? t at_
  let later = bucket_from rounds pos (next t at_) t
  if bucket.index == pos then some at_ else later

-- The loop of `erase`, in at most so many rounds.
unfoldable pub erase_from : ℕ → ℕ → ℕ → Table → Option Table
erase_from zero hole curr t = none
erase_from (suc rounds) hole curr t = do
  bucket ← get_elem? t curr
  let later = erase_from rounds curr (next t curr) (set t hole bucket)
  (if is_empty bucket || (distance t curr bucket.hash == 0)
      then some (set t hole vacant)
      else later)

unfoldable pub erase : ℕ → Table → Option Table
erase at_ t = erase_from (length t) at_ (next t at_) t

-- What `shift_down_above` does to a bucket.
abbrev pub shift_down : ℕ → Bucket → Bucket
shift_down pos b =
    if not (is_empty b) && ltb pos b.index then record b { index = b.index - 1 } else b

unfoldable pub shift_down_above : ℕ → Table → Table
shift_down_above pos t = map (shift_down pos) t

abbrev pub all_vacant : ℕ → Table
all_vacant zero = []
all_vacant (suc n) = vacant ∷ all_vacant n

-- The buckets that hold something, in order.
abbrev pub held : Table → List Bucket
held [] = []
held (b ∷ bs) = if is_empty b then held bs else b ∷ held bs

unfoldable pub grow : Table → Option Table
grow t = place_all (held t) (all_vacant (length t * 2))

abbrev pub one_later : Option ℕ → Option ℕ
one_later none = none
one_later (some p) = some (suc p)

module _ {ℓ} {V : Type ℓ} where
  -- The buckets of the entries from the position `pos` on.
  abbrev pub indexed : ℕ → List (List ℕ × V) → List Bucket
  indexed pos [] = []
  indexed pos (e ∷ es) = record { index = pos % 2 ^ 32; hash = hash_key e.0 } ∷ indexed (suc pos) es

  unfoldable pub rebuild : List (List ℕ × V) → Option Table
  rebuild entries = place_all (indexed 0 entries) (all_vacant (buckets_for (length entries)))

  -- The answer where the hash of a bucket is the key's.
  abbrev pub confirmed : List (List ℕ × V) → List ℕ → ℕ → Option (Option ℕ) → Option (Option ℕ)
  confirmed entries key pos later = do
    entry ← get_elem? entries pos
    if same_key entry.0 key then some (some pos) else later

  -- The loop of `HashTable::find`, in at most so many rounds.
  unfoldable pub find_from : ℕ → List (List ℕ × V) → List ℕ → ℕ → ℕ → ℕ → Table → Option (Option ℕ)
  find_from zero entries key hash at_ travelled t = none
  find_from (suc rounds) entries key hash at_ travelled t = do
    bucket ← get_elem? t at_
    let later = find_from rounds entries key hash (next t at_) (travelled + 1) t
    (if is_empty bucket || ltb (distance t at_ bucket.hash) travelled
        then some none
        else if bucket.hash == hash
        then confirmed entries key bucket.index later
        else later)

  unfoldable pub find_in : List (List ℕ × V) → List ℕ → ℕ → Table → Option (Option ℕ)
  find_in entries key hash t = find_from (length t) entries key hash (ideal t hash) 0 t

  unfoldable pub bucket_of : List (List ℕ × V) → ℕ → Table → Option ℕ
  bucket_of entries pos t = do
    entry ← get_elem? entries pos
    bucket_from (length t) pos (ideal t (hash_key entry.0)) t

  -- `entries.iter().position(..)`
  unfoldable pub position : List ℕ → List (List ℕ × V) → Option ℕ
  position key [] = none
  position key (e ∷ es) =
      let later = one_later (position key es) in if same_key e.0 key then some 0 else later
