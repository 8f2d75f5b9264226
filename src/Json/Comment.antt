-- ===== src/Json/Comment.antt =====
-- src/json/stream/split.rs: `Comment`, a comment that a buffer may end inside.
use structio.Prelude.{
  ℕ, ◌+◌, Bool, true, false, ◌&&◌, List, [], ◌∷◌, drop, get_elem?, Option, none, some, ◌==◌,
  if◌then◌else◌,
}
use structio.Swar.{find_byte}

pub data Comment : Type 0 where
  no : Comment
  line : Comment
  block : Comment
  block_star : Comment

-- Where the buffer has the second byte and it begins a comment, the kind.
unfoldable pub begin : List ℕ → ℕ → Option Comment
begin buf at_ = elim (get_elem? buf (at_ + 1)) [
  | none ↦ none
  | some c ↦ if c == 47 then some Comment.line else (if c == 42 then some Comment.block else none)
]

abbrev pub after_star : Comment → Bool
after_star Comment.block_star = true
after_star _ = false

-- What the loop over a block comment answers at the bytes from `i` on, and the state that it leaves.
unfoldable pub block_from : Comment → List ℕ → ℕ → Option ℕ × Comment
block_from k [] i = (none, k)
block_from k (c ∷ rest) i =
    let later = block_from (if c == 42 then Comment.block_star else Comment.block) rest (i + 1) in
    if after_star k && (c == 47) then (some (i + 1), Comment.no) else later

abbrev pub line_from : Option ℕ → Option ℕ × Comment
line_from none = (none, Comment.line)
line_from (some end) = (some end, Comment.no)

unfoldable pub step : Comment → List ℕ → ℕ → Option ℕ × Comment
step Comment.no buf i = (some i, Comment.no)
step Comment.line buf i = line_from (find_byte buf i 10)
step Comment.block buf i = block_from Comment.block (drop i buf) i
step Comment.block_star buf i = block_from Comment.block_star (drop i buf) i

-- An answer stands; a comment that is still open goes on over the grown buffer.
abbrev pub resumed : List ℕ → ℕ → Option ℕ × Comment → Option ℕ × Comment
resumed buf at_ (some i, k) = (some i, k)
resumed buf at_ (none, k) = step k buf at_
