-- ===== src/Tests/Comments.antt =====
-- Runs of the comments of src/json/stream/split.rs, cut between the two bytes that close one.
use structio.Prelude.{ℕ, ◌≡◌, refl, arith, List, [], ◌∷◌, ◌++◌, length, none, some}
use structio.Json.Comment.{Comment, begin, block_from, step, resumed}
use structio.Json.Resumes.{step-resumed}

abbrev opening : List ℕ
opening = 47 ∷ 42 ∷ 97 ∷ 42 ∷ []

abbrev closing : List ℕ
closing = 47 ∷ 49 ∷ []

begin_block : begin opening 0 ≡ some Comment.block
unfolding begin
begin_block = refl

step_open : step Comment.block opening 2 ≡ (none, Comment.block_star)
unfolding step block_from
step_open = refl

step-resumed_example :
    step Comment.block (opening ++ closing) 2
    ≡ resumed (opening ++ closing) (length opening) (step Comment.block opening 2)
step-resumed_example =
    step-resumed Comment.block opening closing 2 (omega arith)
      (omega arith, (omega arith, (omega arith, (omega arith, (omega arith, (omega arith, tt))))))
