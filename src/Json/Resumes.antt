-- ===== src/Json/Resumes.antt =====
-- src/json/stream/split.rs: a comment cut anywhere ends where the whole of it ends.
use structio.Prelude.{
  ℕ, ◌+◌, ◌≤◌, ◌≡◌, refl, sym, ap, ◌∙◌, arith, Bool, true, false, ◌&&◌, List, [], ◌∷◌, ◌++◌, All,
  length, drop, drop-append, drop-append_left, length-drop, Option, none, some, ◌==◌, if◌then◌else◌,
}
use structio.Beve.Header.Size.{IsByte}
use structio.Swar.{find_byte}
use structio.Swar.Found.{first_at, or_else}
use structio.Swar.Find.{find_byte-first_at, first_at-append}
use structio.Json.Comment.{Comment, after_star, block_from, line_from, step, resumed}

abbrev starred : Bool → Comment
starred star = if star then Comment.block_star else Comment.block

both_args :
    (k : Comment) {xs ys : List ℕ} {i j : ℕ}
    → xs ≡ ys
    → i ≡ j
    → block_from k xs i ≡ block_from k ys j
both_args k e f = cc

module _ (whole : List ℕ) (n : ℕ) where
  ended :
      (t : Bool) (i : ℕ) (long short : Option ℕ × Comment)
      → long ≡ resumed whole n short
      → (if t then (some i, Comment.no) else long)
        ≡ resumed whole n (if t then (some i, Comment.no) else short)
  ended true i long short e = refl
  ended false i long short e = e

  block_from-resumed :
      (star : Bool) (xs ys : List ℕ) (i : ℕ)
      → drop n whole ≡ ys
      → i + length xs ≡ n
      → block_from (starred star) (xs ++ ys) i ≡ resumed whole n (block_from (starred star) xs i)
  unfolding block_from step
  block_from-resumed true [] ys i e at_ = both_args Comment.block_star (sym e) (omega (arith, at_))
  block_from-resumed false [] ys i e at_ = both_args Comment.block (sym e) (omega (arith, at_))
  block_from-resumed star (c ∷ xs) ys i e at_ =
      ended (after_star (starred star) && (c == 47)) (i + 1)
        (block_from (starred (c == 42)) (xs ++ ys) (i + 1))
        (block_from (starred (c == 42)) xs (i + 1))
        (block_from-resumed (c == 42) xs ys (i + 1) e (omega (arith, at_)))

  line_from-resumed :
      (o later : Option ℕ)
      → find_byte whole n 10 ≡ later
      → line_from (or_else o later) ≡ resumed whole n (line_from o)
  unfolding step
  line_from-resumed none later e = ap line_from (sym e)
  line_from-resumed (some end) later e = refl

All-left : (xs ys : List ℕ) → All IsByte (xs ++ ys) → All IsByte xs
All-left [] ys h = tt
All-left (x ∷ xs) ys (h, t) = (h, All-left xs ys t)

-- A comment that is still open at the end of the buffer, taken up there once more bytes have come, ends where it
-- ends over the grown buffer, and leaves what is left there; one that has ended in the buffer ends at the same
-- place over the grown one. This for a start inside the buffer.
pub step-resumed :
    (k : Comment) (buf more : List ℕ) (i : ℕ)
    → i ≤ length buf
    → All IsByte (buf ++ more)
    → step k (buf ++ more) i ≡ resumed (buf ++ more) (length buf) (step k buf i)
unfolding step
step-resumed Comment.no buf more i inside h = refl
step-resumed Comment.line buf more i inside h =
    ap line_from (
      whole_search
      ∙ sym (
          ap (λ (o : Option ℕ). or_else o later)
            (find_byte-first_at buf i 10 (All-left buf more h) (omega arith))))
    ∙ line_from-resumed (buf ++ more) (length buf) (find_byte buf i 10) later tail_search
  where
    later : Option ℕ
    later = first_at (λ x. x == 10) more (length buf)

    tail_search : find_byte (buf ++ more) (length buf) 10 ≡ later
    tail_search =
        find_byte-first_at (buf ++ more) (length buf) 10 h (omega arith)
        ∙ ap (λ (t : List ℕ). first_at (λ x. x == 10) t (length buf)) (drop-append buf more)

    whole_search :
        find_byte (buf ++ more) i 10 ≡ or_else (first_at (λ x. x == 10) (drop i buf) i) later
    whole_search =
        find_byte-first_at (buf ++ more) i 10 h (omega arith)
        ∙ ap (λ (t : List ℕ). first_at (λ x. x == 10) t i) (drop-append_left i buf more inside)
        ∙ first_at-append (λ x. x == 10) (drop i buf) more i
        ∙ ap
            (λ (k : ℕ).
              or_else (first_at (λ x. x == 10) (drop i buf) i) (first_at (λ x. x == 10) more k))
            (omega (arith, length-drop i buf, inside))
step-resumed Comment.block buf more i inside h =
    ap (λ (t : List ℕ). block_from Comment.block t i) (drop-append_left i buf more inside)
    ∙ block_from-resumed (buf ++ more) (length buf) false (drop i buf) more i (drop-append buf more)
        (omega (arith, length-drop i buf, inside))
step-resumed Comment.block_star buf more i inside h =
    ap (λ (t : List ℕ). block_from Comment.block_star t i) (drop-append_left i buf more inside)
    ∙ block_from-resumed (buf ++ more) (length buf) true (drop i buf) more i (drop-append buf more)
        (omega (arith, length-drop i buf, inside))
