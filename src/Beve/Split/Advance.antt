-- ===== src/Beve/Split/Advance.antt =====
-- `advance` of src/beve/stream/split.rs over a buffer that grows, and over a stream that comes in
-- chunks.
use structio.Prelude.{
  ℕ, zero, suc, ◌+◌, ◌-◌, ◌^◌, ◌≤◌, ◌<◌, ◌≡◌, ◌≢◌, refl, sym, ap, ◌∙◌, arith, Option, none, some,
  List, [], ◌∷◌, ◌++◌, length, length-append,
}
use mathlib.Core.Path.{subst}
use mathlib.Core.List.{append-nil, append_assoc}
use structio.Error.{PResult, ok, err, stuck}
use structio.Beve.Split.{Scanner, Tick, again, answer, tick, run, advance}
use structio.Beve.Split.Frames.{SoundFrames}
use structio.Beve.Split.Progress.{Progress, tick-Progress, Progress-from}
use structio.Beve.Split.Rounds.{Resumes, tick-append}

-- What the rest of the walk answers after a round.
abbrev after : ℕ → List ℕ → Tick → PResult (Option ℕ) × Scanner
after fuel buf (again t) = run fuel buf t
after fuel buf (answer x t) = (x, t)

abbrev Answered : List ℕ → Scanner → PResult (Option ℕ) × Scanner → Type 0
Answered buf s (x, t) = Progress buf s (answer x t)

-- A claim on the states from which the walk goes on.
abbrev Later : List ℕ → ℕ → (Scanner → Type 0) → Type 0
Later buf fuel P =
    (t : Scanner) → t.pos ≤ length buf → SoundFrames t.stack → length buf - t.pos < fuel → P t

module _ (buf : List ℕ) where
  run-Progress : (fuel : ℕ) → Later buf fuel (λ s. Answered buf s (run fuel buf s))
  unfolding run
  run-Progress zero s inside sound enough = absurd (omega arith)
  run-Progress (suc fuel) s inside sound enough =
      go (run-Progress fuel) (tick buf s) (tick-Progress buf s inside sound)
    where
      go :
          Later buf fuel (λ t. Answered buf t (run fuel buf t))
          → (x : Tick) → Progress buf s x
          → Answered buf s (elim x [ again t ↦ run fuel buf t | answer x t ↦ (x, t) ])
      go later (again t) (lo, hi, k) =
          Progress-from buf s t (answer (run fuel buf t).0 (run fuel buf t).1) (omega arith)
            (later t hi k (omega arith))
      go later (answer x t) p = p

  run-enough : (n m : ℕ) → Later buf n (λ s. length buf - s.pos < m → run n buf s ≡ run m buf s)
  unfolding run
  run-enough zero m s inside sound a b = absurd (omega arith)
  run-enough (suc n) zero s inside sound a b = absurd (omega arith)
  run-enough (suc n) (suc m) s inside sound a b =
      go (run-enough n m) (tick buf s) (tick-Progress buf s inside sound)
    where
      go :
          Later buf n (λ t. length buf - t.pos < m → run n buf t ≡ run m buf t)
          → (x : Tick) → Progress buf s x
          → elim x [ again t ↦ run n buf t | answer x t ↦ (x, t) ]
            ≡ elim x [ again t ↦ run m buf t | answer x t ↦ (x, t) ]
      go later (again t) (lo, hi, k) = later t hi k (omega arith) (omega arith)
      go later (answer x t) p = refl

  -- `advance` in terms of itself: one round, then the rest.
  continued : Tick → PResult (Option ℕ) × Scanner
  continued (again t) = advance buf t
  continued (answer x t) = (x, t)

  advance-round :
      (s : Scanner)
      → s.pos ≤ length buf
      → SoundFrames s.stack
      → advance buf s ≡ continued (tick buf s)
  unfolding advance run continued
  advance-round s inside sound = go (tick buf s) (tick-Progress buf s inside sound)
    where
      go :
          (x : Tick)
          → Progress buf s x
          → elim x [ again t ↦ run (length buf - s.pos) buf t | answer x t ↦ (x, t) ] ≡ continued x
      go (again t) (lo, hi, k) =
          run-enough (length buf - s.pos) (suc (length buf - t.pos)) t hi k (omega arith)
            (omega arith)
      go (answer x t) p = refl

  -- From a sound state at a position inside the buffer `advance` answers before its fuel runs out,
  -- does not move its position back, leaves it inside the buffer, and leaves a sound state.
  pub advance-answers :
      (s : Scanner)
      → s.pos ≤ length buf
      → SoundFrames s.stack
      → ((advance buf s).0 ≢ stuck)
        × (s.pos ≤ (advance buf s).1.pos)
        × ((advance buf s).1.pos ≤ length buf)
        × SoundFrames (advance buf s).1.stack
  unfolding advance
  advance-answers s inside sound =
      run-Progress (suc (length buf - s.pos)) s inside sound (omega arith)

-- An answer, against the answer over the grown buffer.
abbrev Matches : List ℕ → Scanner → PResult (Option ℕ) × Scanner → Type 0
Matches bm s (ok none, t) = advance bm t ≡ advance bm s
Matches bm s (ok (some e), t) = advance bm s ≡ (ok (some e), t)
Matches bm s (err c, t) = advance bm s ≡ (err c, t)
Matches bm s (stuck, t) = Unit

Matches-from :
    (bm : List ℕ) (s t : Scanner) (x : PResult (Option ℕ) × Scanner)
    → advance bm s ≡ advance bm t
    → Matches bm t x
    → Matches bm s x
Matches-from bm s t (ok none, u) e h = h ∙ sym e
Matches-from bm s t (ok (some n), u) e h = e ∙ h
Matches-from bm s t (err c, u) e h = e ∙ h
Matches-from bm s t (stuck, u) e h = tt

module _ (buf more : List ℕ) (fits : length buf < 2 ^ 64) where
  round :
      (s : Scanner)
      → s.pos ≤ length buf
      → SoundFrames s.stack
      → advance (buf ++ more) s ≡ continued (buf ++ more) (tick (buf ++ more) s)
  round s inside sound = advance-round (buf ++ more) s (omega (arith, length-append buf more)) sound

  matched_answer :
      (s : Scanner) (x : PResult (Option ℕ)) (t : Scanner)
      → s.pos ≤ length buf
      → SoundFrames s.stack
      → Progress buf s (answer x t)
      → Resumes (buf ++ more) s (answer x t)
      → Matches (buf ++ more) s (x, t)
  unfolding continued
  matched_answer s (ok none) t inside sound (n, lo, hi, k) e =
      round t hi k ∙ ap (continued (buf ++ more)) e ∙ sym (round s inside sound)
  matched_answer s (ok (some n)) t inside sound p e =
      round s inside sound ∙ ap (continued (buf ++ more)) e
  matched_answer s (err c) t inside sound p e =
      round s inside sound ∙ ap (continued (buf ++ more)) e
  matched_answer s stuck t inside sound p e = tt

  going :
      (s t : Scanner)
      → s.pos ≤ length buf
      → SoundFrames s.stack
      → tick (buf ++ more) s ≡ again t
      → advance (buf ++ more) s ≡ advance (buf ++ more) t
  unfolding continued
  going s t inside sound e = round s inside sound ∙ ap (continued (buf ++ more)) e

  run-Matches : (fuel : ℕ) → Later buf fuel (λ s. Matches (buf ++ more) s (run fuel buf s))
  unfolding run
  run-Matches zero s inside sound enough = absurd (omega arith)
  run-Matches (suc fuel) s inside sound enough =
      go (run-Matches fuel) (tick buf s) (tick-Progress buf s inside sound)
        (tick-append buf more s inside fits)
    where
      go :
          Later buf fuel (λ t. Matches (buf ++ more) t (run fuel buf t))
          → (x : Tick) → Progress buf s x
          → Resumes (buf ++ more) s x
          → Matches (buf ++ more) s (elim x [ again t ↦ run fuel buf t | answer x t ↦ (x, t) ])
      go later (again t) (lo, hi, k) e =
          Matches-from (buf ++ more) s t _ (going s t inside sound e) (later t hi k (omega arith))
      go later (answer x t) p e = matched_answer s x t inside sound p e

  advance-Matches :
      (s : Scanner)
      → s.pos ≤ length buf
      → SoundFrames s.stack
      → Matches (buf ++ more) s (advance buf s)
  unfolding advance
  advance-Matches s inside sound =
      run-Matches (suc (length buf - s.pos)) s inside sound (omega arith)

  -- From a sound state at a position inside a buffer of fewer than 2^64 bytes: where `advance`
  -- waits for more bytes, going on over the grown buffer from the state that it left comes to the
  -- answer and the state that it comes to from the state it began with.
  pub advance-resumes :
      (s t : Scanner)
      → s.pos ≤ length buf
      → SoundFrames s.stack
      → advance buf s ≡ (ok none, t)
      → advance (buf ++ more) t ≡ advance (buf ++ more) s
  advance-resumes s t inside sound e =
      subst (Matches (buf ++ more) s) e (advance-Matches s inside sound)

  -- From a sound state at a position inside a buffer of fewer than 2^64 bytes: an answer that is
  -- no wait, and the state left with it, are the same over the grown buffer.
  pub advance-settled :
      (s t : Scanner) (x : PResult (Option ℕ))
      → s.pos ≤ length buf
      → SoundFrames s.stack
      → x ≢ ok none
      → advance buf s ≡ (x, t)
      → advance (buf ++ more) s ≡ (x, t)
  advance-settled s t (ok none) inside sound ne e = absurd (ne refl)
  advance-settled s t (ok (some n)) inside sound ne e =
      subst (Matches (buf ++ more) s) e (advance-Matches s inside sound)
  advance-settled s t (err c) inside sound ne e =
      subst (Matches (buf ++ more) s) e (advance-Matches s inside sound)
  advance-settled s t stuck inside sound ne e =
      absurd
        ((advance-answers buf s inside sound).0 (ap (λ (x : PResult (Option ℕ) × Scanner). x.0) e))

-- A stream that arrives in chunks: `advance` runs over what has come, and again after each chunk for
-- as long as it waits.
unfoldable pub feed : List ℕ → List (List ℕ) → Scanner → PResult (Option ℕ) × Scanner
feed buf [] s = advance buf s
feed buf (c ∷ cs) s =
    let rest = feed (buf ++ c) cs (advance buf s).1 in
    elim (advance buf s).0 [ ok none ↦ rest | x ↦ (x, (advance buf s).1) ]

abbrev pub concat : List (List ℕ) → List ℕ
concat [] = []
concat (c ∷ cs) = c ++ concat cs

-- A stream of fewer than 2^64 bytes cut into chunks anywhere, fed to `advance` chunk by chunk for
-- as long as it waits, from a sound state at a position inside the first chunk, ends in the answer
-- and the state of one `advance` over the whole stream.
pub feed-advance :
    (buf : List ℕ) (cs : List (List ℕ)) (s : Scanner)
    → s.pos ≤ length buf
    → SoundFrames s.stack
    → length buf + length (concat cs) < 2 ^ 64
    → feed buf cs s ≡ advance (buf ++ concat cs) s
unfolding feed
feed-advance buf [] s inside sound fits = ap (λ b. advance b s) (sym (append-nil buf))
feed-advance buf (c ∷ cs) s inside sound fits =
    go (advance buf s) refl (advance-answers buf s inside sound) (λ t. feed-advance (buf ++ c) cs t)
  where
    go :
        (x : PResult (Option ℕ) × Scanner)
        → advance buf s ≡ x
        → Answered buf s x
        → ((t : Scanner)
            → t.pos ≤ length (buf ++ c)
            → SoundFrames t.stack
            → length (buf ++ c) + length (concat cs) < 2 ^ 64
            → feed (buf ++ c) cs t ≡ advance ((buf ++ c) ++ concat cs) t)
        → elim x.0 [ ok none ↦ feed (buf ++ c) cs x.1 | y ↦ (y, x.1) ]
          ≡ advance (buf ++ (c ++ concat cs)) s
    go (ok none, t) e (n, lo, hi, k) ih =
        ih t (omega (arith, length-append buf c)) k
          (omega (arith, length-append buf c, length-append c (concat cs)))
        ∙ ap (λ b. advance b t) (append_assoc buf c (concat cs))
        ∙ advance-resumes buf (c ++ concat cs) (omega arith) s t inside sound e
    go (ok (some m), t) e h ih = sym (
        advance-settled buf (c ++ concat cs) (omega arith) s t (ok (some m)) inside sound (λ p. cc)
          e)
    go (err m, t) e h ih =
        sym
          (advance-settled buf (c ++ concat cs) (omega arith) s t (err m) inside sound (λ p. cc) e)
    go (stuck, t) e h ih = absurd (h.0 refl)
