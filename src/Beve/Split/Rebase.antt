-- ===== src/Beve/Split/Rebase.antt =====
-- `Scanner::rebase` of src/beve/stream/split.rs: the walk over what is left of the buffer once bytes
-- in front of it are discarded.
use structio.Prelude.{
  ℕ, zero, suc, ◌+◌, ◌-◌, ◌^◌, ◌≤◌, ◌≡◌, refl, sym, ap, ◌∙◌, arith, ◌&&◌, Option, none, some, List,
  length, drop, ltb, ◌==◌, if◌then◌else◌, Bool-cases, inl, inr, length-drop,
}
use structio.Error.{PResult, ok, err, stuck, unexpected_end}
use structio.Beve.Header.{cat_float}
use structio.Beve.Split.{
  Frame, Scanner, Duty, value, key, text, Tick, again, answer, drain, pop_done, is_empty, duty,
  taken, size_at, head, read_text, serve_text, serve_key, start_value, serve_preamble, serve_value,
  serve, after_drain, tick, run, advance, rebase,
}
use structio.Beve.Split.Offsets.{back_size, size_at-drop, head-drop}
use structio.Beve.Split.Preamble.{Preamble}
use structio.Beve.Split.Frames.{SoundFrames}
use structio.Beve.Split.Progress.{Progress, tick-Progress, size_at-cases, drain-inside}
use structio.Beve.Split.Rounds.{at-eq, drain-at}

-- A round, and an answer, with the offsets moved back.
abbrev pub back_end : ℕ → PResult (Option ℕ) → PResult (Option ℕ)
back_end c (ok (some e)) = ok (some (e - c))
back_end c (ok none) = ok none
back_end c (err e) = err e
back_end c stuck = stuck

abbrev pub back : ℕ → PResult (Option ℕ) × Scanner → PResult (Option ℕ) × Scanner
back c x = (back_end c x.0, rebase c x.1)

abbrev back_tick : ℕ → Tick → Tick
back_tick c (again t) = again (rebase c t)
back_tick c (answer x t) = answer (back_end c x) (rebase c t)

module _ (buf : List ℕ) (c : ℕ) where
  back_text :
      (o : Option (ℕ × ℕ)) (s : Scanner)
      → ((n end : ℕ) → o ≡ some (n, end) → c ≤ end)
      → read_text (back_size c o) (rebase c s) ≡ back_tick c (read_text o s)
  unfolding read_text rebase taken
  back_text none s h = refl
  back_text (some (n, end)) s h = elim (Bool-cases (ltb n (2 ^ 64))) [
    | inl e ↦ rw e refl
    | inr e ↦ rw e refl
  ]

  back_key :
      (width : ℕ) (s : Scanner)
      → c ≤ s.pos
      → s.pos ≤ length buf
      → serve_key (drop c buf) width (rebase c s) ≡ back_tick c (serve_key buf width s)
  unfolding serve_key rebase taken
  back_key width s le inside = rw same (elim (Bool-cases (ltb (length buf - s.pos) width)) [
    | inl e ↦ rw (e, serve_key) refl
    | inr e ↦ rw (e, serve_key) (ap (λ (t : ℕ). again (taken (record s { pos = t }))) (omega arith))
  ])
    where
      same : length (drop c buf) - (s.pos - c) ≡ length buf - s.pos
      same = omega (arith, length-drop c buf)

  back_start :
      (used skip : ℕ) (frame : Option Frame) (s : Scanner)
      → c ≤ s.pos
      → start_value used skip frame (rebase c s) ≡ rebase c (start_value used skip frame s)
  unfolding start_value rebase taken
  back_start used skip frame s le = rw shift refl
    where
      shift : s.pos - c + used ≡ s.pos + used - c
      shift = omega arith

  back_preamble :
      (x : Preamble) (s : Scanner)
      → c ≤ s.pos
      → serve_preamble x (rebase c s) ≡ back_tick c (serve_preamble x s)
  unfolding serve_preamble
  back_preamble (ok (used, skip, frame)) s le = ap again (back_start used skip frame s le)
  back_preamble (err unexpected_end) s le = refl
  back_preamble (err e) s le = refl
  back_preamble stuck s le = refl

  back_drain :
      (s : Scanner)
      → c ≤ s.pos
      → s.pos ≤ length buf
      → drain (drop c buf) (rebase c s) ≡ rebase c (drain buf s)
  unfolding rebase
  back_drain s le inside =
      drain-at (drop c buf) (rebase c s)
      ∙ at-eq s (omega (arith, length-drop c buf)) (omega (arith, length-drop c buf))
      ∙ ap (rebase c) (sym (drain-at buf s))

  served :
      (s : Scanner)
      → c ≤ s.pos
      → s.pos ≤ length buf
      → read_text (size_at (drop c buf) (s.pos - c)) (rebase c s)
        ≡ back_tick c (read_text (size_at buf s.pos) s)
  served s le inside =
      ap (λ (o : Option (ℕ × ℕ)). read_text o (rebase c s)) (size_at-drop buf c s.pos le inside)
      ∙ back_text (size_at buf s.pos) s behind
    where
      behind : (n end : ℕ) → size_at buf s.pos ≡ some (n, end) → c ≤ end
      behind n end e = elim (size_at-cases buf s.pos) [
        | inl (m, stop, d, f, lo, hi) ↦ ground (arith, f)
        | inr f ↦ cc (f, e)
      ]

  back_serve :
      (d : Duty) (s : Scanner)
      → c ≤ s.pos
      → s.pos ≤ length buf
      → serve (drop c buf) d (rebase c s) ≡ back_tick c (serve buf d s)
  unfolding serve serve_text serve_value rebase
  back_serve value s le inside =
      ap (λ (x : Preamble). serve_preamble x (rebase c s))
        (head-drop buf c s.pos le inside (s.outer + length s.stack))
      ∙ back_preamble (head buf s.pos (s.outer + length s.stack)) s le
  back_serve text s le inside = served s le inside
  back_serve (key cat width) s le inside = elim (Bool-cases (cat == cat_float)) [
    | inl e ↦ rw e (served s le inside)
    | inr e ↦ rw e (back_key width s le inside)
  ]

  back_after_drain :
      (s : Scanner)
      → c ≤ s.pos
      → s.pos ≤ length buf
      → after_drain (drop c buf) (rebase c s) ≡ back_tick c (after_drain buf s)
  unfolding after_drain duty rebase
  back_after_drain s le inside = elim (Bool-cases (s.started && is_empty (pop_done s.stack))) [
    | inl e ↦ rw e refl
    | inr e ↦ rw e (
        back_serve (duty (record s { stack = pop_done s.stack }))
          (record s { stack = pop_done s.stack }) le inside)
  ]

  back_decide :
      (u : Scanner)
      → c ≤ u.pos
      → u.pos ≤ length buf
      → (if ltb 0 (rebase c u).pending
          then answer (ok none) (rebase c u)
          else after_drain (drop c buf) (rebase c u))
        ≡ back_tick c (if ltb 0 u.pending then answer (ok none) u else after_drain buf u)
  unfolding rebase
  back_decide u le inside = elim (Bool-cases (ltb 0 u.pending)) [
    | inl e ↦ rw e refl
    | inr e ↦ rw e (back_after_drain u le inside)
  ]

  back_round :
      (s : Scanner)
      → c ≤ s.pos
      → s.pos ≤ length buf
      → tick (drop c buf) (rebase c s) ≡ back_tick c (tick buf s)
  unfolding tick
  back_round s le inside =
      ap
        (λ (u : Scanner).
          if ltb 0 u.pending then answer (ok none) u else after_drain (drop c buf) u)
        (back_drain s le inside)
      ∙ back_decide (drain buf s) (omega (arith, (drain-inside buf s inside).0))
          (drain-inside buf s inside).1

  back-run :
      (fuel : ℕ) (s : Scanner)
      → c ≤ s.pos
      → s.pos ≤ length buf
      → SoundFrames s.stack
      → run fuel (drop c buf) (rebase c s) ≡ back c (run fuel buf s)
  unfolding run
  back-run zero s le inside sound = refl
  back-run (suc fuel) s le inside sound =
      ap (λ (x : Tick). elim x [ again t ↦ run fuel (drop c buf) t | answer x t ↦ (x, t) ])
        (back_round s le inside)
      ∙ go (back-run fuel) (tick buf s) (tick-Progress buf s inside sound)
    where
      go :
          ((t : Scanner)
            → c ≤ t.pos
            → t.pos ≤ length buf
            → SoundFrames t.stack
            → run fuel (drop c buf) (rebase c t) ≡ back c (run fuel buf t))
          → (x : Tick) → Progress buf s x
          → elim (back_tick c x) [ again t ↦ run fuel (drop c buf) t | answer x t ↦ (x, t) ]
            ≡ back c (elim x [ again t ↦ run fuel buf t | answer x t ↦ (x, t) ])
      go later (again t) (lo, hi, k) = later t (omega arith) hi k
      go later (answer x t) p = refl

-- From a sound state at a position inside the buffer, where bytes that the position has passed are
-- discarded and the state is rebased by as many, `advance` over what is left does what it does
-- over the whole buffer: the end that it answers and the position that it leaves are moved back by
-- the bytes discarded, and a wait and a refusal are the same.
pub advance-rebase :
    (buf : List ℕ) (c : ℕ) (s : Scanner)
    → c ≤ s.pos
    → s.pos ≤ length buf
    → SoundFrames s.stack
    → advance (drop c buf) (rebase c s) ≡ back c (advance buf s)
unfolding advance rebase
advance-rebase buf c s le inside sound =
    ap (λ (n : ℕ). run (suc n) (drop c buf) (rebase c s)) (omega (arith, length-drop c buf))
    ∙ back-run buf c (suc (length buf - s.pos)) s le inside sound
