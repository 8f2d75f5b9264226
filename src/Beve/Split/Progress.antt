-- ===== src/Beve/Split/Progress.antt =====
-- What a round of `advance` of src/beve/stream/split.rs takes from the buffer and leaves of the stack.
use structio.Prelude.{
  ℕ, ◌+◌, ◌-◌, ◌≤◌, ◌<◌, ◌≡◌, ◌≢◌, refl, sym, arith, true, false, ◌&&◌, none, some, List, [], ◌∷◌,
  length, inl, inr, ltb, Bool-cases, ltb→le, ◌==◌, ◌⊎◌, ◌^◌,
}
use mathlib.Core.Path.{subst}
use structio.Error.{ok, err, stuck, unexpected_end}
use structio.Beve.Header.{decode_size, cat_float}
use structio.Beve.Header.Extent.{decode_size-cases}
use structio.Beve.Split.{
  Frame, object, values, texts, Scanner, Tick, again, answer, drain, pop_done, is_empty, duty,
  duty_of, taken, size_at, head, read_text, serve_text, serve_key, start_value, serve_preamble,
  serve_value, serve, after_drain, tick,
}
use structio.Beve.Split.Preamble.{Preamble, head-inside, head-ne-stuck}
use structio.Beve.Split.Frames.{
  SoundFrames, sound_width, sound_taken, sound_start, sound_pop, head-opens,
}

pub size_at-cases :
    (buf : List ℕ) (p : ℕ)
    → (((n : ℕ) × (end : ℕ) × (decode_size buf p ≡ ok (n, end))
          × (size_at buf p ≡ some (n, end))
          × (p < end)
          × (end ≤ length buf))
        ⊎ (size_at buf p ≡ none))
unfolding size_at
size_at-cases buf p = elim (decode_size-cases buf p) [
  | inl (n, end, e, lo, hi) ↦ inl (n, end, e, rw (e, size_at), lo, hi)
  | inr e ↦ inr (rw (e, size_at))
]

-- A round that goes on takes a byte at least, and one that answers goes back nowhere.
abbrev pub Progress : List ℕ → Scanner → Tick → Type 0
Progress buf s (again t) = (s.pos < t.pos) × (t.pos ≤ length buf) × SoundFrames t.stack
Progress buf s (answer x t) =
    (x ≢ stuck) × (s.pos ≤ t.pos) × (t.pos ≤ length buf) × SoundFrames t.stack

module _ (buf : List ℕ) (s : Scanner) (inside : s.pos ≤ length buf)
    (sound : SoundFrames s.stack) where
  waits : Progress buf s (answer (ok none) s)
  waits = (λ p. cc, omega arith, inside, sound)

  serve_text-Progress : Progress buf s (serve_text buf s)
  unfolding serve_text read_text taken
  serve_text-Progress = elim (size_at-cases buf s.pos) [
    | inr e ↦ rw e waits
    | inl (n, end, d, e, lo, hi) ↦ elim (Bool-cases (ltb n (2 ^ 64))) [
      | inl f ↦ rw (e, f) (lo, hi, sound_taken (record s { pos = end; pending = n }) sound)
      | inr f ↦ rw (e, f) (λ p. cc, omega arith, hi, sound)
    ]
  ]

  serve_key-Progress : (width : ℕ) → 1 ≤ width → Progress buf s (serve_key buf width s)
  unfolding serve_key taken
  serve_key-Progress width w = elim (Bool-cases (ltb (length buf - s.pos) width)) [
    | inl e ↦ rw e waits
    | inr e ↦ rw e (
      omega arith,
      omega (arith, ltb→le _ _ e),
      sound_taken (record s { pos = s.pos + width }) sound,
    )
  ]

  sound_preamble :
      (depth : ℕ) (x : Preamble) → head buf s.pos depth ≡ x → Progress buf s (serve_preamble x s)
  unfolding serve_preamble start_value taken
  sound_preamble depth (ok (used, skip, frame)) e =
      let (lo, hi) = head-inside buf s.pos depth used skip frame inside e in
      (
        omega (arith, lo),
        hi,
        sound_start used skip frame s (head-opens buf s.pos depth used skip frame e) sound,
      )
  sound_preamble depth (err unexpected_end) e = waits
  sound_preamble depth (err c) e = (λ p. cc, omega arith, inside, sound)
  sound_preamble depth stuck e = absurd (head-ne-stuck buf s.pos depth e)

  serve_value-Progress : Progress buf s (serve_value buf s)
  unfolding serve_value
  serve_value-Progress = sound_preamble (s.outer + length s.stack) _ refl

  duty-Progress : (fs : List Frame) → SoundFrames fs → Progress buf s (serve buf (duty_of fs) s)
  unfolding serve duty_of
  duty-Progress [] h = serve_value-Progress
  duty-Progress (object cat width left false ∷ fs) h = serve_value-Progress
  duty-Progress (object cat width left true ∷ fs) (w, h) = elim (Bool-cases (cat == cat_float)) [
    | inl e ↦ rw e serve_text-Progress
    | inr e ↦ rw e (serve_key-Progress width (sound_width cat width w e))
  ]
  duty-Progress (values left ∷ fs) h = serve_value-Progress
  duty-Progress (texts left ∷ fs) h = serve_text-Progress

after_drain-Progress :
    (buf : List ℕ) (s : Scanner)
    → s.pos ≤ length buf
    → SoundFrames s.stack
    → Progress buf s (after_drain buf s)
unfolding after_drain duty
after_drain-Progress buf s inside sound =
    elim (Bool-cases (s.started && is_empty (pop_done s.stack))) [
      | inl e ↦ rw e (λ p. cc, omega arith, inside, popped)
      | inr e ↦ rw e (
          duty-Progress buf (record s { stack = pop_done s.stack }) inside popped (pop_done s.stack)
            popped)
    ]
  where
    popped : SoundFrames (pop_done s.stack)
    popped = sound_pop s.stack sound

-- Stepping over the payload keeps the position inside the buffer.
pub drain-inside :
    (buf : List ℕ) (s : Scanner)
    → s.pos ≤ length buf
    → (s.pos ≤ (drain buf s).pos)
      × ((drain buf s).pos ≤ length buf)
      × ((drain buf s).stack ≡ s.stack)
unfolding drain
drain-inside buf s inside = elim (Bool-cases (ltb 0 s.pending)) [
  | inl e ↦ rw e (omega arith, omega arith, refl)
  | inr e ↦ rw e (omega arith, inside, refl)
]

pub Progress-from :
    (buf : List ℕ) (s t : Scanner) (x : Tick) → s.pos ≤ t.pos → Progress buf t x → Progress buf s x
Progress-from buf s t (again u) h (lo, hi, k) = (omega arith, hi, k)
Progress-from buf s t (answer x u) h (n, lo, hi, k) = (n, omega arith, hi, k)

pub tick-Progress :
    (buf : List ℕ) (s : Scanner)
    → s.pos ≤ length buf
    → SoundFrames s.stack
    → Progress buf s (tick buf s)
unfolding tick
tick-Progress buf s inside sound = elim (Bool-cases (ltb 0 (drain buf s).pending)) [
  | inl e ↦ rw e (λ p. cc, forward, within, kept)
  | inr e ↦ rw e (
      Progress-from buf s (drain buf s) _ forward
        (after_drain-Progress buf (drain buf s) within kept))
]
  where
    forward : s.pos ≤ (drain buf s).pos
    forward = (drain-inside buf s inside).0

    within : (drain buf s).pos ≤ length buf
    within = (drain-inside buf s inside).1

    kept : SoundFrames (drain buf s).stack
    kept = subst SoundFrames (sym ((drain-inside buf s inside).2)) sound
