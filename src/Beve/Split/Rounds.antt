-- ===== src/Beve/Split/Rounds.antt =====
-- One round of `advance` of src/beve/stream/split.rs over a buffer that has grown: stepping over a
-- payload, popping the exhausted frames and serving a duty.
use structio.Prelude.{
  ℕ, ◌+◌, ◌-◌, ◌^◌, ◌≤◌, ◌<◌, ◌≡◌, refl, sym, ap, ◌∙◌, arith, true, false, ◌&&◌, none, some, List,
  [], ◌∷◌, ◌++◌, length, inl, inr, length-append, min, ltb, Bool-cases, ltb→lt, ltb→le,
  if◌then◌else◌,
}
use structio.Error.{ok, err, stuck}
use structio.Beve.Split.{
  Frame, Scanner, Tick, again, answer, drain, done, pop_done, is_empty, duty, after_drain, tick,
}
use structio.Beve.Split.Progress.{drain-inside}
use structio.Beve.Split.Resume.{SameUnlessWaits, serve-append}

pop_done-idempotent : (fs : List Frame) → pop_done (pop_done fs) ≡ pop_done fs
unfolding pop_done
pop_done-idempotent [] = refl
pop_done-idempotent (f ∷ fs) = elim (Bool-cases (done f)) [
  | inl e ↦ rw e (pop_done-idempotent fs)
  | inr e ↦ rw (e, pop_done, e) refl
]

-- A round over the grown buffer: where the old round waited, the round from the state it left is the
-- round from the state it began with; else the two rounds are one.
abbrev pub Resumes : (List ℕ) → Scanner → Tick → Type 0
Resumes bm s (again t) = tick bm s ≡ again t
Resumes bm s (answer (ok none) t) = tick bm t ≡ tick bm s
Resumes bm s (answer (ok (some e)) t) = tick bm s ≡ answer (ok (some e)) t
Resumes bm s (answer (err e) t) = tick bm s ≡ answer (err e) t
Resumes bm s (answer stuck t) = tick bm s ≡ answer stuck t

-- A state at another position with another payload left.
abbrev pub at : Scanner → ℕ → ℕ → Scanner
at s p q = record s { pos = p; pending = q }

pub at-eq : (s : Scanner) {p p' q q' : ℕ} → p ≡ p' → q ≡ q' → at s p q ≡ at s p' q'
at-eq s e f = rw (e, f) refl

pub drain-at :
    (buf : List ℕ) (s : Scanner)
    → drain buf s
      ≡ at s
          (s.pos + min s.pending (length buf - s.pos))
          (s.pending - min s.pending (length buf - s.pos))
unfolding drain
drain-at buf s = elim (Bool-cases (ltb 0 s.pending)) [
  | inl e ↦ rw e refl
  | inr e ↦ rw e (at-eq s (omega (arith, ltb→le _ _ e)) (omega (arith, ltb→le _ _ e)))
]

module _ (buf more : List ℕ) (s : Scanner) where
  drain-short :
      ltb 0 (drain buf s).pending ≡ true → drain (buf ++ more) (drain buf s) ≡ drain (buf ++ more) s
  drain-short h =
      ap (drain (buf ++ more)) (drain-at buf s)
      ∙ drain-at (buf ++ more) (at s p q)
      ∙ at-eq s (omega (arith, left, length-append buf more))
          (omega (arith, left, length-append buf more))
      ∙ sym (drain-at (buf ++ more) s)
    where
      p : ℕ
      p = s.pos + min s.pending (length buf - s.pos)

      q : ℕ
      q = s.pending - min s.pending (length buf - s.pos)

      left : 0 < q
      left = omega (arith, ap (λ (t : Scanner). t.pending) (drain-at buf s), ltb→lt _ _ h)

  drain-enough : ltb 0 (drain buf s).pending ≡ false → drain (buf ++ more) s ≡ drain buf s
  drain-enough h =
      drain-at (buf ++ more) s
      ∙ at-eq s (omega (arith, left, length-append buf more))
          (omega (arith, left, length-append buf more))
      ∙ sym (drain-at buf s)
    where
      left : s.pending - min s.pending (length buf - s.pos) ≤ 0
      left = omega (arith, ap (λ (t : Scanner). t.pending) (drain-at buf s), ltb→le _ _ h)

module _ (bm : List ℕ) (s t : Scanner) where
  settle :
      (x b : Tick) → SameUnlessWaits t x b → tick bm s ≡ b → tick bm t ≡ tick bm s → Resumes bm s x
  settle (again u) b h e f = e ∙ h
  settle (answer (ok none) u) b h e f = ap (tick bm) h ∙ f
  settle (answer (ok (some n)) u) b h e f = e ∙ h
  settle (answer (err c) u) b h e f = e ∙ h
  settle (answer stuck u) b h e f = e ∙ h

drain-nothing : (buf : List ℕ) (s : Scanner) → ltb 0 s.pending ≡ false → drain buf s ≡ s
unfolding drain
drain-nothing buf s h = rw h refl

tick-drained :
    (buf : List ℕ) (s : Scanner)
    → ltb 0 (drain buf s).pending ≡ false
    → tick buf s ≡ after_drain buf (drain buf s)
unfolding tick
tick-drained buf s h = rw h refl

popped : Scanner → Scanner
popped s = record s { stack = pop_done s.stack }

after_drain-popped : (buf : List ℕ) (s : Scanner) → after_drain buf (popped s) ≡ after_drain buf s
unfolding after_drain popped
after_drain-popped buf s = rw (pop_done-idempotent s.stack) refl

module _ (buf more : List ℕ) (s : Scanner) (inside : s.pos ≤ length buf)
    (fits : length buf < 2 ^ 64) where
  after_drain-append :
      (u : Scanner)
      → u.pos ≤ length buf
      → ltb 0 u.pending ≡ false
      → tick (buf ++ more) s ≡ after_drain (buf ++ more) u
      → Resumes (buf ++ more) s (after_drain buf u)
  unfolding after_drain popped
  after_drain-append u within e same =
      elim (Bool-cases (u.started && is_empty (pop_done u.stack))) [
        | inl f ↦ rw f (same ∙ rw (after_drain, f) refl)
        | inr f ↦ rw f (
            settle (buf ++ more) s (popped u) _ _
              (serve-append buf more (popped u) within (duty (popped u)) fits)
              (same ∙ rw (after_drain, f) refl) (again_from u e ∙ sym same))
      ]
    where
      again_from :
          (v : Scanner)
          → ltb 0 v.pending ≡ false
          → tick (buf ++ more) (popped v) ≡ after_drain (buf ++ more) v
      again_from v h =
          tick-drained (buf ++ more) (popped v)
            (ap (λ (t : Scanner). ltb 0 t.pending) (drain-nothing _ (popped v) h) ∙ h)
          ∙ ap (after_drain (buf ++ more)) (drain-nothing _ (popped v) h)
          ∙ after_drain-popped (buf ++ more) v

  -- One round, over a buffer and over that buffer grown.
  pub tick-append : Resumes (buf ++ more) s (tick buf s)
  unfolding tick
  tick-append = elim (Bool-cases (ltb 0 (drain buf s).pending)) [
    | inl e ↦ rw e (
        ap
          (λ (u : Scanner).
            if ltb 0 u.pending then answer (ok none) u else after_drain (buf ++ more) u)
          (drain-short buf more s e))
    | inr e ↦ rw e (after_drain-append (drain buf s) (drain-inside buf s inside).1 e (rest e))
  ]
    where
      rest :
          ltb 0 (drain buf s).pending ≡ false
          → tick (buf ++ more) s ≡ after_drain (buf ++ more) (drain buf s)
      rest e =
          let same = drain-enough buf more s e in
          tick-drained (buf ++ more) s (ap (λ (u : Scanner). ltb 0 u.pending) same ∙ e)
          ∙ ap (after_drain (buf ++ more)) same
