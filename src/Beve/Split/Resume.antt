-- ===== src/Beve/Split/Resume.antt =====
-- Serving a duty of the walk of src/beve/stream/split.rs over a buffer that has grown.
use structio.Prelude.{
  ℕ, ◌+◌, ◌-◌, ◌^◌, ◌≤◌, ◌<◌, ◌≡◌, refl, arith, false, none, some, List, ◌++◌, length, inl, inr,
  length-append, ltb, Bool-cases, ltb→le, le→ltb, ◌==◌,
}
use structio.Error.{ok, err, stuck, unexpected_end}
use structio.Beve.Header.{decode_size, cat_float}
use structio.Beve.Header.Context.{decode_size-append}
use structio.Beve.Split.{
  Scanner, Duty, value, key, text, Tick, again, answer, size_at, head, read_text, serve_text,
  serve_key, serve_preamble, serve_value, serve,
}
use structio.Beve.Split.Progress.{size_at-cases}
use structio.Beve.Split.Preamble.{Preamble, head-append_ok, head-append_err, head-ne-stuck}

-- A round over the grown buffer against the same round over the old one: it waits where the old
-- one waited with the state unchanged, or it does the same.
abbrev pub SameUnlessWaits : Scanner → Tick → Tick → Type 0
SameUnlessWaits s (answer (ok none) t) b = t ≡ s
SameUnlessWaits s (answer (ok (some e)) t) b = b ≡ answer (ok (some e)) t
SameUnlessWaits s (answer (err e) t) b = b ≡ answer (err e) t
SameUnlessWaits s (answer stuck t) b = b ≡ answer stuck t
SameUnlessWaits s (again t) b = b ≡ again t

size_at-append :
    (buf more : List ℕ) (p n end : ℕ)
    → decode_size buf p ≡ ok (n, end)
    → size_at (buf ++ more) p ≡ some (n, end)
unfolding size_at
size_at-append buf more p n end e = rw (decode_size-append buf more p n end e, size_at)

module _ (buf more : List ℕ) (s : Scanner) (inside : s.pos ≤ length buf) where
  serve_text-append : SameUnlessWaits s (serve_text buf s) (serve_text (buf ++ more) s)
  unfolding serve_text read_text
  serve_text-append = elim (size_at-cases buf s.pos) [
    | inr e ↦ rw e refl
    | inl (n, end, d, e, _, _) ↦ elim (Bool-cases (ltb n (2 ^ 64))) [
      | inl f ↦ rw (e, size_at-append buf more s.pos n end d, f) refl
      | inr f ↦ rw (e, size_at-append buf more s.pos n end d, f) refl
    ]
  ]

  serve_key-append :
      (width : ℕ) → SameUnlessWaits s (serve_key buf width s) (serve_key (buf ++ more) width s)
  unfolding serve_key
  serve_key-append width = elim (Bool-cases (ltb (length buf - s.pos) width)) [
    | inl e ↦ rw e refl
    | inr e ↦ rw (e, le→ltb (length (buf ++ more) - s.pos) width (room e)) refl
  ]
    where
      room : ltb (length buf - s.pos) width ≡ false → width ≤ length (buf ++ more) - s.pos
      room e = omega (arith, ltb→le _ _ e, length-append buf more)

  serve_value-append :
      length buf < 2 ^ 64 → SameUnlessWaits s (serve_value buf s) (serve_value (buf ++ more) s)
  unfolding serve_value serve_preamble
  serve_value-append fits = go (head buf s.pos depth) refl
    where
      depth : ℕ
      depth = s.outer + length s.stack

      go :
          (x : Preamble)
          → head buf s.pos depth ≡ x
          → SameUnlessWaits s
              (serve_preamble x s)
              (serve_preamble (head (buf ++ more) s.pos depth) s)
      go (ok (used, skip, frame)) e =
          rw (head-append_ok buf more s.pos depth inside fits (used, skip, frame) e) refl
      go (err unexpected_end) e = refl
      go (err c) e = rw (head-append_err buf more s.pos depth inside fits c (λ p. cc) e) refl
      go stuck e = absurd (head-ne-stuck buf s.pos depth e)

  pub serve-append :
      (d : Duty) → length buf < 2 ^ 64 → SameUnlessWaits s (serve buf d s) (serve (buf ++ more) d s)
  unfolding serve
  serve-append value fits = serve_value-append fits
  serve-append text fits = serve_text-append
  serve-append (key cat width) fits = elim (Bool-cases (cat == cat_float)) [
    | inl e ↦ rw e serve_text-append
    | inr e ↦ rw e (serve_key-append width)
  ]
