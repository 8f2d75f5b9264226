-- ===== src/Beve/Split/Preamble.antt =====
-- `head` of src/beve/stream/split.rs: reading a preamble out of a buffer that may grow.
use structio.Prelude.{
  ℕ, zero, suc, ◌+◌, ◌^◌, ◌≤◌, ◌<◌, ◌≡◌, ◌≢◌, refl, ap, arith, Option, none, some, List, [], ◌∷◌,
  ◌++◌, length, drop, get_elem?, Option-cases, inl, inr, length-drop,
}
use structio.Error.{ErrorCode, PResult, ok, err, stuck, unexpected_end}
use structio.Beve.Walk.{Reader, new}
use structio.Beve.Walk.Moves.{Moves, Keeps}
use structio.Beve.Walk.Local.{Local, Carried}
use structio.Beve.Walk.{◌>>=◌}
use structio.Beve.Reader.Local.{head-some, head-none}
use structio.Beve.Reader.Moves.{preamble_keeps, Keeps-typed_head, Keeps-complex_head}
use structio.Beve.Reader.Extent.{preamble_local, Local-typed_head, Local-complex_head}
use structio.Beve.Reader.Ends.{
  Ends, Answers, small_ends, Ends-typed_head, Ends-complex_head, Answers-payload_len,
}
use structio.Beve.Reader.{Typed, bools, strings, fixed}
use structio.Beve.Split.{
  Frame, charge, form_extent, extension_preamble, preamble, preamble_walk, located, head,
}
use mathlib.Core.Path.{subst}

Keeps-extension_preamble : (h depth : ℕ) → Keeps (extension_preamble h depth)
unfolding extension_preamble
Keeps-extension_preamble h depth = search (preamble_keeps, Keeps-complex_head) depth 12

Keeps-preamble : (depth h : ℕ) → Keeps (preamble depth h)
unfolding preamble
Keeps-preamble depth h =
    search (preamble_keeps, Keeps-typed_head, Keeps-extension_preamble) depth 14

Keeps-preamble_walk : (depth : ℕ) → Keeps (preamble_walk depth)
unfolding preamble_walk
Keeps-preamble_walk depth = search (preamble_keeps, Keeps-preamble)

Local-extension_preamble : (h depth : ℕ) → Local (extension_preamble h depth)
unfolding extension_preamble
Local-extension_preamble h depth =
    search (preamble_local, Local-complex_head, Keeps-complex_head) depth 12

Local-preamble : (depth h : ℕ) → Local (preamble depth h)
unfolding preamble
Local-preamble depth h =
    search (preamble_local, Local-typed_head, Keeps-typed_head, Local-extension_preamble) depth 14

Local-preamble_walk : (depth : ℕ) → Local (preamble_walk depth)
unfolding preamble_walk
Local-preamble_walk depth = search (preamble_local, Local-preamble)

Answers-charge : (depth : ℕ) → Answers (charge depth)
unfolding charge
Answers-charge depth = ground arith

Answers-form_extent : (form : Typed) → Answers (form_extent form)
unfolding form_extent
Answers-form_extent (bools n) = λ p. cc
Answers-form_extent (strings n) = λ p. cc
Answers-form_extent (fixed h n) = ground (arith, Answers-payload_len h n)

module _ (fuel : ℕ) where
  Ends-extension_preamble : (h depth : ℕ) → Ends fuel (extension_preamble h depth)
  unfolding extension_preamble
  Ends-extension_preamble h depth =
      search (small_ends, Ends-complex_head, Keeps-complex_head, Answers-charge) depth 12

  Ends-preamble : (depth h : ℕ) → Ends fuel (preamble depth h)
  unfolding preamble
  Ends-preamble depth h =
      search
        (
          small_ends, Ends-typed_head, Keeps-typed_head, Ends-extension_preamble, Answers-charge,
          Answers-form_extent,
        )
        depth 14

  Ends-preamble_walk : (depth : ℕ) → Ends fuel (preamble_walk depth)
  unfolding preamble_walk
  Ends-preamble_walk depth = search (small_ends, Ends-preamble)

drop-append_left : (n : ℕ) (xs ys : List ℕ) → n ≤ length xs → drop n (xs ++ ys) ≡ drop n xs ++ ys
drop-append_left zero xs ys h = refl
drop-append_left (suc n) [] ys h = absurd (omega arith)
drop-append_left (suc n) (x ∷ xs) ys h = drop-append_left n xs ys (omega arith)

abbrev pub Preamble : Type 0
Preamble = PResult (ℕ × ℕ × Option Frame)

abbrev Grown : Preamble → Preamble → Type 0
Grown (ok x) b = b ≡ ok x
Grown (err e) b = e ≢ unexpected_end → b ≡ err e
Grown stuck b = Unit

module _ (more : List ℕ) where
  Grown-located :
      (p q : PResult (ℕ × Option Frame) × Reader)
      → Carried [] more p q
      → Grown (located p) (located q)
  unfolding located
  Grown-located (ok (skip, frame), s) q h = rw h (ap (λ (t : ℕ). ok (t, skip, frame)) (omega arith))
  Grown-located (err e, s) q h = λ ne. rw (h (inl ne))
  Grown-located (stuck, s) q h = tt

module _ (buf more : List ℕ) (at depth : ℕ) (inside : at ≤ length buf)
    (fits : length buf < 2 ^ 64) where
  Grown-head : Grown (head buf at depth) (head (buf ++ more) at depth)
  unfolding head
  Grown-head = rw (drop-append_left at buf more inside) (
      Grown-located more (preamble_walk depth (new (drop at buf)))
        (preamble_walk depth (new (drop at buf ++ more)))
        ((Local-preamble_walk depth).at [] more (new (drop at buf))
          (omega (arith, length-drop at buf))))

  -- For a position inside a buffer of fewer than 2^64 bytes: a preamble that is read whole is read
  -- the same over the grown buffer.
  pub head-append_ok :
      (x : ℕ × ℕ × Option Frame) → head buf at depth ≡ ok x → head (buf ++ more) at depth ≡ ok x
  head-append_ok x h = subst (λ p. Grown p (head (buf ++ more) at depth)) h Grown-head

  -- For a position inside a buffer of fewer than 2^64 bytes: a preamble refused with an error
  -- other than UnexpectedEnd is refused with the same error over the grown buffer.
  pub head-append_err :
      (e : ErrorCode)
      → e ≢ unexpected_end
      → head buf at depth ≡ err e
      → head (buf ++ more) at depth ≡ err e
  head-append_err e ne h = subst (λ p. Grown p (head (buf ++ more) at depth)) h Grown-head ne

located-pos :
    (p : PResult (ℕ × Option Frame) × Reader) (used skip : ℕ) (frame : Option Frame)
    → located p ≡ ok (used, skip, frame)
    → p.1.pos ≡ used
unfolding located
located-pos (ok (k, f), s) used skip frame h = ground arith
located-pos (err e, s) used skip frame h = cc
located-pos (stuck, s) used skip frame h = cc

located-stuck : (p : PResult (ℕ × Option Frame) × Reader) → located p ≡ stuck → p.0 ≡ stuck
unfolding located
located-stuck (ok (k, f), s) h = cc
located-stuck (err e, s) h = cc
located-stuck (stuck, s) h = refl

preamble_walk-end :
    (depth : ℕ) (r : Reader)
    → r.implied ≡ none
    → get_elem? r.bytes r.pos ≡ none
    → preamble_walk depth r ≡ (err unexpected_end, r)
unfolding preamble_walk ◌>>=◌
preamble_walk-end depth r e f = rw (head-none r e f)

preamble_walk-forward :
    (depth b : ℕ) (r : Reader)
    → r.implied ≡ none
    → get_elem? r.bytes r.pos ≡ some b
    → r.pos + 1 ≤ (preamble_walk depth r).1.pos
unfolding preamble_walk ◌>>=◌
preamble_walk-forward depth b r e f =
    rw (head-some r b e f) ((Keeps-preamble depth b).at (record r { pos = r.pos + 1 })).forward

-- A preamble that is read at a position inside the buffer takes a byte at least, and ends inside
-- the buffer.
pub head-inside :
    (buf : List ℕ) (at depth used skip : ℕ) (frame : Option Frame)
    → at ≤ length buf
    → head buf at depth ≡ ok (used, skip, frame)
    → (1 ≤ used) × (at + used ≤ length buf)
unfolding head located
head-inside buf at depth used skip frame inside h = elim (Option-cases (get_elem? start.bytes 0)) [
  | inl f ↦ cc (ap located (preamble_walk-end depth start refl f))
  | inr (b, f) ↦ (
    omega (arith, preamble_walk-forward depth b start refl f, end),
    omega (arith, end, moved.inside (omega arith), ap length moved.same_bytes, length-drop at buf),
  )
]
  where
    start : Reader
    start = new (drop at buf)

    moved : Moves start (preamble_walk depth start).1
    moved = (Keeps-preamble_walk depth).at start

    end : (preamble_walk depth start).1.pos ≡ used
    end = located-pos (preamble_walk depth start) used skip frame h

-- Reading a preamble always answers.
pub head-ne-stuck : (buf : List ℕ) (at depth : ℕ) → head buf at depth ≢ stuck
unfolding head
head-ne-stuck buf at depth h =
    (Ends-preamble_walk 257 depth).at (new (drop at buf))
      (record { shallow = omega arith; fuelled = omega arith })
      (located-stuck (preamble_walk depth (new (drop at buf))) h)
