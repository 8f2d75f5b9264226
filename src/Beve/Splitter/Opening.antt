-- ===== src/Beve/Splitter/Opening.antt =====
-- `open_array` of src/beve/stream/split.rs: reading the header of the top-level array.
use structio.Prelude.{
  ℕ, suc, ◌+◌, ◌≤◌, ◌≢◌, ap, arith, Bool, true, false, Option, none, some, List, length, drop,
  length-drop, if◌then◌else◌,
}
use structio.Error.{ErrorCode, PResult, ok, err, stuck, invalid_header}
use structio.Beve.Walk.{Reader, Walk, new, pure, raise, lift, continue, ◌>>=◌}
use structio.Beve.Walk.Moves.{Keeps}
use structio.Beve.Header.{element_of, element_width}
use structio.Beve.Reader.{Typed, bools as bools_form, strings as strings_form, fixed as fixed_form}
use structio.Beve.Reader.Moves.{preamble_keeps, Keeps-typed_preamble, Keeps-complex_head}
use structio.Beve.Reader.Ends.{Ends, Answers, small_ends, Ends-typed_preamble, Ends-complex_head}
use structio.Beve.Splitter.{
  Elem, generic, fixed, bools, elem_of_form, elem_of_pairs, array_layout, array_head,
}

-- No bit of a packed byte has gone out.
abbrev pub Plain : Elem → Type 0
Plain (bools (suc b)) = 1 ≤ 0
Plain _ = Unit

abbrev pub PlainAnswer : PResult (ℕ × Elem) → Type 0
PlainAnswer (ok (n, e)) = Plain e
PlainAnswer (err c) = Unit
PlainAnswer stuck = Unit

Plain-elem_of_form : (form : Typed) → PlainAnswer (elem_of_form form)
unfolding elem_of_form
Plain-elem_of_form (bools_form n) = tt
Plain-elem_of_form (strings_form n) = tt
Plain-elem_of_form (fixed_form h n) = go (element_width (element_of h))
  where
    go :
        (o : Option ℕ)
        → PlainAnswer
            (elim o [ none ↦ err invalid_header | some w ↦ ok (n, fixed (element_of h) w) ])
    go none = tt
    go (some w) = tt

Plain-elem_of_pairs : (c w : ℕ) (o : Option ℕ) → PlainAnswer (elem_of_pairs c w o)
unfolding elem_of_pairs
Plain-elem_of_pairs c w none = tt
Plain-elem_of_pairs c w (some n) = tt

record Lays (m : Walk (ℕ × Elem)) : Type 0 where
  at : (r : Reader) → PlainAnswer (m r).0

Lays-generic : (n : ℕ) → Lays (pure (n, generic))
unfolding pure
Lays-generic n = record { at = λ r. tt }

Lays-raise : (e : ErrorCode) → Lays (raise e)
unfolding raise
Lays-raise e = record { at = λ r. tt }

Lays-form : (form : Typed) → Lays (lift (elem_of_form form))
unfolding lift
Lays-form form = record { at = λ r. Plain-elem_of_form form }

Lays-pairs : (c w : ℕ) (o : Option ℕ) → Lays (lift (elem_of_pairs c w o))
unfolding lift
Lays-pairs c w o = record { at = λ r. Plain-elem_of_pairs c w o }

Lays-if : (b : Bool) (m n : Walk (ℕ × Elem)) → Lays m → Lays n → Lays (if b then m else n)
Lays-if true m n h k = h
Lays-if false m n h k = k

Lays-bind {ℓ} :
    {A : Type ℓ} (m : Walk A) (f : A → Walk (ℕ × Elem)) → ((a : A) → Lays (f a)) → Lays (m >>= f)
unfolding ◌>>=◌
Lays-bind m f h = record { at = λ r. go (m r).0 (m r).1 }
  where
    go : (x : PResult _) (s : Reader) → PlainAnswer (continue x f s).0
    go (ok a) s = (h a).at s
    go (err e) s = tt
    go stuck s = tt

ruleset layouts = (Lays-generic, Lays-raise, Lays-form, Lays-pairs, Lays-if, Lays-bind)

Lays-array_layout : (h : ℕ) → Lays (array_layout h)
unfolding array_layout
Lays-array_layout h = search layouts depth 10

Lays-array_head : Lays array_head
unfolding array_head
Lays-array_head = search (layouts, Lays-array_layout)

Keeps-array_layout : (h : ℕ) → Keeps (array_layout h)
unfolding array_layout
Keeps-array_layout h = search (preamble_keeps, Keeps-typed_preamble, Keeps-complex_head) depth 10

Keeps-array_head : Keeps array_head
unfolding array_head
Keeps-array_head = search (preamble_keeps, Keeps-array_layout)

Answers-elem_of_form : (form : Typed) → Answers (elem_of_form form)
unfolding elem_of_form
Answers-elem_of_form (bools_form n) = λ p. cc
Answers-elem_of_form (strings_form n) = λ p. cc
Answers-elem_of_form (fixed_form h n) = ground arith

Answers-elem_of_pairs : (c w : ℕ) (o : Option ℕ) → Answers (elem_of_pairs c w o)
unfolding elem_of_pairs
Answers-elem_of_pairs c w none = λ p. cc
Answers-elem_of_pairs c w (some n) = λ p. cc

module _ (fuel : ℕ) where
  Ends-array_layout : (h : ℕ) → Ends fuel (array_layout h)
  unfolding array_layout
  Ends-array_layout h =
      search
        (
          small_ends, Ends-typed_preamble, Keeps-typed_preamble, Ends-complex_head,
          Keeps-complex_head, Answers-elem_of_form, Answers-elem_of_pairs,
        )
        depth 12

  Ends-array_head : Ends fuel array_head
  unfolding array_head
  Ends-array_head = search (small_ends, Ends-array_layout)

-- What is read ends inside the buffer, answers, and has no bit gone out.
module _ (buf : List ℕ) (at : ℕ) (inside : at ≤ length buf) where
  pub array_head-inside : at + (array_head (new (drop at buf))).1.pos ≤ length buf
  array_head-inside =
      let moved = Keeps-array_head.at (new (drop at buf)) in
      omega (arith, moved.inside (omega arith), ap length moved.same_bytes, length-drop at buf)

  pub array_head-ne-stuck : (array_head (new (drop at buf))).0 ≢ stuck
  array_head-ne-stuck =
      (Ends-array_head 257).at (new (drop at buf))
        (record { shallow = omega arith; fuelled = omega arith })

  pub array_head-Plain : PlainAnswer (array_head (new (drop at buf))).0
  array_head-Plain = Lays-array_head.at (new (drop at buf))
