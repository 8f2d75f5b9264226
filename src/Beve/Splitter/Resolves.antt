-- ===== src/Beve/Splitter/Resolves.antt =====
-- `next` of src/beve/stream/split.rs at the end of the input.
use structio.Prelude.{
  ℕ, ◌+◌, ◌≢◌, true, Option, none, some, List, length, ltb, leb, ◌==◌, Bool-cases, inl, inr,
  get_elem?, drop,
}
use structio.Error.{PResult, ok, err, stuck}
use structio.Beve.Walk.{Reader, new}
use structio.Beve.Split.{Scanner, advance, size_at}
use structio.Beve.Splitter.{
  Elem, generic, fixed, strings, bools, State, between, in_item, before_array, before_element, done,
  Split, need, Splitter, need_or, opened, open_array, close_array, next_done, in_item_answer,
  next_in_item, begin_item, delimiters, next_between, take_fixed, take_string, take_bool,
  string_end, produce, next_element, next_before_element, after_open, next_in, next, array_head,
}

abbrev Resolved : PResult Split × Splitter → Type 0
Resolved x = x.0 ≢ ok need

abbrev ResolvedArray : PResult (Option Split) × Splitter → Type 0
ResolvedArray x = x.0 ≢ ok (some need)

Resolved-answer :
    (x : PResult (Option ℕ) × Scanner) (s : Splitter) → Resolved (in_item_answer true x s)
unfolding in_item_answer need_or
Resolved-answer (ok (some n), t) s = λ p. cc
Resolved-answer (ok none, t) s = λ p. cc
Resolved-answer (err e, t) s = λ p. cc
Resolved-answer (stuck, t) s = λ p. cc

Resolved-produce : (start : ℕ) (x : PResult (Option ℕ) × Splitter) → Resolved (produce true start x)
unfolding produce need_or
Resolved-produce start (ok (some n), t) = λ p. cc
Resolved-produce start (ok none, t) = λ p. cc
Resolved-produce start (err e, t) = λ p. cc
Resolved-produce start (stuck, t) = λ p. cc

resolved_opened : (x : PResult (ℕ × Elem) × Reader) (s : Splitter) → ResolvedArray (opened true x s)
unfolding opened
resolved_opened (ok (n, e), t) s = λ p. cc
resolved_opened (err e, t) s = λ p. cc
resolved_opened (stuck, t) s = λ p. cc

module _ (buf : List ℕ) where
  Resolved-item : (s : Splitter) → Resolved (next_in_item buf true s)
  unfolding next_in_item
  Resolved-item s = Resolved-answer (advance buf s.scan) s

  Resolved-between : (s : Splitter) → Resolved (next_between buf true s)
  unfolding next_between need_or
  Resolved-between s =
      elim (Bool-cases (leb (length buf) (s.cursor + delimiters (drop s.cursor buf)))) [
        | inl e ↦ rw e (λ p. cc)
        | inr e ↦ rw e (Resolved-item _)
      ]

  Resolved-done : (s : Splitter) → Resolved (next_done buf true s)
  unfolding next_done need_or
  Resolved-done s = elim (Bool-cases (ltb s.cursor (length buf))) [
    | inl e ↦ rw e (λ p. cc)
    | inr e ↦ rw e (λ p. cc)
  ]

  Resolved-element : (e : Elem) (s : Splitter) → Resolved (next_element buf true e s)
  unfolding next_element
  Resolved-element generic s = elim (Bool-cases (ltb s.cursor (length buf))) [
    | inl e ↦ rw e (Resolved-item (begin_item s))
    | inr e ↦ rw e (Resolved-produce s.cursor (ok none, s))
  ]
  Resolved-element (fixed implied width) s =
      Resolved-produce s.cursor (take_fixed buf implied width s)
  Resolved-element strings s =
      Resolved-produce s.cursor (take_string (string_end buf (size_at buf s.cursor)) s)
  Resolved-element (bools bit) s =
      Resolved-produce s.cursor (take_bool bit (get_elem? buf s.cursor) s)

  Resolved-before_element : (s : Splitter) → Resolved (next_before_element buf true s)
  unfolding next_before_element
  Resolved-before_element s = elim (Bool-cases (s.left == 0)) [
    | inl e ↦ rw e (Resolved-done (close_array s))
    | inr e ↦ rw e (Resolved-element s.elem s)
  ]

  resolved_open : (s : Splitter) → ResolvedArray (open_array buf true s)
  unfolding open_array
  resolved_open s = elim (Bool-cases (leb (length buf) s.cursor)) [
    | inl e ↦ rw e (λ p. cc)
    | inr e ↦ rw e (resolved_opened (array_head (new (drop s.cursor buf))) s)
  ]

  Resolved-after :
      (x : PResult (Option Split) × Splitter) → ResolvedArray x → Resolved (after_open buf true x)
  unfolding after_open
  Resolved-after (ok none, t) h = Resolved-before_element t
  Resolved-after (ok (some a), t) h = λ p. h (cc p)
  Resolved-after (err e, t) h = λ p. cc
  Resolved-after (stuck, t) h = λ p. cc

  Resolved-in : (state : State) (s : Splitter) → Resolved (next_in state buf true s)
  unfolding next_in
  Resolved-in between s = Resolved-between s
  Resolved-in in_item s = Resolved-item s
  Resolved-in before_array s = Resolved-after (open_array buf true s) (resolved_open s)
  Resolved-in before_element s = Resolved-before_element s
  Resolved-in done s = Resolved-done s

-- With `eof` set, `next` does not ask for more bytes, in any state over any buffer.
pub next-resolves : (buf : List ℕ) (s : Splitter) → (next buf true s).0 ≢ ok need
unfolding next
next-resolves buf s = Resolved-in buf s.state (record s { implied = none })
