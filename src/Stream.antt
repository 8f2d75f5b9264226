-- ===== src/Stream.antt =====
-- src/stream.rs: what a framer answers, and what the window asks of one.
pub mod Window
use structio.Prelude.{ℕ, ◌≤◌, ◌≡◌, ◌≢◌, Bool, true, List, ◌++◌, length, drop}
use structio.Error.{PResult, ok, err, stuck}

-- `Split`, the answer of `next`.
pub data Split : Type 0 where
  item : (start stop : ℕ) → Split
  need end : Split

-- `trait Framer`: a framer changes its state, and answers from it.
pub record Framer : Type 1 where
  pub State : Type 0
  pub next : List ℕ → Bool → State → PResult Split × State
  pub consumed : State → ℕ
  pub rebase : State → State
  pub position : State → ℕ

-- An item's span begins at `from` or behind it, and ends at `to` or before it.
abbrev pub Between : ℕ → ℕ → PResult Split → Type 0
Between from to (ok (item a b)) = (from ≤ a) × (a ≤ b) × (b ≤ to)
Between from to (ok need) = Unit
Between from to (ok end) = Unit
Between from to (err e) = Unit
Between from to stuck = Unit

-- What the documentation of the trait asks for: a framer that is placed in its buffer stays so in
-- every use that the window makes of it.
pub record FramerLaws (f : Framer) : Type 1 where
  pub Placed : List ℕ → f.State → Type 0
  pub consumed_inside : (buf : List ℕ) (s : f.State) → Placed buf s → f.consumed s ≤ length buf
  pub position_inside : (buf : List ℕ) (s : f.State) → Placed buf s → f.position s ≤ length buf
  pub next_answers :
      (buf : List ℕ) (eof : Bool) (s : f.State) → Placed buf s → (f.next buf eof s).0 ≢ stuck
  pub next_placed :
      (buf : List ℕ) (eof : Bool) (s : f.State) → Placed buf s → Placed buf (f.next buf eof s).1
  pub next_forward :
      (buf : List ℕ) (eof : Bool) (s : f.State)
      → Placed buf s
      → f.consumed s ≤ f.consumed (f.next buf eof s).1
  pub next_between :
      (buf : List ℕ) (eof : Bool) (s : f.State)
      → Placed buf s
      → Between (f.consumed s) (f.consumed (f.next buf eof s).1) (f.next buf eof s).0
  pub next_resolves : (buf : List ℕ) (s : f.State) → (f.next buf true s).0 ≢ ok need
  pub rebase_consumed : (s : f.State) → f.consumed (f.rebase s) ≡ 0
  pub rebase_placed :
      (buf : List ℕ) (s : f.State) → Placed buf s → Placed (drop (f.consumed s) buf) (f.rebase s)
  pub grown_placed : (buf more : List ℕ) (s : f.State) → Placed buf s → Placed (buf ++ more) s
