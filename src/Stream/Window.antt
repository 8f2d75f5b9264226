-- ===== src/Stream/Window.antt =====
-- src/stream.rs: `Window`, the buffer under a framer. The allocation is left out; `inited` is kept,
-- since `fill` hands out the bytes below it.
pub mod Tracks
pub mod Failure
pub mod Bounds
use structio.Prelude.{
  ℕ, ◌+◌, ◌-◌, ◌%◌, ◌^◌, ◌<◌, min, max, Bool, true, false, not, ◌&&◌, ◌||◌, Option, none, some,
  List, [], ◌∷◌, ◌++◌, ltb, leb, ◌==◌, if◌then◌else◌, length, take, drop,
}
use structio.Error.{ErrorCode, PResult, ok, err, stuck, document_too_large}
use structio.Stream.{Split, item, need, end, Framer}

-- `Window`
pub record Window (f : Framer) : Type 0 where
  pub buf : List ℕ
  pub split : f.State
  pub eof : Bool
  pub limit : ℕ
  pub origin : ℕ
  pub failed : Bool
  pub inited : ℕ

-- `Result<Split, StreamError>`: a failure has its code and its place in the stream. `lost` is `stuck`.
pub data Answer : Type 0 where
  located : Split → Answer
  refused : ErrorCode → ℕ → Answer
  lost : Answer

-- What `reader.read` answers: bytes, `Interrupted`, or an error `e`.
pub data Outcome (E : Type 0) : Type 0 where
  got : List ℕ → Outcome E
  interrupted : Outcome E
  broken : E → Outcome E

module _ {f : Framer} where
  -- `Window::new` with the limit that `set_limit` sets
  abbrev pub new : f.State → ℕ → Window f
  new split limit = record {
    buf = [];
    split = split;
    eof = false;
    limit = limit;
    origin = 0;
    failed = false;
    inited = 0;
  }

  unfoldable pub buffered : Window f → ℕ
  buffered w = if w.failed then 0 else length w.buf - f.consumed w.split

  unfoldable pub into_unread : Window f → List ℕ
  into_unread w = if w.failed then [] else drop (f.consumed w.split) w.buf

  unfoldable pub offset : Window f → ℕ
  offset w = (w.origin + f.consumed w.split) % 2 ^ 64

  unfoldable pub set_eof : Window f → Window f
  set_eof w = record w { eof = true }

  unfoldable pub extend : List ℕ → Window f → Window f
  extend bytes w =
      if w.failed
      then w
      else record w { buf = w.buf ++ bytes; inited = length w.buf + length bytes }

  unfoldable pub compact : Window f → Window f
  compact w =
      let dead = f.consumed w.split in
      if dead == 0 || ltb dead (length w.buf - dead) then w else record w {
        buf = drop dead w.buf;
        split = f.rebase w.split;
        origin = (w.origin + dead) % 2 ^ 64;
      }

  unfoldable pub error_at : ErrorCode → ℕ → Window f → Answer
  error_at code at w = refused code ((w.origin + at) % 2 ^ 64)

  -- The extent and the place that the limit is held against.
  extent_at : Split → Window f → ℕ × ℕ
  extent_at need w = (buffered w, f.consumed w.split)
  extent_at (item start stop) w = (stop - start, start)
  extent_at end w = (0, f.consumed w.split)

  limited : Split → Window f → Answer
  unfolding extent_at
  limited split w =
      let (extent, at) = extent_at split w in
      if ltb w.limit extent then error_at document_too_large at w else located split

  -- What `locate` makes of the framer's answer, the framer's state being in the window already.
  placed_answer : PResult Split → Window f → Answer
  unfolding limited
  placed_answer (ok split) w = limited split w
  placed_answer (err code) w = error_at code (f.position w.split) w
  placed_answer stuck w = lost

  unfoldable pub locate : Window f → Answer × Window f
  unfolding placed_answer
  locate w =
      let v = compact w in
      let (x, t) = f.next v.buf v.eof v.split in
      let u = record v { split = t } in (placed_answer x u, u)

  -- A failure ends the stream and drops the buffer.
  settle : Answer × Window f → Answer × Window f
  settle (located split, w) = (located split, w)
  settle (refused code at, w) = (refused code at, record w { failed = true; buf = []; inited = 0 })
  settle (lost, w) = (lost, w)

  unfoldable pub try_next : Window f → Answer × Window f
  unfolding settle
  try_next w = if w.failed then (located end, w) else settle (locate w)

  -- How many bytes `fill` asks the reader for.
  unfoldable pub wanted : ℕ → Window f → ℕ
  wanted chunk w = let room = min (w.limit - buffered w + 1) (2 ^ 64 - 1) in min (max chunk 1) room

  filled : {E : Type 0} → Outcome E → Window f → Option E × Window f
  filled (got []) w = (none, record w { eof = true })
  filled (got (b ∷ bs)) w = (none, record w { buf = w.buf ++ b ∷ bs })
  filled interrupted w = (none, w)
  filled (broken e) w = (some e, w)

  -- `read` is `reader.read` of a slice of so many bytes. The bytes of the slice that it does not fill
  -- are cut off again.
  unfoldable pub fill :
      {R E : Type 0} → (R → ℕ → Outcome E × R) → ℕ → R → Window f → Option E × R × Window f
  unfolding filled
  fill read chunk reader w =
      let n = wanted chunk w in
      let (x, reader') = read reader n in
      let (e, w') = filled x (record w { inited = max w.inited (length w.buf + n) }) in
      (e, reader', w')
