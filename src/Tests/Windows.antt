-- ===== src/Tests/Windows.antt =====
-- The window over the splitter, on a stream of two documents of which the second has not arrived whole.
use structio.Prelude.{ℕ, ◌+◌, ◌≤◌, ◌≡◌, refl, arith, List, [], ◌∷◌, ◌++◌, take as take_list, drop}
use structio.Error.{trailing_content}
use structio.Stream.{end}
use structio.Stream.Window.{
  Window, Outcome, got, located, refused, new, buffered, into_unread, offset, extend, wanted, fill,
  locate, compact, error_at, try_next,
}
use structio.Stream.Window.Tracks.{Tracks, extend-Tracks, NextAnswer, try_next-NextAnswer}
use structio.Stream.Window.Failure.{try_next-refused}
use structio.Stream.Window.Bounds.{fill-Tracks}
use structio.Beve.Splitter.{
  values, array, done, new_splitter, consumed, position, next, next_in, next_done,
}
use structio.Beve.Split.{new_scanner}
use structio.Beve.Splitter.Framer.{splitter_framer, splitter_laws}

abbrev fresh : Window splitter_framer
fresh = new (new_splitter values) 100

fresh-Tracks : Tracks splitter_laws [] fresh
unfolding new_splitter new_scanner splitter_laws
fresh-Tracks = record {
  alive = refl;
  begun = omega arith;
  window = refl;
  placed = record {
    cursor_inside = omega arith;
    scan_inside = omega arith;
    sound = tt;
    stands = tt;
  };
  initialized = omega arith;
}

-- true, then the head of a string.
abbrev stream : List ℕ
stream = 24 ∷ 2 ∷ 8 ∷ []

abbrev window : Window splitter_framer
window = extend stream fresh

window-Tracks : Tracks splitter_laws stream window
window-Tracks = extend-Tracks splitter_laws [] fresh fresh-Tracks stream

try_next-NextAnswer_example : NextAnswer splitter_laws stream window (try_next window)
try_next-NextAnswer_example =
    try_next-NextAnswer splitter_laws stream window window-Tracks (omega arith)

-- A reader with its bytes at hand.
abbrev read : List ℕ → ℕ → Outcome (Unit {0}) × List ℕ
read source n = (got (take_list n source), drop n source)

fill-Tracks_example :
    let v = (fill read 64 (104 ∷ 105 ∷ []) window).2 in
    (1 ≤ wanted 64 window)
    × Tracks splitter_laws (stream ++ take_list (wanted 64 window) (104 ∷ 105 ∷ [])) v
    × (offset v ≡ offset window)
    × (buffered v ≤ window.limit + 1)
unfolding extend buffered wanted new_splitter consumed
fill-Tracks_example =
    fill-Tracks splitter_laws read stream 64 (104 ∷ 105 ∷ []) window window-Tracks (omega arith)
      (omega arith)

-- A byte behind the end of an array that was the whole document.
abbrev bad : Window splitter_framer
bad = record fresh {
  buf = 24 ∷ [];
  split = record (new_splitter array) { state = done };
  inited = 1;
}

refused_bad : try_next bad ≡ (refused trailing_content 0, (try_next bad).1)
unfolding try_next locate compact error_at new_splitter new_scanner consumed position next next_in
    next_done
refused_bad = refl

try_next-refused_example :
    (try_next (extend (24 ∷ []) (try_next bad).1) ≡ (located end, (try_next bad).1))
    × (buffered (extend (24 ∷ []) (try_next bad).1) ≡ 0)
    × (into_unread (extend (24 ∷ []) (try_next bad).1) ≡ [])
try_next-refused_example =
    try_next-refused bad (try_next bad).1 trailing_content 0 (24 ∷ []) refused_bad
