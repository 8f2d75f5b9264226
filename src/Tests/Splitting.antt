-- ===== src/Tests/Splitting.antt =====
-- The splitter on a packed array of three booleans.
use structio.Prelude.{ℕ, ◌≡◌, ◌≢◌, refl, arith, true, false, none, some, List, [], ◌∷◌}
use structio.Error.{ok}
use structio.Beve.Walk.{pure, raise, lift, ◌>>=◌}
use structio.Beve.Header
use structio.Beve.Reader
use structio.Beve.Split.{Scanner}
use structio.Beve.Splitter
use structio.Beve.Splitter.{
  Mode, values, array, Elem, generic, bools, State, between, before_array, before_element, Split,
  item, need, end, Splitter, next, rebase, new_splitter, consumed,
}
use structio.Beve.Splitter.Placed.{Placed, Safe}
use structio.Beve.Splitter.Resolves.{next-resolves}
use structio.Beve.Splitter.Next.{next-Safe}

-- Three booleans in one byte: true, false, true.
abbrev packed : List ℕ
packed = 28 ∷ 12 ∷ 5 ∷ []

abbrev at_start : Scanner
at_start = record { pos = 0; pending = 0; stack = []; outer = 1; started = false }

abbrev unopened : Splitter
unopened = record {
  mode = array;
  scan = at_start;
  state = before_array;
  cursor = 0;
  left = 0;
  elem = generic;
  implied = none;
}

abbrev one_out : Splitter
one_out = record {
  mode = array;
  scan = at_start;
  state = before_element;
  cursor = 2;
  left = 2;
  elem = bools 1;
  implied = some 24;
}

run_first : next packed false unopened ≡ (ok (item 2 2), one_out)
unfolding next Splitter.next_in Splitter.after_open Splitter.open_array Splitter.opened
    Splitter.array_head Splitter.array_layout Splitter.elem_of_form Splitter.next_before_element
    Splitter.next_element Splitter.produce Splitter.take_bool Splitter.last_bit Splitter.advance_bit
    ◌>>=◌ pure raise lift Reader.head Reader.typed_preamble Reader.count Reader.size Reader.as_count
    Header.ty Header.sub Header.count Header.decode_size Header.decode_loop Header.size_extra
run_first = refl

one_out-Placed : Placed packed one_out
one_out-Placed = record {
  cursor_inside = omega arith;
  scan_inside = omega arith;
  sound = tt;
  stands = omega arith;
}

next-resolves_example : (next (28 ∷ 12 ∷ []) true one_out).0 ≢ ok need
next-resolves_example = next-resolves (28 ∷ 12 ∷ []) one_out

next-Safe_example : Safe packed 2 (next packed false one_out)
next-Safe_example = next-Safe packed false one_out one_out-Placed
