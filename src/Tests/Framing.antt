-- ===== src/Tests/Framing.antt =====
-- The stream splitter's walk on a small document: the array of "hi" and true.
use structio.Prelude.{
  drop, ℕ, ◌≡◌, ◌≢◌, ◌≤◌, refl, arith, true, false, none, some, List, [], ◌∷◌, ◌++◌,
}
use structio.Error.{ok, err, stuck, invalid_header}
use structio.Beve.Walk.{pure, raise, lift, ◌>>=◌}
use structio.Beve.Header
use structio.Beve.Reader
use structio.Beve.Split
use structio.Beve.Split.{Scanner, Frame, values, new_scanner, advance, head}
use structio.Beve.Split.Frames.{SoundFrames}
use structio.Beve.Split.Advance.{
  feed, concat, feed-advance, advance-resumes, advance-settled, advance-answers,
}
use structio.Beve.Split.Rebase.{back, advance-rebase}
use structio.Beve.Split.Preamble.{head-append_ok, head-append_err}

abbrev document : List ℕ
document = 5 ∷ 8 ∷ 2 ∷ 8 ∷ 104 ∷ 105 ∷ 24 ∷ []

abbrev front : List ℕ
front = 5 ∷ 8 ∷ 2 ∷ []

abbrev rest : List ℕ
rest = 8 ∷ 104 ∷ 105 ∷ 24 ∷ []

abbrev chunks : List (List ℕ)
chunks = (2 ∷ 8 ∷ []) ∷ [] ∷ (104 ∷ []) ∷ (105 ∷ 24 ∷ []) ∷ []

abbrev start : Scanner
start = record { pos = 0; pending = 0; stack = []; outer = 0; started = false }

abbrev owing_two : Scanner
owing_two = record { pos = 2; pending = 0; stack = values 2 ∷ []; outer = 0; started = true }

abbrev finished : Scanner
finished = record { pos = 7; pending = 0; stack = []; outer = 0; started = true }

run_front : advance front start ≡ (ok none, owing_two)
unfolding advance Split.run Split.tick Split.drain Split.after_drain Split.serve Split.duty
    Split.pop_done Split.serve_value Split.serve_preamble Split.head Split.located
    Split.preamble_walk ◌>>=◌ Reader.head Split.preamble Header.ty Header.count Header.decode_loop
    Header.decode_size Header.size_extra Header.sub Reader.as_count Reader.bare_header Reader.count
    Reader.size Split.charge Split.done Split.duty_of Split.start_value Split.take_frame Split.taken
    lift pure raise
run_front = refl

run_document : advance document start ≡ (ok (some 7), finished)
unfolding advance Split.run Split.tick Split.drain Split.after_drain Split.serve Split.duty
    Split.pop_done Split.serve_value Split.serve_preamble Split.head Split.located
    Split.preamble_walk ◌>>=◌ Reader.head Split.preamble Header.ty Header.count Header.decode_loop
    Header.decode_size Header.size_extra Header.sub Reader.as_count Reader.bare_header Reader.count
    Reader.size Split.charge Split.done Split.duty_of Split.start_value Split.take_frame Split.taken
    lift pure raise
run_document = refl

feed-advance_example :
    feed (5 ∷ 8 ∷ []) chunks start ≡ advance ((5 ∷ 8 ∷ []) ++ concat chunks) start
feed-advance_example = feed-advance (5 ∷ 8 ∷ []) chunks start (omega arith) tt (omega arith)

advance-resumes_example : advance (front ++ rest) owing_two ≡ advance (front ++ rest) start
advance-resumes_example =
    advance-resumes front rest (omega arith) start owing_two (omega arith) tt run_front

advance-settled_example : advance (document ++ (9 ∷ [])) start ≡ (ok (some 7), finished)
advance-settled_example =
    advance-settled document (9 ∷ []) (omega arith) start finished (ok (some 7)) (omega arith) tt
      (λ p. cc) run_document

advance-answers_example :
    ((advance document start).0 ≢ stuck)
    × (0 ≤ (advance document start).1.pos)
    × ((advance document start).1.pos ≤ 7)
    × SoundFrames (advance document start).1.stack
advance-answers_example = advance-answers document start (omega arith) tt

head_text : head document 2 1 ≡ ok (2, 2, none)
unfolding advance Split.run Split.tick Split.drain Split.after_drain Split.serve Split.duty
    Split.pop_done Split.serve_value Split.serve_preamble Split.head Split.located
    Split.preamble_walk ◌>>=◌ Reader.head Split.preamble Header.ty Header.count Header.decode_loop
    Header.decode_size Header.size_extra Header.sub Reader.as_count Reader.bare_header Reader.count
    Reader.size Split.charge Split.done Split.duty_of Split.start_value Split.take_frame Split.taken
    lift pure raise
head_text = refl

head_refused : head (5 ∷ 13 ∷ []) 1 1 ≡ err invalid_header
unfolding advance Split.run Split.tick Split.drain Split.after_drain Split.serve Split.duty
    Split.pop_done Split.serve_value Split.serve_preamble Split.head Split.located
    Split.preamble_walk ◌>>=◌ Reader.head Split.preamble Header.ty Header.count Header.decode_loop
    Header.decode_size Header.size_extra Header.sub Reader.as_count Reader.bare_header Reader.count
    Reader.size Split.charge Split.done Split.duty_of Split.start_value Split.take_frame Split.taken
    lift pure raise
head_refused = refl

head-append_ok_example : head (document ++ (9 ∷ [])) 2 1 ≡ ok (2, 2, none)
head-append_ok_example =
    head-append_ok document (9 ∷ []) 2 1 (omega arith) (omega arith) (2, 2, none) head_text

head-append_err_example : head ((5 ∷ 13 ∷ []) ++ (0 ∷ [])) 1 1 ≡ err invalid_header
head-append_err_example =
    head-append_err (5 ∷ 13 ∷ []) (0 ∷ []) 1 1 (omega arith) (omega arith) invalid_header (λ p. cc)
      head_refused

-- The same walk with two consumed bytes in front of the document.
abbrev behind_two : Scanner
behind_two = record { pos = 2; pending = 0; stack = []; outer = 0; started = false }

advance-rebase_example :
    advance (drop 2 (9 ∷ 9 ∷ document)) (Split.rebase 2 behind_two)
    ≡ back 2 (advance (9 ∷ 9 ∷ document) behind_two)
advance-rebase_example =
    advance-rebase (9 ∷ 9 ∷ document) 2 behind_two (omega arith) (omega arith) tt
