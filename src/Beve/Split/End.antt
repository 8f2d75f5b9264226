-- ===== src/Beve/Split/End.antt =====
-- The end that `advance` of src/beve/stream/split.rs answers, against the state that it leaves.
use structio.Prelude.{
  ℕ, zero, suc, ◌-◌, ◌^◌, ◌≡◌, refl, ◌&&◌, Option, none, some, List, length, ltb, ◌==◌, Bool-cases,
  inl, inr,
}
use structio.Error.{PResult, ok, err, stuck, unexpected_end}
use structio.Beve.Header.{cat_float}
use structio.Beve.Split.{
  Scanner, Duty, value, key, text, Tick, again, answer, drain, pop_done, is_empty, duty, size_at,
  read_text, serve_text, serve_key, serve_preamble, serve_value, serve, after_drain, tick, run,
  advance,
}
use structio.Beve.Split.Preamble.{Preamble}

abbrev pub Stops : PResult (Option ℕ) × Scanner → Type 0
Stops (ok (some e), t) = e ≡ t.pos
Stops (ok none, t) = Unit
Stops (err c, t) = Unit
Stops (stuck, t) = Unit

abbrev TickStops : Tick → Type 0
TickStops (again t) = Unit
TickStops (answer x t) = Stops (x, t)

read_text_stops : (o : Option (ℕ × ℕ)) (s : Scanner) → TickStops (read_text o s)
unfolding read_text
read_text_stops none s = tt
read_text_stops (some (n, p)) s = elim (Bool-cases (ltb n (2 ^ 64))) [
  | inl e ↦ rw e tt
  | inr e ↦ rw e tt
]

serve_preamble_stops : (x : Preamble) (s : Scanner) → TickStops (serve_preamble x s)
unfolding serve_preamble
serve_preamble_stops (ok (used, skip, frame)) s = tt
serve_preamble_stops (err unexpected_end) s = tt
serve_preamble_stops (err c) s = tt
serve_preamble_stops stuck s = tt

module _ (buf : List ℕ) where
  serve_key_stops : (width : ℕ) (s : Scanner) → TickStops (serve_key buf width s)
  unfolding serve_key
  serve_key_stops width s = elim (Bool-cases (ltb (length buf - s.pos) width)) [
    | inl e ↦ rw e tt
    | inr e ↦ rw e tt
  ]

  serve_stops : (d : Duty) (s : Scanner) → TickStops (serve buf d s)
  unfolding serve serve_text serve_value
  serve_stops value s = serve_preamble_stops _ s
  serve_stops text s = read_text_stops (size_at buf s.pos) s
  serve_stops (key cat width) s = elim (Bool-cases (cat == cat_float)) [
    | inl e ↦ rw e (read_text_stops (size_at buf s.pos) s)
    | inr e ↦ rw e (serve_key_stops width s)
  ]

  after_drain_stops : (s : Scanner) → TickStops (after_drain buf s)
  unfolding after_drain
  after_drain_stops s = elim (Bool-cases (s.started && is_empty (pop_done s.stack))) [
    | inl e ↦ rw e refl
    | inr e ↦ rw e (
        serve_stops (duty (record s { stack = pop_done s.stack }))
          (record s { stack = pop_done s.stack }))
  ]

  tick_stops : (s : Scanner) → TickStops (tick buf s)
  unfolding tick
  tick_stops s = elim (Bool-cases (ltb 0 (drain buf s).pending)) [
    | inl e ↦ rw e tt
    | inr e ↦ rw e (after_drain_stops (drain buf s))
  ]

  run-Stops : (fuel : ℕ) (s : Scanner) → Stops (run fuel buf s)
  unfolding run
  run-Stops zero s = tt
  run-Stops (suc fuel) s = go (run-Stops fuel) (tick buf s) (tick_stops s)
    where
      go :
          ((t : Scanner) → Stops (run fuel buf t))
          → (x : Tick) → TickStops x
          → Stops (elim x [ again t ↦ run fuel buf t | answer x t ↦ (x, t) ])
      go later (again t) h = later t
      go later (answer x t) h = h

  pub advance-Stops : (s : Scanner) → Stops (advance buf s)
  unfolding advance
  advance-Stops s = run-Stops (suc (length buf - s.pos)) s
