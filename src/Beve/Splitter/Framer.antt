-- ===== src/Beve/Splitter/Framer.antt =====
-- The splitter of src/beve/stream/split.rs as a framer of src/stream.rs.
use structio.Prelude.{arith}
use structio.Stream.{Framer, FramerLaws}
use structio.Beve.Splitter.{Splitter, next, consumed, rebase, position, values}
use structio.Beve.Splitter.Placed.{Placed}
use structio.Beve.Splitter.Next.{next-Safe, splitter-Placed}
use structio.Beve.Splitter.Resolves.{next-resolves}
use mathlib.Core.Path.{refl}

-- `impl Framer for Splitter`
abbrev pub splitter_framer : Framer
splitter_framer = record {
  State = Splitter;
  next = next;
  consumed = consumed;
  rebase = rebase;
  position = position;
}

unfoldable pub splitter_laws : FramerLaws splitter_framer
unfolding consumed rebase position
splitter_laws = record {
  Placed = Placed;
  consumed_inside = λ buf s p. p.cursor_inside;
  position_inside = λ buf s p. omega (arith, p.cursor_inside, p.scan_inside);
  next_answers = λ buf eof s p. (next-Safe buf eof s p).0;
  next_placed = λ buf eof s p. (next-Safe buf eof s p).1;
  next_forward = λ buf eof s p. (next-Safe buf eof s p).2;
  next_between = λ buf eof s p. (next-Safe buf eof s p).3;
  next_resolves = next-resolves;
  rebase_consumed = λ s. refl;
  rebase_placed = λ buf s p. (splitter-Placed buf buf values s p).1;
  grown_placed = λ buf more s p. (splitter-Placed buf more values s p).2;
}
