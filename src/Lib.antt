-- ===== src/Lib.antt =====
-- structio: BEVE and JSON for Rust structs. This library models the core of the BEVE format, the
-- ordered map, and the scanning of text under JSON.
--
-- The program. A BEVE document is a tree of values, each a header byte, sizes and a payload
-- (src/beve/header.rs). A `Reader` (src/beve/reader.rs) is a cursor over the bytes of a document
-- with the depth of the containers around it and the header that the next value is implied to
-- carry. `skip_value` steps over a value and `validate_value` checks one. The stream splitter
-- (src/beve/stream/split.rs) finds where a value ends in bytes that arrive in pieces: it reads the
-- preamble of a value with a throwaway `Reader` and keeps, between calls, a stack of the containers
-- it is inside and the payload bytes it still owes. The `Splitter` over it hands out the spans of whole
-- documents, or of the elements of one top-level array. A `Window` (src/stream.rs) holds the bytes
-- under a framer such as the splitter, discards what the framer has finished with, and holds a limit
-- against one value. A `Writer` (src/beve/writer.rs) appends a document to a buffer, drains it to a
-- sink, or only counts it; `Value` (src/value.rs) is a document tree that it writes. The case rules
-- (src/case.rs) spell the keys of a declaration. Integers are written and read as text by src/num,
-- and src/swar.rs scans text eight bytes at a time.
-- `OrderedMap` (src/map.rs) holds the members of an object in the order of their arrival, with a table
-- of robin hood buckets over them once there are more than eight.
--
-- The files.
--   Prelude   Boolean tests, lists by native numbers, machine words, bit lemmas.
--   Error     src/error.rs: `ErrorCode` and `PResult`. The constructor `stuck` of `PResult` is not
--             of the source: it is what a walk on fuel answers when the fuel runs out.
--   Beve/Header   src/beve/header.rs: `header`, `ty`, `sub`, `count`, `byte_width`, `size_len`,
--             `encode_size`, `decode_size`, `key_len`, `encode_key` and their kin under their names.
--   Beve/Walk     the state of a `Reader` (data, pos, depth, implied, installed) and its operations
--             as functions of the state that answer a `PResult` and a state, with do blocks for `?`.
--             Walk/Moves and Walk/Local are two predicates of walks with a rule for each connective.
--   Beve/Reader   src/beve/reader.rs: the primitives and the preambles of a walk.
--   Beve/Skip     src/beve/reader.rs: `step`, `skip_body`, `skip_value`, `validate_value`.
--   Beve/Split    src/beve/stream/split.rs: `Frame`, `Duty`, `Scanner` and its methods, `head`.
--             `tick` is one round of the loop of `advance`.
--   Beve/Splitter   src/beve/stream/split.rs: `Mode`, `Elem`, `State`, `Splitter` and its methods, with one
--             function for each state of the loop of `next`; `Split` is of src/stream.rs.
--   Stream    src/stream.rs: `Split`, and `Framer` as a record of operations with its laws, which
--             Beve/Splitter/Framer fills. Stream/Window is `Window` and its methods. A reader is a
--             function of its state that answers bytes, an interruption or an error.
--   Beve/Writer   src/beve/writer.rs: `Writer`, `Sink` and the methods that append, `aligned` under the
--             name `set_aligned`. The sink's `write_all` and the allocator's `reserve` are the record
--             `Io`, and what they promise is `IoLaws`. A store past the allocation is a failure of
--             the model, as a panic is.
--   Beve/Entry   src/beve/mod.rs: `to_vec`, `append`, `size_after`, `to_writer_buffered` and their
--             aligned forms, over the `write` of any value.
--   Value     src/value.rs: `Value`, `Repr` and `impl beve::Write`. An object is its members in the
--             order of the map's iteration.
--   Case      src/case.rs: `Style`, `starts_word`, `words`, `cased_len`, `write_cased`, `cased`.
--   Num       src/num: `write_u64` of itoa.rs, `parse_u128` of atoi.rs and `out_of_range`. The loop
--             of `write_u64` has ten rounds of two digits, enough for the twenty of a `u64`; the loop
--             of `parse_u128` goes along what is left of the bytes.
--   Keymap    src/keymap.rs: `full_hash` and what it calls.
--   Map       src/map.rs: `HashTable` and its methods; Map/Ordered is `OrderedMap` and its methods.
--             A probe is a loop on fuel, one round for each bucket. Map/Probe is the arithmetic of the
--             masks, Map/Robin the invariant of the probe chains and the count of what a table holds,
--             Map/Good what it is for a table to describe the entries, Map/Abstract the list of
--             entries that a map stands for.
--   Swar      src/swar.rs: the masks, `first_match` and `find_byte`, whose loops have fuel for a round
--             at each byte. Swar/Bytes takes the operations on words byte by byte, Swar/Masks the
--             borrows of the subtraction, Swar/Lit what a mask says of its bytes.
--   Json/Comment   src/json/stream/split.rs: `Comment`, `begin` and `step`.
--   Tests     runs on small inputs, and each theorem below at an input where its hypotheses hold.
--
-- Conventions. A byte and a machine word are natural numbers with the wrap-around written out; a
-- `usize` has 64 bits. A `Vec` used as a stack is a list with its top in front. A walk that recurs
-- takes the recursive call as an argument, so that a property of walks is proved rule by rule.
--
-- Fuel. `step` of Beve/Skip recurs on fuel, 257 of it: every recursive call is in `nested`, which
-- refuses a level past the limit of 256. `advance` runs its loop on fuel, one more than the bytes behind the
-- position: a round that goes on takes a byte at least.
--
-- A sound state of the splitter is one whose frames of objects have string keys or keys of a byte at
-- least; `new_scanner` and `restart` give an empty stack, which is sound.
--
-- A splitter inside its buffer has its cursor and its walk there; a walk begun stands at the cursor or
-- behind it, and a packed byte some of whose bits have gone out has arrived.
--
-- The closure of `retain` is a function of its captured state that answers the state after the call.
--
-- A table holds at most 2^31 buckets, which 2^30 entries do not outgrow; there no `u32` wraps round.
--
-- The stack. A write of src/value.rs recurs once for each level of arrays and objects, and nothing in
-- the program bounds it (docs/design.md): a value too deep overflows the stack, which aborts. `write`
-- takes the levels that the stack has room for as an argument and fails past them.
--
-- The position of a `Window` in its stream and the length of a document are `usize`. The window's sums
-- wrap round at 2^64; a writer's do not in the model, and where its offset comes in, the document is
-- taken to be shorter than that.
--
-- Not modelled. The allocator is taken to give the room that is asked for: an allocation that fails
-- ends the program. The check of UTF-8 is the standard library's and a parameter. The options policy, the
-- error key and the deferred members of a `Reader` play no part in the walks that are modelled; of the
-- policy the writer consults `MEASURE`, which is an argument, and `SKIP_NULL`, which the members of
-- declared structs consult, is left out with them. What only debug builds check is left out. The
-- typed reads of a `Reader`, the blocks of numbers, the rest of src/num and the rest of the
-- JSON half are not modelled.
pub mod Prelude
pub mod Error
pub mod Case
pub mod Num
pub mod Keymap
pub mod Map
pub mod Swar
pub mod Json
pub mod Stream
pub mod Beve
pub mod Value
mod Tests
