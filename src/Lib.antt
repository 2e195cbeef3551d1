-- ===== src/Lib.antt =====
-- dfdisk, a forensic acquisition tool: its core rules, and what they guarantee.
--
-- An engine copies a source into an image and keeps a table of the ranges that the image does not
-- hold as read: substituted by zeros, or unread. The RAW engine builds the table while it copies;
-- the rescue engine builds it from the mapfile of GNU ddrescue. The session turns the table, the
-- byte counts, the stop reason and the result of the verification into a verdict with an exit
-- code. Before it, the options are validated and the destination is checked; around it, the audit log
-- has a record of the start and one of the end. Signals set the flags that stop an engine.
--
-- Prelude: the names that all files share, u64 arithmetic, integers, Rust's Result, texts.
-- ReadErrors: ReadErrorTable of src/models/outcome.rs; `normalise_ranges`, `push`, `merge`,
--   `bytes_of`, `sectors_of`, `count` are the methods, `sweep` is the loop of normalise, and
--   `has_no_bytes` is is_empty. Coverage reads a table as a function from bytes to kinds, and the
--   other children prove the methods against it.
-- Outcome: classify_detailed of src/models/outcome.rs and ErrorKind of src/engines/error.rs.
-- Str: what the source uses of Rust's str and of integer parsing.
-- DdrescueMap: src/engines/ddrescue_map.rs; `parse` and its parts, one per kind of line, and
--   Assess: the queries on a map and `assess`, whose loop is `assess_blocks`.
-- RawCopy: copy_source of src/engines/raw.rs. World: the plan, the errors and the parameters.
--   Copier: the struct and its methods. Loop: `salvage`, `copy_source`, `finish`.
-- Pieces: src/engines/pieces.rs. `update` and `finish_pieces` are the methods of PieceHasher, and
--   `start_check`, `feed`, `finish_check` those of PieceChecker, which is given the results of the
--   reader of the file as a list. File: PiecesWriter, which writes to memory here, and PiecesReader;
--   `read_file` is PiecesReader::new with the loop of parse_pieces behind it.
-- Progress: src/engines/progress.rs and src/models/telemetry.rs; `Wire` is the sink with its channel
--   and the consumer, and a `Call` one call of the sink, or the consumer receiving an update.
-- Input: edit_text of src/tui/input.rs; `none` is a panic. Fields: a field as the characters in
--   front of the cursor, last one first, and those behind it.
-- Size: src/cli/size.rs. Signals: src/signals.rs.
-- Config: src/models/config.rs; `config_errors` are the errors that validate collects.
-- Errors: src/engines/error.rs. An error's message is of a type of the module that reports it.
-- Preflight: src/engines/preflight.rs; the rules over the facts of a destination, `rules_of` is
--   DestinationRules::new. Outputs: what an earlier run left; a directory is a list of entries.
--   Mounts: mount_containing; a path is a list of components. Guard: OutputGuard, with the reservation file, over the list of the entries that exist.
-- Comparing: HashResults and compare_digest_sets of src/models/info_report.rs.
-- Session: src/engines/session.rs, what acquire_phase makes of the answers of its host; `facts_of`
--   are the facts of the verdict. Run: run_inner, with the results of its steps as arguments.
-- Audit: src/engines/audit.rs; a record's details are a list of keys and values. Guard: the log,
--   the sink's warnings, and FinishedGuard; `conclude` is the method or the drop that ends it.
--
-- Numbers are natural numbers; a u64 is bounded where a statement needs it, and saturating and
-- checked operations are written out. MapBlock::end does not wrap: parse refuses a block whose end
-- would. A message is a constructor with the values it shows; reasons of a stop are its kind and
-- offset. Errno values are Linux's. The atomics of the flags are one record: each method is one
-- step. `none` from classify is its unreachable!.
--
-- The source, the destination and the abort flag of a copy are a record `World` over one state.
-- IsFaithful states what Read and Write document and names the bytes of the source; IsPatient
-- bounds how often the destination interrupts a write. The digest is the list of bytes fed to it;
-- SHA-256 is a parameter of Pieces.
--
-- dfcore's evidence mounts and its audit log, and the Unicode tables of upper and lower case, are
-- parameters, of which nothing is assumed. A record whose hash is missing counts as not written.
--
-- The sweep has the number of events as fuel, and takes one at least in each round. The loops
-- over pieces have the bytes left as fuel, or the items of the reader, and `digits` one more than
-- the number that it prints. The loops of a copy have a fuel that the theorems ask to exceed the
-- size, a chunk and the interruptions of the destination together: each round but the last advances
-- by a byte at least.
--
-- Not modelled: the rest of the terminal interface and of the command line, discovery, the external
-- engines, files and processes (input and output), digests and the EWF format (libraries), and texts of reports.
pub mod Prelude
pub mod Signals
pub mod ReadErrors
pub mod Outcome
pub mod Str
pub mod DdrescueMap
pub mod RawCopy
pub mod Pieces
pub mod Size
pub mod Config
pub mod Errors
pub mod Preflight
pub mod Comparing
pub mod Session
pub mod Audit
pub mod Input
pub mod Progress
mod Tests
