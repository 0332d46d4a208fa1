-- ===== src/Lib.antt =====
-- Verification of minicore-agent: the parts of the agent that keep state or read a format of
-- their own, as definitions translated from the Rust source, with the theorems that make each
-- part correct. Paths are those of the repository.
--
-- The parts and their files:
-- - Prelude: the shared names, with lists and slices over the native numbers (Prelude/Lists),
--   Boolean tests (Prelude/Tests), `Result`, `?` and early returns (Prelude/Results), text as
--   bytes (Prelude/Bytes), and what `position`, `remove` and `insert` make of a list
--   (Prelude/Splits).
-- - Sse: the parser of event streams of src/models/openai/sse.rs, `SseParser`. `feed` folds
--   `feed_byte` over a chunk, `feed_chunks` over the chunks of a body; `end_line` and
--   `pop_frame` are the methods of that name. A failed parser is the error value.
-- - Inputs: the input queue of a Session, src/sessions/inputs.rs. Inputs has the queue itself
--   (`QueueState` and its methods), Inputs/Ids the ids of inputs, Inputs/Session the Session's
--   operations on the queue (`accept_input`, `remove_input`, `recall_inputs`, `accept_resume`,
--   `claim_start`, `abandon_claim`), with the parts of src/sessions/active_loop.rs and
--   src/sessions.rs that change it (`complete_turn`, `start_successor` as `claim_successor`,
--   `publish_internal`, `install_loop`, `begin_close`). Inputs/World puts them together: what the
--   Session is busy with, and one step for each event that reaches the queue. The locks make an
--   event one step, so a history is any list of events. `UserInput` of minicore_runtime is the
--   parameter `UserInputApi`. The other modules are the proofs, named for what they show.
-- - Patch: the lines of a file and the application of resolved hunks, of
--   src/tools/apply_patch/apply.rs. Patch/Moves and Patch/Replaces follow the steps,
--   Patch/Soundness states what a patch means, as the relation `Patched`.
-- - Unified: the parser of unified diffs, src/tools/apply_patch/unified.rs, which gives the
--   hunks that Patch applies. The parser's state is the list of the lines left. Unified/Text has
--   the methods of `str`, Unified/Paths the paths of the file header.
-- - Codex: the parser of Codex patches, src/tools/apply_patch/codex.rs, whose hunks are placed in
--   the source before Patch applies them. Codex/Search is the search for a hunk's lines with its
--   prefix table, Codex/Locate the search for an anchor and the choice of the place,
--   Codex/Resolve the ranges and marks, Codex/Apply `apply_single_file_patch`, which chooses the
--   parser. The counter of visits is passed along and returned.
-- - Preview: the reader of a tool call's arguments while they are written,
--   src/presentation/preview/parser.rs. Preview/Escapes has `Escape::decode` and the numbers,
--   Preview/Buffers the state and the texts with their capacities, Preview/Steps `feed` and what
--   it calls, Preview/Streams the calls of one stream with their counter. The reservation of
--   memory is the parameter `Reserve`. A panic is an error value, which `unwrap` of a `None` and
--   every unsigned subtraction that does not saturate (`sub_from`) give; Preview/Decodes shows that
--   `Escape::decode` gives none. `changes` has no upper bound.
-- - Budget: the escaped size of text in JSON, src/budget.rs, and `share` of
--   src/tools/truncate.rs; text is a list of characters.
-- - Truncate: `truncate_tail` of src/tools/truncate.rs, on bytes, its loop as `tail_loop` over the
--   lines from the last one on. Truncate/Lines has the lines of a text, Truncate/Ends
--   what the loop keeps of them.
-- - Boundary: the request boundary of src/sessions/boundary.rs; a panic is `none`.
-- - Policy: the decision on a tool call, src/policy.rs, with what minicore_runtime checks of a
--   decision as the parameter `DecisionApi`.
-- - Time: the civil calendar of src/store/time.rs, `civil_from_days` and `days_in_month`, and in
--   Time/Stamps the text of timestamps and the test of it.
-- - The Tests modules run the definitions and apply the theorems at concrete values.
--
-- Bounds and fuel: u64 and usize counters keep their checked additions (2 ^ 64). The loops of the
-- unified parser run on fuel: `contents_loop` and `hunks_loop` on one more than the lines left,
-- of which each turn takes one at least, and `decode_loop` on the bytes of the quoted path. Out
-- of fuel is `internal`, which no step of this parser returns otherwise; Unified/Terminates shows
-- that it does not occur. The loops of the Codex parser, `block_loop` and `codex_hunks_loop`, do the same,
-- shown in Codex/Terminates; `fall_back` runs on the number it lowers. All other loops are structural.
--
-- Not modelled: file and process calls, HTTP, JSON, tasks and their cancellation, the wire types,
-- the frames' JSON handlers, diffs, compaction thresholds and
-- paging.
pub mod Prelude
pub mod Boundary
pub mod Budget
pub mod Codex
pub mod Inputs
pub mod Patch
pub mod Policy
pub mod Preview
pub mod Sse
pub mod Time
pub mod Truncate
pub mod Unified
